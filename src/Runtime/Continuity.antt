-- ===== src/Runtime/Continuity.antt =====
-- What `is_continueable` (src/persistence.cpp) says of the participants' graph.
use qiven_context_draft.Prelude.{
  ◌≡◌, ◌≢◌, ◌↔◌, inl, inr, refl, ap, ◌∙◌, Bool, true, false, not, ◌||◌, Bool-cases, List, [], ◌∷◌,
  Option, none, some, nat_eq, list_eq, is_empty, All, arith, beq_of_ne, if◌then◌else◌,
}
use qiven_context_draft.Cognition.Lifecycles.{ObligationStatus, obligation_status_eq}
use qiven_context_draft.Cognition.Records.{Obligation, RevisionId}
use qiven_context_draft.Store.Contract.{CognitionStore}
use qiven_context_draft.Service.State.{Handle, CognitionHandle, Service}
use qiven_context_draft.Runtime.Session.{Llm}
use qiven_context_draft.Runtime.Participants.{
  Shared, Device, LlmClientTool, Human, has_blocked, points_to, is_handle, is_stored, is_whole,
  is_continueable,
}

-- A pointer that is not null, to that object.
abbrev pub PointsTo : {A : Type 0} → Option (Shared A) → Shared A → Type 0
PointsTo {A} pointer target = (p : Shared A) × (pointer ≡ some p) × (p.address ≡ target.address)

module _ {S : CognitionStore} where
  pub record Continues (human : Human) (client : LlmClientTool) (device : Shared Device)
      (llm : Shared Llm) (handle : Handle) (s : Service S) : Type 0 where
    pub session : PointsTo client.current_llm llm
    pub target : PointsTo client.target_device device
    pub bound : (h : Handle) × (llm.body.cognition ≡ some h) × (h.address ≡ handle.address)
    pub disclosed : client.binding.model_id ≡ llm.body.name
    pub store : S.State
    pub attached : s.store ≡ some store
    pub addressed : handle.body.revision.value ≢ []
    pub restorable : S.verify store handle.body.revision ≡ true
    pub identified : human.verified_principal ≢ []
    pub governs : human.verified_principal ≡ handle.body.state.governance.root_principal
    pub operational : client.operational ≡ true
    pub reachable : device.body.reachable ≡ true
    pub unblocked : All (λ o. o.status ≢ ObligationStatus.blocked) handle.body.state.obligations

points_to-Points :
    {A : Type 0} (pointer : Option (Shared A)) (target : Shared A)
    → points_to pointer target ≡ true
    → PointsTo pointer target
points_to-Points none target h = cc
points_to-Points (some p) target h = (p, refl, (nat_eq.beq_iff p.address target.address).0 h)

is_handle-bound :
    (pointer : CognitionHandle) (handle : Handle)
    → is_handle pointer handle ≡ true
    → (h : Handle) × (pointer ≡ some h) × (h.address ≡ handle.address)
is_handle-bound none handle h = cc
is_handle-bound (some k) handle h = (k, refl, (nat_eq.beq_iff k.address handle.address).0 h)

has_blocked-none :
    (os : List Obligation)
    → has_blocked os ≡ false
    → All (λ o. o.status ≢ ObligationStatus.blocked) os
unfolding has_blocked
has_blocked-none [] h = tt
has_blocked-none (o ∷ os) h = (
  λ e. absurd (cc (h, (obligation_status_eq.beq_iff o.status ObligationStatus.blocked).1 e)),
  has_blocked-none os (ground (arith, h)),
)

nonempty : {A : Type 0} (xs : List A) → is_empty xs ≡ false → xs ≢ []
nonempty xs h e = absurd (cc (h, ap is_empty e))

points_to-Pointed :
    {A : Type 0} (pointer : Option (Shared A)) (target : Shared A)
    → PointsTo pointer target
    → points_to pointer target ≡ true
points_to-Pointed pointer target (p, at, same) =
    ap (λ o. points_to o target) at ∙ (nat_eq.beq_iff p.address target.address).1 same

none_blocked :
    (os : List Obligation)
    → All (λ o. o.status ≢ ObligationStatus.blocked) os
    → has_blocked os ≡ false
unfolding has_blocked
none_blocked [] h = refl
none_blocked (o ∷ os) h = rw (beq_of_ne o.status ObligationStatus.blocked h.0) (none_blocked os h.1)

-- An early return.
else_of_if :
    (test rest : Bool) → (if test then false else rest) ≡ true → (test ≡ false) × (rest ≡ true)
else_of_if true rest h = absurd (cc)
else_of_if false rest h = (refl, h)

if_of_else : (test rest : Bool) → test ≡ false → rest ≡ true → (if test then false else rest) ≡ true
if_of_else true rest t r = absurd (cc)
if_of_else false rest t r = r

true_of_not : (b : Bool) → not b ≡ false → b ≡ true
true_of_not true h = refl
true_of_not false h = absurd (cc)

false_of_not : (b : Bool) → not b ≡ true → b ≡ false
false_of_not true h = absurd (cc)
false_of_not false h = refl

or_false : (a b : Bool) → (a || b) ≡ false → (a ≡ false) × (b ≡ false)
or_false true b h = absurd (cc)
or_false false b h = (refl, h)

false_of_or : (a b : Bool) → a ≡ false → b ≡ false → (a || b) ≡ false
false_of_or true b h k = absurd (cc)
false_of_or false b h k = k

shut_of : (b : Bool) → b ≡ true → not b ≡ false
shut_of b h = ap not h

is_empty-false : {A : Type 0} (xs : List A) → xs ≢ [] → is_empty xs ≡ false
is_empty-false [] h = absurd (h refl)
is_empty-false (x ∷ xs) h = refl

is_stored-restorable :
    (S : CognitionStore) (o : Option S.State) (revision : RevisionId)
    → is_stored S o revision ≡ true
    → (store : S.State) × (o ≡ some store)
      × (revision.value ≢ [])
      × (S.verify store revision ≡ true)
is_stored-restorable S none revision h = absurd (cc)
is_stored-restorable S (some store) revision h = elim (Bool-cases (is_empty revision.value)) [
  | inl nothing ↦ absurd (cc (rw nothing at h))
  | inr addressed ↦ (store, refl, nonempty revision.value addressed, rw addressed at h)
]

module _ {S : CognitionStore} (human : Human) (client : LlmClientTool) (device : Shared Device)
    (llm : Shared Llm) (handle : Handle) (s : Service S) where
  is_whole-Continues :
      is_whole human client device llm handle s ≡ true → Continues human client device llm handle s
  unfolding is_whole
  is_whole-Continues h =
      let (edges, h₁) = else_of_if _ _ h in
      let (named, h₂) = else_of_if _ _ h₁ in
      let (stored, h₃) = else_of_if _ _ h₂ in
      let (principal, h₄) = else_of_if _ _ h₃ in
      let (alive, h₅) = else_of_if _ _ h₄ in
      let (session, edges') = or_false _ _ edges in
      let (target, bound) = or_false _ _ edges' in
      let (identified, governs) = or_false _ _ principal in
      let (operational, reachable) = or_false _ _ alive in
      let (store, attached, addressed, restorable) =
        is_stored-restorable S s.store handle.body.revision (true_of_not _ stored) in
      record {
        session = points_to-Points client.current_llm llm (true_of_not _ session);
        target = points_to-Points client.target_device device (true_of_not _ target);
        bound = is_handle-bound llm.body.cognition handle (true_of_not _ bound);
        disclosed = (list_eq.beq_iff client.binding.model_id llm.body.name).0 (true_of_not _ named);
        store = store;
        attached = attached;
        addressed = addressed;
        restorable = restorable;
        identified = nonempty human.verified_principal identified;
        governs =
            (list_eq.beq_iff human.verified_principal handle.body.state.governance.root_principal).0
              (true_of_not _ governs);
        operational = true_of_not _ operational;
        reachable = true_of_not _ reachable;
        unblocked = has_blocked-none handle.body.state.obligations (false_of_not _ h₅);
      }

  Continues-is_whole :
      Continues human client device llm handle s → is_whole human client device llm handle s ≡ true
  unfolding is_whole
  Continues-is_whole c =
      if_of_else _ _
        (false_of_or _ _ (shut_of _ (points_to-Pointed client.current_llm llm c.session)) (
          false_of_or _ _ (shut_of _ (points_to-Pointed client.target_device device c.target)) (
            shut_of (is_handle llm.body.cognition handle) (
              ap (λ o. is_handle o handle) c.bound.1
              ∙ (nat_eq.beq_iff c.bound.0.address handle.address).1 c.bound.2))))
        (if_of_else _ _
          (shut_of _ ((list_eq.beq_iff client.binding.model_id llm.body.name).1 c.disclosed))
          (if_of_else _ _
            (shut_of (is_stored S s.store handle.body.revision) (
              ap (λ o. is_stored S o handle.body.revision) c.attached
              ∙ rw (is_empty-false handle.body.revision.value c.addressed) c.restorable))
            (if_of_else _ _
              (false_of_or _ _ (is_empty-false human.verified_principal c.identified)
                (shut_of _ ((list_eq.beq_iff human.verified_principal _).1 c.governs)))
              (if_of_else _ _ (false_of_or _ _ (shut_of _ c.operational) (shut_of _ c.reachable))
                (ap not (none_blocked handle.body.state.obligations c.unblocked))))))

  -- Of participants that are there, the graph is continueable exactly where it is the graph that it
  -- claims to be: the client drives this session on this device, the session is bound to this
  -- handle, and the client's binding names its model; the handle's revision can be restored from an
  -- attached store; the human is its root principal; the client and the device are alive; and no
  -- obligation is blocked.
  pub is_continueable-Continues :
      (is_continueable (some human) (some client) (some device) (some llm) (some handle) s ≡ true)
      ↔ Continues human client device llm handle s
  unfolding is_continueable
  is_continueable-Continues = (is_whole-Continues, Continues-is_whole)
