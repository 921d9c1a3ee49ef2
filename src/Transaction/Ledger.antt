-- ===== src/Transaction/Ledger.antt =====
-- What the operations of a transaction (src/persistence.cpp) may change of a snapshot: the records
-- are a ledger, and the rules stand.
use mathlib.Core.List.{map-append}
use qiven_context_draft.Prelude.{
  ℤ, int_eq, ◌≡◌, refl, sym, ap, ap₂, ◌∙◌, Bool-cases, inl, inr, List, [], ◌∷◌, ◌++◌, map,
  append-nil, append_assoc, Text, ◌==◌, nat_eq, list_eq,
}
use qiven_context_draft.Cognition.Lifecycles.{TriggerKind}
use qiven_context_draft.Cognition.Records.{Provenance, Decision, Obligation, Conflict, Snapshot}
use qiven_context_draft.Transaction.Types.{OperationKind, Operation}
use qiven_context_draft.Transaction.KeptViews.{KeepsViews, apply_all-KeepsViews}
use qiven_context_draft.Transaction.Apply.{
  supersede_one, close_first, transition_one, resolve_one, apply_kind, apply, apply_all,
}

-- What no operation changes of a record once it is there.
abbrev pub decision_core : Decision → ℤ × Text × Text × Provenance
decision_core d = (d.id, d.title, d.content, d.provenance)

abbrev pub obligation_core : Obligation → ℤ × Text × TriggerKind × Text
obligation_core o = (o.id, o.statement, o.trigger, o.trigger_value)

abbrev pub conflict_core : Conflict → Text × Text × Text
conflict_core c = (c.id, c.scope, c.description)

-- `ys` is `xs` with records added behind, each record with the core that it had.
abbrev pub Grows : {A B : Type 0} → (A → B) → List A → List A → Type 0
Grows {A} {B} core xs ys = (added : List B) × (map core ys ≡ map core xs ++ added)

module _ {A B : Type 0} (core : A → B) where
  Grows-refl : (xs : List A) → Grows core xs xs
  Grows-refl xs = ([], sym (append-nil _))

  Grows-trans : (xs ys zs : List A) → Grows core xs ys → Grows core ys zs → Grows core xs zs
  Grows-trans xs ys zs (as₁, e) (as₂, f) =
      (as₁ ++ as₂, f ∙ (ap (λ l. l ++ as₂) e ∙ append_assoc (map core xs) as₁ as₂))

  Grows-append : (xs ys : List A) → Grows core xs (xs ++ ys)
  Grows-append xs ys = (map core ys, map-append core xs ys)

  map-core :
      (f : A → A)
      → ((x : A) → core (f x) ≡ core x)
      → (xs : List A) → map core (map f xs) ≡ map core xs
  map-core f h [] = refl
  map-core f h (x ∷ xs) = ap₂ ◌∷◌ (h x) (map-core f h xs)

  Grows-map :
      (f : A → A) → ((x : A) → core (f x) ≡ core x) → (xs : List A) → Grows core xs (map f xs)
  Grows-map f h xs = ([], map-core f h xs ∙ sym (append-nil _))

supersede_one-core :
    (id successor : ℤ) (d : Decision)
    → decision_core (supersede_one id successor d) ≡ decision_core d
unfolding supersede_one
supersede_one-core id successor d = elim (Bool-cases (d.id == id)) [
  | inl same ↦ elim (Bool-cases (d.id == successor)) [
    | inl both ↦ rw (same, both)
    | inr only ↦ rw (same, only)
  ]
  | inr other ↦ elim (Bool-cases (d.id == successor)) [
    | inl next ↦ rw (other, next)
    | inr neither ↦ rw (other, neither)
  ]
]

transition_one-core :
    (operation : Operation) (o : Obligation)
    → obligation_core (transition_one operation o) ≡ obligation_core o
unfolding transition_one
transition_one-core operation o = elim (Bool-cases (o.id == operation.record_id)) [
  | inl same ↦ rw same
  | inr other ↦ rw other
]

resolve_one-core :
    (operation : Operation) (c : Conflict)
    → conflict_core (resolve_one operation c) ≡ conflict_core c
unfolding resolve_one
resolve_one-core operation c = elim (Bool-cases (c.id == operation.title)) [
  | inl same ↦ rw same
  | inr other ↦ rw other
]

close_first-core :
    (id : ℤ) (os : List Obligation)
    → map obligation_core (close_first id os) ≡ map obligation_core os
unfolding close_first
close_first-core id [] = refl
close_first-core id (o ∷ os) = elim (Bool-cases (o.id == id)) [
  | inl same ↦ rw same
  | inr other ↦ rw other (ap (λ l. obligation_core o ∷ l) (close_first-core id os))
]

-- The rules are those of `s`, and the records of `s` other than its views are kept.
pub record Extends (s t : Snapshot) : Type 0 where
  pub governance : t.governance ≡ s.governance
  pub constitution : t.constitution ≡ s.constitution
  pub policy : t.policy ≡ s.policy
  pub invocation : t.invocation ≡ s.invocation
  pub roles : t.roles ≡ s.roles
  pub decisions : Grows decision_core s.decisions t.decisions
  pub memory : Grows (λ m. m) s.memory t.memory
  pub obligations : Grows obligation_core s.obligations t.obligations
  pub evidence : Grows (λ e. e) s.evidence t.evidence
  pub conflicts : Grows conflict_core s.conflicts t.conflicts
  pub profiles : Grows (λ p. p) s.profiles t.profiles

Extends-refl : (s : Snapshot) → Extends s s
Extends-refl s = record {
  governance = refl;
  constitution = refl;
  policy = refl;
  invocation = refl;
  roles = refl;
  decisions = Grows-refl _ _;
  memory = Grows-refl _ _;
  obligations = Grows-refl _ _;
  evidence = Grows-refl _ _;
  conflicts = Grows-refl _ _;
  profiles = Grows-refl _ _;
}

Extends-trans : (s t u : Snapshot) → Extends s t → Extends t u → Extends s u
Extends-trans s t u h k = record {
  governance = k.governance ∙ h.governance;
  constitution = k.constitution ∙ h.constitution;
  policy = k.policy ∙ h.policy;
  invocation = k.invocation ∙ h.invocation;
  roles = k.roles ∙ h.roles;
  decisions = Grows-trans _ _ _ _ h.decisions k.decisions;
  memory = Grows-trans _ _ _ _ h.memory k.memory;
  obligations = Grows-trans _ _ _ _ h.obligations k.obligations;
  evidence = Grows-trans _ _ _ _ h.evidence k.evidence;
  conflicts = Grows-trans _ _ _ _ h.conflicts k.conflicts;
  profiles = Grows-trans _ _ _ _ h.profiles k.profiles;
}

module _ (s t : Snapshot) where
  -- The rules that no operation touches.
  abbrev SameRules : Type 0
  SameRules =
      (t.governance ≡ s.governance)
      × (t.constitution ≡ s.constitution)
      × (t.policy ≡ s.policy)
      × (t.invocation ≡ s.invocation)
      × (t.roles ≡ s.roles)

  extends :
      SameRules
      → Grows decision_core s.decisions t.decisions
      → Grows (λ m. m) s.memory t.memory
      → Grows obligation_core s.obligations t.obligations
      → Grows (λ e. e) s.evidence t.evidence
      → Grows conflict_core s.conflicts t.conflicts
      → Grows (λ p. p) s.profiles t.profiles
      → Extends s t
  extends (g, c, p, i, r) ds ms os es cs ps = record {
    governance = g;
    constitution = c;
    policy = p;
    invocation = i;
    roles = r;
    decisions = ds;
    memory = ms;
    obligations = os;
    evidence = es;
    conflicts = cs;
    profiles = ps;
  }

apply_kind-Extends :
    (ref : Text) (operation : Operation) (s : Snapshot) (kind : OperationKind)
    → Extends s (apply_kind ref operation s kind)
unfolding apply_kind
apply_kind-Extends ref operation s OperationKind.append_decision =
    extends s _ (refl, refl, refl, refl, refl) (Grows-append _ _ _) (Grows-refl _ _)
      (Grows-refl _ _) (Grows-refl _ _) (Grows-refl _ _) (Grows-refl _ _)
apply_kind-Extends ref operation s OperationKind.supersede_decision =
    extends s _ (refl, refl, refl, refl, refl) (Grows-map _ _ (supersede_one-core _ _) _)
      (Grows-refl _ _) (Grows-refl _ _) (Grows-refl _ _) (Grows-refl _ _) (Grows-refl _ _)
apply_kind-Extends ref operation s OperationKind.add_memory =
    extends s _ (refl, refl, refl, refl, refl) (Grows-refl _ _) (Grows-append _ _ _)
      (Grows-refl _ _) (Grows-refl _ _) (Grows-refl _ _) (Grows-refl _ _)
apply_kind-Extends ref operation s OperationKind.upsert_obligation =
    extends s _ (refl, refl, refl, refl, refl) (Grows-refl _ _) (Grows-refl _ _)
      (Grows-append _ _ _) (Grows-refl _ _) (Grows-refl _ _) (Grows-refl _ _)
apply_kind-Extends ref operation s OperationKind.close_obligation =
    extends s _ (refl, refl, refl, refl, refl) (Grows-refl _ _) (Grows-refl _ _)
      ([], close_first-core _ _ ∙ sym (append-nil _)) (Grows-refl _ _) (Grows-refl _ _)
      (Grows-refl _ _)
apply_kind-Extends ref operation s OperationKind.transition_obligation =
    extends s _ (refl, refl, refl, refl, refl) (Grows-refl _ _) (Grows-refl _ _)
      (Grows-map _ _ (transition_one-core operation) _) (Grows-refl _ _) (Grows-refl _ _)
      (Grows-refl _ _)
apply_kind-Extends ref operation s OperationKind.update_state =
    extends s _ (refl, refl, refl, refl, refl) (Grows-refl _ _) (Grows-refl _ _) (Grows-refl _ _)
      (Grows-refl _ _) (Grows-refl _ _) (Grows-refl _ _)
apply_kind-Extends ref operation s OperationKind.add_evidence =
    extends s _ (refl, refl, refl, refl, refl) (Grows-refl _ _) (Grows-refl _ _) (Grows-refl _ _)
      (Grows-append _ _ _) (Grows-refl _ _) (Grows-refl _ _)
apply_kind-Extends ref operation s OperationKind.upsert_profile =
    extends s _ (refl, refl, refl, refl, refl) (Grows-refl _ _) (Grows-refl _ _) (Grows-refl _ _)
      (Grows-refl _ _) (Grows-refl _ _) (Grows-append _ _ _)
apply_kind-Extends ref operation s OperationKind.open_conflict =
    extends s _ (refl, refl, refl, refl, refl) (Grows-refl _ _) (Grows-refl _ _) (Grows-refl _ _)
      (Grows-refl _ _) (Grows-append _ _ _) (Grows-refl _ _)
apply_kind-Extends ref operation s OperationKind.resolve_conflict =
    extends s _ (refl, refl, refl, refl, refl) (Grows-refl _ _) (Grows-refl _ _) (Grows-refl _ _)
      (Grows-refl _ _) (Grows-map _ _ (resolve_one-core operation) _) (Grows-refl _ _)
apply_kind-Extends ref operation s OperationKind.amend_view_spec =
    extends s _ (refl, refl, refl, refl, refl) (Grows-refl _ _) (Grows-refl _ _) (Grows-refl _ _)
      (Grows-refl _ _) (Grows-refl _ _) (Grows-refl _ _)
apply_kind-Extends ref operation s OperationKind.set_next_boundary =
    extends s _ (refl, refl, refl, refl, refl) (Grows-refl _ _) (Grows-refl _ _) (Grows-refl _ _)
      (Grows-refl _ _) (Grows-refl _ _) (Grows-refl _ _)

extended :
    (ref : Text) (operations : List Operation) (s : Snapshot)
    → Extends s (apply_all ref operations s)
unfolding apply_all apply
extended ref [] s = Extends-refl s
extended ref (operation ∷ rest) s =
    Extends-trans s (apply ref operation s) (apply_all ref rest (apply ref operation s))
      (apply_kind-Extends ref operation s operation.kind)
      (extended ref rest (apply ref operation s))

-- Whatever its operations, a transaction leaves the governance, the constitution, the policy, the
-- invocation rules and the roles as they are, keeps every memory record, piece of evidence and
-- profile in its place, keeps the id, the text and the provenance of every decision, and the
-- core of every obligation and conflict, and only adds such records behind those that are there. Of
-- the views, which an amendment may add and remove, it keeps those with an id that no amendment has
-- for its title.
pub apply_all-Extends :
    (ref : Text) (operations : List Operation) (s : Snapshot)
    → Extends s (apply_all ref operations s)
      × KeepsViews operations s.views (apply_all ref operations s).views
apply_all-Extends ref operations s =
    (extended ref operations s, apply_all-KeepsViews ref operations s)
