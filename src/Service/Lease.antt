-- ===== src/Service/Lease.antt =====
-- The single-writer lease of src/persistence.cpp.
use qiven_context_draft.Prelude.{
  ℕ, ◌+◌, ◌%◌, ◌^◌, ◌<◌, ◌≡◌, ◌≢◌, inl, inr, refl, sym, ap, ◌∙◌, true, false, Bool-cases, Option,
  none, some, ◌==◌, nat_eq, list_eq, arith, is_empty, beq_of_ne, beq_refl, text,
  to_decimal-injective, append-cancel,
}
use qiven_context_draft.Foundation.{Foundation}
use qiven_context_draft.Cognition.Policy.{RefusalReason}
use qiven_context_draft.Cognition.Records.{grant_eq}
use qiven_context_draft.Store.Contract.{CognitionStore}
use qiven_context_draft.Transaction.Types.{ContextTransaction, AuthenticatedActor, WorkMode}
use qiven_context_draft.Transaction.Check.{refused}
use qiven_context_draft.Service.State.{
  QuarantineState, quarantine_state_eq, Handle, CognitionHandle, refuse, Service, ExecutionGrant,
  no_grant, find_entry, or_root_verifier, accepts, canonical_head,
}
use qiven_context_draft.Service.Lifetime.{acquire_grant, release_grant, grant_of, next_generation}
use qiven_context_draft.Service.Write.{
  check_entry, on_pass, replayed, write_entry, write_governed, write_to_cognition,
}
use qiven_context_draft.Service.Inversion.{write-fresh, some-cancel}

is_empty-grant : (n : ℕ) → is_empty (grant_of n).value ≡ false
unfolding text
is_empty-grant n = refl

grant_of-injective : (n m : ℕ) → n < 2 ^ 64 → m < 2 ^ 64 → grant_of n ≡ grant_of m → n ≡ m
grant_of-injective n m h k e =
    to_decimal-injective n m (omega arith) (omega arith)
      (append-cancel (text "grant-") (text "grant-") (ap (λ g. g.value) e) refl).1

next_differs : (n : ℕ) → n < 2 ^ 64 → (n + 1) % 2 ^ 64 ≢ n
next_differs n h e = omega arith

module _ ⦃F : Foundation⦄ {S : CognitionStore} where
  -- An acquisition that gives a grant.
  pub record Acquired (actor : AuthenticatedActor) (mode : WorkMode) (s : Service S)
      (g : ExecutionGrant) (s' : Service S) : Type 0 where
    pub idle : is_empty s.active_grant.value ≡ true
    pub accepted : accepts (or_root_verifier s.identity) actor (canonical_head s) ≡ true
    pub given : g.id ≡ grant_of (next_generation s)
    pub leased : s'.active_grant ≡ grant_of (next_generation s)
    pub counted : s'.grant_generation ≡ next_generation s
    pub holder : s'.grant_actor ≡ actor

  pub acquired :
      (actor : AuthenticatedActor) (mode : WorkMode) (s s' : Service S) (g : ExecutionGrant)
      → acquire_grant actor mode s ≡ (some g, s')
      → Acquired actor mode s g s'
  unfolding acquire_grant
  acquired actor mode s s' g e = elim (Bool-cases (is_empty s.active_grant.value)) [
    | inr held ↦ let none_given = rw held at e in absurd (cc none_given)
    | inl idle ↦
        elim (Bool-cases (accepts (or_root_verifier s.identity) actor (canonical_head s))) [
          | inr rejected ↦ let none_given = rw (idle, rejected) at e in absurd (cc none_given)
          | inl accepted ↦
              let given = rw (idle, accepted) at e in
              record {
                idle = idle;
                accepted = accepted;
                given = sym (ap (λ h. h.id) (some-cancel (ap (λ p. p.0) given)));
                leased = sym (ap (λ p. p.1.active_grant) given);
                counted = sym (ap (λ p. p.1.grant_generation) given);
                holder = sym (ap (λ p. p.1.grant_actor) given);
              }
        ]
  ]

  -- An acquisition that gives none leaves all but the identity port.
  pub not_acquired :
      (actor : AuthenticatedActor) (mode : WorkMode) (s s' : Service S)
      → acquire_grant actor mode s ≡ (none, s')
      → s'.active_grant ≡ s.active_grant
  unfolding acquire_grant
  not_acquired actor mode s s' e = elim (Bool-cases (is_empty s.active_grant.value)) [
    | inr held ↦ let given = rw held at e in sym (ap (λ p. p.1.active_grant) given)
    | inl idle ↦
        elim (Bool-cases (accepts (or_root_verifier s.identity) actor (canonical_head s))) [
          | inr rejected ↦
              let given = rw (idle, rejected) at e in sym (ap (λ p. p.1.active_grant) given)
          | inl accepted ↦ let given = rw (idle, accepted) at e in absurd (cc given)
        ]
  ]

  -- Neither the live handles nor the receipts change.
  pub acquire_grant_keeps :
      (actor : AuthenticatedActor) (mode : WorkMode) (s : Service S)
      → let s' = (acquire_grant actor mode s).1 in (s'.live ≡ s.live) × (s'.receipts ≡ s.receipts)
  unfolding acquire_grant
  acquire_grant_keeps actor mode s = elim (Bool-cases (is_empty s.active_grant.value)) [
    | inr held ↦ rw held (refl, refl)
    | inl idle ↦
        elim (Bool-cases (accepts (or_root_verifier s.identity) actor (canonical_head s))) [
          | inr rejected ↦ rw (idle, rejected) (refl, refl)
          | inl accepted ↦ rw (idle, accepted) (refl, refl)
        ]
  ]

  pub refuses_held :
      (actor : AuthenticatedActor) (mode : WorkMode) (s : Service S)
      → is_empty s.active_grant.value ≡ false
      → acquire_grant actor mode s ≡ (none, s)
  unfolding acquire_grant
  refuses_held actor mode s held = rw held

  -- A single writer: after a grant was given, no other is given to anyone, and the attempt changes
  -- nothing.
  pub acquire_grant-exclusive :
      (actor other : AuthenticatedActor) (mode mode' : WorkMode) (s s' : Service S)
      (g : ExecutionGrant)
      → acquire_grant actor mode s ≡ (some g, s')
      → acquire_grant other mode' s' ≡ (none, s')
  acquire_grant-exclusive actor other mode mode' s s' g e = refuses_held other mode' s' (
      ap (λ a. is_empty a.value) (acquired actor mode s s' g e).leased
      ∙ is_empty-grant (next_generation s))

  pub release_own :
      (g : ExecutionGrant) (s : Service S)
      → s.active_grant ≡ g.id
      → (release_grant g s).active_grant ≡ no_grant
        × ((release_grant g s).grant_generation ≡ s.grant_generation)
  unfolding release_grant
  release_own g s e = rw (e, beq_refl g.id) (refl, refl)

  refused_entry :
      (entry : Handle) (grant : ExecutionGrant) (s : Service S)
      → s.active_grant ≢ grant.id
      → (reason : RefusalReason) × (check_entry entry grant s ≡ refused reason)
  unfolding check_entry
  refused_entry entry grant s n =
      elim (Bool-cases (entry.body.quarantine == QuarantineState.promoted)) [
        | inr apart ↦ (RefusalReason.governance_denied, rw apart)
        | inl promoted ↦ elim (Bool-cases (is_empty s.active_grant.value)) [
          | inl idle ↦ (RefusalReason.grant_refused, rw (promoted, idle))
          | inr held ↦ (
            RefusalReason.grant_refused,
            rw (promoted, held, beq_of_ne s.active_grant grant.id n),
          )
        ]
      ]

  refused_at_entry :
      (o : Option Handle) (transaction : ContextTransaction) (grant : ExecutionGrant)
      (s : Service S)
      → s.active_grant ≢ grant.id
      → (reason : RefusalReason) × (write_entry o transaction grant s ≡ some (refuse reason, s))
  unfolding write_entry
  refused_at_entry none transaction grant s n = (RefusalReason.stale_base, refl)
  refused_at_entry (some entry) transaction grant s n =
      let (reason, e) = refused_entry entry grant s n in
      (
        reason,
        ap (λ c. on_pass c s (write_governed entry transaction grant s (canonical_head s))) e,
      )

  -- Without the current lease a first write is refused, whatever it holds, and changes nothing.
  pub write_to_cognition-foreign :
      (handle : CognitionHandle) (transaction : ContextTransaction) (grant : ExecutionGrant)
      (s : Service S)
      → replayed transaction s ≡ none
      → s.active_grant ≢ grant.id
      → (reason : RefusalReason) × (write_to_cognition handle transaction grant s
          ≡ some (refuse reason, s))
  write_to_cognition-foreign handle transaction grant s first n =
      let (reason, e) = refused_at_entry (find_entry s.live handle) transaction grant s n in
      (reason, write-fresh handle transaction grant s s (refuse reason) first ∙ e)

  -- Once a lease was released and the next one given, the old grant does not write any more: a
  -- first write with it is refused and changes nothing.
  pub stale_grant-refused :
      (actor other : AuthenticatedActor) (mode mode' : WorkMode) (s s₁ s₂ : Service S)
      (g g' : ExecutionGrant) (handle : CognitionHandle) (transaction : ContextTransaction)
      → acquire_grant actor mode s ≡ (some g, s₁)
      → acquire_grant other mode' (release_grant g s₁) ≡ (some g', s₂)
      → replayed transaction s₂ ≡ none
      → (reason : RefusalReason) × (write_to_cognition handle transaction g s₂
          ≡ some (refuse reason, s₂))
  stale_grant-refused actor other mode mode' s s₁ s₂ g g' handle transaction e e' first =
      let a = acquired actor mode s s₁ g e in
      let b = acquired other mode' (release_grant g s₁) s₂ g' e' in
      let (_, counted) = release_own g s₁ (a.leased ∙ sym a.given) in
      let n = next_generation s in
      let later : next_generation (release_grant g s₁) ≡ (n + 1) % 2 ^ 64 =
        ap (λ k. (k + 1) % 2 ^ 64) (counted ∙ a.counted) in
      write_to_cognition-foreign handle transaction g s₂ first λ same.
        next_differs n (omega arith) (
          sym later
          ∙ grant_of-injective _ n (omega arith) (omega arith) (sym b.leased ∙ (same ∙ a.given)))
