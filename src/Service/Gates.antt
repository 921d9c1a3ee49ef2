-- ===== src/Service/Gates.antt =====
-- What an applied write of src/persistence.cpp has gone through.
use qiven_context_draft.Prelude.{
  ◌≡◌, ◌≢◌, ◌⊎◌, inl, inr, refl, ap, Bool, true, false, not, Bool-cases, List, [], ◌∷◌, none, some,
  is_empty, All, is_empty→nil, nat_eq, list_eq,
}
use qiven_context_draft.Foundation.{Foundation}
use qiven_context_draft.Cognition.Lifecycles.{obligation_status_eq}
use qiven_context_draft.Cognition.Records.{Conflict, Snapshot}
use qiven_context_draft.Store.Contract.{CognitionStore}
use qiven_context_draft.Transaction.Types.{Operation, ContextTransaction, WorkMode}
use qiven_context_draft.Transaction.Check.{passed, each-passed, then_check-passed, refuse_if-passed}
use qiven_context_draft.Transaction.Handoff.{
  check_policy, check_conflicts, touches_conflicts, is_blocked,
}
use qiven_context_draft.Transaction.Invariants.{check_invariants}
use qiven_context_draft.Transaction.Apply.{apply_all, check_boundary, names_open}
use qiven_context_draft.Service.State.{
  QuarantineState, Handle, CognitionHandle, Verdict, VerdictOutcome, Service, ExecutionGrant,
  find_entry, canonical_head,
}
use qiven_context_draft.Service.Write.{check_operations, rejects, replayed, write_to_cognition}
use qiven_context_draft.Service.Inversion.{
  Admitted, Course, replay, turn, refusal, admission, course, successor_state,
}
use qiven_context_draft.Service.Permits.{
  entry_permit, request_permit, policy_each_permit, policy_each-IsRegistered, IsRegistered,
  NeedsReview, Reviewed,
}

-- A boundary reference that is not empty names an open obligation.
abbrev pub IsCoherent : Snapshot → Type 0
IsCoherent state =
    (state.state.next_boundary_ref ≡ [])
    ⊎ (names_open state.obligations state.state.next_boundary_ref ≡ true)

true_of_not : (b : Bool) → not b ≡ false → b ≡ true
true_of_not true e = refl
true_of_not false e = absurd (cc)

check_boundary-passed : (next : Snapshot) → check_boundary next ≡ passed → IsCoherent next
unfolding check_boundary
check_boundary-passed next e = elim (Bool-cases (is_empty next.state.next_boundary_ref)) [
  | inl nothing ↦ inl (is_empty→nil _ nothing)
  | inr there ↦ inr (true_of_not _ (refuse_if-passed _ _ (rw there at e)))
]

-- An operation on conflicts themselves, or one whose scope no open conflict covers.
abbrev pub IsUnblocked : List Conflict → Operation → Type 0
IsUnblocked conflicts o = (touches_conflicts o.kind ≡ true) ⊎ (is_blocked conflicts o.scope ≡ false)

check_conflicts-passed :
    (conflicts : List Conflict) (o : Operation)
    → check_conflicts conflicts o ≡ passed
    → IsUnblocked conflicts o
unfolding check_conflicts
check_conflicts-passed conflicts o e = elim (Bool-cases (touches_conflicts o.kind)) [
  | inl on_conflicts ↦ inl on_conflicts
  | inr other ↦ inr (refuse_if-passed _ _ (rw other at e))
]

conflicts_permit :
    (conflicts : List Conflict) (operations : List Operation)
    → All (λ o. check_conflicts conflicts o ≡ passed) operations
    → All (IsUnblocked conflicts) operations
conflicts_permit conflicts [] h = tt
conflicts_permit conflicts (o ∷ os) h =
    (check_conflicts-passed conflicts o h.0, conflicts_permit conflicts os h.1)

module _ ⦃F : Foundation⦄ {S : CognitionStore} where
  -- Gates 6 to 9, as the loops over the operations leave them.
  pub operations_permit :
      (entry : Handle) (transaction : ContextTransaction) (s : Service S) (governance : Snapshot)
      → check_operations entry transaction s governance ≡ passed
      → All
          (λ o.
            check_policy s.grant_actor.binding governance.governance.root_principal transaction
              entry.body.state.policy.handoff o
            ≡ passed)
          transaction.operations
        × All (IsUnblocked entry.body.state.conflicts) transaction.operations
        × All (λ o. check_invariants entry.body.state o ≡ passed) transaction.operations
        × IsCoherent
            (apply_all transaction.handoff_evidence_ref transaction.operations entry.body.state)
  unfolding check_operations
  operations_permit entry transaction s governance e =
      let (p, rest) = then_check-passed _ _ e in
      let (q, rest') = then_check-passed _ _ rest in
      let (r, t) = then_check-passed _ _ rest' in
      (
        each-passed _ _ p,
        conflicts_permit _ _ (each-passed _ _ q),
        each-passed _ _ r,
        check_boundary-passed _ t,
      )

  -- What a write that changes the cognition has been checked for.
  pub record Gated (handle : CognitionHandle) (transaction : ContextTransaction)
      (grant : ExecutionGrant) (s : Service S) : Type 0 where
    pub entry : Handle
    pub governance : Snapshot
    pub is_live : find_entry s.live handle ≡ some entry
    pub promoted : entry.body.quarantine ≡ QuarantineState.promoted
    pub leased : s.active_grant.value ≢ []
    pub holder : s.active_grant ≡ grant.id
    pub governed : canonical_head s ≡ some governance
    pub accepted : rejects s.identity s.grant_actor governance ≡ false
    pub attended : grant.mode ≢ WorkMode.unattended
    pub based : transaction.base ≡ entry.body.revision
    pub registered : All (IsRegistered entry.body.state.policy.handoff) transaction.operations
    pub reviewed :
        All
          (λ o.
            NeedsReview entry.body.state.policy.handoff o
            → Reviewed s.grant_actor.binding governance.governance.root_principal transaction)
          transaction.operations
    pub unblocked : All (IsUnblocked entry.body.state.conflicts) transaction.operations
    pub checked : All (λ o. check_invariants entry.body.state o ≡ passed) transaction.operations
    pub coherent : IsCoherent (successor_state entry transaction)

  gated :
      (handle : CognitionHandle) (transaction : ContextTransaction) (grant : ExecutionGrant)
      (s s' : Service S) (v : Verdict)
      → transaction.operations ≢ []
      → Admitted handle transaction grant s v s'
      → Gated handle transaction grant s
  gated handle transaction grant s s' v nonempty a =
      let (promoted, leased, holder) = entry_permit a.entry grant s a.entry_passed in
      let (accepted, attended, based) =
        request_permit a.entry transaction grant s a.governance a.request_passed in
      let (policies, unblocked, checked, coherent) =
        operations_permit a.entry transaction s a.governance a.operations_passed in
      record {
        entry = a.entry;
        governance = a.governance;
        is_live = a.is_live;
        promoted = promoted;
        leased = leased;
        holder = holder;
        governed = a.governed;
        accepted = accepted;
        attended = attended nonempty;
        based = based;
        registered = policy_each-IsRegistered _ _ transaction _ transaction.operations policies;
        reviewed = policy_each_permit _ _ transaction _ transaction.operations policies;
        unblocked = unblocked;
        checked = checked;
        coherent = coherent;
      }

  -- A first write with operations that is not refused went through every gate: a live promoted
  -- entry at the transaction's base, the lease held by this grant, an accepted actor, no
  -- unattended mode, operations whose classes the handoff table registers, an independent review
  -- by the root principal where the handoff table asks for one, no operation but on conflicts
  -- themselves in the scope of an open conflict, operations that all keep the record invariants of
  -- the entry's state, and a successor whose boundary reference is empty or names an open
  -- obligation.
  pub write_to_cognition-Gated :
      (handle : CognitionHandle) (transaction : ContextTransaction) (grant : ExecutionGrant)
      (s s' : Service S) (v : Verdict)
      → write_to_cognition handle transaction grant s ≡ some (v, s')
      → replayed transaction s ≡ none
      → transaction.operations ≢ []
      → v.outcome ≢ VerdictOutcome.refused
      → Gated handle transaction grant s
  write_to_cognition-Gated handle transaction grant s s' v e first nonempty r =
      go (course handle transaction grant s s' v e)
    where
      go : Course handle transaction grant s v s' → Gated handle transaction grant s
      go (replay known kept) = absurd (cc)
      go (turn nothing applied kept) = absurd (nonempty nothing)
      go (refusal reason same kept) = absurd (r (ap (λ w. w.outcome) same))
      go (admission fresh some_operations a) = gated handle transaction grant s s' v nonempty a
