-- ===== src/Service/Returns.antt =====
-- A write of src/persistence.cpp returns.
use qiven_context_draft.Prelude.{
  ◌≡◌, ◌≢◌, refl, sym, ◌∙◌, Bool-cases, Option-cases, inl, inr, List, [], ◌∷◌, Option, none, some,
  is_empty, nat_eq, list_eq, ◌==◌, Text,
}
use qiven_context_draft.Foundation.{Foundation}
use qiven_context_draft.Cognition.Policy.{RefusalReason, Handoff, handoff_eq}
use qiven_context_draft.Cognition.Records.{Snapshot, HandoffPolicy, Conflict, grant_eq, revision_eq}
use qiven_context_draft.Store.Contract.{CognitionStore}
use qiven_context_draft.Transaction.Types.{ContextTransaction, Operation, H2Evidence, work_mode_eq}
use qiven_context_draft.Transaction.Check.{Check, passed, refused, endless, each}
use qiven_context_draft.Transaction.Handoff.{
  op_class, find_row, check_h2, check_row, check_policy, check_conflicts, touches_conflicts,
}
use qiven_context_draft.Transaction.Apply.{check_boundary}
use qiven_context_draft.Transaction.Chains.{
  HasRank, then_check-decides, refuse_if-decides, decides, check_invariants-returns,
}
use qiven_context_draft.Service.State.{
  quarantine_state_eq, Handle, CognitionHandle, Verdict, refuse, Service, ExecutionGrant,
  find_entry, canonical_head,
}
use qiven_context_draft.Service.Write.{
  Written, on_pass, check_entry, check_request, check_operations, write_operations, write_governed,
  write_entry, replayed, write_to_cognition, commit_onto,
}
use qiven_context_draft.Service.Inversion.{write-fresh, write-replayed}

each-decides :
    {A : Type 0} (check : A → Check) (xs : List A)
    → ((x : A) → check x ≢ endless)
    → each check xs ≢ endless
unfolding each
each-decides check [] h e = cc
each-decides check (x ∷ xs) h e =
    then_check-decides (check x) (each check xs) (h x) (each-decides check xs h) e

check_conflicts-decides :
    (conflicts : List Conflict) (operation : Operation)
    → check_conflicts conflicts operation ≢ endless
unfolding check_conflicts
check_conflicts-decides conflicts operation = elim (Bool-cases (touches_conflicts operation.kind)) [
  | inl touches ↦ rw touches (λ e. cc)
  | inr other ↦ rw other (refuse_if-decides _ _)
]

check_boundary-decides : (next : Snapshot) → check_boundary next ≢ endless
unfolding check_boundary
check_boundary-decides next = elim (Bool-cases (is_empty next.state.next_boundary_ref)) [
  | inl nothing ↦ rw nothing (λ e. cc)
  | inr there ↦ rw there (refuse_if-decides _ _)
]

module _ ⦃F : Foundation⦄ (binding root_principal : Text) (transaction : ContextTransaction) where
  check_h2-decides :
      (o : Option H2Evidence) → check_h2 binding root_principal transaction o ≢ endless
  unfolding check_h2
  check_h2-decides none = λ e. cc
  check_h2-decides (some h2) = search decides depth 9

  check_row-decides :
      (o : Option HandoffPolicy) → check_row binding root_principal transaction o ≢ endless
  unfolding check_row
  check_row-decides none e = cc
  check_row-decides (some row) e = elim (Bool-cases (row.required == Handoff.h2_review)) [
    | inl review ↦ check_h2-decides transaction.h2 (sym (rw review) ∙ e)
    | inr free ↦ absurd (let went = rw free at e in cc went)
  ]

  check_policy-decides :
      (rows : List HandoffPolicy) (operation : Operation)
      → check_policy binding root_principal transaction rows operation ≢ endless
  unfolding check_policy
  check_policy-decides rows operation = check_row-decides (find_row rows (op_class operation.kind))

module _ ⦃F : Foundation⦄ {S : CognitionStore} where
  on_pass-returns :
      (c : Check) (s : Service S) (next : Written S)
      → c ≢ endless
      → next ≢ none
      → on_pass c s next ≢ none
  on_pass-returns passed s next h k e = k e
  on_pass-returns (refused reason) s next h k e = cc
  on_pass-returns endless s next h k e = h refl

  governed_has_store :
      (s : Service S) (governance : Snapshot) → canonical_head s ≡ some governance → s.store ≢ none
  unfolding canonical_head
  governed_has_store s governance g e = let nothing = rw e at g in cc nothing

  check_operations-decides :
      (entry : Handle) (transaction : ContextTransaction) (s : Service S) (governance : Snapshot)
      → HasRank entry.body.state.decisions
      → check_operations entry transaction s governance ≢ endless
  unfolding check_operations
  check_operations-decides entry transaction s governance ranked =
      search
        (
          decides,
          check_boundary-decides,
          each-decides _ transaction.operations (
              check_policy-decides s.grant_actor.binding governance.governance.root_principal
                transaction entry.body.state.policy.handoff),
          each-decides _ transaction.operations
              (check_conflicts-decides entry.body.state.conflicts),
          each-decides _ transaction.operations
              (λ o. check_invariants-returns entry.body.state o ranked),
        )
        depth 9

  commit_onto-returns :
      (o : Option S.State) (entry : Handle) (transaction : ContextTransaction) (next : Snapshot)
      (s : Service S)
      → o ≢ none
      → commit_onto o entry transaction next s ≢ none
  commit_onto-returns none entry transaction next s h e = h refl
  commit_onto-returns (some store) entry transaction next s h e = cc

  module _ (transaction : ContextTransaction) (grant : ExecutionGrant) (s : Service S) where
    write_operations-returns :
        (entry : Handle) (governance : Snapshot)
        → HasRank entry.body.state.decisions
        → s.store ≢ none
        → write_operations entry transaction s governance ≢ none
    unfolding write_operations
    write_operations-returns entry governance ranked stored =
        elim (Bool-cases (is_empty transaction.operations)) [
          | inl nothing ↦ rw nothing (λ e. cc)
          | inr more ↦ rw more (
              on_pass-returns (check_operations entry transaction s governance) s _
                (check_operations-decides entry transaction s governance ranked)
                (commit_onto-returns s.store entry transaction _ s stored))
        ]

    check_request-decides :
        (entry : Handle) (governance : Snapshot)
        → check_request entry transaction grant s governance ≢ endless
    unfolding check_request
    check_request-decides entry governance = search decides depth 9

    check_entry-decides : (entry : Handle) → check_entry entry grant s ≢ endless
    unfolding check_entry
    check_entry-decides entry = search decides depth 9

    write_governed-returns :
        (entry : Handle) (o : Option Snapshot)
        → canonical_head s ≡ o
        → HasRank entry.body.state.decisions
        → write_governed entry transaction grant s o ≢ none
    unfolding write_governed
    write_governed-returns entry none g ranked e = cc
    write_governed-returns entry (some governance) g ranked e =
        on_pass-returns (check_request entry transaction grant s governance) s _
          (check_request-decides entry governance)
          (write_operations-returns entry governance ranked (governed_has_store s governance g)) e

    write_entry-returns :
        (o : Option Handle)
        → ((entry : Handle) → o ≡ some entry → HasRank entry.body.state.decisions)
        → write_entry o transaction grant s ≢ none
    unfolding write_entry
    write_entry-returns none h e = cc
    write_entry-returns (some entry) h e =
        on_pass-returns (check_entry entry grant s) s _ (check_entry-decides entry)
          (write_governed-returns entry (canonical_head s) refl (h entry refl)) e

    -- A write returns: where the supersession chains of the live entry that it names are ranked (or it
    -- names none), every transaction, under any grant and over any store, gets a verdict.
    pub write_to_cognition-returns :
        (handle : CognitionHandle)
        → ((entry : Handle)
            → find_entry s.live handle ≡ some entry
            → HasRank entry.body.state.decisions)
        → (v : Verdict) × (s' : Service S) × (write_to_cognition handle transaction grant s
            ≡ some (v, s'))
    write_to_cognition-returns handle ranked = elim (Option-cases (replayed transaction s)) [
      | inr (w, known) ↦ (w, s, write-replayed handle transaction grant s s w w known)
      | inl first ↦ elim (Option-cases (write_to_cognition handle transaction grant s)) [
        | inr ((v, s'), e) ↦ (v, s', e)
        | inl never ↦ absurd (
            write_entry-returns (find_entry s.live handle) ranked (
              sym (write-fresh handle transaction grant s s (refuse RefusalReason.stale_base) first)
              ∙ never))
      ]
    ]
