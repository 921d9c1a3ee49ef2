-- ===== src/Transaction/Successions.antt =====
-- Transactions of src/persistence.cpp with at most one supersession: gate 8 checks every operation
-- against the snapshot before the transaction, which is then still true of the decisions named.
use qiven_context_draft.Prelude.{
  ℕ, ◌+◌, ◌≤◌, ℤ, ◌≡◌, ◌⊎◌, inl, inr, refl, sym, ap, ◌∙◌, List, [], ◌∷◌, some, arith, All, Text,
}
use qiven_context_draft.Cognition.Policy.{RefusalReason}
use qiven_context_draft.Cognition.Records.{Decision, Snapshot}
use qiven_context_draft.Transaction.Types.{OperationKind, Operation}
use qiven_context_draft.Transaction.Find.{find_decision}
use qiven_context_draft.Transaction.Check.{passed, then_check-passed, refuse_if-passed}
use qiven_context_draft.Transaction.Invariants.{
  bad_pair, invariant_failed_if, check_supersede_decision, check_kind, check_invariants,
}
use qiven_context_draft.Transaction.Apply.{apply_kind, apply, apply_all}
use qiven_context_draft.Transaction.Supersession.{find_decision-append}
use qiven_context_draft.Transaction.Orderly.{
  IsOrderly, IsOrderly-append, AreCurrent, bad_pair-AreCurrent, IsOrderly-superseded,
}

abbrev pub supersession : OperationKind → ℕ
supersession OperationKind.supersede_decision = 1
supersession _ = 0

supersession-cases :
    (kind : OperationKind) → (supersession kind ≡ 0) ⊎ (kind ≡ OperationKind.supersede_decision)
supersession-cases OperationKind.supersede_decision = inr refl
supersession-cases OperationKind.append_decision = inl refl
supersession-cases OperationKind.add_memory = inl refl
supersession-cases OperationKind.upsert_obligation = inl refl
supersession-cases OperationKind.close_obligation = inl refl
supersession-cases OperationKind.transition_obligation = inl refl
supersession-cases OperationKind.update_state = inl refl
supersession-cases OperationKind.add_evidence = inl refl
supersession-cases OperationKind.upsert_profile = inl refl
supersession-cases OperationKind.open_conflict = inl refl
supersession-cases OperationKind.resolve_conflict = inl refl
supersession-cases OperationKind.amend_view_spec = inl refl
supersession-cases OperationKind.set_next_boundary = inl refl

-- How many operations supersede a decision.
unfoldable pub supersessions : List Operation → ℕ
supersessions [] = 0
supersessions (operation ∷ rest) = supersession operation.kind + supersessions rest

-- What a search finds in the decisions before, it finds in those after.
abbrev Keeps : List Decision → List Decision → Type 0
Keeps before after =
    (id : ℤ) (d : Decision) → find_decision before id ≡ some d → find_decision after id ≡ some d

module _ (handoff_ref : Text) (operation : Operation) (next : Snapshot) where
  -- An operation that supersedes nothing leaves the decisions, or adds an accepted one behind them.
  free-IsOrderly :
      (kind : OperationKind)
      → supersession kind ≡ 0
      → IsOrderly next.decisions
      → IsOrderly (apply_kind handoff_ref operation next kind).decisions
  unfolding apply_kind
  free-IsOrderly OperationKind.append_decision e o = IsOrderly-append next.decisions _ refl o
  free-IsOrderly OperationKind.supersede_decision e o = absurd (omega (arith, e))
  free-IsOrderly OperationKind.add_memory e o = o
  free-IsOrderly OperationKind.upsert_obligation e o = o
  free-IsOrderly OperationKind.close_obligation e o = o
  free-IsOrderly OperationKind.transition_obligation e o = o
  free-IsOrderly OperationKind.update_state e o = o
  free-IsOrderly OperationKind.add_evidence e o = o
  free-IsOrderly OperationKind.upsert_profile e o = o
  free-IsOrderly OperationKind.open_conflict e o = o
  free-IsOrderly OperationKind.resolve_conflict e o = o
  free-IsOrderly OperationKind.amend_view_spec e o = o
  free-IsOrderly OperationKind.set_next_boundary e o = o

  free-Keeps :
      (kind : OperationKind)
      → supersession kind ≡ 0
      → Keeps next.decisions (apply_kind handoff_ref operation next kind).decisions
  unfolding apply_kind
  free-Keeps OperationKind.append_decision e id d f = find_decision-append next.decisions _ id d f
  free-Keeps OperationKind.supersede_decision e id d f = absurd (omega (arith, e))
  free-Keeps OperationKind.add_memory e id d f = f
  free-Keeps OperationKind.upsert_obligation e id d f = f
  free-Keeps OperationKind.close_obligation e id d f = f
  free-Keeps OperationKind.transition_obligation e id d f = f
  free-Keeps OperationKind.update_state e id d f = f
  free-Keeps OperationKind.add_evidence e id d f = f
  free-Keeps OperationKind.upsert_profile e id d f = f
  free-Keeps OperationKind.open_conflict e id d f = f
  free-Keeps OperationKind.resolve_conflict e id d f = f
  free-Keeps OperationKind.amend_view_spec e id d f = f
  free-Keeps OperationKind.set_next_boundary e id d f = f

free_all-IsOrderly :
    (handoff_ref : Text) (operations : List Operation) (next : Snapshot)
    → supersessions operations ≡ 0
    → IsOrderly next.decisions
    → IsOrderly (apply_all handoff_ref operations next).decisions
unfolding apply_all apply supersessions
free_all-IsOrderly handoff_ref [] next e o = o
free_all-IsOrderly handoff_ref (operation ∷ rest) next e o =
    free_all-IsOrderly handoff_ref rest (apply handoff_ref operation next) (omega (arith, e))
      (free-IsOrderly handoff_ref operation next operation.kind (omega (arith, e)) o)

module _ (current : Snapshot) where
  -- The pair that gate 8 found to be current still is, where the searches find the same.
  passed-AreCurrent :
      (operation : Operation) (after : List Decision)
      → check_supersede_decision current operation ≡ passed
      → Keeps current.decisions after
      → AreCurrent after operation.record_id operation.successor_record_id
  unfolding check_supersede_decision
  passed-AreCurrent operation after e keeps =
      let successor = find_decision current.decisions operation.successor_record_id in
      let bad = bad_pair (find_decision current.decisions operation.record_id) successor in
      let first = then_check-passed (invariant_failed_if bad) _ e in
      let c =
        bad_pair-AreCurrent current.decisions operation.record_id operation.successor_record_id _ _
          refl refl (refuse_if-passed bad RefusalReason.invariant_failed first.0) in
      record {
        old = c.old;
        new = c.new;
        old_found = keeps operation.record_id c.old c.old_found;
        new_found = keeps operation.successor_record_id c.new c.new_found;
        old_current = c.old_current;
        new_current = c.new_current;
        different = c.different;
      }

  superseded-IsOrderly :
      (handoff_ref : Text) (operation : Operation) (next : Snapshot)
      → operation.kind ≡ OperationKind.supersede_decision
      → check_kind current operation operation.kind ≡ passed
      → Keeps current.decisions next.decisions
      → IsOrderly next.decisions
      → IsOrderly (apply_kind handoff_ref operation next operation.kind).decisions
  unfolding apply_kind check_kind
  superseded-IsOrderly handoff_ref operation next only p keeps o =
      let checked : check_kind current operation OperationKind.supersede_decision ≡ passed =
        sym (ap (check_kind current operation) only) ∙ p in
      rw only (
        IsOrderly-superseded operation.record_id operation.successor_record_id next.decisions o
          (passed-AreCurrent operation next.decisions checked keeps))

  once-IsOrderly :
      (handoff_ref : Text) (operations : List Operation) (next : Snapshot)
      → All (λ operation. check_invariants current operation ≡ passed) operations
      → supersessions operations ≤ 1
      → Keeps current.decisions next.decisions
      → IsOrderly next.decisions
      → IsOrderly (apply_all handoff_ref operations next).decisions
  unfolding apply_all apply supersessions check_invariants
  once-IsOrderly handoff_ref [] next p e keeps o = o
  once-IsOrderly handoff_ref (operation ∷ rest) next p e keeps o =
      elim (supersession-cases operation.kind) [
        | inl free ↦
            once-IsOrderly handoff_ref rest (apply handoff_ref operation next) p.1
              (omega (arith, e))
              (λ id d f.
                free-Keeps handoff_ref operation next operation.kind free id d (keeps id d f))
              (free-IsOrderly handoff_ref operation next operation.kind free o)
        | inr only ↦
            free_all-IsOrderly handoff_ref rest (apply handoff_ref operation next)
              (omega (arith, e, ap supersession only))
              (superseded-IsOrderly handoff_ref operation next only p.0 keeps o)
      ]

  -- A transaction whose operations all pass gate 8, and of which at most one supersedes a decision,
  -- keeps the order of the supersession chains.
  pub apply_all-IsOrderly :
      (handoff_ref : Text) (operations : List Operation)
      → All (λ operation. check_invariants current operation ≡ passed) operations
      → supersessions operations ≤ 1
      → IsOrderly current.decisions
      → IsOrderly (apply_all handoff_ref operations current).decisions
  apply_all-IsOrderly handoff_ref operations p e o =
      once-IsOrderly handoff_ref operations current p e (λ id d f. f) o
