-- ===== src/Transaction/Handoff.antt =====
-- Gates 6 and 7 of `write_to_cognition` (src/persistence.cpp): the policy table with its
-- authority-bound review evidence, and the scope of open conflicts.
use qiven_context_draft.Prelude.{
  Bool, false, not, ◌&&◌, ◌||◌, List, [], ◌∷◌, Option, none, some, Text, ◌==◌, nat_eq, list_eq,
  is_empty, if◌then◌else◌,
}
use qiven_context_draft.Foundation.{Foundation}
use qiven_context_draft.Cognition.Policy.{
  Handoff, RefusalReason, OperationClass, handoff_eq, operation_class_eq,
}
use qiven_context_draft.Cognition.Lifecycles.{ConflictStatus, conflict_status_eq}
use qiven_context_draft.Cognition.Records.{HandoffPolicy, Conflict}
use qiven_context_draft.Transaction.Types.{
  OperationKind, Operation, H2Evidence, ContextTransaction, operation_kind_eq,
}
use qiven_context_draft.Transaction.Digest.{digest_operations}
use qiven_context_draft.Transaction.Check.{Check, passed, refused, ◌then_check◌, refuse_if}

unfoldable pub op_class : OperationKind → OperationClass
op_class OperationKind.append_decision = OperationClass.decision_acceptance
op_class OperationKind.supersede_decision = OperationClass.decision_acceptance
op_class OperationKind.add_memory = OperationClass.memory_write
op_class OperationKind.upsert_obligation = OperationClass.obligation_write
op_class OperationKind.close_obligation = OperationClass.obligation_write
op_class OperationKind.transition_obligation = OperationClass.obligation_write
op_class OperationKind.update_state = OperationClass.state_update
op_class OperationKind.set_next_boundary = OperationClass.state_update
op_class OperationKind.open_conflict = OperationClass.conflict_write
op_class OperationKind.resolve_conflict = OperationClass.conflict_write
op_class OperationKind.add_evidence = OperationClass.evidence_write
op_class OperationKind.upsert_profile = OperationClass.evidence_write
op_class OperationKind.amend_view_spec = OperationClass.evidence_write

unfoldable pub find_row : List HandoffPolicy → OperationClass → Option HandoffPolicy
find_row [] c = none
find_row (row ∷ rows) c = if row.op_class == c then some row else find_row rows c

module _ ⦃F : Foundation⦄ (grant_binding root_principal : Text)
    (transaction : ContextTransaction) where
  unfoldable pub check_h2 : Option H2Evidence → Check
  check_h2 none = refused RefusalReason.handoff_missing
  check_h2 (some h2) =
      refuse_if
        (is_empty h2.reviewer
          || (is_empty h2.reviewer_binding
              || (is_empty h2.review_ref || is_empty transaction.handoff_evidence_ref)))
        RefusalReason.handoff_missing
      then_check refuse_if (h2.reviewer_binding == grant_binding) RefusalReason.handoff_invalid
      then_check refuse_if (not (h2.reviewer == root_principal)) RefusalReason.handoff_invalid
      then_check refuse_if
          (not (h2.reviewed_delta_digest == digest_operations transaction.operations))
          RefusalReason.handoff_invalid

  unfoldable pub check_row : Option HandoffPolicy → Check
  check_row none = refused RefusalReason.governance_denied
  check_row (some row) =
      if row.required == Handoff.h2_review then check_h2 transaction.h2 else passed

  unfoldable pub check_policy : List HandoffPolicy → Operation → Check
  check_policy rows operation = check_row (find_row rows (op_class operation.kind))

unfoldable pub touches_conflicts : OperationKind → Bool
touches_conflicts kind =
    kind == OperationKind.open_conflict || kind == OperationKind.resolve_conflict

unfoldable pub is_blocked : List Conflict → Text → Bool
is_blocked [] scope = false
is_blocked (c ∷ cs) scope =
    (c.status == ConflictStatus.opened && (is_empty c.scope || c.scope == scope))
    || is_blocked cs scope

unfoldable pub check_conflicts : List Conflict → Operation → Check
check_conflicts conflicts operation =
    if touches_conflicts operation.kind
    then passed
    else refuse_if (is_blocked conflicts operation.scope) RefusalReason.conflict_unresolved
