-- ===== src/Transaction/Invariants.antt =====
-- Gate 8 of `write_to_cognition` (src/persistence.cpp): the record invariants of each operation,
-- all against the snapshot before the transaction.
use qiven_context_draft.Prelude.{
  suc, ℤ, int_eq, Bool, true, false, not, ◌&&◌, ◌||◌, List, [], ◌∷◌, Option, none, some, Text, ◌==◌,
  nat_eq, list_eq, is_empty, not_positive, ltb, length,
}
use qiven_context_draft.Cognition.Policy.{RefusalReason}
use qiven_context_draft.Cognition.Lifecycles.{
  Lifecycle, ConflictStatus, ObligationStatus, lifecycle_eq, conflict_status_eq,
  obligation_status_eq,
}
use qiven_context_draft.Cognition.Records.{
  Decision, Obligation, Conflict, ProfileRecord, ViewSpec, Snapshot,
}
use qiven_context_draft.Transaction.Types.{OperationKind, Operation}
use qiven_context_draft.Transaction.Find.{
  find_decision, find_obligation, find_conflict, find_profile, reaches_decision,
}
use qiven_context_draft.Transaction.Check.{Check, passed, endless, ◌then_check◌, refuse_if}
use qiven_context_draft.Transaction.ViewRefs.{has_colon, profile_refs_of, has_duplicates}

abbrev pub invariant_failed_if : Bool → Check
invariant_failed_if b = refuse_if b RefusalReason.invariant_failed

abbrev pub is_found {ℓ} : {A : Type ℓ} → Option A → Bool
is_found none = false
is_found (some a) = true

-- `superseded == successor` compares pointers to first matches in one vector, that is, their ids.
unfoldable pub bad_pair : Option Decision → Option Decision → Bool
bad_pair (some superseded) (some successor) =
    superseded.id == successor.id
    || (not (superseded.status == Lifecycle.accepted)
        || not (successor.status == Lifecycle.accepted))
bad_pair _ _ = true

abbrev pub check_reached : Option Bool → Check
check_reached none = endless
check_reached (some b) = invariant_failed_if b

-- The chain from the successor must not reach the superseded decision.
unfoldable pub check_chain : List Decision → Option Decision → ℤ → Check
check_chain decisions none target = passed
check_chain decisions (some successor) target =
    check_reached (reaches_decision (suc (length decisions)) decisions successor target)

unfoldable pub has_open : List Obligation → ℤ → Bool
has_open [] id = false
has_open (o ∷ os) id = (o.id == id && o.status == ObligationStatus.opened) || has_open os id

unfoldable pub is_open : Option Obligation → Bool
is_open none = false
is_open (some o) = o.status == ObligationStatus.opened

unfoldable pub is_unresolved : Option Conflict → Bool
is_unresolved none = false
is_unresolved (some c) = c.status == ConflictStatus.opened

unfoldable pub has_view : List ViewSpec → Text → Bool
has_view [] id = false
has_view (v ∷ vs) id = v.id == id || has_view vs id

unfoldable pub has_dangling : List ProfileRecord → List Text → Bool
has_dangling profiles [] = false
has_dangling profiles (ref ∷ refs) =
    not (is_found (find_profile profiles ref)) || has_dangling profiles refs

unfoldable pub check_append_decision : Snapshot → Operation → Check
check_append_decision current operation =
    invariant_failed_if
      (not_positive operation.record_id || (is_empty operation.title || is_empty operation.payload))
    then_check invariant_failed_if (is_found (find_decision current.decisions operation.record_id))

unfoldable pub check_supersede_decision : Snapshot → Operation → Check
check_supersede_decision current operation =
    let successor = find_decision current.decisions operation.successor_record_id in
    invariant_failed_if (bad_pair (find_decision current.decisions operation.record_id) successor)
    then_check check_chain current.decisions successor operation.record_id
    then_check invariant_failed_if (is_empty operation.payload)

unfoldable pub check_transition_obligation : Snapshot → Operation → Check
check_transition_obligation current operation =
    invariant_failed_if (
      not (is_open (find_obligation current.obligations operation.record_id))
      || (is_empty operation.payload || ltb 5 operation.aux))
    then_check invariant_failed_if (operation.aux == 0 || operation.aux == 2)
    then_check invariant_failed_if (
        operation.aux == 5
        && not (is_found (find_obligation current.obligations operation.successor_record_id)))

unfoldable pub check_amend_view_spec : Snapshot → Operation → Check
check_amend_view_spec current operation =
    let refs = profile_refs_of operation.provenance_ref in
    invariant_failed_if
      (is_empty operation.title || (is_empty operation.scope || not (has_colon operation.scope)))
    then_check invariant_failed_if (has_view current.views operation.title && operation.aux == 0)
    then_check invariant_failed_if (is_empty refs)
    then_check invariant_failed_if (has_dangling current.profiles refs)
    then_check invariant_failed_if (has_duplicates refs)

unfoldable pub check_kind : Snapshot → Operation → OperationKind → Check
check_kind current operation OperationKind.append_decision = check_append_decision current operation
check_kind current operation OperationKind.supersede_decision =
    check_supersede_decision current operation
check_kind current operation OperationKind.add_memory =
    invariant_failed_if
      (is_empty operation.payload || (is_empty operation.provenance_ref || ltb 5 operation.aux))
check_kind current operation OperationKind.upsert_obligation =
    invariant_failed_if (not_positive operation.record_id || is_empty operation.payload)
check_kind current operation OperationKind.close_obligation =
    invariant_failed_if (not (has_open current.obligations operation.record_id))
check_kind current operation OperationKind.transition_obligation =
    check_transition_obligation current operation
check_kind current operation OperationKind.update_state =
    invariant_failed_if (is_empty operation.payload)
check_kind current operation OperationKind.add_evidence =
    invariant_failed_if (is_empty operation.title || is_empty operation.payload)
check_kind current operation OperationKind.upsert_profile =
    invariant_failed_if
      (is_empty operation.title || (is_empty operation.scope || is_empty operation.payload))
    then_check invariant_failed_if (is_found (find_profile current.profiles operation.title))
check_kind current operation OperationKind.open_conflict =
    invariant_failed_if (is_empty operation.title || is_empty operation.payload)
    then_check invariant_failed_if (is_found (find_conflict current.conflicts operation.title))
check_kind current operation OperationKind.resolve_conflict = invariant_failed_if (
    not (is_unresolved (find_conflict current.conflicts operation.title))
    || is_empty operation.payload)
check_kind current operation OperationKind.amend_view_spec = check_amend_view_spec current operation
check_kind current operation OperationKind.set_next_boundary =
    invariant_failed_if (not (is_open (find_obligation current.obligations operation.record_id)))

unfoldable pub check_invariants : Snapshot → Operation → Check
check_invariants current operation = check_kind current operation operation.kind
