-- ===== src/Transaction/Apply.antt =====
-- The application of a transaction onto a successor snapshot, and gate 9 of `write_to_cognition`,
-- the coherence of that successor (src/persistence.cpp).
use qiven_context_draft.Prelude.{
  ℤ, int_eq, Bool, false, not, ◌&&◌, ◌||◌, List, [], ◌∷◌, ◌++◌, Text, ◌==◌, nat_eq, list_eq,
  is_empty, map, to_string, from_code, if◌then◌else◌,
}
use qiven_context_draft.Cognition.Policy.{RefusalReason, WorkflowLayer}
use qiven_context_draft.Cognition.Lifecycles.{
  Lifecycle, EpistemicType, SourceKind, ConflictStatus, MemoryStatus, ObligationStatus, TriggerKind,
  obligation_status_eq, memory_kind_enum, obligation_status_enum,
}
use qiven_context_draft.Cognition.Records.{
  Provenance, Decision, Obligation, Conflict, ViewSpec, Snapshot,
}
use qiven_context_draft.Transaction.Types.{OperationKind, Operation}
use qiven_context_draft.Transaction.Check.{Check, passed, refuse_if}
use qiven_context_draft.Transaction.ViewRefs.{before_colon, after_colon, profile_refs_of}

-- One source, a user statement, with the given reference.
abbrev pub stated : Text → Provenance
stated reference = record {
  sources = record { kind = SourceKind.user_statement; reference = reference; note = [] } ∷ [];
}

unfoldable pub supersede_one : ℤ → ℤ → Decision → Decision
supersede_one id successor d =
    let moved : Decision =
      if d.id == id
      then record d {
        status = Lifecycle.superseded;
        superseded_by = d.superseded_by ++ successor ∷ [];
      }
      else d in
    if d.id == successor then record moved { supersedes = moved.supersedes ++ id ∷ [] } else moved

-- The first obligation with the id is done, whatever its status.
unfoldable pub close_first : ℤ → List Obligation → List Obligation
close_first id [] = []
close_first id (o ∷ os) =
    if o.id == id then record o { status = ObligationStatus.done } ∷ os else o ∷ close_first id os

unfoldable pub transition_one : Operation → Obligation → Obligation
transition_one operation o =
    if o.id == operation.record_id
    then record o { status = from_code operation.aux; completion_criteria = operation.payload }
    else o

unfoldable pub resolve_one : Operation → Conflict → Conflict
resolve_one operation c =
    if c.id == operation.title
    then record c { status = ConflictStatus.resolved; resolution = operation.payload }
    else c

unfoldable pub remove_view : Text → List ViewSpec → List ViewSpec
remove_view id [] = []
remove_view id (v ∷ vs) = let rest = remove_view id vs in if v.id == id then rest else v ∷ rest

unfoldable pub amend_views : Operation → List ViewSpec → List ViewSpec
amend_views operation views =
    if operation.aux == 1
    then remove_view operation.title views
    else views
      ++ record {
        id = operation.title;
        agent = before_colon operation.scope;
        human = after_colon operation.scope;
        summary = operation.payload;
        profile_refs = profile_refs_of operation.provenance_ref;
      }
        ∷ []

unfoldable pub apply_kind : Text → Operation → Snapshot → OperationKind → Snapshot
apply_kind handoff_ref operation next OperationKind.append_decision = record next {
  decisions =
      next.decisions
      ++ record {
        id = operation.record_id;
        status = Lifecycle.accepted;
        title = operation.title;
        content = operation.payload;
        supersedes = [];
        superseded_by = [];
        provenance = stated handoff_ref;
      }
        ∷ [];
}
apply_kind handoff_ref operation next OperationKind.supersede_decision = record next {
  decisions = map (supersede_one operation.record_id operation.successor_record_id) next.decisions;
}
apply_kind handoff_ref operation next OperationKind.add_memory = record next {
  memory =
      next.memory
      ++ record {
        kind = from_code operation.aux;
        epistemic = EpistemicType.verified;
        status = MemoryStatus.active;
        title = operation.title;
        statement = operation.payload;
        provenance = stated operation.provenance_ref;
      }
        ∷ [];
}
apply_kind handoff_ref operation next OperationKind.upsert_obligation = record next {
  obligations =
      next.obligations
      ++ record {
        status = ObligationStatus.opened;
        trigger = TriggerKind.manual;
        trigger_value = [];
        id = operation.record_id;
        statement = operation.payload;
        completion_criteria = [];
      }
        ∷ [];
}
apply_kind handoff_ref operation next OperationKind.close_obligation = record next {
  obligations = close_first operation.record_id next.obligations;
}
apply_kind handoff_ref operation next OperationKind.transition_obligation = record next {
  obligations = map (transition_one operation) next.obligations;
}
apply_kind handoff_ref operation next OperationKind.update_state = record next {
  state = record next.state { current = operation.payload };
}
apply_kind handoff_ref operation next OperationKind.add_evidence = record next {
  evidence =
      next.evidence ++ record { bound_to = operation.title; content = operation.payload } ∷ [];
}
apply_kind handoff_ref operation next OperationKind.upsert_profile = record next {
  profiles =
      next.profiles
      ++ record {
        id = operation.title;
        kind = operation.scope;
        summary = operation.payload;
        layer = WorkflowLayer.environment_ergonomics;
      }
        ∷ [];
}
apply_kind handoff_ref operation next OperationKind.open_conflict = record next {
  conflicts =
      next.conflicts
      ++ record {
        id = operation.title;
        status = ConflictStatus.opened;
        scope = operation.scope;
        description = operation.payload;
        resolution = [];
      }
        ∷ [];
}
apply_kind handoff_ref operation next OperationKind.resolve_conflict = record next {
  conflicts = map (resolve_one operation) next.conflicts;
}
apply_kind handoff_ref operation next OperationKind.amend_view_spec = record next {
  views = amend_views operation next.views;
}
apply_kind handoff_ref operation next OperationKind.set_next_boundary = record next {
  state = record next.state { next_boundary_ref = to_string operation.record_id };
}

unfoldable pub apply : Text → Operation → Snapshot → Snapshot
apply handoff_ref operation next = apply_kind handoff_ref operation next operation.kind

unfoldable pub apply_all : Text → List Operation → Snapshot → Snapshot
apply_all handoff_ref [] next = next
apply_all handoff_ref (operation ∷ rest) next =
    apply_all handoff_ref rest (apply handoff_ref operation next)

-- Gate 9: a boundary reference that is not empty names an open obligation.
unfoldable pub names_open : List Obligation → Text → Bool
names_open [] ref = false
names_open (o ∷ os) ref =
    (to_string o.id == ref && o.status == ObligationStatus.opened) || names_open os ref

unfoldable pub check_boundary : Snapshot → Check
check_boundary next =
    if is_empty next.state.next_boundary_ref
    then passed
    else refuse_if (not (names_open next.obligations next.state.next_boundary_ref))
        RefusalReason.invariant_failed
