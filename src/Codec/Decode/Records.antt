-- ===== src/Codec/Decode/Records.antt =====
-- The readers of the records that `deserializeImpl` of src/persistence.cpp reads in every version.
use qiven_context_draft.Prelude.{[], text}
use qiven_context_draft.Foundation.{Foundation}
use qiven_context_draft.Cognition.Control.{
  claim_class_enum, action_kind_enum, requirement_kind_enum, requirement_boundary_enum,
}
use qiven_context_draft.Cognition.Policy.{
  role_enum, capability_class_enum, workflow_layer_enum, handoff_enum, refusal_reason_enum,
  recovery_action_enum, operation_class_enum,
}
use qiven_context_draft.Cognition.Lifecycles.{
  EpistemicType, lifecycle_enum, source_kind_enum, conflict_status_enum, memory_kind_enum,
  memory_status_enum, obligation_status_enum, trigger_kind_enum,
}
use qiven_context_draft.Cognition.Records.{
  SourceType, RecoveryRule, Conflict, HandoffPolicy, Decision, MemoryRecord, Obligation,
  EvidenceRecord, StateView, ProfileRecord, ViewSpec,
}
use qiven_context_draft.Codec.Reader.{
  Reader, ◌>>=◌, pure, i64, str, enum_value, flag, many, string_vector,
}

module _ ⦃F : Foundation⦄ where
  unfoldable pub get_source : Reader SourceType
  get_source = do
    kind ← enum_value (text "prov kind") 5
    reference ← str (text "prov reference")
    note ← str (text "prov note")
    pure (record { kind = kind; reference = reference; note = note })

  unfoldable pub get_handoff_policy : Reader HandoffPolicy
  get_handoff_policy = do
    op_class ← enum_value (text "handoff op class") 5
    required ← enum_value (text "handoff required") 4
    root_only ← flag (text "handoff rootPrincipalOnly")
    pure (record { op_class = op_class; required = required; root_principal_only = root_only })

  unfoldable pub get_recovery_rule : Reader RecoveryRule
  get_recovery_rule = do
    reason ← enum_value (text "recovery reason") 11
    action ← enum_value (text "recovery action") 5
    pure (record { reason = reason; action = action })

  unfoldable pub get_state : Reader StateView
  get_state = do
    objective ← str (text "state.objective")
    current ← str (text "state.current")
    checkpoint_ref ← str (text "state.checkpointRef")
    candidate_ref ← str (text "state.candidateRef")
    next_boundary_ref ← str (text "state.nextBoundaryRef")
    repositories ← str (text "state.repositories")
    roadmap ← str (text "state.roadmap")
    pure (record {
      objective = objective;
      current = current;
      checkpoint_ref = checkpoint_ref;
      candidate_ref = candidate_ref;
      next_boundary_ref = next_boundary_ref;
      repositories = repositories;
      roadmap = roadmap;
    })

  unfoldable pub get_decision : Reader Decision
  get_decision = do
    id ← i64 (text "decision id")
    status ← enum_value (text "decision status") 3
    title ← str (text "decision title")
    content ← str (text "decision content")
    supersedes ← many (text "decision supersedes") (i64 (text "superseded id"))
    superseded_by ← many (text "decision supersededBy") (i64 (text "supersededBy id"))
    sources ← many (text "decision provenance") get_source
    pure (record {
      id = id;
      status = status;
      title = title;
      content = content;
      supersedes = supersedes;
      superseded_by = superseded_by;
      provenance = record { sources = sources };
    })

  unfoldable pub get_memory : Reader MemoryRecord
  get_memory = do
    kind ← enum_value (text "memory kind") 5
    status ← enum_value (text "memory status") 1
    title ← str (text "memory title")
    statement ← str (text "memory statement")
    sources ← many (text "memory provenance") get_source
    pure (record {
      kind = kind;
      epistemic = EpistemicType.observation;
      status = status;
      title = title;
      statement = statement;
      provenance = record { sources = sources };
    })

  unfoldable pub get_obligation : Reader Obligation
  get_obligation = do
    status ← enum_value (text "obligation status") 5
    trigger ← enum_value (text "obligation trigger") 5
    id ← i64 (text "obligation id")
    statement ← str (text "obligation statement")
    completion_criteria ← str (text "obligation completion")
    pure (record {
      status = status;
      trigger = trigger;
      trigger_value = [];
      id = id;
      statement = statement;
      completion_criteria = completion_criteria;
    })

  unfoldable pub get_evidence : Reader EvidenceRecord
  get_evidence = do
    bound_to ← str (text "evidence boundTo")
    content ← str (text "evidence content")
    pure (record { bound_to = bound_to; content = content })

  unfoldable pub get_conflict : Reader Conflict
  get_conflict = do
    id ← str (text "conflict id")
    status ← enum_value (text "conflict status") 1
    scope ← str (text "conflict scope")
    description ← str (text "conflict description")
    resolution ← str (text "conflict resolution")
    pure (record {
      id = id;
      status = status;
      scope = scope;
      description = description;
      resolution = resolution;
    })

  unfoldable pub get_profile : Reader ProfileRecord
  get_profile = do
    id ← str (text "profile id")
    kind ← str (text "profile kind")
    summary ← str (text "profile summary")
    layer ← enum_value (text "profile layer") 3
    pure (record { id = id; kind = kind; summary = summary; layer = layer })

  unfoldable pub get_view : Reader ViewSpec
  get_view = do
    id ← str (text "view id")
    agent ← str (text "view agent")
    human ← str (text "view human")
    summary ← str (text "view summary")
    profile_refs ← string_vector (text "view profile refs")
    pure (record {
      id = id;
      agent = agent;
      human = human;
      summary = summary;
      profile_refs = profile_refs;
    })
