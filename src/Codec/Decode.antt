-- ===== src/Codec/Decode.antt =====
-- `deserializeImpl` of src/persistence.cpp, one reader for each record. What is not written comes
-- back as the member's default.
pub mod Records
unfoldable pub use Records.{
  get_source, get_handoff_policy, get_recovery_rule, get_state, get_decision, get_memory,
  get_obligation, get_evidence, get_conflict, get_profile, get_view,
}
use qiven_context_draft.Prelude.{
  ℕ, Bool, true, false, not, ◌||◌, [], Option, none, some, text, ltb, leb, nat_beq, is_empty,
  if◌then◌else◌,
}
use qiven_context_draft.Foundation.{Bytes, Foundation}
use qiven_context_draft.Cognition.Control.{
  ClaimClass, RequirementBoundary, claim_class_enum, action_kind_enum, requirement_kind_enum,
  requirement_boundary_enum,
}
use qiven_context_draft.Cognition.Policy.{
  role_enum, capability_class_enum, workflow_layer_enum, handoff_enum, refusal_reason_enum,
  recovery_action_enum, operation_class_enum,
}
use qiven_context_draft.Cognition.Lifecycles.{
  EpistemicType, lifecycle_enum, source_kind_enum, conflict_status_enum, memory_kind_enum,
  memory_status_enum, obligation_status_enum, trigger_kind_enum,
}
use qiven_context_draft.Cognition.Records.{
  SourceType, RecoveryRule, Conflict, HandoffPolicy, InvocationRule, RoleSpec,
  CapabilityRequirements, Decision, MemoryRecord, Obligation, EvidenceRecord, StateView,
  ProfileRecord, ViewSpec, Snapshot, InvocationPolicy, PolicyTable,
}
use qiven_context_draft.Codec.Encode.{serialization_version_limit}
use qiven_context_draft.Codec.Reader.{
  DeserializeErrorKind, Outcome, ok, err, fault, error, Reader, ◌>>=◌, pure, fail, u8, i64, str,
  enum_value, flag, many, string_vector,
}

module _ ⦃F : Foundation⦄ where
  -- A claim class stands behind its presence byte; version 7 had neither.
  unfoldable pub get_claim_class : Bool → Reader (Option ClaimClass)
  get_claim_class false = pure none
  get_claim_class true = do
    claim_class ← enum_value (text "rule claim class") 4
    pure (some claim_class)

  unfoldable pub get_rule : ℕ → Reader InvocationRule
  get_rule version = do
    action ← enum_value (text "rule action") 13
    claim_class ←
        if leb 8 version
        then (do present ← flag (text "rule claim present"); get_claim_class present)
        else pure none
    requirement ← enum_value (text "rule requirement") 8
    boundary ←
        if leb 8 version
        then enum_value (text "rule boundary") 1
        else pure RequirementBoundary.before_judgment
    subject ← str (text "rule subject")
    blocking ← flag (text "rule blocking")
    pure (record {
      action = action;
      claim_class = claim_class;
      requirement = requirement;
      boundary = boundary;
      subject = subject;
      blocking = blocking;
    })

  -- Version 8 has a presence byte, version 7 takes it from the rules, version 6 had no policy.
  unfoldable pub get_invocation : ℕ → Reader InvocationPolicy
  get_invocation version =
      if leb 7 version
      then (do
        present ← if leb 8 version then flag (text "invocation present") else pure false
        rules ← many (text "invocation rules") (get_rule version)
        pure (record {
          present = if nat_beq version 7 then not (is_empty rules) else present;
          rules = rules;
        }))
      else pure (record { present = false; rules = [] })

  unfoldable pub get_floor : Reader CapabilityRequirements
  get_floor = do
    reasoning ← flag (text "role floor reasoning")
    execution ← enum_value (text "role floor execution") 2
    identity ← flag (text "role floor identity")
    pure (record {
      review_grade_reasoning = reasoning;
      execution = execution;
      identity_port_verified = identity;
    })

  unfoldable pub get_role : Reader RoleSpec
  get_role = do
    id ← enum_value (text "role id") 2
    authorities ← many (text "role authorities") (enum_value (text "role authority") 5)
    duties ← string_vector (text "role duties")
    floor ← get_floor
    sources ← many (text "role provenance") get_source
    pure (record {
      id = id;
      authorities = authorities;
      duties = duties;
      floor = floor;
      provenance = record { sources = sources };
    })

  unfoldable pub get_policy : Reader PolicyTable
  get_policy = do
    handoff ← many (text "handoff policy rows") get_handoff_policy
    recovery ← many (text "recovery rows") get_recovery_rule
    pure (record { handoff = handoff; recovery = recovery })

  unfoldable pub get_body : ℕ → Reader Snapshot
  get_body version = do
    root_principal ← str (text "root principal")
    articles ← string_vector (text "constitution articles")
    policy ← get_policy
    state ← get_state
    decisions ← many (text "decision count") get_decision
    memory ← many (text "memory count") get_memory
    obligations ← many (text "obligation count") get_obligation
    evidence ← many (text "evidence count") get_evidence
    conflicts ← many (text "conflict count") get_conflict
    profiles ← many (text "profile count") get_profile
    views ← many (text "view count") get_view
    invocation ← get_invocation version
    roles ← many (text "role count") get_role
    pure (record {
      governance = record { root_principal = root_principal };
      constitution = record { articles = articles };
      policy = policy;
      invocation = invocation;
      state = state;
      decisions = decisions;
      memory = memory;
      obligations = obligations;
      evidence = evidence;
      conflicts = conflicts;
      profiles = profiles;
      views = views;
      roles = roles;
    })

  -- Newer than this binary, or older than the maintained window.
  unfoldable pub unsupported : ℕ → Bool
  unsupported version = ltb serialization_version_limit version || ltb version 6

  unfoldable pub get_snapshot : Reader Snapshot
  get_snapshot = do
    version ← u8 (text "serialization version")
    if unsupported version
        then fail DeserializeErrorKind.bad_version (text "version")
        else get_body version

  -- No byte may be left.
  abbrev pub finished : Outcome (Snapshot × F.Cursor) → Outcome Snapshot
  finished (ok (snapshot, c)) =
      if F.empty c
      then ok snapshot
      else err (error DeserializeErrorKind.truncated (text "trailing bytes after snapshot"))
  finished (err e) = err e
  finished fault = fault

  unfoldable pub deserialize : Bytes → Outcome Snapshot
  deserialize bytes = finished (get_snapshot (F.cursor bytes))
