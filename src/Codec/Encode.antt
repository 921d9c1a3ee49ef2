-- ===== src/Codec/Encode.antt =====
-- `serializeImpl` of src/persistence.cpp: the bytes of each record, and of a snapshot. A memory
-- record's `epistemic` and an obligation's `trigger_value` are not written.
use qiven_context_draft.Prelude.{ℕ, ◌++◌, Option, none, some}
use qiven_context_draft.Foundation.{Bytes}
use qiven_context_draft.Cognition.Control.{
  ClaimClass, claim_class_enum, action_kind_enum, requirement_kind_enum, requirement_boundary_enum,
}
use qiven_context_draft.Cognition.Policy.{
  role_enum, capability_class_enum, workflow_layer_enum, handoff_enum, refusal_reason_enum,
  recovery_action_enum, operation_class_enum,
}
use qiven_context_draft.Cognition.Lifecycles.{
  lifecycle_enum, source_kind_enum, conflict_status_enum, memory_kind_enum, memory_status_enum,
  obligation_status_enum, trigger_kind_enum,
}
use qiven_context_draft.Cognition.Records.{
  SourceType, RecoveryRule, Conflict, HandoffPolicy, InvocationRule, RoleSpec,
  CapabilityRequirements, Decision, MemoryRecord, Obligation, EvidenceRecord, StateView,
  ProfileRecord, ViewSpec, Snapshot, InvocationPolicy, PolicyTable,
}
use qiven_context_draft.Codec.Writer.{put_u8, put_i64, put_str, put_bool, put_enum, put_many}

abbrev pub serialization_version_limit : ℕ
serialization_version_limit = 8

unfoldable pub put_source : SourceType → Bytes
put_source source = put_enum source.kind ++ (put_str source.reference ++ put_str source.note)

unfoldable pub put_handoff_policy : HandoffPolicy → Bytes
put_handoff_policy row =
    put_enum row.op_class ++ (put_enum row.required ++ put_bool row.root_principal_only)

unfoldable pub put_recovery_rule : RecoveryRule → Bytes
put_recovery_rule row = put_enum row.reason ++ put_enum row.action

unfoldable pub put_state : StateView → Bytes
put_state state =
    put_str state.objective
    ++ (put_str state.current
        ++ (put_str state.checkpoint_ref
            ++ (put_str state.candidate_ref
                ++ (put_str state.next_boundary_ref
                    ++ (put_str state.repositories ++ put_str state.roadmap)))))

unfoldable pub put_decision : Decision → Bytes
put_decision decision =
    put_i64 decision.id
    ++ (put_enum decision.status
        ++ (put_str decision.title
            ++ (put_str decision.content
                ++ (put_many put_i64 decision.supersedes
                    ++ (put_many put_i64 decision.superseded_by
                        ++ put_many put_source decision.provenance.sources)))))

unfoldable pub put_memory : MemoryRecord → Bytes
put_memory record' =
    put_enum record'.kind
    ++ (put_enum record'.status
        ++ (put_str record'.title
            ++ (put_str record'.statement ++ put_many put_source record'.provenance.sources)))

unfoldable pub put_obligation : Obligation → Bytes
put_obligation obligation =
    put_enum obligation.status
    ++ (put_enum obligation.trigger
        ++ (put_i64 obligation.id
            ++ (put_str obligation.statement ++ put_str obligation.completion_criteria)))

unfoldable pub put_evidence : EvidenceRecord → Bytes
put_evidence evidence = put_str evidence.bound_to ++ put_str evidence.content

unfoldable pub put_conflict : Conflict → Bytes
put_conflict conflict =
    put_str conflict.id
    ++ (put_enum conflict.status
        ++ (put_str conflict.scope
            ++ (put_str conflict.description ++ put_str conflict.resolution)))

unfoldable pub put_profile : ProfileRecord → Bytes
put_profile profile =
    put_str profile.id
    ++ (put_str profile.kind ++ (put_str profile.summary ++ put_enum profile.layer))

unfoldable pub put_view : ViewSpec → Bytes
put_view view =
    put_str view.id
    ++ (put_str view.agent
        ++ (put_str view.human ++ (put_str view.summary ++ put_many put_str view.profile_refs)))

-- The presence byte of the claim class, and the claim class if there is one.
unfoldable pub put_claim_class : Option ClaimClass → Bytes
put_claim_class none = put_u8 0
put_claim_class (some claim_class) = put_u8 1 ++ put_enum claim_class

unfoldable pub put_rule : InvocationRule → Bytes
put_rule rule =
    put_enum rule.action
    ++ (put_claim_class rule.claim_class
        ++ (put_enum rule.requirement
            ++ (put_enum rule.boundary ++ (put_str rule.subject ++ put_bool rule.blocking))))

unfoldable pub put_floor : CapabilityRequirements → Bytes
put_floor floor =
    put_bool floor.review_grade_reasoning
    ++ (put_enum floor.execution ++ put_bool floor.identity_port_verified)

unfoldable pub put_role : RoleSpec → Bytes
put_role role =
    put_enum role.id
    ++ (put_many put_enum role.authorities
        ++ (put_many put_str role.duties
            ++ (put_floor role.floor ++ put_many put_source role.provenance.sources)))

unfoldable pub put_policy : PolicyTable → Bytes
put_policy policy =
    put_many put_handoff_policy policy.handoff ++ put_many put_recovery_rule policy.recovery

unfoldable pub put_invocation : InvocationPolicy → Bytes
put_invocation invocation = put_bool invocation.present ++ put_many put_rule invocation.rules

-- Everything behind the version byte.
unfoldable pub put_body : Snapshot → Bytes
put_body snapshot =
    put_str snapshot.governance.root_principal
    ++ (put_many put_str snapshot.constitution.articles
        ++ (put_policy snapshot.policy
            ++ (put_state snapshot.state
                ++ (put_many put_decision snapshot.decisions
                    ++ (put_many put_memory snapshot.memory
                        ++ (put_many put_obligation snapshot.obligations
                            ++ (put_many put_evidence snapshot.evidence
                                ++ (put_many put_conflict snapshot.conflicts
                                    ++ (put_many put_profile snapshot.profiles
                                        ++ (put_many put_view snapshot.views
                                            ++ (put_invocation snapshot.invocation
                                                ++ put_many put_role snapshot.roles)))))))))))

unfoldable pub serialize_snapshot : Snapshot → Bytes
serialize_snapshot snapshot = put_u8 serialization_version_limit ++ put_body snapshot
