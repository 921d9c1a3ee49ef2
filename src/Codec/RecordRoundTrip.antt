-- ===== src/Codec/RecordRoundTrip.antt =====
-- Each record that fits the format is read back from the bytes that `serializeImpl` writes for it.
use qiven_context_draft.Prelude.{
  true, false, List, Option, none, some, Text, arith, All-unit, ℤ, IsI64,
}
use qiven_context_draft.Foundation.{Foundation, FoundationLaws}
use qiven_context_draft.Cognition.Policy.{
  role_enum, capability_class_enum, workflow_layer_enum, handoff_enum, refusal_reason_enum,
  recovery_action_enum, operation_class_enum,
}
use qiven_context_draft.Cognition.Control.{
  ClaimClass, claim_class_enum, action_kind_enum, requirement_kind_enum, requirement_boundary_enum,
}
use qiven_context_draft.Cognition.Lifecycles.{
  lifecycle_enum, source_kind_enum, conflict_status_enum, memory_kind_enum, memory_status_enum,
  obligation_status_enum, trigger_kind_enum,
}
use qiven_context_draft.Cognition.Records.{
  SourceType, RecoveryRule, Conflict, HandoffPolicy, InvocationRule, RoleSpec,
  CapabilityRequirements, Decision, MemoryRecord, Obligation, EvidenceRecord, StateView,
  ProfileRecord, ViewSpec, InvocationPolicy, PolicyTable,
}
use qiven_context_draft.Codec.Writer.{put_bool, put_i64, put_many}
use qiven_context_draft.Codec.Reader.{◌>>=◌, flag, i64, many}
use qiven_context_draft.Codec.Encode.{
  put_source, put_handoff_policy, put_recovery_rule, put_state, put_decision, put_memory,
  put_obligation, put_evidence, put_conflict, put_profile, put_view, put_claim_class, put_rule,
  put_floor, put_role, put_policy, put_invocation,
}
use qiven_context_draft.Codec.Decode.{
  get_source, get_handoff_policy, get_recovery_rule, get_state, get_decision, get_memory,
  get_obligation, get_evidence, get_conflict, get_profile, get_view, get_claim_class, get_rule,
  get_floor, get_role, get_policy, get_invocation,
}
use qiven_context_draft.Codec.Fits.{
  Fit, SourceFits, StateFits, DecisionFits, MemoryFits, ObligationFits, EvidenceFits, ConflictFits,
  ProfileFits, ViewFits, RuleFits, RoleFits, restored_memory, restored_obligation,
}
use qiven_context_draft.Codec.Rules.{Reads, Reads-pure, Reads-bind, Reads-last, Reads-then}
use qiven_context_draft.Codec.Fields.{
  IsCapped, Reads-i64, Reads-str, Reads-flag, Reads-enum_value, Reads-many, Reads-string_vector,
}

module _ ⦃F : Foundation⦄ ⦃L : FoundationLaws F⦄ where
  pub Reads-source : (s : SourceType) → SourceFits s → Reads get_source (put_source s) s
  unfolding get_source put_source
  Reads-source s h = Reads-bind _ (Reads-enum_value _ 5 s.kind (omega arith)) (
      Reads-bind _ (Reads-str _ s.reference h.reference) (Reads-last _ (Reads-str _ s.note h.note)))

  Reads-sources :
      (what : Text) (xs : List SourceType)
      → Fit SourceFits xs
      → Reads (many what get_source) (put_many put_source xs) xs
  Reads-sources what xs h = Reads-many SourceFits _ _ Reads-source what xs h.0 h.1

  Reads-ids :
      (what what' : Text) (xs : List ℤ)
      → Fit IsI64 xs
      → Reads (many what (i64 what')) (put_many put_i64 xs) xs
  Reads-ids what what' xs h = Reads-many IsI64 _ _ (Reads-i64 what') what xs h.0 h.1

  pub Reads-handoff_policy :
      (row : HandoffPolicy) → Reads get_handoff_policy (put_handoff_policy row) row
  unfolding get_handoff_policy put_handoff_policy
  Reads-handoff_policy row = Reads-bind _ (Reads-enum_value _ 5 row.op_class (omega arith)) (
      Reads-bind _ (Reads-enum_value _ 4 row.required (omega arith))
        (Reads-last _ (Reads-flag _ row.root_principal_only)))

  pub Reads-recovery_rule :
      (row : RecoveryRule) → Reads get_recovery_rule (put_recovery_rule row) row
  unfolding get_recovery_rule put_recovery_rule
  Reads-recovery_rule row =
      Reads-bind _ (Reads-enum_value _ 11 row.reason (omega arith))
        (Reads-last _ (Reads-enum_value _ 5 row.action (omega arith)))

  pub Reads-state : (s : StateView) → StateFits s → Reads get_state (put_state s) s
  unfolding get_state put_state
  Reads-state s h = Reads-bind _ (Reads-str _ s.objective h.objective) (
      Reads-bind _ (Reads-str _ s.current h.current) (
        Reads-bind _ (Reads-str _ s.checkpoint_ref h.checkpoint_ref) (
          Reads-bind _ (Reads-str _ s.candidate_ref h.candidate_ref) (
            Reads-bind _ (Reads-str _ s.next_boundary_ref h.next_boundary_ref) (
              Reads-bind _ (Reads-str _ s.repositories h.repositories)
                (Reads-last _ (Reads-str _ s.roadmap h.roadmap)))))))

  pub Reads-decision : (d : Decision) → DecisionFits d → Reads get_decision (put_decision d) d
  unfolding get_decision put_decision
  Reads-decision d h = Reads-bind _ (Reads-i64 _ d.id h.id) (
      Reads-bind _ (Reads-enum_value _ 3 d.status (omega arith)) (
        Reads-bind _ (Reads-str _ d.title h.title) (
          Reads-bind _ (Reads-str _ d.content h.content) (
            Reads-bind _ (Reads-ids _ _ d.supersedes h.supersedes) (
              Reads-bind _ (Reads-ids _ _ d.superseded_by h.superseded_by)
                (Reads-last _ (Reads-sources _ d.provenance.sources h.sources)))))))

  pub Reads-memory :
      (m : MemoryRecord) → MemoryFits m → Reads get_memory (put_memory m) (restored_memory m)
  unfolding get_memory put_memory restored_memory
  Reads-memory m h = Reads-bind _ (Reads-enum_value _ 5 m.kind (omega arith)) (
      Reads-bind _ (Reads-enum_value _ 1 m.status (omega arith)) (
        Reads-bind _ (Reads-str _ m.title h.title) (
          Reads-bind _ (Reads-str _ m.statement h.statement)
            (Reads-last _ (Reads-sources _ m.provenance.sources h.sources)))))

  pub Reads-obligation :
      (o : Obligation)
      → ObligationFits o
      → Reads get_obligation (put_obligation o) (restored_obligation o)
  unfolding get_obligation put_obligation restored_obligation
  Reads-obligation o h = Reads-bind _ (Reads-enum_value _ 5 o.status (omega arith)) (
      Reads-bind _ (Reads-enum_value _ 5 o.trigger (omega arith)) (
        Reads-bind _ (Reads-i64 _ o.id h.id) (
          Reads-bind _ (Reads-str _ o.statement h.statement)
            (Reads-last _ (Reads-str _ o.completion_criteria h.completion_criteria)))))

  pub Reads-evidence : (e : EvidenceRecord) → EvidenceFits e → Reads get_evidence (put_evidence e) e
  unfolding get_evidence put_evidence
  Reads-evidence e h =
      Reads-bind _ (Reads-str _ e.bound_to h.bound_to)
        (Reads-last _ (Reads-str _ e.content h.content))

  pub Reads-conflict : (c : Conflict) → ConflictFits c → Reads get_conflict (put_conflict c) c
  unfolding get_conflict put_conflict
  Reads-conflict c h = Reads-bind _ (Reads-str _ c.id h.id) (
      Reads-bind _ (Reads-enum_value _ 1 c.status (omega arith)) (
        Reads-bind _ (Reads-str _ c.scope h.scope) (
          Reads-bind _ (Reads-str _ c.description h.description)
            (Reads-last _ (Reads-str _ c.resolution h.resolution)))))

  pub Reads-profile : (p : ProfileRecord) → ProfileFits p → Reads get_profile (put_profile p) p
  unfolding get_profile put_profile
  Reads-profile p h = Reads-bind _ (Reads-str _ p.id h.id) (
      Reads-bind _ (Reads-str _ p.kind h.kind) (
        Reads-bind _ (Reads-str _ p.summary h.summary)
          (Reads-last _ (Reads-enum_value _ 3 p.layer (omega arith)))))

  pub Reads-view : (v : ViewSpec) → ViewFits v → Reads get_view (put_view v) v
  unfolding get_view put_view
  Reads-view v h = Reads-bind _ (Reads-str _ v.id h.id) (
      Reads-bind _ (Reads-str _ v.agent h.agent) (
        Reads-bind _ (Reads-str _ v.human h.human) (
          Reads-bind _ (Reads-str _ v.summary h.summary)
            (Reads-last _ (Reads-string_vector _ v.profile_refs h.profile_refs)))))

  Reads-claim_class :
      (what : Text) (c : Option ClaimClass)
      → Reads (flag what >>= get_claim_class) (put_claim_class c) c
  unfolding get_claim_class put_claim_class put_bool
  Reads-claim_class what none = Reads-then _ (Reads-flag what false) (Reads-pure none)
  Reads-claim_class what (some c) =
      Reads-bind _ (Reads-flag what true) (Reads-last _ (Reads-enum_value _ 4 c (omega arith)))

  pub Reads-rule : (r : InvocationRule) → RuleFits r → Reads (get_rule 8) (put_rule r) r
  unfolding get_rule put_rule
  Reads-rule r h = Reads-bind _ (Reads-enum_value _ 13 r.action (omega arith)) (
      Reads-bind _ (Reads-claim_class _ r.claim_class) (
        Reads-bind _ (Reads-enum_value _ 8 r.requirement (omega arith)) (
          Reads-bind _ (Reads-enum_value _ 1 r.boundary (omega arith))
            (Reads-bind _ (Reads-str _ r.subject h) (Reads-last _ (Reads-flag _ r.blocking))))))

  pub Reads-invocation :
      (p : InvocationPolicy) → Fit RuleFits p.rules → Reads (get_invocation 8) (put_invocation p) p
  unfolding get_invocation put_invocation
  Reads-invocation p h =
      Reads-bind _ (Reads-flag _ p.present)
        (Reads-last _ (Reads-many RuleFits _ _ Reads-rule _ p.rules h.0 h.1))

  pub Reads-floor : (f : CapabilityRequirements) → Reads get_floor (put_floor f) f
  unfolding get_floor put_floor
  Reads-floor f = Reads-bind _ (Reads-flag _ f.review_grade_reasoning) (
      Reads-bind _ (Reads-enum_value _ 2 f.execution (omega arith))
        (Reads-last _ (Reads-flag _ f.identity_port_verified)))

  pub Reads-role : (r : RoleSpec) → RoleFits r → Reads get_role (put_role r) r
  unfolding get_role put_role
  Reads-role r h = Reads-bind _ (Reads-enum_value _ 2 r.id (omega arith)) (
      Reads-bind _
        (Reads-many (λ _. Unit) _ _ (λ a _. Reads-enum_value _ 5 a (omega arith)) _ r.authorities
          h.authorities (All-unit r.authorities))
        (Reads-bind _ (Reads-string_vector _ r.duties h.duties) (
          Reads-bind _ (Reads-floor r.floor)
            (Reads-last _ (Reads-sources _ r.provenance.sources h.sources)))))

  pub Reads-policy :
      (p : PolicyTable)
      → IsCapped p.handoff
      → IsCapped p.recovery
      → Reads get_policy (put_policy p) p
  unfolding get_policy put_policy
  Reads-policy p h k =
      Reads-bind _
        (Reads-many (λ _. Unit) _ _ (λ a _. Reads-handoff_policy a) _ p.handoff h
          (All-unit p.handoff))
        (Reads-last _ (
          Reads-many (λ _. Unit) _ _ (λ a _. Reads-recovery_rule a) _ p.recovery k
            (All-unit p.recovery)))
