-- ===== src/Cognition/Defaults.antt =====
-- The default policy data of include/qiven/context/cognition.hpp and the genesis snapshot of
-- src/persistence.cpp.
use qiven_context_draft.Prelude.{
  Bool, true, false, List, [], ◌∷◌, Option, none, some, Text, text, ◌==◌, not, ◌&&◌, is_empty,
  if◌then◌else◌,
}
use qiven_context_draft.Cognition.Policy.{
  Role, CapabilityClass, Handoff, RefusalReason, RecoveryAction, OperationClass, role_eq,
  refusal_reason_eq,
}
use qiven_context_draft.Cognition.Lifecycles.{SourceKind}
use qiven_context_draft.Cognition.Control.{ActionKind, RequirementKind, RequirementBoundary}
use qiven_context_draft.Cognition.Records.{
  Constitution, HandoffPolicy, RecoveryRule, PolicyTable, InvocationRule, InvocationPolicy,
  Provenance, RoleSpec, Snapshot,
}

unfoldable pub make_constitution : Constitution
make_constitution = record {
  articles =
      text "Project cognition must outlive its participants"
      ∷ text "Capture conservatively, canonicalize deliberately, retrieve selectively"
      ∷ text "Evidence and interpretation are different"
      ∷ text "History is not overwritten"
      ∷ text "Session independence is mandatory"
      ∷ text "Unfinished cognition is first-class"
      ∷ text "Negative knowledge is first-class"
      ∷ text "Epistemic types must not be collapsed"
      ∷ text "Provenance is required"
      ∷ text "Authority is question-scoped"
      ∷ text "Conflict is transient epistemic state"
      ∷ text "Governance authority is explicit"
      ∷ text "Derived indexes are never canonical"
      ∷ text "Private does not mean secret store"
      ∷ text "Simplicity must be falsifiable, not assumed sufficient"
      ∷ text "Retrieval reliability includes invocation as well as ranking"
      ∷ text "Validation proves a candidate; it is not an apprenticeship loop"
      ∷ text "Continuity is testable"
      ∷ [];
}

abbrev pub requires : OperationClass → Handoff → HandoffPolicy
requires c handoff = record { op_class = c; required = handoff; root_principal_only = false }

abbrev pub recovers : RefusalReason → RecoveryAction → RecoveryRule
recovers r a = record { reason = r; action = a }

unfoldable pub make_default_policy : PolicyTable
make_default_policy = record {
  handoff =
      requires OperationClass.decision_acceptance Handoff.h2_review
      ∷ requires OperationClass.memory_write Handoff.h_none
      ∷ requires OperationClass.obligation_write Handoff.h_none
      ∷ requires OperationClass.state_update Handoff.h_none
      ∷ requires OperationClass.conflict_write Handoff.h_none
      ∷ requires OperationClass.evidence_write Handoff.h_none
      ∷ [];
  recovery =
      recovers RefusalReason.stale_base RecoveryAction.reread_rethink
      ∷ recovers RefusalReason.handoff_missing RecoveryAction.halt_escalate
      ∷ recovers RefusalReason.handoff_invalid RecoveryAction.halt_escalate
      ∷ recovers RefusalReason.unattended_mutation RecoveryAction.defer_to_supervised
      ∷ recovers RefusalReason.invariant_failed RecoveryAction.design_review
      ∷ recovers RefusalReason.unverified_actor RecoveryAction.halt_escalate
      ∷ recovers RefusalReason.grant_refused RecoveryAction.fail_closed
      ∷ recovers RefusalReason.governance_denied RecoveryAction.fail_closed
      ∷ recovers RefusalReason.store_diverged RecoveryAction.fail_closed
      ∷ recovers RefusalReason.outcome_unresolved RecoveryAction.block
      ∷ recovers RefusalReason.key_conflict RecoveryAction.fail_closed
      ∷ recovers RefusalReason.conflict_unresolved RecoveryAction.fail_closed
      ∷ [];
}

abbrev pub demands : ActionKind → RequirementKind → RequirementBoundary → Text → InvocationRule
demands action requirement boundary subject = record {
  action = action;
  claim_class = none;
  requirement = requirement;
  boundary = boundary;
  subject = subject;
  blocking = true;
}

unfoldable pub default_invocation_policy : InvocationPolicy
default_invocation_policy = record {
  present = true;
  rules =
      demands ActionKind.create_cpp_symbol RequirementKind.mandatory_recall
        RequirementBoundary.before_judgment (text "naming policy")
      ∷ demands ActionKind.introduce_primitive RequirementKind.search_lower_layer
          RequirementBoundary.before_judgment (text "eligible lower layers")
      ∷ demands ActionKind.invoke_tool RequirementKind.inspect_tool_contract
          RequirementBoundary.before_execution (text "declared tool argv contract")
      ∷ demands ActionKind.retry_failure RequirementKind.inspect_known_pit
          RequirementBoundary.before_judgment (text "failure fingerprint")
      ∷ demands ActionKind.make_canonical_claim RequirementKind.verify_canonical
          RequirementBoundary.before_judgment (text "canonical record")
      ∷ demands ActionKind.make_live_claim RequirementKind.verify_live
          RequirementBoundary.before_judgment (text "live source")
      ∷ demands ActionKind.modify_referenced_contract RequirementKind.mandatory_recall
          RequirementBoundary.before_judgment (text "reference integrity sweep (P-52)")
      ∷ demands ActionKind.commit RequirementKind.run_mechanical_check
          RequirementBoundary.before_execution (text "attribution subject-position lint (P-51)")
      ∷ demands ActionKind.publish RequirementKind.run_mechanical_check
          RequirementBoundary.before_execution
          (text "full default gate PASS receipt at exact head (P-53)")
      ∷ demands ActionKind.publish RequirementKind.request_review
          RequirementBoundary.before_execution (text "H2 exact-delta review")
      ∷ demands ActionKind.accept_candidate RequirementKind.request_review
          RequirementBoundary.before_execution (text "content-bound H2 evidence")
      ∷ [];
}

abbrev ratified : Provenance
ratified = record {
  sources =
      record {
        kind = SourceKind.repository_file;
        reference = text "collaboration/operating-contract.md";
        note = [];
      }
      ∷ [];
}

abbrev every_class : List OperationClass
every_class =
    OperationClass.decision_acceptance ∷ OperationClass.memory_write
    ∷ OperationClass.obligation_write ∷ OperationClass.state_update ∷ OperationClass.conflict_write
    ∷ OperationClass.evidence_write ∷ []

unfoldable pub default_role_specs : List RoleSpec
default_role_specs =
    record {
      id = Role.owner;
      authorities = every_class;
      duties =
          text "ratify and supersede governance"
          ∷ text "accept checkpoints"
          ∷ text "delegate authority"
          ∷ [];
      floor = record {
        review_grade_reasoning = false;
        execution = CapabilityClass.no_reach;
        identity_port_verified = true;
      };
      provenance = ratified;
    }
    ∷ record {
      id = Role.brother;
      authorities = every_class;
      duties =
          text "architecture and review"
          ∷ text "disclosure duty (ADR-0035 rule 4)"
          ∷ text "escalate on doubt"
          ∷ [];
      floor = record {
        review_grade_reasoning = true;
        execution = CapabilityClass.no_reach;
        identity_port_verified = false;
      };
      provenance = ratified;
    }
    ∷ record {
      id = Role.worker;
      authorities = OperationClass.state_update ∷ OperationClass.evidence_write ∷ [];
      duties =
          text "worker discipline: no push, PR or merge without per-task owner authorization" ∷ [];
      floor = record {
        review_grade_reasoning = false;
        execution = CapabilityClass.local_supervised;
        identity_port_verified = false;
      };
      provenance = ratified;
    }
    ∷ []

unfoldable pub make_genesis : Snapshot
make_genesis = record {
  governance = record { root_principal = text "github:JasonHuang3D" };
  constitution = make_constitution;
  policy = make_default_policy;
  invocation = default_invocation_policy;
  state = record {
    objective = text "qiven-context continuity and kernel design";
    current = [];
    checkpoint_ref = [];
    candidate_ref = text "not-created";
    next_boundary_ref = [];
    repositories = [];
    roadmap = [];
  };
  decisions = [];
  memory = [];
  obligations = [];
  evidence = [];
  conflicts = [];
  profiles = [];
  views = [];
  roles = [];
}

-- The role registry: an unregistered or unprovenanced role has no authorities.
unfoldable pub find_role_spec : List RoleSpec → Role → Option RoleSpec
find_role_spec [] role = none
find_role_spec (spec ∷ specs) role =
    if spec.id == role then some spec else find_role_spec specs role

unfoldable pub role_spec_valid : RoleSpec → Bool
role_spec_valid spec = not (is_empty spec.provenance.sources) && not (is_empty spec.duties)

-- `QivenContext::recovery_for`: a missing row falls back to `FailClosed`.
unfoldable pub recovery_in : List RecoveryRule → RefusalReason → RecoveryAction
recovery_in [] reason = RecoveryAction.fail_closed
recovery_in (rule ∷ rules) reason =
    if rule.reason == reason then rule.action else recovery_in rules reason

unfoldable pub recovery_for : Snapshot → RefusalReason → RecoveryAction
recovery_for snapshot reason = recovery_in snapshot.policy.recovery reason
