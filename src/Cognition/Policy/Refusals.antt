-- ===== src/Cognition/Policy/Refusals.antt =====
-- The enumerations of the authority policy (include/qiven/context/cognition.hpp): roles, handoffs,
-- refusal reasons and recovery actions.
use qiven_context_draft.Prelude.{
  ℕ, ◌≤◌, ◌≡◌, refl, List, [], ◌∷◌, arith, length, get_or, Eq, Enum, enum_eq,
}

pub data RefusalReason : Type 0 where
  grant_refused unverified_actor stale_base handoff_missing handoff_invalid unattended_mutation
        invariant_failed governance_denied store_diverged outcome_unresolved key_conflict
        conflict_unresolved :
      RefusalReason

abbrev pub refusal_reason_code : RefusalReason → ℕ
refusal_reason_code RefusalReason.grant_refused = 0
refusal_reason_code RefusalReason.unverified_actor = 1
refusal_reason_code RefusalReason.stale_base = 2
refusal_reason_code RefusalReason.handoff_missing = 3
refusal_reason_code RefusalReason.handoff_invalid = 4
refusal_reason_code RefusalReason.unattended_mutation = 5
refusal_reason_code RefusalReason.invariant_failed = 6
refusal_reason_code RefusalReason.governance_denied = 7
refusal_reason_code RefusalReason.store_diverged = 8
refusal_reason_code RefusalReason.outcome_unresolved = 9
refusal_reason_code RefusalReason.key_conflict = 10
refusal_reason_code RefusalReason.conflict_unresolved = 11

abbrev pub refusal_reason_others : List RefusalReason
refusal_reason_others =
    RefusalReason.unverified_actor ∷ RefusalReason.stale_base ∷ RefusalReason.handoff_missing
    ∷ RefusalReason.handoff_invalid ∷ RefusalReason.unattended_mutation
    ∷ RefusalReason.invariant_failed ∷ RefusalReason.governance_denied
    ∷ RefusalReason.store_diverged ∷ RefusalReason.outcome_unresolved ∷ RefusalReason.key_conflict
    ∷ RefusalReason.conflict_unresolved ∷ []

pub get-refusal_reason_code :
    (e : RefusalReason)
    → get_or
        (RefusalReason.grant_refused ∷ refusal_reason_others)
        (refusal_reason_code e)
        RefusalReason.grant_refused
      ≡ e
get-refusal_reason_code RefusalReason.grant_refused = refl
get-refusal_reason_code _ = refl

pub refusal_reason_code-le :
    (e : RefusalReason) → refusal_reason_code e ≤ length refusal_reason_others
refusal_reason_code-le RefusalReason.grant_refused = omega arith
refusal_reason_code-le _ = omega arith

instance abbrev pub refusal_reason_enum : Enum RefusalReason
refusal_reason_enum = record {
  code = refusal_reason_code;
  first = RefusalReason.grant_refused;
  others = refusal_reason_others;
  get-code = get-refusal_reason_code;
  code-le = refusal_reason_code-le;
}

instance abbrev pub refusal_reason_eq : Eq RefusalReason
refusal_reason_eq = enum_eq refusal_reason_enum

pub data RecoveryAction : Type 0 where
  reread_rethink halt_escalate defer_to_supervised design_review fail_closed block : RecoveryAction

abbrev pub recovery_action_code : RecoveryAction → ℕ
recovery_action_code RecoveryAction.reread_rethink = 0
recovery_action_code RecoveryAction.halt_escalate = 1
recovery_action_code RecoveryAction.defer_to_supervised = 2
recovery_action_code RecoveryAction.design_review = 3
recovery_action_code RecoveryAction.fail_closed = 4
recovery_action_code RecoveryAction.block = 5

abbrev pub recovery_action_others : List RecoveryAction
recovery_action_others =
    RecoveryAction.halt_escalate ∷ RecoveryAction.defer_to_supervised ∷ RecoveryAction.design_review
    ∷ RecoveryAction.fail_closed ∷ RecoveryAction.block ∷ []

pub get-recovery_action_code :
    (e : RecoveryAction)
    → get_or
        (RecoveryAction.reread_rethink ∷ recovery_action_others)
        (recovery_action_code e)
        RecoveryAction.reread_rethink
      ≡ e
get-recovery_action_code RecoveryAction.reread_rethink = refl
get-recovery_action_code _ = refl

pub recovery_action_code-le :
    (e : RecoveryAction) → recovery_action_code e ≤ length recovery_action_others
recovery_action_code-le RecoveryAction.reread_rethink = omega arith
recovery_action_code-le _ = omega arith

instance abbrev pub recovery_action_enum : Enum RecoveryAction
recovery_action_enum = record {
  code = recovery_action_code;
  first = RecoveryAction.reread_rethink;
  others = recovery_action_others;
  get-code = get-recovery_action_code;
  code-le = recovery_action_code-le;
}

instance abbrev pub recovery_action_eq : Eq RecoveryAction
recovery_action_eq = enum_eq recovery_action_enum

pub data OperationClass : Type 0 where
  decision_acceptance memory_write obligation_write state_update conflict_write evidence_write :
      OperationClass

abbrev pub operation_class_code : OperationClass → ℕ
operation_class_code OperationClass.decision_acceptance = 0
operation_class_code OperationClass.memory_write = 1
operation_class_code OperationClass.obligation_write = 2
operation_class_code OperationClass.state_update = 3
operation_class_code OperationClass.conflict_write = 4
operation_class_code OperationClass.evidence_write = 5

abbrev pub operation_class_others : List OperationClass
operation_class_others =
    OperationClass.memory_write ∷ OperationClass.obligation_write ∷ OperationClass.state_update
    ∷ OperationClass.conflict_write ∷ OperationClass.evidence_write ∷ []

pub get-operation_class_code :
    (e : OperationClass)
    → get_or
        (OperationClass.decision_acceptance ∷ operation_class_others)
        (operation_class_code e)
        OperationClass.decision_acceptance
      ≡ e
get-operation_class_code OperationClass.decision_acceptance = refl
get-operation_class_code _ = refl

pub operation_class_code-le :
    (e : OperationClass) → operation_class_code e ≤ length operation_class_others
operation_class_code-le OperationClass.decision_acceptance = omega arith
operation_class_code-le _ = omega arith

instance abbrev pub operation_class_enum : Enum OperationClass
operation_class_enum = record {
  code = operation_class_code;
  first = OperationClass.decision_acceptance;
  others = operation_class_others;
  get-code = get-operation_class_code;
  code-le = operation_class_code-le;
}

instance abbrev pub operation_class_eq : Eq OperationClass
operation_class_eq = enum_eq operation_class_enum
