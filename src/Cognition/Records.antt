-- ===== src/Cognition/Records.antt =====
-- The structs of include/qiven/context/cognition.hpp, up to the whole `Snapshot`.
use qiven_context_draft.Prelude.{
  ℤ, Bool, List, Option, Text, Eq, ◌==◌, ◌≡◌, ap, ◌↔◌, true, list_beq_iff, nat_eq, list_eq,
}
use qiven_context_draft.Cognition.Policy.{
  Role, CapabilityClass, WorkflowLayer, Handoff, RefusalReason, RecoveryAction, OperationClass,
}
use qiven_context_draft.Cognition.Lifecycles.{
  Lifecycle, EpistemicType, SourceKind, ConflictStatus, MemoryKind, MemoryStatus, ObligationStatus,
  TriggerKind,
}
use qiven_context_draft.Cognition.Control.{
  ClaimClass, ActionKind, RequirementKind, RequirementBoundary,
}

-- Three identities that are never one type.
pub record SnapshotDigest : Type 0 where
  pub value : Text

pub record RevisionId : Type 0 where
  pub value : Text

pub record GrantId : Type 0 where
  pub value : Text

abbrev pub revision_beq : RevisionId → RevisionId → Bool
revision_beq a b = a.value == b.value

pub revision_beq_iff : (a b : RevisionId) → (revision_beq a b ≡ true) ↔ (a ≡ b)
revision_beq_iff a b = (
  λ h. ap (λ v. record { value = v }) ((list_beq_iff a.value b.value).0 h),
  λ e. (list_beq_iff a.value b.value).1 (ap (λ (r : RevisionId). r.value) e),
)

instance abbrev pub revision_eq : Eq RevisionId
revision_eq = record { beq = revision_beq; beq_iff = revision_beq_iff }

abbrev pub grant_beq : GrantId → GrantId → Bool
grant_beq a b = a.value == b.value

pub grant_beq_iff : (a b : GrantId) → (grant_beq a b ≡ true) ↔ (a ≡ b)
grant_beq_iff a b = (
  λ h. ap (λ v. record { value = v }) ((list_beq_iff a.value b.value).0 h),
  λ e. (list_beq_iff a.value b.value).1 (ap (λ (r : GrantId). r.value) e),
)

instance abbrev pub grant_eq : Eq GrantId
grant_eq = record { beq = grant_beq; beq_iff = grant_beq_iff }

pub record CapabilityRequirements : Type 0 where
  pub review_grade_reasoning : Bool
  pub execution : CapabilityClass
  pub identity_port_verified : Bool

pub record SourceType : Type 0 where
  pub kind : SourceKind
  pub reference : Text
  pub note : Text

pub record Provenance : Type 0 where
  pub sources : List SourceType

pub record Governance : Type 0 where
  pub root_principal : Text

pub record Constitution : Type 0 where
  pub articles : List Text

pub record RecoveryRule : Type 0 where
  pub reason : RefusalReason
  pub action : RecoveryAction

pub record Conflict : Type 0 where
  pub id : Text
  pub status : ConflictStatus
  pub scope : Text
  pub description : Text
  pub resolution : Text

pub record HandoffPolicy : Type 0 where
  pub op_class : OperationClass
  pub required : Handoff
  pub root_principal_only : Bool

pub record PolicyTable : Type 0 where
  pub handoff : List HandoffPolicy
  pub recovery : List RecoveryRule

pub record InvocationRule : Type 0 where
  pub action : ActionKind
  pub claim_class : Option ClaimClass
  pub requirement : RequirementKind
  pub boundary : RequirementBoundary
  pub subject : Text
  pub blocking : Bool

pub record InvocationPolicy : Type 0 where
  pub present : Bool
  pub rules : List InvocationRule

pub record RoleSpec : Type 0 where
  pub id : Role
  pub authorities : List OperationClass
  pub duties : List Text
  pub floor : CapabilityRequirements
  pub provenance : Provenance

pub record Decision : Type 0 where
  pub id : ℤ
  pub status : Lifecycle
  pub title : Text
  pub content : Text
  pub supersedes : List ℤ
  pub superseded_by : List ℤ
  pub provenance : Provenance

pub record MemoryRecord : Type 0 where
  pub kind : MemoryKind
  pub epistemic : EpistemicType
  pub status : MemoryStatus
  pub title : Text
  pub statement : Text
  pub provenance : Provenance

pub record Obligation : Type 0 where
  pub status : ObligationStatus
  pub trigger : TriggerKind
  pub trigger_value : Text
  pub id : ℤ
  pub statement : Text
  pub completion_criteria : Text

pub record EvidenceRecord : Type 0 where
  pub bound_to : Text
  pub content : Text

pub record StateView : Type 0 where
  pub objective : Text
  pub current : Text
  pub checkpoint_ref : Text
  pub candidate_ref : Text
  pub next_boundary_ref : Text
  pub repositories : Text
  pub roadmap : Text

pub record ProfileRecord : Type 0 where
  pub id : Text
  pub kind : Text
  pub summary : Text
  pub layer : WorkflowLayer

pub record ViewSpec : Type 0 where
  pub id : Text
  pub agent : Text
  pub human : Text
  pub summary : Text
  pub profile_refs : List Text

pub record Snapshot : Type 0 where
  pub governance : Governance
  pub constitution : Constitution
  pub policy : PolicyTable
  pub invocation : InvocationPolicy
  pub state : StateView
  pub decisions : List Decision
  pub memory : List MemoryRecord
  pub obligations : List Obligation
  pub evidence : List EvidenceRecord
  pub conflicts : List Conflict
  pub profiles : List ProfileRecord
  pub views : List ViewSpec
  pub roles : List RoleSpec
