-- ===== src/Cognition/Policy/Roles.antt =====
-- The enumerations of the authority policy (include/qiven/context/cognition.hpp): roles, handoffs,
-- refusal reasons and recovery actions.
use qiven_context_draft.Prelude.{
  ℕ, ◌≤◌, ◌≡◌, refl, List, [], ◌∷◌, arith, length, get_or, Eq, Enum, enum_eq,
}

pub data Role : Type 0 where
  owner brother worker : Role

abbrev pub role_code : Role → ℕ
role_code Role.owner = 0
role_code Role.brother = 1
role_code Role.worker = 2

abbrev pub role_others : List Role
role_others = Role.brother ∷ Role.worker ∷ []

pub get-role_code : (e : Role) → get_or (Role.owner ∷ role_others) (role_code e) Role.owner ≡ e
get-role_code Role.owner = refl
get-role_code _ = refl

pub role_code-le : (e : Role) → role_code e ≤ length role_others
role_code-le Role.owner = omega arith
role_code-le _ = omega arith

instance abbrev pub role_enum : Enum Role
role_enum = record {
  code = role_code;
  first = Role.owner;
  others = role_others;
  get-code = get-role_code;
  code-le = role_code-le;
}

instance abbrev pub role_eq : Eq Role
role_eq = enum_eq role_enum

pub data CapabilityClass : Type 0 where
  no_reach local_supervised host_brokered : CapabilityClass

abbrev pub capability_class_code : CapabilityClass → ℕ
capability_class_code CapabilityClass.no_reach = 0
capability_class_code CapabilityClass.local_supervised = 1
capability_class_code CapabilityClass.host_brokered = 2

abbrev pub capability_class_others : List CapabilityClass
capability_class_others = CapabilityClass.local_supervised ∷ CapabilityClass.host_brokered ∷ []

pub get-capability_class_code :
    (e : CapabilityClass)
    → get_or
        (CapabilityClass.no_reach ∷ capability_class_others)
        (capability_class_code e)
        CapabilityClass.no_reach
      ≡ e
get-capability_class_code CapabilityClass.no_reach = refl
get-capability_class_code _ = refl

pub capability_class_code-le :
    (e : CapabilityClass) → capability_class_code e ≤ length capability_class_others
capability_class_code-le CapabilityClass.no_reach = omega arith
capability_class_code-le _ = omega arith

instance abbrev pub capability_class_enum : Enum CapabilityClass
capability_class_enum = record {
  code = capability_class_code;
  first = CapabilityClass.no_reach;
  others = capability_class_others;
  get-code = get-capability_class_code;
  code-le = capability_class_code-le;
}

instance abbrev pub capability_class_eq : Eq CapabilityClass
capability_class_eq = enum_eq capability_class_enum

pub data WorkflowLayer : Type 0 where
  canonical_law capability_procedure role_choreography environment_ergonomics : WorkflowLayer

abbrev pub workflow_layer_code : WorkflowLayer → ℕ
workflow_layer_code WorkflowLayer.canonical_law = 0
workflow_layer_code WorkflowLayer.capability_procedure = 1
workflow_layer_code WorkflowLayer.role_choreography = 2
workflow_layer_code WorkflowLayer.environment_ergonomics = 3

abbrev pub workflow_layer_others : List WorkflowLayer
workflow_layer_others =
    WorkflowLayer.capability_procedure ∷ WorkflowLayer.role_choreography
    ∷ WorkflowLayer.environment_ergonomics ∷ []

pub get-workflow_layer_code :
    (e : WorkflowLayer)
    → get_or
        (WorkflowLayer.canonical_law ∷ workflow_layer_others)
        (workflow_layer_code e)
        WorkflowLayer.canonical_law
      ≡ e
get-workflow_layer_code WorkflowLayer.canonical_law = refl
get-workflow_layer_code _ = refl

pub workflow_layer_code-le :
    (e : WorkflowLayer) → workflow_layer_code e ≤ length workflow_layer_others
workflow_layer_code-le WorkflowLayer.canonical_law = omega arith
workflow_layer_code-le _ = omega arith

instance abbrev pub workflow_layer_enum : Enum WorkflowLayer
workflow_layer_enum = record {
  code = workflow_layer_code;
  first = WorkflowLayer.canonical_law;
  others = workflow_layer_others;
  get-code = get-workflow_layer_code;
  code-le = workflow_layer_code-le;
}

instance abbrev pub workflow_layer_eq : Eq WorkflowLayer
workflow_layer_eq = enum_eq workflow_layer_enum

pub data Handoff : Type 0 where
  h_none h1_execution h2_review h3_authority h4_recovery_presence : Handoff

abbrev pub handoff_code : Handoff → ℕ
handoff_code Handoff.h_none = 0
handoff_code Handoff.h1_execution = 1
handoff_code Handoff.h2_review = 2
handoff_code Handoff.h3_authority = 3
handoff_code Handoff.h4_recovery_presence = 4

abbrev pub handoff_others : List Handoff
handoff_others =
    Handoff.h1_execution ∷ Handoff.h2_review ∷ Handoff.h3_authority ∷ Handoff.h4_recovery_presence
    ∷ []

pub get-handoff_code :
    (e : Handoff) → get_or (Handoff.h_none ∷ handoff_others) (handoff_code e) Handoff.h_none ≡ e
get-handoff_code Handoff.h_none = refl
get-handoff_code _ = refl

pub handoff_code-le : (e : Handoff) → handoff_code e ≤ length handoff_others
handoff_code-le Handoff.h_none = omega arith
handoff_code-le _ = omega arith

instance abbrev pub handoff_enum : Enum Handoff
handoff_enum = record {
  code = handoff_code;
  first = Handoff.h_none;
  others = handoff_others;
  get-code = get-handoff_code;
  code-le = handoff_code-le;
}

instance abbrev pub handoff_eq : Eq Handoff
handoff_eq = enum_eq handoff_enum
