-- ===== src/Cognition/Control.antt =====
-- The enumerations of the control plane's policy (include/qiven/context/cognition.hpp).
use qiven_context_draft.Prelude.{
  ℕ, ◌≤◌, ◌≡◌, refl, List, [], ◌∷◌, arith, length, get_or, Eq, Enum, enum_eq,
}

pub data ClaimClass : Type 0 where
  local_recall canonical_fact live_fact evidence_interpretation judgment : ClaimClass

abbrev pub claim_class_code : ClaimClass → ℕ
claim_class_code ClaimClass.local_recall = 0
claim_class_code ClaimClass.canonical_fact = 1
claim_class_code ClaimClass.live_fact = 2
claim_class_code ClaimClass.evidence_interpretation = 3
claim_class_code ClaimClass.judgment = 4

abbrev pub claim_class_others : List ClaimClass
claim_class_others =
    ClaimClass.canonical_fact ∷ ClaimClass.live_fact ∷ ClaimClass.evidence_interpretation
    ∷ ClaimClass.judgment ∷ []

pub get-claim_class_code :
    (e : ClaimClass)
    → get_or
        (ClaimClass.local_recall ∷ claim_class_others)
        (claim_class_code e)
        ClaimClass.local_recall
      ≡ e
get-claim_class_code ClaimClass.local_recall = refl
get-claim_class_code _ = refl

pub claim_class_code-le : (e : ClaimClass) → claim_class_code e ≤ length claim_class_others
claim_class_code-le ClaimClass.local_recall = omega arith
claim_class_code-le _ = omega arith

instance abbrev pub claim_class_enum : Enum ClaimClass
claim_class_enum = record {
  code = claim_class_code;
  first = ClaimClass.local_recall;
  others = claim_class_others;
  get-code = get-claim_class_code;
  code-le = claim_class_code-le;
}

instance abbrev pub claim_class_eq : Eq ClaimClass
claim_class_eq = enum_eq claim_class_enum

pub data ActionKind : Type 0 where
  begin_task enter_domain create_cpp_symbol introduce_primitive modify_architecture
        modify_public_api invoke_tool retry_failure make_canonical_claim make_live_claim
        modify_referenced_contract commit publish accept_candidate :
      ActionKind

abbrev pub action_kind_code : ActionKind → ℕ
action_kind_code ActionKind.begin_task = 0
action_kind_code ActionKind.enter_domain = 1
action_kind_code ActionKind.create_cpp_symbol = 2
action_kind_code ActionKind.introduce_primitive = 3
action_kind_code ActionKind.modify_architecture = 4
action_kind_code ActionKind.modify_public_api = 5
action_kind_code ActionKind.invoke_tool = 6
action_kind_code ActionKind.retry_failure = 7
action_kind_code ActionKind.make_canonical_claim = 8
action_kind_code ActionKind.make_live_claim = 9
action_kind_code ActionKind.modify_referenced_contract = 10
action_kind_code ActionKind.commit = 11
action_kind_code ActionKind.publish = 12
action_kind_code ActionKind.accept_candidate = 13

abbrev pub action_kind_others : List ActionKind
action_kind_others =
    ActionKind.enter_domain ∷ ActionKind.create_cpp_symbol ∷ ActionKind.introduce_primitive
    ∷ ActionKind.modify_architecture ∷ ActionKind.modify_public_api ∷ ActionKind.invoke_tool
    ∷ ActionKind.retry_failure ∷ ActionKind.make_canonical_claim ∷ ActionKind.make_live_claim
    ∷ ActionKind.modify_referenced_contract ∷ ActionKind.commit ∷ ActionKind.publish
    ∷ ActionKind.accept_candidate ∷ []

pub get-action_kind_code :
    (e : ActionKind)
    → get_or (ActionKind.begin_task ∷ action_kind_others) (action_kind_code e) ActionKind.begin_task
      ≡ e
get-action_kind_code ActionKind.begin_task = refl
get-action_kind_code _ = refl

pub action_kind_code-le : (e : ActionKind) → action_kind_code e ≤ length action_kind_others
action_kind_code-le ActionKind.begin_task = omega arith
action_kind_code-le _ = omega arith

instance abbrev pub action_kind_enum : Enum ActionKind
action_kind_enum = record {
  code = action_kind_code;
  first = ActionKind.begin_task;
  others = action_kind_others;
  get-code = get-action_kind_code;
  code-le = action_kind_code-le;
}

instance abbrev pub action_kind_eq : Eq ActionKind
action_kind_eq = enum_eq action_kind_enum

pub data RequirementKind : Type 0 where
  mandatory_recall search_lower_layer verify_canonical verify_live inspect_tool_contract
        inspect_known_pit run_mechanical_check request_review ask_human :
      RequirementKind

abbrev pub requirement_kind_code : RequirementKind → ℕ
requirement_kind_code RequirementKind.mandatory_recall = 0
requirement_kind_code RequirementKind.search_lower_layer = 1
requirement_kind_code RequirementKind.verify_canonical = 2
requirement_kind_code RequirementKind.verify_live = 3
requirement_kind_code RequirementKind.inspect_tool_contract = 4
requirement_kind_code RequirementKind.inspect_known_pit = 5
requirement_kind_code RequirementKind.run_mechanical_check = 6
requirement_kind_code RequirementKind.request_review = 7
requirement_kind_code RequirementKind.ask_human = 8

abbrev pub requirement_kind_others : List RequirementKind
requirement_kind_others =
    RequirementKind.search_lower_layer ∷ RequirementKind.verify_canonical
    ∷ RequirementKind.verify_live ∷ RequirementKind.inspect_tool_contract
    ∷ RequirementKind.inspect_known_pit ∷ RequirementKind.run_mechanical_check
    ∷ RequirementKind.request_review ∷ RequirementKind.ask_human ∷ []

pub get-requirement_kind_code :
    (e : RequirementKind)
    → get_or
        (RequirementKind.mandatory_recall ∷ requirement_kind_others)
        (requirement_kind_code e)
        RequirementKind.mandatory_recall
      ≡ e
get-requirement_kind_code RequirementKind.mandatory_recall = refl
get-requirement_kind_code _ = refl

pub requirement_kind_code-le :
    (e : RequirementKind) → requirement_kind_code e ≤ length requirement_kind_others
requirement_kind_code-le RequirementKind.mandatory_recall = omega arith
requirement_kind_code-le _ = omega arith

instance abbrev pub requirement_kind_enum : Enum RequirementKind
requirement_kind_enum = record {
  code = requirement_kind_code;
  first = RequirementKind.mandatory_recall;
  others = requirement_kind_others;
  get-code = get-requirement_kind_code;
  code-le = requirement_kind_code-le;
}

instance abbrev pub requirement_kind_eq : Eq RequirementKind
requirement_kind_eq = enum_eq requirement_kind_enum

pub data RequirementBoundary : Type 0 where
  before_judgment before_execution : RequirementBoundary

abbrev pub requirement_boundary_code : RequirementBoundary → ℕ
requirement_boundary_code RequirementBoundary.before_judgment = 0
requirement_boundary_code RequirementBoundary.before_execution = 1

abbrev pub requirement_boundary_others : List RequirementBoundary
requirement_boundary_others = RequirementBoundary.before_execution ∷ []

pub get-requirement_boundary_code :
    (e : RequirementBoundary)
    → get_or
        (RequirementBoundary.before_judgment ∷ requirement_boundary_others)
        (requirement_boundary_code e)
        RequirementBoundary.before_judgment
      ≡ e
get-requirement_boundary_code RequirementBoundary.before_judgment = refl
get-requirement_boundary_code _ = refl

pub requirement_boundary_code-le :
    (e : RequirementBoundary) → requirement_boundary_code e ≤ length requirement_boundary_others
requirement_boundary_code-le RequirementBoundary.before_judgment = omega arith
requirement_boundary_code-le _ = omega arith

instance abbrev pub requirement_boundary_enum : Enum RequirementBoundary
requirement_boundary_enum = record {
  code = requirement_boundary_code;
  first = RequirementBoundary.before_judgment;
  others = requirement_boundary_others;
  get-code = get-requirement_boundary_code;
  code-le = requirement_boundary_code-le;
}

instance abbrev pub requirement_boundary_eq : Eq RequirementBoundary
requirement_boundary_eq = enum_eq requirement_boundary_enum
