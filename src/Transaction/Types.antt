-- ===== src/Transaction/Types.antt =====
-- Actors, operations and transactions of include/qiven/context/persistence.hpp.
use qiven_context_draft.Prelude.{
  ℕ, ℤ, ◌≤◌, ◌≡◌, refl, List, [], ◌∷◌, Option, Text, arith, length, get_or, Eq, Enum, enum_eq,
}
use qiven_context_draft.Cognition.Policy.{Role}
use qiven_context_draft.Cognition.Records.{RevisionId}

pub data WorkMode : Type 0 where
  supervised_foreground unattended : WorkMode

abbrev pub work_mode_code : WorkMode → ℕ
work_mode_code WorkMode.supervised_foreground = 0
work_mode_code WorkMode.unattended = 1

abbrev pub work_mode_others : List WorkMode
work_mode_others = WorkMode.unattended ∷ []

pub get-work_mode_code :
    (e : WorkMode)
    → get_or
        (WorkMode.supervised_foreground ∷ work_mode_others)
        (work_mode_code e)
        WorkMode.supervised_foreground
      ≡ e
get-work_mode_code WorkMode.supervised_foreground = refl
get-work_mode_code _ = refl

pub work_mode_code-le : (e : WorkMode) → work_mode_code e ≤ length work_mode_others
work_mode_code-le WorkMode.supervised_foreground = omega arith
work_mode_code-le _ = omega arith

instance abbrev pub work_mode_enum : Enum WorkMode
work_mode_enum = record {
  code = work_mode_code;
  first = WorkMode.supervised_foreground;
  others = work_mode_others;
  get-code = get-work_mode_code;
  code-le = work_mode_code-le;
}

instance abbrev pub work_mode_eq : Eq WorkMode
work_mode_eq = enum_eq work_mode_enum

pub data OperationKind : Type 0 where
  append_decision supersede_decision add_memory upsert_obligation close_obligation
        transition_obligation update_state add_evidence upsert_profile open_conflict
        resolve_conflict amend_view_spec set_next_boundary :
      OperationKind

abbrev pub operation_kind_code : OperationKind → ℕ
operation_kind_code OperationKind.append_decision = 0
operation_kind_code OperationKind.supersede_decision = 1
operation_kind_code OperationKind.add_memory = 2
operation_kind_code OperationKind.upsert_obligation = 3
operation_kind_code OperationKind.close_obligation = 4
operation_kind_code OperationKind.transition_obligation = 5
operation_kind_code OperationKind.update_state = 6
operation_kind_code OperationKind.add_evidence = 7
operation_kind_code OperationKind.upsert_profile = 8
operation_kind_code OperationKind.open_conflict = 9
operation_kind_code OperationKind.resolve_conflict = 10
operation_kind_code OperationKind.amend_view_spec = 11
operation_kind_code OperationKind.set_next_boundary = 12

abbrev pub operation_kind_others : List OperationKind
operation_kind_others =
    OperationKind.supersede_decision ∷ OperationKind.add_memory ∷ OperationKind.upsert_obligation
    ∷ OperationKind.close_obligation ∷ OperationKind.transition_obligation
    ∷ OperationKind.update_state ∷ OperationKind.add_evidence ∷ OperationKind.upsert_profile
    ∷ OperationKind.open_conflict ∷ OperationKind.resolve_conflict ∷ OperationKind.amend_view_spec
    ∷ OperationKind.set_next_boundary ∷ []

pub get-operation_kind_code :
    (e : OperationKind)
    → get_or
        (OperationKind.append_decision ∷ operation_kind_others)
        (operation_kind_code e)
        OperationKind.append_decision
      ≡ e
get-operation_kind_code OperationKind.append_decision = refl
get-operation_kind_code _ = refl

pub operation_kind_code-le :
    (e : OperationKind) → operation_kind_code e ≤ length operation_kind_others
operation_kind_code-le OperationKind.append_decision = omega arith
operation_kind_code-le _ = omega arith

instance abbrev pub operation_kind_enum : Enum OperationKind
operation_kind_enum = record {
  code = operation_kind_code;
  first = OperationKind.append_decision;
  others = operation_kind_others;
  get-code = get-operation_kind_code;
  code-le = operation_kind_code-le;
}

instance abbrev pub operation_kind_eq : Eq OperationKind
operation_kind_eq = enum_eq operation_kind_enum

pub record AuthenticatedActor : Type 0 where
  pub principal : Text
  pub role : Role
  pub binding : Text
  pub serving_model : Text
  pub reasoning : Text
  pub designation : Text

-- `aux` is a `std::uint8_t`, the ids are `std::int64_t`.
pub record Operation : Type 0 where
  pub kind : OperationKind
  pub record_id : ℤ
  pub successor_record_id : ℤ
  pub aux : ℕ
  pub scope : Text
  pub title : Text
  pub payload : Text
  pub provenance_ref : Text

pub record H2Evidence : Type 0 where
  pub reviewed_delta_digest : Text
  pub reviewer : Text
  pub reviewer_binding : Text
  pub review_ref : Text

pub record ContextTransaction : Type 0 where
  pub base : RevisionId
  pub operations : List Operation
  pub handoff_evidence_ref : Text
  pub h2 : Option H2Evidence
  pub idempotency_key : Text
