-- ===== src/Cognition/Lifecycles/Sources.antt =====
-- The enumerations of the records (include/qiven/context/cognition.hpp): lifecycles, epistemic
-- types, statuses and triggers. Nested enumerations carry the name of their struct.
use qiven_context_draft.Prelude.{
  ℕ, ◌≤◌, ◌≡◌, refl, List, [], ◌∷◌, arith, length, get_or, Eq, Enum, enum_eq,
}

pub data Lifecycle : Type 0 where
  proposed accepted superseded rejected : Lifecycle

abbrev pub lifecycle_code : Lifecycle → ℕ
lifecycle_code Lifecycle.proposed = 0
lifecycle_code Lifecycle.accepted = 1
lifecycle_code Lifecycle.superseded = 2
lifecycle_code Lifecycle.rejected = 3

abbrev pub lifecycle_others : List Lifecycle
lifecycle_others = Lifecycle.accepted ∷ Lifecycle.superseded ∷ Lifecycle.rejected ∷ []

pub get-lifecycle_code :
    (e : Lifecycle)
    → get_or (Lifecycle.proposed ∷ lifecycle_others) (lifecycle_code e) Lifecycle.proposed ≡ e
get-lifecycle_code Lifecycle.proposed = refl
get-lifecycle_code _ = refl

pub lifecycle_code-le : (e : Lifecycle) → lifecycle_code e ≤ length lifecycle_others
lifecycle_code-le Lifecycle.proposed = omega arith
lifecycle_code-le _ = omega arith

instance abbrev pub lifecycle_enum : Enum Lifecycle
lifecycle_enum = record {
  code = lifecycle_code;
  first = Lifecycle.proposed;
  others = lifecycle_others;
  get-code = get-lifecycle_code;
  code-le = lifecycle_code-le;
}

instance abbrev pub lifecycle_eq : Eq Lifecycle
lifecycle_eq = enum_eq lifecycle_enum

pub data EpistemicType : Type 0 where
  observation hypothesis candidate accepted verified rejected : EpistemicType

abbrev pub epistemic_type_code : EpistemicType → ℕ
epistemic_type_code EpistemicType.observation = 0
epistemic_type_code EpistemicType.hypothesis = 1
epistemic_type_code EpistemicType.candidate = 2
epistemic_type_code EpistemicType.accepted = 3
epistemic_type_code EpistemicType.verified = 4
epistemic_type_code EpistemicType.rejected = 5

abbrev pub epistemic_type_others : List EpistemicType
epistemic_type_others =
    EpistemicType.hypothesis ∷ EpistemicType.candidate ∷ EpistemicType.accepted
    ∷ EpistemicType.verified ∷ EpistemicType.rejected ∷ []

pub get-epistemic_type_code :
    (e : EpistemicType)
    → get_or
        (EpistemicType.observation ∷ epistemic_type_others)
        (epistemic_type_code e)
        EpistemicType.observation
      ≡ e
get-epistemic_type_code EpistemicType.observation = refl
get-epistemic_type_code _ = refl

pub epistemic_type_code-le :
    (e : EpistemicType) → epistemic_type_code e ≤ length epistemic_type_others
epistemic_type_code-le EpistemicType.observation = omega arith
epistemic_type_code-le _ = omega arith

instance abbrev pub epistemic_type_enum : Enum EpistemicType
epistemic_type_enum = record {
  code = epistemic_type_code;
  first = EpistemicType.observation;
  others = epistemic_type_others;
  get-code = get-epistemic_type_code;
  code-le = epistemic_type_code-le;
}

instance abbrev pub epistemic_type_eq : Eq EpistemicType
epistemic_type_eq = enum_eq epistemic_type_enum

pub data SourceKind : Type 0 where
  user_statement chat_session git_commit audit repository_file ci_run : SourceKind

abbrev pub source_kind_code : SourceKind → ℕ
source_kind_code SourceKind.user_statement = 0
source_kind_code SourceKind.chat_session = 1
source_kind_code SourceKind.git_commit = 2
source_kind_code SourceKind.audit = 3
source_kind_code SourceKind.repository_file = 4
source_kind_code SourceKind.ci_run = 5

abbrev pub source_kind_others : List SourceKind
source_kind_others =
    SourceKind.chat_session ∷ SourceKind.git_commit ∷ SourceKind.audit ∷ SourceKind.repository_file
    ∷ SourceKind.ci_run ∷ []

pub get-source_kind_code :
    (e : SourceKind)
    → get_or
        (SourceKind.user_statement ∷ source_kind_others)
        (source_kind_code e)
        SourceKind.user_statement
      ≡ e
get-source_kind_code SourceKind.user_statement = refl
get-source_kind_code _ = refl

pub source_kind_code-le : (e : SourceKind) → source_kind_code e ≤ length source_kind_others
source_kind_code-le SourceKind.user_statement = omega arith
source_kind_code-le _ = omega arith

instance abbrev pub source_kind_enum : Enum SourceKind
source_kind_enum = record {
  code = source_kind_code;
  first = SourceKind.user_statement;
  others = source_kind_others;
  get-code = get-source_kind_code;
  code-le = source_kind_code-le;
}

instance abbrev pub source_kind_eq : Eq SourceKind
source_kind_eq = enum_eq source_kind_enum

pub data ConflictStatus : Type 0 where
  opened resolved : ConflictStatus

abbrev pub conflict_status_code : ConflictStatus → ℕ
conflict_status_code ConflictStatus.opened = 0
conflict_status_code ConflictStatus.resolved = 1

abbrev pub conflict_status_others : List ConflictStatus
conflict_status_others = ConflictStatus.resolved ∷ []

pub get-conflict_status_code :
    (e : ConflictStatus)
    → get_or
        (ConflictStatus.opened ∷ conflict_status_others)
        (conflict_status_code e)
        ConflictStatus.opened
      ≡ e
get-conflict_status_code ConflictStatus.opened = refl
get-conflict_status_code _ = refl

pub conflict_status_code-le :
    (e : ConflictStatus) → conflict_status_code e ≤ length conflict_status_others
conflict_status_code-le ConflictStatus.opened = omega arith
conflict_status_code-le _ = omega arith

instance abbrev pub conflict_status_enum : Enum ConflictStatus
conflict_status_enum = record {
  code = conflict_status_code;
  first = ConflictStatus.opened;
  others = conflict_status_others;
  get-code = get-conflict_status_code;
  code-le = conflict_status_code-le;
}

instance abbrev pub conflict_status_eq : Eq ConflictStatus
conflict_status_eq = enum_eq conflict_status_enum
