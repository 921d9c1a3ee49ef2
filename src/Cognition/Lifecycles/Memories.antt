-- ===== src/Cognition/Lifecycles/Memories.antt =====
-- The enumerations of the records (include/qiven/context/cognition.hpp): lifecycles, epistemic
-- types, statuses and triggers. Nested enumerations carry the name of their struct.
use qiven_context_draft.Prelude.{
  ℕ, ◌≤◌, ◌≡◌, refl, List, [], ◌∷◌, arith, length, get_or, Eq, Enum, enum_eq,
}

pub data MemoryKind : Type 0 where
  fact lesson protocol risk invariant negative_knowledge : MemoryKind

abbrev pub memory_kind_code : MemoryKind → ℕ
memory_kind_code MemoryKind.fact = 0
memory_kind_code MemoryKind.lesson = 1
memory_kind_code MemoryKind.protocol = 2
memory_kind_code MemoryKind.risk = 3
memory_kind_code MemoryKind.invariant = 4
memory_kind_code MemoryKind.negative_knowledge = 5

abbrev pub memory_kind_others : List MemoryKind
memory_kind_others =
    MemoryKind.lesson ∷ MemoryKind.protocol ∷ MemoryKind.risk ∷ MemoryKind.invariant
    ∷ MemoryKind.negative_knowledge ∷ []

pub get-memory_kind_code :
    (e : MemoryKind)
    → get_or (MemoryKind.fact ∷ memory_kind_others) (memory_kind_code e) MemoryKind.fact ≡ e
get-memory_kind_code MemoryKind.fact = refl
get-memory_kind_code _ = refl

pub memory_kind_code-le : (e : MemoryKind) → memory_kind_code e ≤ length memory_kind_others
memory_kind_code-le MemoryKind.fact = omega arith
memory_kind_code-le _ = omega arith

instance abbrev pub memory_kind_enum : Enum MemoryKind
memory_kind_enum = record {
  code = memory_kind_code;
  first = MemoryKind.fact;
  others = memory_kind_others;
  get-code = get-memory_kind_code;
  code-le = memory_kind_code-le;
}

instance abbrev pub memory_kind_eq : Eq MemoryKind
memory_kind_eq = enum_eq memory_kind_enum

pub data MemoryStatus : Type 0 where
  active superseded : MemoryStatus

abbrev pub memory_status_code : MemoryStatus → ℕ
memory_status_code MemoryStatus.active = 0
memory_status_code MemoryStatus.superseded = 1

abbrev pub memory_status_others : List MemoryStatus
memory_status_others = MemoryStatus.superseded ∷ []

pub get-memory_status_code :
    (e : MemoryStatus)
    → get_or (MemoryStatus.active ∷ memory_status_others) (memory_status_code e) MemoryStatus.active
      ≡ e
get-memory_status_code MemoryStatus.active = refl
get-memory_status_code _ = refl

pub memory_status_code-le : (e : MemoryStatus) → memory_status_code e ≤ length memory_status_others
memory_status_code-le MemoryStatus.active = omega arith
memory_status_code-le _ = omega arith

instance abbrev pub memory_status_enum : Enum MemoryStatus
memory_status_enum = record {
  code = memory_status_code;
  first = MemoryStatus.active;
  others = memory_status_others;
  get-code = get-memory_status_code;
  code-le = memory_status_code-le;
}

instance abbrev pub memory_status_eq : Eq MemoryStatus
memory_status_eq = enum_eq memory_status_enum

pub data ObligationStatus : Type 0 where
  opened deferred blocked done cancelled superseded : ObligationStatus

abbrev pub obligation_status_code : ObligationStatus → ℕ
obligation_status_code ObligationStatus.opened = 0
obligation_status_code ObligationStatus.deferred = 1
obligation_status_code ObligationStatus.blocked = 2
obligation_status_code ObligationStatus.done = 3
obligation_status_code ObligationStatus.cancelled = 4
obligation_status_code ObligationStatus.superseded = 5

abbrev pub obligation_status_others : List ObligationStatus
obligation_status_others =
    ObligationStatus.deferred ∷ ObligationStatus.blocked ∷ ObligationStatus.done
    ∷ ObligationStatus.cancelled ∷ ObligationStatus.superseded ∷ []

pub get-obligation_status_code :
    (e : ObligationStatus)
    → get_or
        (ObligationStatus.opened ∷ obligation_status_others)
        (obligation_status_code e)
        ObligationStatus.opened
      ≡ e
get-obligation_status_code ObligationStatus.opened = refl
get-obligation_status_code _ = refl

pub obligation_status_code-le :
    (e : ObligationStatus) → obligation_status_code e ≤ length obligation_status_others
obligation_status_code-le ObligationStatus.opened = omega arith
obligation_status_code-le _ = omega arith

instance abbrev pub obligation_status_enum : Enum ObligationStatus
obligation_status_enum = record {
  code = obligation_status_code;
  first = ObligationStatus.opened;
  others = obligation_status_others;
  get-code = get-obligation_status_code;
  code-le = obligation_status_code-le;
}

instance abbrev pub obligation_status_eq : Eq ObligationStatus
obligation_status_eq = enum_eq obligation_status_enum

pub data TriggerKind : Type 0 where
  on_touch before after on_change on_date manual : TriggerKind

abbrev pub trigger_kind_code : TriggerKind → ℕ
trigger_kind_code TriggerKind.on_touch = 0
trigger_kind_code TriggerKind.before = 1
trigger_kind_code TriggerKind.after = 2
trigger_kind_code TriggerKind.on_change = 3
trigger_kind_code TriggerKind.on_date = 4
trigger_kind_code TriggerKind.manual = 5

abbrev pub trigger_kind_others : List TriggerKind
trigger_kind_others =
    TriggerKind.before ∷ TriggerKind.after ∷ TriggerKind.on_change ∷ TriggerKind.on_date
    ∷ TriggerKind.manual ∷ []

pub get-trigger_kind_code :
    (e : TriggerKind)
    → get_or (TriggerKind.on_touch ∷ trigger_kind_others) (trigger_kind_code e) TriggerKind.on_touch
      ≡ e
get-trigger_kind_code TriggerKind.on_touch = refl
get-trigger_kind_code _ = refl

pub trigger_kind_code-le : (e : TriggerKind) → trigger_kind_code e ≤ length trigger_kind_others
trigger_kind_code-le TriggerKind.on_touch = omega arith
trigger_kind_code-le _ = omega arith

instance abbrev pub trigger_kind_enum : Enum TriggerKind
trigger_kind_enum = record {
  code = trigger_kind_code;
  first = TriggerKind.on_touch;
  others = trigger_kind_others;
  get-code = get-trigger_kind_code;
  code-le = trigger_kind_code-le;
}

instance abbrev pub trigger_kind_eq : Eq TriggerKind
trigger_kind_eq = enum_eq trigger_kind_enum
