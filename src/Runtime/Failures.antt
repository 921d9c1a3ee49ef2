-- ===== src/Runtime/Failures.antt =====
-- What a failure leaves behind for the next attempt (include/qiven/context/runtime.hpp): its
-- normalized text, the known pits it recalls, and the rule on retries.
use qiven_context_draft.Prelude.{
  ℕ, Bool, true, false, not, ◌&&◌, ◌||◌, List, [], ◌∷◌, ◌++◌, none, some, Text, text, ◌==◌, nat_eq,
  list_eq, is_empty, is_digit, if◌then◌else◌, leb, suc,
}
use qiven_context_draft.Cognition.Lifecycles.Memories.{MemoryKind}
use qiven_context_draft.Cognition.Records.{MemoryRecord, Snapshot}
use qiven_context_draft.Runtime.Invocation.{ActionIntent, FailureFingerprint}

-- `std::string::find` other than `npos`.
unfoldable pub is_prefix : Text → Text → Bool
is_prefix [] t = true
is_prefix (c ∷ cs) [] = false
is_prefix (c ∷ cs) (d ∷ ds) = (c == d) && is_prefix cs ds

unfoldable pub contains : Text → Text → Bool
contains needle [] = is_empty needle
contains needle (c ∷ cs) = is_prefix needle (c ∷ cs) || contains needle cs

abbrev pub count_digits : Text → ℕ
count_digits [] = 0
count_digits (c ∷ cs) = if is_digit c then suc (count_digits cs) else count_digits cs

unfoldable pub is_volatile : Text → Bool
is_volatile word =
    leb 4 (count_digits word)
    || (contains (text "tmp") word || contains (text ".generated-temp") word)

abbrev pub is_space : ℕ → Bool
is_space c = (c == b' ') || ((c == 9) || (c == 10))

-- A word is appended, behind a space unless it is the first, or dropped.
unfoldable pub flush : Text → Text → Text
flush out word =
    if is_empty word || is_volatile word
    then out
    else if is_empty out
    then word
    else out ++ b' ' ∷ word

-- The two variables of the loop.
pub record Words : Type 0 where
  pub out : Text
  pub word : Text

abbrev pub take_char : ℕ → Words → Words
take_char c w =
    if is_space c
    then record { out = flush w.out w.word; word = [] }
    else record w { word = w.word ++ c ∷ [] }

unfoldable pub take_chars : Text → Words → Words
take_chars [] w = w
take_chars (c ∷ cs) w = take_chars cs (take_char c w)

abbrev pub no_words : Words
no_words = record { out = []; word = [] }

unfoldable pub normalize_failure_text : Text → Text
normalize_failure_text message = let w = take_chars message no_words in flush w.out w.word

abbrev pub is_pit : MemoryKind → Bool
is_pit MemoryKind.risk = true
is_pit MemoryKind.lesson = true
is_pit _ = false

abbrev pub selects : Text → MemoryRecord → Bool
selects selector r =
    not (is_empty selector) && (contains selector r.title || contains selector r.statement)

abbrev pub is_related : FailureFingerprint → MemoryRecord → Bool
is_related fingerprint r =
    is_pit r.kind && (selects fingerprint.tool r || selects fingerprint.category r)

unfoldable pub related_in : List MemoryRecord → FailureFingerprint → List Text
related_in [] fingerprint = []
related_in (r ∷ rs) fingerprint =
    let rest = related_in rs fingerprint in
    if is_related fingerprint r then (r.title ++ (text ": " ++ r.statement)) ∷ rest else rest

unfoldable pub find_related_records : Snapshot → FailureFingerprint → List Text
find_related_records snapshot fingerprint = related_in snapshot.memory fingerprint

pub record RetryEvidenceState : Type 0 where
  pub has_new_evidence : Bool

abbrev pub failure_text : FailureFingerprint → ActionIntent → Text
failure_text prior candidate = elim candidate.prior_failure [
  | some own ↦ own.stable_message
  | none ↦ prior.stable_message
]

-- The same operation of the same tool, with the same normalized text of its failure.
abbrev pub is_equivalent : FailureFingerprint → ActionIntent → Bool
is_equivalent prior candidate =
    let same_operation =
      (candidate.tool == prior.tool) && (candidate.operation == prior.operation) in
    let same_signature =
      normalize_failure_text (failure_text prior candidate)
      == normalize_failure_text prior.stable_message in
    same_operation && same_signature

unfoldable pub retry_permitted : FailureFingerprint → ActionIntent → RetryEvidenceState → Bool
retry_permitted prior candidate evidence =
    if evidence.has_new_evidence then true else not (is_equivalent prior candidate)
