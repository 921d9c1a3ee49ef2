-- ===== src/Trial/Artifact.antt =====
-- The artifact file of apps/artifact_trial.cpp: the text that `produce` writes, and the mode
-- `verify`, of which the printing is left out. A file is its text.
use qiven_context_draft.Prelude.{
  ℕ, ◌+◌, Bool, false, not, ◌||◌, List, [], ◌∷◌, ◌++◌, Option, none, some, Text, text, ◌==◌, nat_eq,
  list_eq, is_empty, length, to_decimal, if◌then◌else◌,
}
use qiven_context_draft.Foundation.{Bytes, Foundation}
use qiven_context_draft.Cognition.Lifecycles.{MemoryKind, memory_kind_eq}
use qiven_context_draft.Cognition.Records.{Decision, MemoryRecord, Snapshot}
use qiven_context_draft.Codec.Encode.{serialize_snapshot}
use qiven_context_draft.Store.Contract.{CognitionStore}
use qiven_context_draft.Transaction.Digest.{draft_content_id, draft_snapshot_digest}
use qiven_context_draft.Service.State.{Handle, Service}
use qiven_context_draft.Service.Lifetime.{Created, handoff_artifact, create_cognition}
use qiven_context_draft.Trial.Strings.{find, find_from, minus, substr, between, scan}

abbrev pub trial_marker : Text
trial_marker = text "trial: knowledge compaction is lossless only when the artifact is the cause"

-- Each byte as a decimal number and a space.
unfoldable pub byte_text : Bytes → Text
byte_text [] = []
byte_text (b ∷ bytes) = to_decimal b ++ (32 ∷ byte_text bytes)

-- A label and what is written behind it.
abbrev pub Field : Type 0
Field = Text × Text

-- The counts of the records of a snapshot.
abbrev pub count_fields : Snapshot → List Field
count_fields state =
    (text "\ndecisions: ", to_decimal (length state.decisions))
    ∷ (text "\nmemory: ", to_decimal (length state.memory))
    ∷ (text "\nobligations: ", to_decimal (length state.obligations))
    ∷ (text "\nconflicts: ", to_decimal (length state.conflicts))
    ∷ (text "\nviews: ", to_decimal (length state.views))
    ∷ (text "\nprofiles: ", to_decimal (length state.profiles))
    ∷ (text "\npolicy-handoff: ", to_decimal (length state.policy.handoff))
    ∷ (text "\npolicy-recovery: ", to_decimal (length state.policy.recovery))
    ∷ []

unfoldable pub then_fields : List Field → Text → Text
then_fields [] rest = rest
then_fields ((label, value) ∷ fields) rest = label ++ (value ++ then_fields fields rest)

-- The last header lines and the byte section.
abbrev pub byte_section : Bytes → Text
byte_section bytes =
    text "\nmarker: "
    ++ (trial_marker ++ (text "\nbytes-begin\n" ++ (byte_text bytes ++ text "\nbytes-end\n")))

module _ ⦃F : Foundation⦄ where
  unfoldable pub artifact_of : Handle → Text
  artifact_of head =
      let bytes = serialize_snapshot head.body.state in
      text "qiven-artifact v1"
      ++ then_fields
          ((text "\nsnapshot-digest: ", head.body.digest.value)
            ∷ (text "\ncontent-id: ", draft_content_id bytes)
            ∷ count_fields head.body.state)
          (byte_section bytes)

infixl 20 ◌>>=◌
abbrev pub ◌>>=◌ : {A B : Type 0} → Option A → (A → Option B) → Option B
none >>= next = none
some a >>= next = next a

-- What `verify` takes from the file: the two declared identities, and the bytes.
pub record Manifest : Type 0 where
  pub digest : Text
  pub content_id : Text
  pub bytes : Bytes

abbrev pub line_end : Text
line_end = 10 ∷ []

abbrev pub manifest_at : Text → ℕ → ℕ → ℕ → ℕ → Manifest
manifest_at t digest_pos id_pos data_pos end_pos = record {
  digest = substr (digest_pos + 17) (minus (find_from line_end digest_pos t) (digest_pos + 17)) t;
  content_id = substr (id_pos + 12) (minus (find_from line_end id_pos t) (id_pos + 12)) t;
  bytes = scan between (substr (data_pos + 12) (minus end_pos (data_pos + 12)) t);
}

-- `none` is a malformed manifest.
unfoldable pub read_manifest : Text → Option Manifest
read_manifest t = do
  digest_pos ← find (text "snapshot-digest: ") t
  id_pos ← find (text "content-id: ") t
  data_pos ← find (text "bytes-begin\n") t
  end_pos ← find (text "\nbytes-end\n") t
  some (manifest_at t digest_pos id_pos data_pos end_pos)

unfoldable pub has_trial_decision : List Decision → Bool
has_trial_decision [] = false
has_trial_decision (d ∷ ds) = d.title == text "ADR-trial" || has_trial_decision ds

unfoldable pub has_negative_knowledge : List MemoryRecord → Bool
has_negative_knowledge [] = false
has_negative_knowledge (r ∷ rs) =
    r.kind == MemoryKind.negative_knowledge || has_negative_knowledge rs

-- How `verify` ends; `aborted` is an assertion or an exception, and all but
-- it and `recovered` have the exit code 1.
pub data TrialResult : Type 0 where
  unreadable malformed id_mismatch digest_mismatch not_restored missing aborted : TrialResult
  recovered : Handle → TrialResult

abbrev pub facts_of : Created → TrialResult
facts_of (Created.created h) =
    if not (has_trial_decision h.body.state.decisions)
      || not (has_negative_knowledge h.body.state.memory)
    then TrialResult.missing
    else TrialResult.recovered h
facts_of (Created.failed e) = TrialResult.not_restored
facts_of Created.asserted = TrialResult.aborted
facts_of Created.thrown = TrialResult.aborted

module _ ⦃F : Foundation⦄ {S : CognitionStore} where
  abbrev pub restoring : Created × Service S → TrialResult × Service S
  restoring (outcome, s) = (facts_of outcome, s)

  abbrev pub verify_manifest : Option Manifest → Service S → TrialResult × Service S
  verify_manifest none s = (TrialResult.malformed, s)
  verify_manifest (some m) s =
      if not (draft_content_id m.bytes == m.content_id)
      then (TrialResult.id_mismatch, s)
      else if not ((draft_snapshot_digest m.bytes).value == m.digest)
      then (TrialResult.digest_mismatch, s)
      else restoring (create_cognition (handoff_artifact m.bytes m.content_id) s)

  unfoldable pub verify_artifact : Text → Service S → TrialResult × Service S
  verify_artifact artifact s =
      if is_empty artifact
      then (TrialResult.unreadable, s)
      else verify_manifest (read_manifest artifact) s
