-- ===== src/Examples/Trials.antt =====
-- An artifact file of a head with the decision and the negative knowledge of the trial.
use qiven_context_draft.Prelude.{
  ◌^◌, ◌≡◌, Bool, true, refl, ◌&&◌, [], ◌∷◌, text, to_decimal, ltb, ltb→lt, length, list_beq, All,
  arith,
}
use qiven_context_draft.Prelude.Int.{to_bits}
use qiven_context_draft.Foundation.{Bytes}
use qiven_context_draft.Cognition.Lifecycles.{MemoryKind}
use qiven_context_draft.Cognition.Records.{Snapshot}
use qiven_context_draft.Codec.Writer.{
  put_u8, put_u32, put_u64, put_i64, put_str, put_bool, put_enum, put_each, put_many,
}
use qiven_context_draft.Codec.Encode.{
  put_handoff_policy, put_state, put_decision, put_memory, put_policy, put_invocation, put_body,
  serialize_snapshot,
}
use qiven_context_draft.Codec.Fits.{Fits}
use qiven_context_draft.Transaction.Digest.{draft_content_id, draft_snapshot_digest}
use qiven_context_draft.Service.State.{Handle}
use qiven_context_draft.Trial.Artifact.{
  byte_text, then_fields, artifact_of, has_trial_decision, has_negative_knowledge,
}
use qiven_context_draft.Trial.Numbers.{IsByte}
use qiven_context_draft.Trial.Recovery.{IsTrialHead, Recovered, verify_artifact-Recovered}
use qiven_context_draft.Trial.Checks.{Checked, verify_artifact-Checked}
use qiven_context_draft.Examples.Port.{plain, plain_laws}
use qiven_context_draft.Examples.World.{world, first_handle, booted, booted-Reachable}
use qiven_context_draft.Examples.Reads.{adopted, remembered}

abbrev trial_state : Snapshot
trial_state = record world {
  obligations = [];
  decisions = record adopted { title = text "ADR-trial" } ∷ [];
  memory = remembered MemoryKind.negative_knowledge (text "not so") ∷ [];
}

abbrev head : Handle
head = record first_handle {
  body = record first_handle.body {
    state = trial_state;
    digest = draft_snapshot_digest (serialize_snapshot trial_state);
  };
}

trial_state-Fits : Fits trial_state
unfolding text
trial_state-Fits = record {
  root_principal = omega arith;
  articles = (omega arith, tt);
  handoff = omega arith;
  recovery = omega arith;
  rules = (omega arith, tt);
  state = record {
    objective = omega arith;
    current = omega arith;
    checkpoint_ref = omega arith;
    candidate_ref = omega arith;
    next_boundary_ref = omega arith;
    repositories = omega arith;
    roadmap = omega arith;
  };
  decisions = (
    omega arith,
    (
      record {
        id = omega arith;
        title = omega arith;
        content = omega arith;
        supersedes = (omega arith, tt);
        superseded_by = (omega arith, tt);
        sources = (omega arith, tt);
      },
      tt,
    ),
  );
  memory = (
    omega arith,
    (record { title = omega arith; statement = omega arith; sources = (omega arith, tt) }, tt),
  );
  obligations = (omega arith, tt);
  evidence = (omega arith, tt);
  conflicts = (omega arith, tt);
  profiles = (omega arith, tt);
  views = (omega arith, tt);
  roles = (omega arith, tt);
}

abbrev are_bytes : Bytes → Bool
are_bytes [] = true
are_bytes (b ∷ bs) = ltb b 256 && are_bytes bs

are_bytes-All : (bs : Bytes) → are_bytes bs ≡ true → All IsByte bs
are_bytes-All [] h = tt
are_bytes-All (b ∷ bs) h = (ground (arith, h), are_bytes-All bs (ground (arith, h)))

encoded : are_bytes (serialize_snapshot trial_state) ≡ true
unfolding serialize_snapshot put_body put_policy put_invocation put_memory put_decision put_state
    put_handoff_policy put_many put_each put_enum put_bool put_str put_i64 put_u64 put_u32 put_u8
    text to_bits
encoded = refl

sized : ltb (length (artifact_of head)) (2 ^ 64) ≡ true
unfolding artifact_of then_fields byte_text draft_snapshot_digest draft_content_id to_decimal
    serialize_snapshot put_body put_policy put_invocation put_memory put_decision put_state
    put_handoff_policy put_many put_each put_enum put_bool put_str put_i64 put_u64 put_u32 put_u8
    text to_bits
sized = refl

head-IsTrialHead : IsTrialHead head
unfolding has_trial_decision has_negative_knowledge list_beq text
head-IsTrialHead = record {
  fits = trial_state-Fits;
  digest = refl;
  bytes = are_bytes-All _ encoded;
  size = ltb→lt _ _ sized;
  decision = refl;
  knowledge = refl;
}

verify_artifact-Recovered_example : Recovered head booted
verify_artifact-Recovered_example =
    verify_artifact-Recovered head booted booted-Reachable head-IsTrialHead

abbrev kept : Recovered head booted
kept = verify_artifact-Recovered head booted booted-Reachable head-IsTrialHead

verify_artifact-Checked_example : Checked (artifact_of head) booted kept.handle kept.after
verify_artifact-Checked_example =
    verify_artifact-Checked (artifact_of head) booted kept.after kept.handle kept.verified
