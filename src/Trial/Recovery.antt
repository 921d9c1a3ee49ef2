-- ===== src/Trial/Recovery.antt =====
-- The mode `verify` of apps/artifact_trial.cpp as a whole: which files it accepts, and what it
-- recovers from them.
use qiven_context_draft.Prelude.{
  ◌<◌, ◌^◌, ◌≡◌, refl, sym, ap, ◌∙◌, true, false, ◌||◌, List, [], ◌∷◌, map, some, ◌==◌, nat_eq,
  list_eq, is_empty, length, All, beq_refl, text,
}
use qiven_context_draft.Foundation.{Bytes, Foundation, FoundationLaws}
use qiven_context_draft.Cognition.Lifecycles.{MemoryKind, memory_kind_eq}
use qiven_context_draft.Cognition.Records.{MemoryRecord, Snapshot}
use qiven_context_draft.Codec.Encode.{serialize_snapshot}
use qiven_context_draft.Codec.Fits.{Fits, restored, restored_memory}
use qiven_context_draft.Store.Contract.{CognitionStore}
use qiven_context_draft.Transaction.Digest.{draft_content_id, draft_snapshot_digest}
use qiven_context_draft.Service.State.{QuarantineState, Handle, Service, find_entry}
use qiven_context_draft.Service.Lifetime.{Created, handoff_artifact, create_cognition}
use qiven_context_draft.Service.Steps.{Reachable}
use qiven_context_draft.Read.Artifact.{read_from_cognition, read_from_cognition-Restored}
use qiven_context_draft.Trial.Artifact.{
  TrialResult, artifact_of, has_trial_decision, has_negative_knowledge, facts_of, verify_manifest,
  verify_artifact,
}
use qiven_context_draft.Trial.Numbers.{IsByte}
use qiven_context_draft.Trial.RoundTrip.{read_manifest-artifact_of}

-- A head that the trial can be held with: its digest is that of its bytes, these are bytes, and it
-- holds the decision and the negative knowledge that the trial looks for.
pub record IsTrialHead ⦃F : Foundation⦄ (head : Handle) : Type 0 where
  pub fits : Fits head.body.state
  pub digest : head.body.digest ≡ draft_snapshot_digest (serialize_snapshot head.body.state)
  pub bytes : All IsByte (serialize_snapshot head.body.state)
  pub size : length (artifact_of head) < 2 ^ 64
  pub decision : has_trial_decision head.body.state.decisions ≡ true
  pub knowledge : has_negative_knowledge head.body.state.memory ≡ true

-- What the consumer has after it accepted the artifact of a head.
pub record Recovered ⦃F : Foundation⦄ {S : CognitionStore} (head : Handle) (s : Service S)
    : Type 0 where
  pub handle : Handle
  pub after : Service S
  pub verified : verify_artifact (artifact_of head) s ≡ (TrialResult.recovered handle, after)
  pub state : handle.body.state ≡ restored head.body.state
  pub digest : handle.body.digest ≡ head.body.digest
  pub quarantine : handle.body.quarantine ≡ QuarantineState.isolated
  pub is_live : find_entry after.live (some handle) ≡ some handle
  pub store_kept : after.store ≡ s.store

knowledge-restored :
    (rs : List MemoryRecord)
    → has_negative_knowledge (map restored_memory rs) ≡ has_negative_knowledge rs
unfolding has_negative_knowledge restored_memory
knowledge-restored [] = refl
knowledge-restored (r ∷ rs) =
    ap (λ b. r.kind == MemoryKind.negative_knowledge || b) (knowledge-restored rs)

facts-restored :
    (h : Handle) (state : Snapshot)
    → h.body.state ≡ restored state
    → has_trial_decision state.decisions ≡ true
    → has_negative_knowledge state.memory ≡ true
    → facts_of (Created.created h) ≡ TrialResult.recovered h
unfolding restored
facts-restored h state same d k =
    let decision : has_trial_decision h.body.state.decisions ≡ true =
      ap (λ x. has_trial_decision x.decisions) same ∙ d in
    let knowledge : has_negative_knowledge h.body.state.memory ≡ true =
      ap (λ x. has_negative_knowledge x.memory) same ∙ knowledge-restored state.memory ∙ k in
    rw (decision, knowledge) refl

nonempty_artifact : ⦃F : Foundation⦄ (head : Handle) → is_empty (artifact_of head) ≡ false
unfolding artifact_of text
nonempty_artifact head = refl

module _ ⦃F : Foundation⦄ {S : CognitionStore} where
  restored_from :
      (bytes : Bytes) (s s' : Service S) (h : Handle)
      → create_cognition (handoff_artifact bytes (draft_content_id bytes)) s
        ≡ (Created.created h, s')
      → verify_manifest
          (some (record {
            digest = (draft_snapshot_digest bytes).value;
            content_id = draft_content_id bytes;
            bytes = bytes;
          }))
          s
        ≡ (facts_of (Created.created h), s')
  restored_from bytes s s' h e =
      rw (beq_refl (draft_content_id bytes), beq_refl (draft_snapshot_digest bytes).value, e) refl

  -- `verify` accepts the file that `produce` writes for such a head, in any reachable service: the
  -- consumer has a live isolated cognition with the head's digest and its state, up to the two
  -- members that the format drops, and the store is as it was.
  pub verify_artifact-Recovered :
      ⦃L : FoundationLaws F⦄ (head : Handle) (s : Service S)
      → Reachable s
      → IsTrialHead head
      → Recovered head s
  unfolding verify_artifact read_from_cognition
  verify_artifact-Recovered head s reach t =
      let bytes = serialize_snapshot head.body.state in
      let r =
        read_from_cognition-Restored head (record { task_scope = []; token_budget = 0 }) s reach
          t.fits in
      record {
        handle = r.restored_handle;
        after = r.after;
        verified =
            rw (nonempty_artifact head, read_manifest-artifact_of head t.digest t.bytes t.size)
              (restored_from bytes s r.after r.restored_handle r.created
                ∙ ap (λ x. (x, r.after))
                    (facts-restored r.restored_handle head.body.state r.state t.decision
                      t.knowledge));
        state = r.state;
        digest = r.digest ∙ sym t.digest;
        quarantine = r.quarantine;
        is_live = r.is_live;
        store_kept = r.store_kept;
      }
