-- ===== src/Read/Artifact.antt =====
-- A cognition as an artifact: `read_from_cognition` on one side, and `create_cognition` with a
-- `HandoffArtifact` on the other (src/persistence.cpp).
use qiven_context_draft.Prelude.{
  ◌≡◌, ◌≢◌, refl, ◌∙◌, ◌+◌, ◌%◌, ◌^◌, false, List, [], ◌∷◌, ◌++◌, none, some, text, ◌==◌, nat_eq,
  list_eq, is_empty, All, beq_refl, beq_of_ne, arith,
}
use qiven_context_draft.Foundation.{Foundation, FoundationLaws, Bytes}
use qiven_context_draft.Cognition.Policy.{RefusalReason}
use qiven_context_draft.Cognition.Records.{Snapshot, RevisionId}
use qiven_context_draft.Codec.Writer.{put_u8}
use qiven_context_draft.Codec.Reader.{ok, error, DeserializeErrorKind}
use qiven_context_draft.Codec.Encode.{serialize_snapshot}
use qiven_context_draft.Codec.Decode.{deserialize}
use qiven_context_draft.Codec.Fits.{Fits, restored}
use qiven_context_draft.Codec.RoundTrip.{deserialize-serialize_snapshot}
use qiven_context_draft.Store.Contract.{CognitionStore}
use qiven_context_draft.Store.Memory.{no_revision}
use qiven_context_draft.Transaction.Types.{ContextTransaction}
use qiven_context_draft.Transaction.Digest.{draft_content_id, draft_snapshot_digest}
use qiven_context_draft.Service.State.{
  QuarantineState, quarantine_state_eq, Handle, Service, ExecutionGrant, refuse, find_live,
  find_entry,
}
use qiven_context_draft.Service.Lifetime.{
  Created, handoff_artifact, mint, materialized, create_cognition,
}
use qiven_context_draft.Service.Live.{IsBelow}
use qiven_context_draft.Service.Write.{check_entry, replayed, write_entry, write_to_cognition}
use qiven_context_draft.Service.Inversion.{write-fresh}
use qiven_context_draft.Service.Steps.{Reachable}
use qiven_context_draft.Service.Reach.{Reachable-IsSound}
use qiven_context_draft.Read.Bundle.{Query}

-- The whole materialization, whatever the query.
unfoldable pub read_from_cognition : Handle → Query → Bytes
read_from_cognition handle query = serialize_snapshot handle.body.state

serialize-nonempty : (snapshot : Snapshot) → is_empty (serialize_snapshot snapshot) ≡ false
unfolding serialize_snapshot put_u8
serialize-nonempty snapshot = refl

find_live-new :
    (hs : List Handle) (h : Handle)
    → All (IsBelow h.address) hs
    → find_live (hs ++ h ∷ []) h.address ≡ some h
unfolding find_live
find_live-new [] h b = rw (beq_refl h.address)
find_live-new (k ∷ hs) h b =
    let other : (k.address == h.address) ≡ false =
      beq_of_ne k.address h.address (λ e. omega (arith, b.0, e)) in
    rw other (find_live-new hs h b.1)

module _ ⦃F : Foundation⦄ where
  content_id-nonempty : (bytes : Bytes) → is_empty (draft_content_id bytes) ≡ false
  unfolding draft_content_id text
  content_id-nonempty bytes = refl

module _ ⦃F : Foundation⦄ {S : CognitionStore} where
  materialized-ok :
      (bytes : Bytes) (revision : RevisionId) (quarantine : QuarantineState) (s : Service S)
      (snapshot : Snapshot)
      → is_empty bytes ≡ false
      → deserialize bytes ≡ ok snapshot
      → materialized bytes revision quarantine s ≡ mint bytes revision quarantine s (ok snapshot)
  unfolding materialized
  materialized-ok bytes revision quarantine s snapshot h e = rw (h, e)

  accepted_artifact :
      (bytes : Bytes) (s : Service S)
      → create_cognition (handoff_artifact bytes (draft_content_id bytes)) s
        ≡ materialized bytes no_revision QuarantineState.isolated s
  unfolding create_cognition
  accepted_artifact bytes s = rw (content_id-nonempty bytes, beq_refl (draft_content_id bytes))

  tampered_artifact :
      (bytes artifact : Bytes) (s : Service S)
      → draft_content_id bytes ≢ draft_content_id artifact
      → create_cognition (handoff_artifact bytes (draft_content_id artifact)) s ≡ (
        Created.failed
            (error DeserializeErrorKind.digest_mismatch (text "artifact digest mismatch")),
        s,
      )
  unfolding create_cognition
  tampered_artifact bytes artifact s h =
      rw (content_id-nonempty artifact, beq_of_ne (draft_content_id bytes) _ h)

  -- No grant writes through a handle that is isolated.
  isolated-refused :
      (handle : Handle) (s : Service S) (transaction : ContextTransaction) (grant : ExecutionGrant)
      → find_entry s.live (some handle) ≡ some handle
      → handle.body.quarantine ≡ QuarantineState.isolated
      → replayed transaction s ≡ none
      → write_to_cognition (some handle) transaction grant s
        ≡ some (refuse RefusalReason.governance_denied, s)
  unfolding write_entry check_entry
  isolated-refused handle s transaction grant live isolated first =
      write-fresh (some handle) transaction grant s s (refuse RefusalReason.governance_denied) first
      ∙ rw (live, write_entry, isolated) refl

  -- What becomes of an artifact on the side that restores it.
  pub record Restored (source : Handle) (artifact : Bytes) (s : Service S) : Type 0 where
    pub restored_handle : Handle
    pub after : Service S
    pub created :
        create_cognition (handoff_artifact artifact (draft_content_id artifact)) s
        ≡ (Created.created restored_handle, after)
    pub state : restored_handle.body.state ≡ restored source.body.state
    pub digest : restored_handle.body.digest ≡ draft_snapshot_digest artifact
    pub quarantine : restored_handle.body.quarantine ≡ QuarantineState.isolated
    pub is_live : find_entry after.live (some restored_handle) ≡ some restored_handle
    pub store_kept : after.store ≡ s.store
    pub lease_kept : after.active_grant ≡ s.active_grant
    pub read_only :
        (transaction : ContextTransaction) (grant : ExecutionGrant)
        → replayed transaction after ≡ none
        → write_to_cognition (some restored_handle) transaction grant after
          ≡ some (refuse RefusalReason.governance_denied, after)
    pub tamper_proof :
        (bytes : Bytes)
        → draft_content_id bytes ≢ draft_content_id artifact
        → create_cognition (handoff_artifact bytes (draft_content_id artifact)) s ≡ (
          Created.failed
              (error DeserializeErrorKind.digest_mismatch (text "artifact digest mismatch")),
          s,
        )

  -- The handle under which an artifact is published.
  abbrev isolated_handle : Bytes → Snapshot → Service S → Handle
  isolated_handle bytes snapshot s = record {
    address = s.next_address;
    body = record {
      state = snapshot;
      digest = draft_snapshot_digest bytes;
      revision = no_revision;
      epoch = (s.epoch + 1) % 2 ^ 64;
      quarantine = QuarantineState.isolated;
    };
  }

  -- What is read from a cognition whose snapshot fits the format restores it in any reachable
  -- service: up to the two members that the format drops the state is the same, the handle is live
  -- and isolated, and the store and the lease are as they were. No write that is not a replay goes
  -- through that handle, whatever the grant, and bytes with another content id than the artifact's
  -- are refused with nothing changed.
  pub read_from_cognition-Restored :
      ⦃L : FoundationLaws F⦄ (source : Handle) (query : Query) (s : Service S)
      → Reachable s
      → Fits source.body.state
      → Restored source (read_from_cognition source query) s
  unfolding read_from_cognition find_entry
  read_from_cognition-Restored source query s reach fits =
      let artifact = serialize_snapshot source.body.state in
      let h = isolated_handle artifact (restored source.body.state) s in
      let after =
        (mint artifact no_revision QuarantineState.isolated s
          (ok (restored source.body.state))).1 in
      let live : find_entry after.live (some h) ≡ some h =
        find_live-new s.live h (Reachable-IsSound s reach).below in
      record {
        restored_handle = h;
        after = after;
        created =
            accepted_artifact artifact s
            ∙ materialized-ok artifact no_revision QuarantineState.isolated s _
                (serialize-nonempty source.body.state)
                (deserialize-serialize_snapshot source.body.state fits);
        state = refl;
        digest = refl;
        quarantine = refl;
        is_live = live;
        store_kept = refl;
        lease_kept = refl;
        read_only =
            λ transaction grant first. isolated-refused h after transaction grant live refl first;
        tamper_proof = λ bytes other. tampered_artifact bytes artifact s other;
      }
