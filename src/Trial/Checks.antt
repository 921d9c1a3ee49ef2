-- ===== src/Trial/Checks.antt =====
-- What a file that the mode `verify` of apps/artifact_trial.cpp accepts has gone through.
use qiven_context_draft.Prelude.{
  ◌≡◌, refl, sym, ap, ◌∙◌, true, not, ◌&&◌, Bool-cases, inl, inr, ap₂, Option, none, some, Text,
  ◌==◌, nat_eq, list_eq, list_beq_iff, is_empty,
}
use qiven_context_draft.Foundation.{Bytes, Foundation}
use qiven_context_draft.Cognition.Records.{Snapshot}
use qiven_context_draft.Codec.Reader.{Outcome, ok, err, fault}
use qiven_context_draft.Codec.Decode.{deserialize}
use qiven_context_draft.Store.Contract.{CognitionStore}
use qiven_context_draft.Store.Memory.{no_revision}
use qiven_context_draft.Transaction.Digest.{draft_content_id, draft_snapshot_digest}
use qiven_context_draft.Service.State.{QuarantineState, Handle, Service}
use qiven_context_draft.Service.Lifetime.{
  Created, handoff_artifact, mint, materialized, create_cognition,
}
use qiven_context_draft.Trial.Artifact.{
  TrialResult, Manifest, read_manifest, has_trial_decision, has_negative_knowledge, facts_of,
  verify_manifest, verify_artifact,
}

-- An isolated cognition that was made of some bytes, beside the store and the lease as they were.
record Isolated ⦃F : Foundation⦄ {S : CognitionStore} (bytes : Bytes) (s : Service S) (h : Handle)
    (s' : Service S) : Type 0 where
  decoded : deserialize bytes ≡ ok h.body.state
  quarantine : h.body.quarantine ≡ QuarantineState.isolated
  store_kept : s'.store ≡ s.store
  lease_kept : s'.active_grant ≡ s.active_grant

-- What the accepted file declares is true of its bytes, and the cognition is the one that these
-- encode.
pub record Checked ⦃F : Foundation⦄ {S : CognitionStore} (artifact : Text) (s : Service S)
    (h : Handle) (s' : Service S) : Type 0 where
  pub manifest : Manifest
  pub read : read_manifest artifact ≡ some manifest
  pub content_id : draft_content_id manifest.bytes ≡ manifest.content_id
  pub digest : (draft_snapshot_digest manifest.bytes).value ≡ manifest.digest
  pub decoded : deserialize manifest.bytes ≡ ok h.body.state
  pub quarantine : h.body.quarantine ≡ QuarantineState.isolated
  pub decision : has_trial_decision h.body.state.decisions ≡ true
  pub knowledge : has_negative_knowledge h.body.state.memory ≡ true
  pub store_kept : s'.store ≡ s.store
  pub lease_kept : s'.active_grant ≡ s.active_grant

facts-recovered :
    (o : Created) (h : Handle)
    → facts_of o ≡ TrialResult.recovered h
    → (o ≡ Created.created h)
      × (has_trial_decision h.body.state.decisions ≡ true)
      × (has_negative_knowledge h.body.state.memory ≡ true)
facts-recovered (Created.failed d) h e = absurd (cc)
facts-recovered Created.asserted h e = absurd (cc)
facts-recovered Created.thrown h e = absurd (cc)
facts-recovered (Created.created k) h e =
    elim (Bool-cases (has_trial_decision k.body.state.decisions)) [
      | inr absent ↦ let went = rw absent at e in absurd (cc went)
      | inl decision ↦ elim (Bool-cases (has_negative_knowledge k.body.state.memory)) [
        | inr absent ↦ let went = rw (decision, absent) at e in absurd (cc went)
        | inl knowledge ↦
            let went = rw (decision, knowledge) at e in
            let same : k ≡ h = cc went in
            (
              ap (λ x. Created.created x) same,
              ap (λ x. has_trial_decision x.body.state.decisions) (sym same) ∙ decision,
              ap (λ x. has_negative_knowledge x.body.state.memory) (sym same) ∙ knowledge,
            )
      ]
    ]

module _ ⦃F : Foundation⦄ {S : CognitionStore} where
  mint-Isolated :
      (bytes : Bytes) (s s' : Service S) (h : Handle) (o : Outcome Snapshot)
      → deserialize bytes ≡ o
      → mint bytes no_revision QuarantineState.isolated s o ≡ (Created.created h, s')
      → Isolated bytes s h s'
  mint-Isolated bytes s s' h (ok snapshot) e m = record {
    decoded = e ∙ cc;
    quarantine = cc;
    store_kept = cc;
    lease_kept = cc;
  }
  mint-Isolated bytes s s' h (err d) e m = absurd (cc)
  mint-Isolated bytes s s' h fault e m = absurd (cc)

  create_cognition-Isolated :
      (bytes : Bytes) (expected : Text) (s s' : Service S) (h : Handle)
      → create_cognition (handoff_artifact bytes expected) s ≡ (Created.created h, s')
      → Isolated bytes s h s'
  unfolding create_cognition materialized
  create_cognition-Isolated bytes expected s s' h e =
      elim (Bool-cases (not (is_empty expected) && not (draft_content_id bytes == expected))) [
        | inl differs ↦ let went = rw differs at e in absurd (cc went)
        | inr same ↦ elim (Bool-cases (is_empty bytes)) [
          | inl nothing ↦ let went = rw (same, nothing) at e in absurd (cc went)
          | inr there ↦
              let went = rw (same, there) at e in
              mint-Isolated bytes s s' h (deserialize bytes) refl went
        ]
      ]

  restoring-recovered :
      (p : Created × Service S) (s' : Service S) (h : Handle)
      → ◌≡◌ {A = TrialResult × Service S} (facts_of p.0, p.1) (TrialResult.recovered h, s')
      → (p ≡ (Created.created h, s'))
        × (has_trial_decision h.body.state.decisions ≡ true)
        × (has_negative_knowledge h.body.state.memory ≡ true)
  restoring-recovered (o, s) s' h e =
      let (made, decision, knowledge) = facts-recovered o h (ap (λ p. p.0) e) in
      (ap₂ (λ x y. (x, y)) made (ap (λ p. p.1) e), decision, knowledge)

  manifest-Checked :
      (artifact : Text) (s s' : Service S) (h : Handle) (o : Option Manifest)
      → read_manifest artifact ≡ o
      → verify_manifest o s ≡ (TrialResult.recovered h, s')
      → Checked artifact s h s'
  manifest-Checked artifact s s' h none r e = absurd (cc)
  manifest-Checked artifact s s' h (some m) r e =
      elim (Bool-cases (draft_content_id m.bytes == m.content_id)) [
        | inr differs ↦ let went = rw differs at e in absurd (cc went)
        | inl same_id ↦ elim (Bool-cases ((draft_snapshot_digest m.bytes).value == m.digest)) [
          | inr differs ↦ let went = rw (same_id, differs) at e in absurd (cc went)
          | inl same_digest ↦
              let went = rw (same_id, same_digest) at e in
              let (made, decision, knowledge) = restoring-recovered _ s' h went in
              let i = create_cognition-Isolated m.bytes m.content_id s s' h made in
              record {
                manifest = m;
                read = r;
                content_id = (list_beq_iff _ _).0 same_id;
                digest = (list_beq_iff _ _).0 same_digest;
                decoded = i.decoded;
                quarantine = i.quarantine;
                decision = decision;
                knowledge = knowledge;
                store_kept = i.store_kept;
                lease_kept = i.lease_kept;
              }
        ]
      ]

  -- Whatever the file and the service: where `verify` recovers a cognition, the file has a manifest
  -- whose two identities are those of its bytes, these bytes are the encoding of the cognition's
  -- state, which is isolated and holds the decision and the negative knowledge of the trial, and the
  -- store and the lease are as they were.
  pub verify_artifact-Checked :
      (artifact : Text) (s s' : Service S) (h : Handle)
      → verify_artifact artifact s ≡ (TrialResult.recovered h, s')
      → Checked artifact s h s'
  unfolding verify_artifact
  verify_artifact-Checked artifact s s' h e = elim (Bool-cases (is_empty artifact)) [
    | inl nothing ↦ let went = rw nothing at e in absurd (cc went)
    | inr there ↦
        let went = rw there at e in
        manifest-Checked artifact s s' h (read_manifest artifact) refl went
  ]
