-- ===== src/Service/Recorded.antt =====
-- Every reachable service of src/persistence.cpp has recorded verdicts that name their successors.
use qiven_context_draft.Prelude.{
  ℕ, ◌≡◌, refl, sym, subst, Bool-cases, inl, inr, Option, none, some, is_empty, ◌==◌, list_eq,
  nat_eq,
}
use qiven_context_draft.Foundation.{Foundation}
use qiven_context_draft.Cognition.Records.{Snapshot}
use qiven_context_draft.Codec.Encode.{serialize_snapshot}
use qiven_context_draft.Store.Contract.{CognitionStore}
use qiven_context_draft.Transaction.Types.{AuthenticatedActor}
use qiven_context_draft.Service.State.{Handle, CognitionHandle, Service, ExecutionGrant, find_entry}
use qiven_context_draft.Service.Lifetime.{release_grant}
use qiven_context_draft.Service.Lease.{acquire_grant_keeps}
use qiven_context_draft.Prelude.{not, ◌&&◌, if◌then◌else◌}
use qiven_context_draft.Foundation.{Bytes}
use qiven_context_draft.Cognition.Records.{RevisionId, grant_eq}
use qiven_context_draft.Cognition.Defaults.{make_genesis}
use qiven_context_draft.Codec.Reader.{Outcome, ok, err, fault}
use qiven_context_draft.Codec.Decode.{deserialize}
use qiven_context_draft.Store.Contract.{ReceiptKind}
use qiven_context_draft.Store.Memory.{no_revision}
use qiven_context_draft.Transaction.Digest.{draft_content_id}
use qiven_context_draft.Service.State.{
  QuarantineState, quarantine_state_eq, or_root_verifier, accepts, canonical_head, find_live,
}
use qiven_context_draft.Service.Lifetime.{
  CognitionSource, canonical_remote, handoff_artifact, compressed_stream, attach_store,
  attach_identity_verifier, mint, materialized, seeded, cold_boot, boot, create_cognition, retire,
  retire_cognition, requarantine, governed_step, verify_restored, promote_authority,
}
use qiven_context_draft.Service.Steps.{
  Step, attached, identified, started, acquired, released, verified, promoted, written, retired,
  Reachable, fresh, then_step,
}
use qiven_context_draft.Service.Answered.{AreAnswered, write_to_cognition-AreAnswered}

module _ ⦃F : Foundation⦄ {S : CognitionStore} where
  -- The other operations leave the receipts.
  mint-receipts :
      (bytes : Bytes) (revision : RevisionId) (quarantine : QuarantineState) (s : Service S)
      (o : Outcome Snapshot)
      → (mint bytes revision quarantine s o).1.receipts ≡ s.receipts
  mint-receipts bytes revision quarantine s (ok snapshot) = refl
  mint-receipts bytes revision quarantine s (err e) = refl
  mint-receipts bytes revision quarantine s fault = refl

  materialized-receipts :
      (bytes : Bytes) (revision : RevisionId) (quarantine : QuarantineState) (s : Service S)
      → (materialized bytes revision quarantine s).1.receipts ≡ s.receipts
  unfolding materialized
  materialized-receipts bytes revision quarantine s = elim (Bool-cases (is_empty bytes)) [
    | inl nothing ↦ rw nothing
    | inr there ↦ rw there (mint-receipts bytes revision quarantine s (deserialize bytes))
  ]

  seeded-receipts :
      (kind : ReceiptKind) (revision : RevisionId) (store : S.State) (bytes : Bytes) (s : Service S)
      → (seeded (record { kind = kind; revision = revision }, store) bytes s).1.receipts
        ≡ s.receipts
  seeded-receipts ReceiptKind.committed revision store bytes s =
      materialized-receipts bytes revision QuarantineState.promoted
        (record s { store = some store })
  seeded-receipts ReceiptKind.compare_failed revision store bytes s = refl
  seeded-receipts ReceiptKind.outcome_unknown revision store bytes s = refl

  cold_boot-receipts :
      (revision : RevisionId) (store : S.State) (s : Service S)
      → (cold_boot revision store s).1.receipts ≡ s.receipts
  unfolding cold_boot
  cold_boot-receipts revision store s =
      let id = if is_empty revision.value then S.head store else revision in
      let (receipt, seed) =
        S.compare_and_swap no_revision (serialize_snapshot make_genesis) store in
      elim (Bool-cases (is_empty (S.materialize store id))) [
        | inl nothing ↦ elim (Bool-cases (is_empty id.value)) [
          | inl first ↦
              rw (nothing, first)
                (seeded-receipts receipt.kind receipt.revision seed
                  (serialize_snapshot make_genesis) s)
          | inr missing ↦ rw (nothing, missing)
        ]
        | inr there ↦
            rw there (materialized-receipts (S.materialize store id) id QuarantineState.promoted s)
      ]

  boot-receipts :
      (revision : RevisionId) (o : Option S.State) (s : Service S)
      → (boot revision o s).1.receipts ≡ s.receipts
  boot-receipts revision none s = refl
  boot-receipts revision (some store) s = cold_boot-receipts revision store s

  create_cognition-receipts :
      (source : CognitionSource) (s : Service S)
      → (create_cognition source s).1.receipts ≡ s.receipts
  unfolding create_cognition
  create_cognition-receipts (canonical_remote revision) s = boot-receipts revision s.store s
  create_cognition-receipts (handoff_artifact bytes expected) s =
      elim (Bool-cases (not (is_empty expected) && not (draft_content_id bytes == expected))) [
        | inl differs ↦ rw differs
        | inr same ↦ rw same (materialized-receipts bytes no_revision QuarantineState.isolated s)
      ]
  create_cognition-receipts compressed_stream s = refl

  release_grant-receipts :
      (grant : ExecutionGrant) (s : Service S) → (release_grant grant s).receipts ≡ s.receipts
  unfolding release_grant
  release_grant-receipts grant s = elim (Bool-cases (s.active_grant == grant.id)) [
    | inl mine ↦ rw mine
    | inr other ↦ rw other
  ]

  requarantine-receipts :
      (from to : QuarantineState) (o : Option Handle) (s : Service S)
      → (requarantine from to o s).1.receipts ≡ s.receipts
  requarantine-receipts from to none s = refl
  requarantine-receipts from to (some entry) s = elim (Bool-cases (entry.body.quarantine == from)) [
    | inl due ↦ rw due
    | inr other ↦ rw other
  ]

  governed_step-receipts :
      (from to : QuarantineState) (handle : CognitionHandle) (actor : AuthenticatedActor)
      (s : Service S)
      → (governed_step from to handle actor s).1.receipts ≡ s.receipts
  unfolding governed_step
  governed_step-receipts from to handle actor s =
      elim (Bool-cases (not (accepts (or_root_verifier s.identity) actor (canonical_head s)))) [
        | inl refused ↦ rw refused
        | inr accepted ↦ rw accepted (
            requarantine-receipts from to (find_entry s.live handle)
              (record s { identity = some (or_root_verifier s.identity) }))
      ]

  retire-receipts :
      (address : ℕ) (o : Option Handle) (s : Service S)
      → (retire address o s).1.receipts ≡ s.receipts
  retire-receipts address none s = refl
  retire-receipts address (some entry) s = refl

  retire_cognition-receipts :
      (handle : CognitionHandle) (s : Service S)
      → (retire_cognition handle s).1.receipts ≡ s.receipts
  unfolding retire_cognition
  retire_cognition-receipts none s = refl
  retire_cognition-receipts (some handle) s =
      retire-receipts handle.address (find_live s.live handle.address) s

  Step-AreAnswered :
      (s s' : Service S) → Step s s' → AreAnswered s.receipts → AreAnswered s'.receipts
  unfolding attach_store attach_identity_verifier verify_restored promote_authority
  Step-AreAnswered _ _ (attached store s) a = a
  Step-AreAnswered _ _ (identified verifier s) a = a
  Step-AreAnswered _ _ (started source s) a =
      subst AreAnswered (sym (create_cognition-receipts source s)) a
  Step-AreAnswered _ _ (acquired actor mode s) a =
      subst AreAnswered (sym (acquire_grant_keeps actor mode s).1) a
  Step-AreAnswered _ _ (released grant s) a =
      subst AreAnswered (sym (release_grant-receipts grant s)) a
  Step-AreAnswered _ _ (verified handle actor s) a =
      subst AreAnswered (sym (governed_step-receipts _ _ handle actor s)) a
  Step-AreAnswered _ _ (promoted handle actor s) a =
      subst AreAnswered (sym (governed_step-receipts _ _ handle actor s)) a
  Step-AreAnswered _ _ (written handle transaction grant s s' v e) a =
      write_to_cognition-AreAnswered handle transaction grant s s' v e a
  Step-AreAnswered _ _ (retired handle s) a =
      subst AreAnswered (sym (retire_cognition-receipts handle s)) a

  -- In every reachable service the recorded verdicts that are applied name their successors.
  pub Reachable-AreAnswered : (s : Service S) → Reachable s → AreAnswered s.receipts
  Reachable-AreAnswered _ fresh = tt
  Reachable-AreAnswered _ (then_step {s} {s'} r step) =
      Step-AreAnswered s s' step (Reachable-AreAnswered s r)
