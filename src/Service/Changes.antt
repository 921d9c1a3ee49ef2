-- ===== src/Service/Changes.antt =====
-- How each operation of `QivenContext` (src/persistence.cpp) changes the live handles.
use qiven_context_draft.Prelude.{
  ℕ, ◌≡◌, ◌≢◌, inl, inr, refl, sym, ap, subst, not, ◌&&◌, Bool-cases, Option, none, some, ◌==◌,
  nat_eq, list_eq, if◌then◌else◌, is_empty,
}
use qiven_context_draft.Foundation.{Bytes, Foundation}
use qiven_context_draft.Cognition.Records.{Snapshot, RevisionId, grant_eq}
use qiven_context_draft.Codec.Reader.{Outcome, ok, err, fault}
use qiven_context_draft.Codec.Encode.{serialize_snapshot}
use qiven_context_draft.Codec.Decode.{deserialize}
use qiven_context_draft.Cognition.Defaults.{make_genesis}
use qiven_context_draft.Store.Contract.{CognitionStore, ReceiptKind}
use qiven_context_draft.Store.Memory.{no_revision}
use qiven_context_draft.Transaction.Types.{ContextTransaction, AuthenticatedActor, WorkMode}
use qiven_context_draft.Transaction.Digest.{draft_content_id}
use qiven_context_draft.Service.State.{
  QuarantineState, quarantine_state_eq, Handle, CognitionHandle, Verdict, Service, ExecutionGrant,
  find_live, find_entry, or_root_verifier, accepts, canonical_head,
}
use qiven_context_draft.Service.Lifetime.{
  CognitionSource, canonical_remote, handoff_artifact, compressed_stream, attach_store,
  attach_identity_verifier, mint, materialized, seeded, cold_boot, boot, create_cognition,
  acquire_grant, release_grant, retire, retire_cognition, requarantine, governed_step,
  verify_restored, promote_authority,
}
use qiven_context_draft.Service.Write.{
  settle, commit, remember, successor_of, published, write_to_cognition,
}
use qiven_context_draft.Service.Inversion.{Course, replay, turn, refusal, admission, course}
use qiven_context_draft.Service.Permits.{entry_permit}
use qiven_context_draft.Service.Live.{IsSettled, Change, unchanged, minted, replaced, removed}
use qiven_context_draft.Service.Steps.{
  Changes, Step, attached, identified, started, acquired, released, verified, promoted, written,
  retired,
}

module _ ⦃F : Foundation⦄ {S : CognitionStore} where
  materialized-Changes :
      (bytes : Bytes) (revision : RevisionId) (quarantine : QuarantineState) (s : Service S)
      → quarantine ≢ QuarantineState.authority_pending
      → Changes s (materialized bytes revision quarantine s).1
  unfolding materialized
  materialized-Changes bytes revision quarantine s settled = elim (Bool-cases (is_empty bytes)) [
    | inl nothing ↦ rw nothing unchanged
    | inr there ↦ rw there (minting (deserialize bytes))
  ]
    where
      minting : (o : Outcome Snapshot) → Changes s (mint bytes revision quarantine s o).1
      minting (ok snapshot) = minted _ refl settled
      minting (err e) = unchanged
      minting fault = unchanged

  seeded-Changes :
      (kind : ReceiptKind) (revision : RevisionId) (store : S.State) (bytes : Bytes) (s : Service S)
      → Changes s (seeded (record { kind = kind; revision = revision }, store) bytes s).1
  seeded-Changes ReceiptKind.committed revision store bytes s =
      materialized-Changes bytes revision QuarantineState.promoted (record s { store = some store })
        (λ e. cc)
  seeded-Changes ReceiptKind.compare_failed revision store bytes s = unchanged
  seeded-Changes ReceiptKind.outcome_unknown revision store bytes s = unchanged

  cold_boot-Changes :
      (revision : RevisionId) (store : S.State) (s : Service S)
      → Changes s (cold_boot revision store s).1
  unfolding cold_boot
  cold_boot-Changes revision store s =
      let id = if is_empty revision.value then S.head store else revision in
      let (receipt, seed) =
        S.compare_and_swap no_revision (serialize_snapshot make_genesis) store in
      elim (Bool-cases (is_empty (S.materialize store id))) [
        | inl nothing ↦ elim (Bool-cases (is_empty id.value)) [
          | inl first ↦
              rw (nothing, first)
                (seeded-Changes receipt.kind receipt.revision seed (serialize_snapshot make_genesis)
                  s)
          | inr missing ↦ rw (nothing, missing) unchanged
        ]
        | inr there ↦
            rw there (
              materialized-Changes (S.materialize store id) id QuarantineState.promoted s (λ e. cc))
      ]

  boot-Changes :
      (revision : RevisionId) (o : Option S.State) (s : Service S) → Changes s (boot revision o s).1
  boot-Changes revision none s = unchanged
  boot-Changes revision (some store) s = cold_boot-Changes revision store s

  create_cognition-Changes :
      (source : CognitionSource) (s : Service S) → Changes s (create_cognition source s).1
  unfolding create_cognition
  create_cognition-Changes (canonical_remote revision) s = boot-Changes revision s.store s
  create_cognition-Changes (handoff_artifact bytes expected) s =
      elim (Bool-cases (not (is_empty expected) && not (draft_content_id bytes == expected))) [
        | inl differs ↦ rw differs unchanged
        | inr same ↦
            rw same (materialized-Changes bytes no_revision QuarantineState.isolated s (λ e. cc))
      ]
  create_cognition-Changes compressed_stream s = unchanged

  acquire_grant-Changes :
      (actor : AuthenticatedActor) (mode : WorkMode) (s : Service S)
      → Changes s (acquire_grant actor mode s).1
  unfolding acquire_grant
  acquire_grant-Changes actor mode s = elim (Bool-cases (not (is_empty s.active_grant.value))) [
    | inl held ↦ rw held unchanged
    | inr idle ↦
        elim (Bool-cases (not (accepts (or_root_verifier s.identity) actor (canonical_head s)))) [
          | inl refused ↦ rw (idle, refused) unchanged
          | inr accepted ↦ rw (idle, accepted) unchanged
        ]
  ]

  release_grant-Changes :
      (grant : ExecutionGrant) (s : Service S) → Changes s (release_grant grant s)
  unfolding release_grant
  release_grant-Changes grant s = elim (Bool-cases (s.active_grant == grant.id)) [
    | inl mine ↦ rw mine unchanged
    | inr other ↦ rw other unchanged
  ]

  requarantine-Changes :
      (from to : QuarantineState) (o : Option Handle) (s : Service S)
      → to ≢ QuarantineState.authority_pending
      → Changes s (requarantine from to o s).1
  requarantine-Changes from to none s settled = unchanged
  requarantine-Changes from to (some entry) s settled =
      elim (Bool-cases (entry.body.quarantine == from)) [
        | inl due ↦ rw due (replaced entry.address _ refl settled)
        | inr other ↦ rw other unchanged
      ]

  governed_step-Changes :
      (from to : QuarantineState) (handle : CognitionHandle) (actor : AuthenticatedActor)
      (s : Service S)
      → to ≢ QuarantineState.authority_pending
      → Changes s (governed_step from to handle actor s).1
  unfolding governed_step
  governed_step-Changes from to handle actor s settled =
      elim (Bool-cases (not (accepts (or_root_verifier s.identity) actor (canonical_head s)))) [
        | inl refused ↦ rw refused unchanged
        | inr accepted ↦ rw accepted (
            requarantine-Changes from to (find_entry s.live handle)
              (record s { identity = some (or_root_verifier s.identity) }) settled)
      ]

  retire-Changes :
      (address : ℕ) (o : Option Handle) (s : Service S) → Changes s (retire address o s).1
  retire-Changes address none s = unchanged
  retire-Changes address (some entry) s = removed address

  retire_cognition-Changes :
      (handle : CognitionHandle) (s : Service S) → Changes s (retire_cognition handle s).1
  unfolding retire_cognition
  retire_cognition-Changes none s = unchanged
  retire_cognition-Changes (some handle) s =
      retire-Changes handle.address (find_live s.live handle.address) s

  pub remember-live :
      (transaction : ContextTransaction) (v : Verdict) (s : Service S)
      → let s' = remember transaction v s in (s'.live ≡ s.live) × (s'.next_address ≡ s.next_address)
  unfolding remember
  remember-live transaction v s = elim (Bool-cases (is_empty transaction.idempotency_key)) [
    | inl nothing ↦ rw nothing (refl, refl)
    | inr keyed ↦ rw keyed (refl, refl)
  ]

  remember-Changes :
      (transaction : ContextTransaction) (v : Verdict) (s s' : Service S)
      → Changes s s'
      → Changes s (remember transaction v s')
  remember-Changes transaction v s s' c =
      let (live, next) = remember-live transaction v s' in
      subst (λ n. Change s.live s.next_address (remember transaction v s').live n) (sym next)
        (subst (λ l. Change s.live s.next_address l s'.next_address) (sym live) c)

  settle-Changes :
      (entry : Handle) (transaction : ContextTransaction) (next : Snapshot) (kind : ReceiptKind)
      (revision : RevisionId) (s : Service S)
      → IsSettled entry
      → Changes s (settle entry transaction next (record { kind = kind; revision = revision }) s).1
  unfolding settle
  settle-Changes entry transaction next ReceiptKind.compare_failed revision s q = unchanged
  settle-Changes entry transaction next ReceiptKind.outcome_unknown revision s q =
      remember-Changes transaction _ s s unchanged
  settle-Changes entry transaction next ReceiptKind.committed revision s q =
      remember-Changes transaction _ s (published entry (successor_of entry next revision s) s)
        (replaced entry.address _ refl q)

  commit-Changes :
      (entry : Handle) (transaction : ContextTransaction) (next : Snapshot) (store : S.State)
      (s : Service S)
      → IsSettled entry
      → Changes s (commit entry transaction next store s).1
  unfolding commit
  commit-Changes entry transaction next store s q =
      let (receipt, store') =
        S.compare_and_swap entry.body.revision (serialize_snapshot next) store in
      settle-Changes entry transaction next receipt.kind receipt.revision
        (record s { store = some store' }) q

  pub write_to_cognition-Changes :
      (handle : CognitionHandle) (transaction : ContextTransaction) (grant : ExecutionGrant)
      (s s' : Service S) (v : Verdict)
      → write_to_cognition handle transaction grant s ≡ some (v, s')
      → Changes s s'
  write_to_cognition-Changes handle transaction grant s s' v e =
      go (course handle transaction grant s s' v e)
    where
      go : Course handle transaction grant s v s' → Changes s s'
      go (replay known kept) = subst (Changes s) (sym kept) unchanged
      go (turn nothing applied kept) = subst (Changes s) (sym kept) unchanged
      go (refusal reason same kept) = subst (Changes s) (sym kept) unchanged
      go (admission first nonempty a) = subst (Changes s) (ap (λ p. p.1) a.committed) (
          commit-Changes a.entry transaction _ a.store s
            (λ pending. cc (pending, (entry_permit a.entry grant s a.entry_passed).0)))

  pub Step-Changes : (s s' : Service S) → Step s s' → Changes s s'
  unfolding attach_store attach_identity_verifier verify_restored promote_authority
  Step-Changes _ _ (attached store s) = unchanged
  Step-Changes _ _ (identified verifier s) = unchanged
  Step-Changes _ _ (started source s) = create_cognition-Changes source s
  Step-Changes _ _ (acquired actor mode s) = acquire_grant-Changes actor mode s
  Step-Changes _ _ (released grant s) = release_grant-Changes grant s
  Step-Changes _ _ (verified handle actor s) = governed_step-Changes _ _ handle actor s (λ e. cc)
  Step-Changes _ _ (promoted handle actor s) = governed_step-Changes _ _ handle actor s (λ e. cc)
  Step-Changes _ _ (written handle transaction grant s s' v e) =
      write_to_cognition-Changes handle transaction grant s s' v e
  Step-Changes _ _ (retired handle s) = retire_cognition-Changes handle s
