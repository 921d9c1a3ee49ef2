-- ===== src/Service/Publication.antt =====
-- What an applied write of src/persistence.cpp leaves in the store and among the live handles.
use qiven_context_draft.Prelude.{
  ◌≡◌, ◌≢◌, inl, inr, refl, sym, ap, subst, ◌∙◌, Bool-cases, is_empty, [], none, some,
}
use qiven_context_draft.Foundation.{Foundation, FoundationLaws}
use qiven_context_draft.Cognition.Records.{Snapshot, RevisionId}
use qiven_context_draft.Codec.Reader.{ok}
use qiven_context_draft.Codec.Encode.{serialize_snapshot}
use qiven_context_draft.Codec.Decode.{deserialize}
use qiven_context_draft.Codec.Fits.{Fits, restored}
use qiven_context_draft.Codec.RoundTrip.{deserialize-serialize_snapshot}
use qiven_context_draft.Store.Contract.{CognitionStore, ReceiptKind}
use qiven_context_draft.Store.Laws.{KeepsRevisions, StoreLaws}
use qiven_context_draft.Transaction.Types.{ContextTransaction}
use qiven_context_draft.Service.State.{
  Handle, CognitionHandle, Verdict, VerdictOutcome, Service, ExecutionGrant, find_entry,
  replace_live,
}
use qiven_context_draft.Service.Write.{
  replayed, settle, remember, commit, successor_of, published, write_to_cognition,
}
use qiven_context_draft.Service.Inversion.{
  Course, replay, turn, refusal, admission, course, successor_state, some-cancel,
}

module _ ⦃F : Foundation⦄ {S : CognitionStore} where
  pub remember-keeps :
      (transaction : ContextTransaction) (v : Verdict) (s : Service S)
      → let s' = remember transaction v s in
        (s'.live ≡ s.live) × (s'.store ≡ s.store) × (s'.active_grant ≡ s.active_grant)
  unfolding remember
  remember-keeps transaction v s = elim (Bool-cases (is_empty transaction.idempotency_key)) [
    | inl nothing ↦ rw nothing (refl, refl, refl)
    | inr keyed ↦ rw keyed (refl, refl, refl)
  ]

  -- How a settled receipt is published.
  pub settle-applied :
      (entry : Handle) (transaction : ContextTransaction) (next : Snapshot) (kind : ReceiptKind)
      (revision : RevisionId) (s : Service S)
      → let (v, s') =
          settle entry transaction next (record { kind = kind; revision = revision }) s in
        v.outcome ≡ VerdictOutcome.applied
        → (kind ≡ ReceiptKind.committed)
          × (v.successor ≡ some (successor_of entry next revision s))
          × (s'.live ≡ replace_live s.live entry.address (successor_of entry next revision s))
          × (s'.store ≡ s.store)
          × (s'.active_grant ≡ s.active_grant)
  unfolding settle
  settle-applied entry transaction next ReceiptKind.compare_failed revision s e = absurd (cc)
  settle-applied entry transaction next ReceiptKind.outcome_unknown revision s e = absurd (cc)
  settle-applied entry transaction next ReceiptKind.committed revision s e =
      let (live, store, lease) =
        remember-keeps transaction _ (published entry (successor_of entry next revision s) s) in
      (refl, refl, live, store, lease)

-- The new head of the store holds the bytes of the successor, every earlier revision is kept, and
-- the successor stands where the entry stood among the live handles.
pub record Published ⦃F : Foundation⦄ {S : CognitionStore} (laws : StoreLaws S) (entry : Handle)
    (transaction : ContextTransaction) (m : S.State) (s : Service S) (v : Verdict) (s' : Service S)
    : Type 0 where
  pub successor : Handle
  pub store : S.State
  pub returned : v.successor ≡ some successor
  pub stored : s'.store ≡ some store
  pub state : successor.body.state ≡ successor_state entry transaction
  pub at_head : S.head store ≡ successor.body.revision
  pub held :
      S.materialize store (S.head store) ≡ serialize_snapshot (successor_state entry transaction)
  pub kept : KeepsRevisions S m store
  pub sound : laws.IsSound store
  pub live : s'.live ≡ replace_live s.live entry.address successor
  pub lease : s'.active_grant ≡ s.active_grant

module _ ⦃F : Foundation⦄ {S : CognitionStore} (laws : StoreLaws S) where
  -- The store is sound, and takes the bytes of the successor's state.
  abbrev pub Takes : Handle → ContextTransaction → S.State → Type 0
  Takes entry transaction m =
      laws.IsSound m
      × laws.CanTake entry.body.revision (serialize_snapshot (successor_state entry transaction)) m

  settle-Published :
      (entry : Handle) (transaction : ContextTransaction) (m : S.State) (s : Service S)
      → Takes entry transaction m
      → let next = successor_state entry transaction in
        let (receipt, store) = S.compare_and_swap entry.body.revision (serialize_snapshot next) m in
        let (v, s') = settle entry transaction next receipt (record s { store = some store }) in
        v.outcome ≡ VerdictOutcome.applied → Published laws entry transaction m s v s'
  settle-Published entry transaction m s (ok_store, takes) r =
      let next = successor_state entry transaction in
      let bytes = serialize_snapshot next in
      let (receipt, store) = S.compare_and_swap entry.body.revision bytes m in
      let (committed, returned, live, stored, lease) =
        settle-applied entry transaction next receipt.kind receipt.revision
          (record s { store = some store }) r in
      let c = laws.commits entry.body.revision bytes m ok_store takes committed in
      record {
        successor = successor_of entry next receipt.revision s;
        store = store;
        returned = returned;
        stored = stored;
        state = refl;
        at_head = c.at_head;
        held = c.held;
        kept = c.kept;
        sound = laws.sound entry.body.revision bytes m ok_store takes;
        live = live;
        lease = lease;
      }

  commit-Published :
      (entry : Handle) (transaction : ContextTransaction) (m : S.State) (s s' : Service S)
      (v : Verdict)
      → Takes entry transaction m
      → commit entry transaction (successor_state entry transaction) m s ≡ (v, s')
      → v.outcome ≡ VerdictOutcome.applied
      → Published laws entry transaction m s v s'
  unfolding commit
  commit-Published entry transaction m s s' v takes e =
      subst
        (λ p. p.0.outcome ≡ VerdictOutcome.applied → Published laws entry transaction m s p.0 p.1) e
        (settle-Published entry transaction m s takes)

  -- A first write with operations that is applied over a store that keeps the laws of the contract
  -- is published: the head of the store is the successor's revision and holds the bytes of the state
  -- that the operations make of the entry's, every earlier revision keeps its bytes, the store stays
  -- sound, the successor replaces the entry among the live handles, and the lease is kept. It is
  -- supposed that the store is sound and can take those bytes: for the in-memory store, that its
  -- history is linear and the id that it mints is not taken.
  pub write_to_cognition-Published :
      (handle : CognitionHandle) (transaction : ContextTransaction) (grant : ExecutionGrant)
      (entry : Handle) (m : S.State) (s s' : Service S) (v : Verdict)
      → write_to_cognition handle transaction grant s ≡ some (v, s')
      → replayed transaction s ≡ none
      → transaction.operations ≢ []
      → v.outcome ≡ VerdictOutcome.applied
      → find_entry s.live handle ≡ some entry
      → s.store ≡ some m
      → Takes entry transaction m
      → Published laws entry transaction m s v s'
  write_to_cognition-Published handle transaction grant entry m s s' v e first nonempty r found
        stored takes =
      go (course handle transaction grant s s' v e)
    where
      go : Course handle transaction grant s v s' → Published laws entry transaction m s v s'
      go (replay known kept) = absurd (cc)
      go (turn nothing applied kept) = absurd (nonempty nothing)
      go (refusal reason same kept) = absurd (cc)
      go (admission _ _ a) =
          let same_entry : a.entry ≡ entry = some-cancel (sym a.is_live ∙ found) in
          let same_store : a.store ≡ m = some-cancel (sym a.stored ∙ stored) in
          commit-Published entry transaction m s s' v takes
            (subst (λ x. commit entry transaction (successor_state entry transaction) x s ≡ (v, s'))
              same_store
              (subst (λ x. commit x transaction (successor_state x transaction) a.store s ≡ (v, s'))
                same_entry a.committed))
            r

  -- What such a write stored can be brought back, if the successor's state fits the format: where a
  -- first write with operations is applied over a lawful store that is sound and can take the bytes,
  -- the bytes at the head of the store, which is the successor's revision, deserialize to the
  -- successor's state, up to the two members that the format drops.
  pub write_to_cognition-restorable :
      ⦃L : FoundationLaws F⦄ (handle : CognitionHandle) (transaction : ContextTransaction)
      (grant : ExecutionGrant) (entry : Handle) (m : S.State) (s s' : Service S) (v : Verdict)
      → write_to_cognition handle transaction grant s ≡ some (v, s')
      → replayed transaction s ≡ none
      → transaction.operations ≢ []
      → v.outcome ≡ VerdictOutcome.applied
      → find_entry s.live handle ≡ some entry
      → s.store ≡ some m
      → Takes entry transaction m
      → Fits (successor_state entry transaction)
      → (successor : Handle) × (m' : S.State) × (v.successor ≡ some successor)
        × (s'.store ≡ some m')
        × (successor.body.revision ≡ S.head m')
        × (deserialize (S.materialize m' (S.head m')) ≡ ok (restored successor.body.state))
  write_to_cognition-restorable handle transaction grant entry m s s' v e first nonempty r found
        stored takes fits =
      let p =
        write_to_cognition-Published handle transaction grant entry m s s' v e first nonempty r
          found stored takes in
      (
        p.successor,
        p.store,
        p.returned,
        p.stored,
        sym p.at_head,
        ap deserialize p.held
            ∙ (deserialize-serialize_snapshot _ fits ∙ ap (λ x. ok (restored x)) (sym p.state)),
      )
