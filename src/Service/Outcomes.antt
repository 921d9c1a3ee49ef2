-- ===== src/Service/Outcomes.antt =====
-- What a returned verdict of `write_to_cognition` (src/persistence.cpp) says of the state.
use qiven_context_draft.Prelude.{subst, ◌≡◌, sym, ap, ◌∙◌, some, arith, nat_eq, list_eq}
use qiven_context_draft.Foundation.{Foundation}
use qiven_context_draft.Cognition.Policy.{handoff_eq}
use qiven_context_draft.Cognition.Records.{Snapshot}
use qiven_context_draft.Codec.Encode.{serialize_snapshot}
use qiven_context_draft.Store.Contract.{CognitionStore, ReceiptKind, StoreReceipt}
use qiven_context_draft.Store.Laws.{StoreLaws}
use qiven_context_draft.Transaction.Types.{ContextTransaction}
use qiven_context_draft.Service.State.{
  quarantine_state_eq, Handle, CognitionHandle, Verdict, VerdictOutcome, Service, ExecutionGrant,
}
use qiven_context_draft.Service.Write.{settle, commit, write_to_cognition}
use qiven_context_draft.Service.Inversion.{
  Course, replay, turn, refusal, admission, course, successor_state,
}

module _ ⦃F : Foundation⦄ {S : CognitionStore} where
  settle-refused :
      (entry : Handle) (transaction : ContextTransaction) (next : Snapshot) (receipt : StoreReceipt)
      (s : Service S)
      → (settle entry transaction next receipt s).0.outcome ≡ VerdictOutcome.refused
      → (receipt.kind ≡ ReceiptKind.compare_failed)
        × ((settle entry transaction next receipt s).1 ≡ s)
  unfolding settle
  settle-refused entry transaction next receipt s e = ground arith

  -- A store that is put back as it was.
  same_store :
      (s : Service S) (store store' : S.State)
      → s.store ≡ some store
      → store' ≡ store
      → record s { store = some store' } ≡ s
  same_store s store store' stored same =
      ap (λ o. record s { store = o }) (ap (λ m. some m) same ∙ sym stored)

  commit-refused :
      (laws : StoreLaws S) (entry : Handle) (transaction : ContextTransaction) (next : Snapshot)
      (store : S.State) (s : Service S)
      → s.store ≡ some store
      → let (v, s') = commit entry transaction next store s in
        v.outcome ≡ VerdictOutcome.refused → s' ≡ s
  unfolding commit
  commit-refused laws entry transaction next store s stored r =
      let bytes = serialize_snapshot next in
      let (receipt, store') = S.compare_and_swap entry.body.revision bytes store in
      let (failed, kept) =
        settle-refused entry transaction next receipt (record s { store = some store' }) r in
      kept ∙ same_store s store store' stored (laws.fails entry.body.revision bytes store failed)

  -- Over a store whose failed compare-and-swap changes nothing, a refused write changes nothing in
  -- the service: no gate leaves a partial effect, and a refusal never drops the lease.
  pub refused_keeps_state :
      (laws : StoreLaws S) (handle : CognitionHandle) (transaction : ContextTransaction)
      (grant : ExecutionGrant) (s s' : Service S) (v : Verdict)
      → write_to_cognition handle transaction grant s ≡ some (v, s')
      → v.outcome ≡ VerdictOutcome.refused
      → s' ≡ s
  refused_keeps_state laws handle transaction grant s s' v e r =
      go (course handle transaction grant s s' v e)
    where
      go : Course handle transaction grant s v s' → s' ≡ s
      go (replay known kept) = kept
      go (turn nothing applied kept) = kept
      go (refusal reason same kept) = kept
      go (admission fresh nonempty a) =
          subst (λ p. p.0.outcome ≡ VerdictOutcome.refused → p.1 ≡ s) a.committed
            (commit-refused laws a.entry transaction (successor_state a.entry transaction) a.store s
              a.stored)
            r
