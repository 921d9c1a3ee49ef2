-- ===== src/Service/Orderly.antt =====
-- What the writes of src/persistence.cpp keep of the supersession chains of all live cognitions.
use qiven_context_draft.Prelude.{◌≤◌, ◌≡◌, sym, ap, subst, List, none, some, All}
use qiven_context_draft.Foundation.{Foundation}
use qiven_context_draft.Cognition.Records.{RevisionId, Snapshot}
use qiven_context_draft.Codec.Encode.{serialize_snapshot}
use qiven_context_draft.Store.Contract.{CognitionStore, ReceiptKind}
use qiven_context_draft.Transaction.Types.{ContextTransaction}
use qiven_context_draft.Transaction.Chains.{HasRank}
use qiven_context_draft.Transaction.Orderly.{IsOrderly, IsOrderly-HasRank}
use qiven_context_draft.Transaction.Successions.{supersessions, apply_all-IsOrderly}
use qiven_context_draft.Service.State.{
  Handle, CognitionHandle, Verdict, Service, ExecutionGrant, find_entry,
}
use qiven_context_draft.Service.Write.{settle, commit, successor_of, published, write_to_cognition}
use qiven_context_draft.Service.Inversion.{
  Admitted, Course, replay, turn, refusal, admission, course, successor_state,
}
use qiven_context_draft.Service.Gates.{operations_permit}
use qiven_context_draft.Service.Live.{find_live-All, All-replace_live}
use qiven_context_draft.Service.Changes.{remember-live}

abbrev pub HasOrder : Handle → Type 0
HasOrder h = IsOrderly h.body.state.decisions

abbrev pub AreOrderly : List Handle → Type 0
AreOrderly live = All HasOrder live

find_entry-HasOrder :
    (live : List Handle) (handle : CognitionHandle) (entry : Handle)
    → AreOrderly live
    → find_entry live handle ≡ some entry
    → HasOrder entry
unfolding find_entry
find_entry-HasOrder live none entry o e = absurd (cc)
find_entry-HasOrder live (some h) entry o e = find_live-All HasOrder live h.address entry o e

-- The chains of a live cognition are ranked, as a write of it needs to return.
pub find_entry-HasRank :
    (live : List Handle) (handle : CognitionHandle)
    → AreOrderly live
    → (entry : Handle) → find_entry live handle ≡ some entry
    → HasRank entry.body.state.decisions
find_entry-HasRank live handle o entry e =
    IsOrderly-HasRank entry.body.state.decisions (find_entry-HasOrder live handle entry o e)

module _ ⦃F : Foundation⦄ {S : CognitionStore} where
  settle-AreOrderly :
      (entry : Handle) (transaction : ContextTransaction) (next : Snapshot) (kind : ReceiptKind)
      (revision : RevisionId) (s : Service S)
      → IsOrderly next.decisions
      → AreOrderly s.live
      → AreOrderly
          (settle entry transaction next (record { kind = kind; revision = revision }) s).1.live
  unfolding settle
  settle-AreOrderly entry transaction next ReceiptKind.compare_failed revision s n o = o
  settle-AreOrderly entry transaction next ReceiptKind.outcome_unknown revision s n o =
      subst AreOrderly (sym (remember-live transaction _ s).0) o
  settle-AreOrderly entry transaction next ReceiptKind.committed revision s n o =
      let successor = successor_of entry next revision s in
      subst AreOrderly (sym (remember-live transaction _ (published entry successor s)).0)
        (All-replace_live HasOrder s.live entry.address successor o n)

  commit-AreOrderly :
      (entry : Handle) (transaction : ContextTransaction) (next : Snapshot) (store : S.State)
      (s : Service S)
      → IsOrderly next.decisions
      → AreOrderly s.live
      → AreOrderly (commit entry transaction next store s).1.live
  unfolding commit
  commit-AreOrderly entry transaction next store s n o =
      let (receipt, store') =
        S.compare_and_swap entry.body.revision (serialize_snapshot next) store in
      settle-AreOrderly entry transaction next receipt.kind receipt.revision
        (record s { store = some store' }) n o

  -- A write of a transaction with at most one supersession keeps the supersession chains of every
  -- live cognition in order, whatever its verdict and over any store.
  pub write_to_cognition-AreOrderly :
      (handle : CognitionHandle) (transaction : ContextTransaction) (grant : ExecutionGrant)
      (s s' : Service S) (v : Verdict)
      → write_to_cognition handle transaction grant s ≡ some (v, s')
      → supersessions transaction.operations ≤ 1
      → AreOrderly s.live
      → AreOrderly s'.live
  write_to_cognition-AreOrderly handle transaction grant s s' v e once o =
      go (course handle transaction grant s s' v e)
    where
      admitted : Admitted handle transaction grant s v s' → AreOrderly s'.live
      admitted a =
          let (_, _, checked, _) =
            operations_permit a.entry transaction s a.governance a.operations_passed in
          subst AreOrderly (ap (λ p. p.1.live) a.committed) (
            commit-AreOrderly a.entry transaction (successor_state a.entry transaction) a.store s
              (apply_all-IsOrderly a.entry.body.state transaction.handoff_evidence_ref
                transaction.operations checked once
                (find_entry-HasOrder s.live handle a.entry o a.is_live))
              o)

      go : Course handle transaction grant s v s' → AreOrderly s'.live
      go (replay known kept) = subst (λ x. AreOrderly x.live) (sym kept) o
      go (turn nothing applied kept) = subst (λ x. AreOrderly x.live) (sym kept) o
      go (refusal reason same kept) = subst (λ x. AreOrderly x.live) (sym kept) o
      go (admission first nonempty a) = admitted a
