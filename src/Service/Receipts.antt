-- ===== src/Service/Receipts.antt =====
-- The idempotency of `write_to_cognition` (src/persistence.cpp).
use qiven_context_draft.Prelude.{
  ◌≡◌, ◌≢◌, inl, inr, refl, sym, ap, subst, ◌∙◌, false, Bool-cases, List, [], ◌∷◌, none, some, Text,
  ◌==◌, is_empty, is_empty→nil, nat_eq, list_eq, list_beq_iff, beq_refl, beq_of_ne,
}
use qiven_context_draft.Foundation.{Foundation}
use qiven_context_draft.Cognition.Policy.{RefusalReason}
use qiven_context_draft.Cognition.Records.{Snapshot, RevisionId}
use qiven_context_draft.Codec.Encode.{serialize_snapshot}
use qiven_context_draft.Store.Contract.{CognitionStore, ReceiptKind}
use qiven_context_draft.Transaction.Types.{ContextTransaction}
use qiven_context_draft.Transaction.Digest.{request_digest_of}
use qiven_context_draft.Transaction.Check.{passed}
use qiven_context_draft.Service.State.{
  Handle, CognitionHandle, Verdict, VerdictOutcome, refuse, Service, ExecutionGrant, Receipt,
  find_entry, canonical_head,
}
use qiven_context_draft.Service.Write.{
  find_receipt, put_receipt, answer, replayed, remember, settle, commit, published, check_entry,
  rejects, write_to_cognition,
}
use qiven_context_draft.Service.Inversion.{
  Course, replay, turn, refusal, admission, course, write-replayed,
}

find_receipt-put_receipt :
    (receipts : List (Text × Receipt)) (key : Text) (r : Receipt)
    → find_receipt (put_receipt receipts key r) key ≡ some r
unfolding find_receipt put_receipt
find_receipt-put_receipt [] key r = rw (beq_refl key)
find_receipt-put_receipt ((k, q) ∷ rest) key r = elim (Bool-cases (k == key)) [
  | inl same ↦ rw (same, beq_refl key)
  | inr other ↦ rw (other, other) (find_receipt-put_receipt rest key r)
]

answer-same :
    (receipt : Receipt) (digest : Text)
    → receipt.request_digest ≡ digest
    → answer receipt digest ≡ receipt.outcome
answer-same receipt digest e = rw ((list_beq_iff receipt.request_digest digest).1 e)

answer-other :
    (receipt : Receipt) (digest : Text)
    → receipt.request_digest ≢ digest
    → answer receipt digest ≡ refuse RefusalReason.key_conflict
answer-other receipt digest n = rw (beq_of_ne receipt.request_digest digest n)

abbrev receipt_of : ⦃F : Foundation⦄ → ContextTransaction → Verdict → Receipt
receipt_of transaction v = record { request_digest = request_digest_of transaction; outcome = v }

module _ ⦃F : Foundation⦄ {S : CognitionStore} where
  replayed-receipt :
      (transaction : ContextTransaction) (s : Service S) (receipt : Receipt)
      → transaction.idempotency_key ≢ []
      → find_receipt s.receipts transaction.idempotency_key ≡ some receipt
      → replayed transaction s ≡ some (answer receipt (request_digest_of transaction))
  unfolding replayed
  replayed-receipt transaction s receipt keyed e =
      elim (Bool-cases (is_empty transaction.idempotency_key)) [
        | inl nothing ↦ absurd (keyed (is_empty→nil _ nothing))
        | inr there ↦ rw (there, e)
      ]

  remember-receipt :
      (transaction : ContextTransaction) (v : Verdict) (s : Service S)
      → transaction.idempotency_key ≢ []
      → find_receipt (remember transaction v s).receipts transaction.idempotency_key
        ≡ some (receipt_of transaction v)
  unfolding remember
  remember-receipt transaction v s keyed =
      elim (Bool-cases (is_empty transaction.idempotency_key)) [
        | inl nothing ↦ absurd (keyed (is_empty→nil _ nothing))
        | inr there ↦ rw there (find_receipt-put_receipt s.receipts transaction.idempotency_key _)
      ]

  settle-receipt :
      (entry : Handle) (transaction : ContextTransaction) (next : Snapshot) (kind : ReceiptKind)
      (revision : RevisionId) (s : Service S)
      → transaction.idempotency_key ≢ []
      → let (v, s') =
          settle entry transaction next (record { kind = kind; revision = revision }) s in
        v.outcome ≢ VerdictOutcome.refused
        → find_receipt s'.receipts transaction.idempotency_key ≡ some (receipt_of transaction v)
  unfolding settle
  settle-receipt entry transaction next ReceiptKind.compare_failed revision s keyed n =
      absurd (n refl)
  settle-receipt entry transaction next ReceiptKind.outcome_unknown revision s keyed n =
      remember-receipt transaction _ s keyed
  settle-receipt entry transaction next ReceiptKind.committed revision s keyed n =
      remember-receipt transaction _ (published entry _ s) keyed

  commit-receipt :
      (entry : Handle) (transaction : ContextTransaction) (next : Snapshot) (store : S.State)
      (s s' : Service S) (v : Verdict)
      → commit entry transaction next store s ≡ (v, s')
      → transaction.idempotency_key ≢ []
      → v.outcome ≢ VerdictOutcome.refused
      → find_receipt s'.receipts transaction.idempotency_key ≡ some (receipt_of transaction v)
  unfolding commit
  commit-receipt entry transaction next store s s' v e keyed n =
      let (receipt, store') =
        S.compare_and_swap entry.body.revision (serialize_snapshot next) store in
      subst
        (λ p.
          p.0.outcome ≢ VerdictOutcome.refused
          → find_receipt p.1.receipts transaction.idempotency_key
            ≡ some (receipt_of transaction p.0))
        e
        (settle-receipt entry transaction next receipt.kind receipt.revision
          (record s { store = some store' }) keyed)
        n

  -- A call that passes what the order of the gates has in front of the key: a known and promoted
  -- handle, the active lease, and an actor who is verified again.
  abbrev pub PassesFirstGates : CognitionHandle → ExecutionGrant → Service S → Type 0
  PassesFirstGates handle grant s =
      (entry : Handle) × (governance : Snapshot) × (find_entry s.live handle ≡ some entry)
      × (check_entry entry grant s ≡ passed)
      × (canonical_head s ≡ some governance)
      × (rejects s.identity s.grant_actor governance ≡ false)

  -- Exactly once: after a first write with operations and an idempotency key that is not refused,
  -- a call on the service that it leaves that passes the gates in front of the key (known promoted
  -- handle, active lease, accepted actor) gets the verdict of that write for a transaction with
  -- the same key and the same digest, also where its base has gone stale, and is refused with
  -- `KeyConflict` for one with the same key and another digest; either way it changes nothing.
  pub write_to_cognition-once :
      (handle handle' : CognitionHandle) (transaction later : ContextTransaction)
      (grant grant' : ExecutionGrant) (s s' : Service S) (v : Verdict)
      → write_to_cognition handle transaction grant s ≡ some (v, s')
      → replayed transaction s ≡ none
      → transaction.operations ≢ []
      → transaction.idempotency_key ≢ []
      → v.outcome ≢ VerdictOutcome.refused
      → later.idempotency_key ≡ transaction.idempotency_key
      → PassesFirstGates handle' grant' s'
      → ((request_digest_of later ≡ request_digest_of transaction)
          → write_to_cognition handle' later grant' s' ≡ some (v, s'))
        × ((request_digest_of later ≢ request_digest_of transaction)
            → write_to_cognition handle' later grant' s'
              ≡ some (refuse RefusalReason.key_conflict, s'))
  write_to_cognition-once handle handle' transaction later grant grant' s s' v e first nonempty
        keyed r same_key passes =
      let held : find_receipt s'.receipts later.idempotency_key ≡ some (receipt_of transaction v) =
        subst (λ k. find_receipt s'.receipts k ≡ some (receipt_of transaction v)) (sym same_key)
          (go (course handle transaction grant s s' v e)) in
      let known = replayed-receipt later s' _ (λ nothing. keyed (sym same_key ∙ nothing)) held in
      (
        λ same.
            write-replayed handle' later grant' s' s' v v
              (known ∙ ap some (answer-same (receipt_of transaction v) _ (sym same))),
        λ other. write-replayed handle' later grant' s' s' v _ (
            known ∙ ap some (answer-other (receipt_of transaction v) _ (λ same. other (sym same)))),
      )
    where
      go :
          Course handle transaction grant s v s'
          → find_receipt s'.receipts transaction.idempotency_key ≡ some (receipt_of transaction v)
      go (replay known kept) = absurd (cc)
      go (turn nothing applied kept) = absurd (nonempty nothing)
      go (refusal reason same kept) = absurd (r (ap (λ w. w.outcome) same))
      go (admission fresh some_operations a) =
          commit-receipt a.entry transaction _ a.store s s' v a.committed keyed r
