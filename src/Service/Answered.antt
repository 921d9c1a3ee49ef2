-- ===== src/Service/Answered.antt =====
-- The verdicts that `write_to_cognition` of src/persistence.cpp records under idempotency keys.
use qiven_context_draft.Prelude.{
  ◌≡◌, ◌≢◌, sym, ap, subst, Bool-cases, Option-cases, inl, inr, List, [], ◌∷◌, none, some, Text,
  is_empty, ◌==◌, list_eq, nat_eq, All, arith,
}
use qiven_context_draft.Foundation.{Foundation}
use qiven_context_draft.Cognition.Records.{Snapshot}
use qiven_context_draft.Codec.Encode.{serialize_snapshot}
use qiven_context_draft.Store.Contract.{CognitionStore}
use qiven_context_draft.Transaction.Types.{ContextTransaction}
use qiven_context_draft.Transaction.Digest.{request_digest_of}
use qiven_context_draft.Service.State.{
  Handle, CognitionHandle, Verdict, VerdictOutcome, Receipt, Service, ExecutionGrant,
}
use qiven_context_draft.Service.Write.{answer, find_receipt, replayed, commit, write_to_cognition}
use qiven_context_draft.Service.Inversion.{
  Course, replay, turn, refusal, admission, course, successor_state,
}
use qiven_context_draft.Service.Publication.{settle-applied}
use qiven_context_draft.Cognition.Records.{RevisionId, grant_eq}
use qiven_context_draft.Store.Contract.{ReceiptKind}
use qiven_context_draft.Service.State.{quarantine_state_eq}
use qiven_context_draft.Service.Write.{put_receipt, remember, settle, successor_of, published}

-- An applied verdict names its successor.
abbrev pub IsAnswered : Verdict → Type 0
IsAnswered v = v.outcome ≡ VerdictOutcome.applied → v.successor ≢ none

abbrev pub AreAnswered : List (Text × Receipt) → Type 0
AreAnswered = All (λ (p : Text × Receipt). IsAnswered p.1.outcome)

find_receipt-IsAnswered :
    (receipts : List (Text × Receipt)) (key : Text) (r : Receipt)
    → AreAnswered receipts
    → find_receipt receipts key ≡ some r
    → IsAnswered r.outcome
unfolding find_receipt
find_receipt-IsAnswered [] key r a e = absurd (cc)
find_receipt-IsAnswered ((k, q) ∷ rest) key r a e = elim (Bool-cases (k == key)) [
  | inl same ↦
      let here : q ≡ r = ground (arith, same, e) in
      subst (λ (x : Receipt). IsAnswered x.outcome) here a.0
  | inr other ↦ find_receipt-IsAnswered rest key r a.1 (ground (arith, other, e))
]

answer-IsAnswered :
    (r : Receipt) (digest : Text) → IsAnswered r.outcome → IsAnswered (answer r digest)
answer-IsAnswered r digest h = elim (Bool-cases (r.request_digest == digest)) [
  | inl same ↦ rw same h
  | inr other ↦ rw other (λ e. absurd (cc e))
]

put_receipt-AreAnswered :
    (receipts : List (Text × Receipt)) (key : Text) (r : Receipt)
    → AreAnswered receipts
    → IsAnswered r.outcome
    → AreAnswered (put_receipt receipts key r)
unfolding put_receipt
put_receipt-AreAnswered [] key r a h = (h, tt)
put_receipt-AreAnswered ((k, q) ∷ rest) key r a h = elim (Bool-cases (k == key)) [
  | inl same ↦ rw same (h, a.1)
  | inr other ↦ rw other (a.0, put_receipt-AreAnswered rest key r a.1 h)
]

module _ ⦃F : Foundation⦄ {S : CognitionStore} where
  replayed-IsAnswered :
      (transaction : ContextTransaction) (s : Service S) (v : Verdict)
      → AreAnswered s.receipts
      → replayed transaction s ≡ some v
      → IsAnswered v
  unfolding replayed
  replayed-IsAnswered transaction s v a e =
      elim (Bool-cases (is_empty transaction.idempotency_key)) [
        | inl nothing ↦ let went = rw nothing at e in absurd (cc went)
        | inr keyed ↦ elim (Option-cases (find_receipt s.receipts transaction.idempotency_key)) [
          | inl absent ↦ let went = rw (keyed, absent) at e in absurd (cc went)
          | inr (r, known) ↦
              let went = rw (keyed, known) at e in
              let given : answer r (request_digest_of transaction) ≡ v = cc went in
              subst IsAnswered given (
                answer-IsAnswered r (request_digest_of transaction)
                  (find_receipt-IsAnswered s.receipts _ r a known))
        ]
      ]

  commit-IsAnswered :
      (entry : Handle) (transaction : ContextTransaction) (next : Snapshot) (store : S.State)
      (s : Service S)
      → IsAnswered (commit entry transaction next store s).0
  unfolding commit
  commit-IsAnswered entry transaction next store s r nothing =
      let (receipt, store') =
        S.compare_and_swap entry.body.revision (serialize_snapshot next) store in
      let (_, returned, _, _, _) =
        settle-applied entry transaction next receipt.kind receipt.revision
          (record s { store = some store' }) r in
      cc (returned, nothing)

  -- What a write with operations answers.
  pub write_to_cognition-IsAnswered :
      (handle : CognitionHandle) (transaction : ContextTransaction) (grant : ExecutionGrant)
      (s s' : Service S) (v : Verdict)
      → AreAnswered s.receipts
      → transaction.operations ≢ []
      → write_to_cognition handle transaction grant s ≡ some (v, s')
      → IsAnswered v
  write_to_cognition-IsAnswered handle transaction grant s s' v a nonempty e =
      go (course handle transaction grant s s' v e)
    where
      go : Course handle transaction grant s v s' → IsAnswered v
      go (replay known kept) = replayed-IsAnswered transaction s v a known
      go (turn nothing applied kept) = absurd (nonempty nothing)
      go (refusal reason same kept) = subst IsAnswered (sym same) (λ r. absurd (cc r))
      go (admission first _ b) =
          subst IsAnswered (ap (λ p. p.0) b.committed)
            (commit-IsAnswered b.entry transaction (successor_state b.entry transaction) b.store s)

  remember-AreAnswered :
      (transaction : ContextTransaction) (v : Verdict) (s : Service S)
      → AreAnswered s.receipts
      → IsAnswered v
      → AreAnswered (remember transaction v s).receipts
  unfolding remember
  remember-AreAnswered transaction v s a h =
      elim (Bool-cases (is_empty transaction.idempotency_key)) [
        | inl nothing ↦ rw nothing a
        | inr keyed ↦
            rw keyed (put_receipt-AreAnswered s.receipts transaction.idempotency_key _ a h)
      ]

  settle-AreAnswered :
      (entry : Handle) (transaction : ContextTransaction) (next : Snapshot) (kind : ReceiptKind)
      (revision : RevisionId) (s : Service S)
      → AreAnswered s.receipts
      → AreAnswered
          (settle entry transaction next (record { kind = kind; revision = revision }) s).1.receipts
  unfolding settle
  settle-AreAnswered entry transaction next ReceiptKind.compare_failed revision s a = a
  settle-AreAnswered entry transaction next ReceiptKind.outcome_unknown revision s a =
      remember-AreAnswered transaction _ s a (λ e. absurd (cc e))
  settle-AreAnswered entry transaction next ReceiptKind.committed revision s a =
      remember-AreAnswered transaction _ (published entry (successor_of entry next revision s) s) a
        (λ e n. cc n)

  commit-AreAnswered :
      (entry : Handle) (transaction : ContextTransaction) (next : Snapshot) (store : S.State)
      (s : Service S)
      → AreAnswered s.receipts
      → AreAnswered (commit entry transaction next store s).1.receipts
  unfolding commit
  commit-AreAnswered entry transaction next store s a =
      let (receipt, store') =
        S.compare_and_swap entry.body.revision (serialize_snapshot next) store in
      settle-AreAnswered entry transaction next receipt.kind receipt.revision
        (record s { store = some store' }) a

  pub write_to_cognition-AreAnswered :
      (handle : CognitionHandle) (transaction : ContextTransaction) (grant : ExecutionGrant)
      (s s' : Service S) (v : Verdict)
      → write_to_cognition handle transaction grant s ≡ some (v, s')
      → AreAnswered s.receipts
      → AreAnswered s'.receipts
  write_to_cognition-AreAnswered handle transaction grant s s' v e a =
      go (course handle transaction grant s s' v e)
    where
      go : Course handle transaction grant s v s' → AreAnswered s'.receipts
      go (replay known kept) = subst (λ (t : Service S). AreAnswered t.receipts) (sym kept) a
      go (turn nothing applied kept) =
          subst (λ (t : Service S). AreAnswered t.receipts) (sym kept) a
      go (refusal reason same kept) = subst (λ (t : Service S). AreAnswered t.receipts) (sym kept) a
      go (admission first nonempty b) =
          subst (λ (p : Verdict × Service S). AreAnswered p.1.receipts) b.committed
            (commit-AreAnswered b.entry transaction _ b.store s a)
