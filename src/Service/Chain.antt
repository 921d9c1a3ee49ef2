-- ===== src/Service/Chain.antt =====
-- One write after another: the handle that a write of src/persistence.cpp returns, and the one that
-- it took.
use qiven_context_draft.Prelude.{
  ℕ, ◌≡◌, ◌≢◌, refl, sym, ap, ap₂, subst, All, ◌<◌, ◌∙◌, Bool-cases, inl, inr, List, [], ◌∷◌, none,
  some, ◌==◌, nat_eq, arith,
}
use qiven_context_draft.Foundation.{Foundation}
use qiven_context_draft.Cognition.Records.{RevisionId}
use qiven_context_draft.Codec.Encode.{serialize_snapshot}
use qiven_context_draft.Store.Contract.{CognitionStore, ReceiptKind}
use qiven_context_draft.Transaction.Types.{ContextTransaction}
use qiven_context_draft.Service.State.{
  Handle, CognitionHandle, Verdict, VerdictOutcome, Service, ExecutionGrant, find_live, find_entry,
  replace_live,
}
use qiven_context_draft.Service.Write.{replayed, settle, commit, successor_of, write_to_cognition}
use qiven_context_draft.Service.Inversion.{
  Course, replay, turn, refusal, admission, course, successor_state, some-cancel,
}
use qiven_context_draft.Service.Publication.{settle-applied}
use qiven_context_draft.Service.Live.{
  AreSound, IsBelow, find_live-All, find_live-replace_new, find_live-replace_old,
}
use qiven_context_draft.Service.Steps.{Reachable, IsSound}
use qiven_context_draft.Service.Reach.{Reachable-IsSound}

find_live-address :
    (hs : List Handle) (a : ℕ) (h : Handle) → find_live hs a ≡ some h → h.address ≡ a
unfolding find_live
find_live-address [] a h e = absurd (cc)
find_live-address (k ∷ hs) a h e = elim (Bool-cases (k.address == a)) [
  | inl same ↦ ground (arith, same, e)
  | inr other ↦ find_live-address hs a h (ground (arith, other, e))
]

find_entry-replaced :
    (handle : CognitionHandle) (entry h : Handle) (live : List Handle) (next : ℕ)
    → AreSound live next
    → h.address ≡ next
    → find_entry live handle ≡ some entry
    → (find_entry (replace_live live entry.address h) (some h) ≡ some h)
      × (find_entry (replace_live live entry.address h) handle ≡ none)
unfolding find_entry
find_entry-replaced none entry h live next sound fresh e = absurd (cc)
find_entry-replaced (some handle) entry h live next sound fresh e =
    let here : entry.address ≡ handle.address = find_live-address live handle.address entry e in
    let low : entry.address < next =
      find_live-All (IsBelow next) live handle.address entry sound.below e in
    (
      find_live-replace_new live entry.address h entry
          (subst (λ n. All (IsBelow n) live) (sym fresh) sound.below)
          (subst (λ a. find_live live a ≡ some entry) (sym here) e),
      subst (λ a. find_live (replace_live live entry.address h) a ≡ none) here
          (find_live-replace_old live entry.address h sound.apart
            (λ same. omega (arith, low, fresh, same))),
    )

module _ ⦃F : Foundation⦄ {S : CognitionStore} where
  -- The returned handle is live, with the state of the successor, and the one written to is not.
  pub record Chained (handle : CognitionHandle) (entry : Handle) (transaction : ContextTransaction)
      (v : Verdict) (s' : Service S) : Type 0 where
    pub successor : Handle
    pub returned : v.successor ≡ some successor
    pub state : successor.body.state ≡ successor_state entry transaction
    pub is_live : find_entry s'.live v.successor ≡ some successor
    pub not_live : find_entry s'.live handle ≡ none

  settle-Chained :
      (handle : CognitionHandle) (entry : Handle) (transaction : ContextTransaction)
      (kind : ReceiptKind) (revision : RevisionId) (s : Service S)
      → IsSound s
      → find_entry s.live handle ≡ some entry
      → let (v, s') =
          settle entry transaction
            (successor_state entry transaction)
            (record { kind = kind; revision = revision })
            s in
        v.outcome ≡ VerdictOutcome.applied → Chained handle entry transaction v s'
  settle-Chained handle entry transaction kind revision s sound found r =
      let successor = successor_of entry (successor_state entry transaction) revision s in
      let (_, returned, live, _, _) =
        settle-applied entry transaction (successor_state entry transaction) kind revision s r in
      let (there, gone) =
        find_entry-replaced handle entry successor s.live s.next_address sound refl found in
      record {
        successor = successor;
        returned = returned;
        state = refl;
        is_live = ap₂ find_entry live returned ∙ there;
        not_live = ap (λ l. find_entry l handle) live ∙ gone;
      }

  commit-Chained :
      (handle : CognitionHandle) (entry : Handle) (transaction : ContextTransaction)
      (store : S.State) (s : Service S)
      → IsSound s
      → find_entry s.live handle ≡ some entry
      → let (v, s') = commit entry transaction (successor_state entry transaction) store s in
        v.outcome ≡ VerdictOutcome.applied → Chained handle entry transaction v s'
  unfolding commit
  commit-Chained handle entry transaction store s sound found =
      let (receipt, store') =
        S.compare_and_swap entry.body.revision
          (serialize_snapshot (successor_state entry transaction)) store in
      settle-Chained handle entry transaction receipt.kind receipt.revision
        (record s { store = some store' }) sound found

  -- In a reachable service, over any store: where a first write with operations is applied, the
  -- handle that it returns is live and stands for the state that the operations make of the
  -- entry's, and the handle that it was given is not live any more.
  pub write_to_cognition-Chained :
      (handle : CognitionHandle) (transaction : ContextTransaction) (grant : ExecutionGrant)
      (entry : Handle) (s s' : Service S) (v : Verdict)
      → Reachable s
      → write_to_cognition handle transaction grant s ≡ some (v, s')
      → replayed transaction s ≡ none
      → transaction.operations ≢ []
      → v.outcome ≡ VerdictOutcome.applied
      → find_entry s.live handle ≡ some entry
      → Chained handle entry transaction v s'
  write_to_cognition-Chained handle transaction grant entry s s' v reach e first nonempty r found =
      go (course handle transaction grant s s' v e)
    where
      go : Course handle transaction grant s v s' → Chained handle entry transaction v s'
      go (replay known kept) = absurd (cc)
      go (turn nothing applied kept) = absurd (nonempty nothing)
      go (refusal reason same kept) = absurd (cc)
      go (admission _ _ a) =
          let same_entry : a.entry ≡ entry = some-cancel (sym a.is_live ∙ found) in
          subst
            (λ p. p.0.outcome ≡ VerdictOutcome.applied → Chained handle entry transaction p.0 p.1)
            (subst (λ x. commit x transaction (successor_state x transaction) a.store s ≡ (v, s'))
              same_entry a.committed)
            (commit-Chained handle entry transaction a.store s (Reachable-IsSound s reach) found) r
