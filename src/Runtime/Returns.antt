-- ===== src/Runtime/Returns.antt =====
-- A work cycle of src/runtime.cpp returns.
use qiven_context_draft.Prelude.{
  ℕ, ◌≡◌, ◌≢◌, refl, sym, ap, subst, ◌∙◌, false≢true, Bool-cases, Option-cases, inl, inr, Option,
  none, some, Text, is_empty, list_eq, nat_eq,
}
use qiven_context_draft.Foundation.{Foundation}
use qiven_context_draft.Store.Contract.{CognitionStore}
use qiven_context_draft.Transaction.Types.{AuthenticatedActor, WorkMode, ContextTransaction}
use qiven_context_draft.Transaction.Chains.{HasRank}
use qiven_context_draft.Service.State.{
  Handle, CognitionHandle, Verdict, VerdictOutcome, Service, ExecutionGrant, find_entry,
}
use qiven_context_draft.Service.Lifetime.{acquire_grant, release_grant}
use qiven_context_draft.Service.Returns.{write_to_cognition-returns}
use qiven_context_draft.Service.Lease.{acquire_grant_keeps}
use qiven_context_draft.Runtime.Session.{Llm}
use qiven_context_draft.Runtime.Cycle.{
  Turn, Worked, with_service, concluded, propose, with_grant, work_on, work_impl, work, annotated,
}
use qiven_context_draft.Service.Steps.{Reachable}
use qiven_context_draft.Service.Answered.{IsAnswered, AreAnswered, write_to_cognition-IsAnswered}
use qiven_context_draft.Service.Recorded.{Reachable-AreAnswered}

concluded-returns :
    (outcome : VerdictOutcome) (handle : Handle) (transaction : ContextTransaction) (v : Verdict)
    (llm : Llm)
    → v.outcome ≡ outcome
    → IsAnswered v
    → concluded outcome handle transaction v llm ≢ none
unfolding concluded
concluded-returns VerdictOutcome.refused handle transaction v llm o a e = cc
concluded-returns VerdictOutcome.outcome_unknown handle transaction v llm o a e = cc
concluded-returns VerdictOutcome.applied handle transaction v llm o a e =
    elim (Option-cases v.successor) [
      | inl nothing ↦ absurd (a o nothing)
      | inr (successor, there) ↦ let went = rw there at e in absurd (cc went)
    ]

module _ ⦃F : Foundation⦄ {S : CognitionStore} where
  with_service-returns : (o : Option Turn) (s : Service S) → o ≢ none → with_service o s ≢ none
  with_service-returns none s h e = h refl
  with_service-returns (some t) s h e = cc

  propose-returns :
      (handle : Handle) (transaction : ContextTransaction) (grant : ExecutionGrant) (llm : Llm)
      (s : Service S)
      → AreAnswered s.receipts
      → ((entry : Handle)
          → find_entry s.live (some handle) ≡ some entry
          → HasRank entry.body.state.decisions)
      → propose handle transaction grant llm s ≢ none
  unfolding propose
  propose-returns handle transaction grant llm s a ranked =
      elim (Bool-cases (is_empty transaction.operations)) [
        | inl nothing ↦ rw nothing (λ e. cc)
        | inr more ↦
            let based = record transaction { base = handle.body.revision } in
            let (v, s', e) = write_to_cognition-returns based grant s (some handle) ranked in
            let answered =
              write_to_cognition-IsAnswered (some handle) based grant s s' v a
                (λ n. false≢true (sym more ∙ ap is_empty n)) e in
            rw (more, e)
              (with_service-returns _ (release_grant grant s')
                (concluded-returns v.outcome handle based v llm refl answered))
      ]

  with_grant-returns :
      (o : Option ExecutionGrant) (m : Service S) (handle : Handle) (prompt : Text)
      (actor : AuthenticatedActor) (llm : Llm)
      → AreAnswered m.receipts
      → ((entry : Handle)
          → find_entry m.live (some handle) ≡ some entry
          → HasRank entry.body.state.decisions)
      → with_grant (o, m) handle prompt actor llm ≢ none
  with_grant-returns none m handle prompt actor llm a ranked e = cc
  with_grant-returns (some grant) m handle prompt actor llm a ranked e =
      propose-returns handle _ grant _ m a ranked e

  work_on-returns :
      (cognition : CognitionHandle) (prompt : Text) (actor : AuthenticatedActor) (mode : WorkMode)
      (llm : Llm) (s : Service S)
      → AreAnswered s.receipts
      → ((entry : Handle)
          → find_entry s.live cognition ≡ some entry
          → HasRank entry.body.state.decisions)
      → work_on cognition prompt actor mode llm s ≢ none
  work_on-returns none prompt actor mode llm s a ranked e = cc
  work_on-returns (some handle) prompt actor mode llm s a ranked e' =
      let (o, m) = acquire_grant actor mode s in
      let (live, receipts) = acquire_grant_keeps actor mode s in
      with_grant-returns o m handle prompt actor llm (subst AreAnswered (sym receipts) a)
        (λ entry e. ranked entry (ap (λ l. find_entry l (some handle)) (sym live) ∙ e)) e'

  annotated-returns :
      (elapsed : ℕ) (w : Worked S)
      → w ≢ none
      → (t : Turn) × (s' : Service S) × (annotated elapsed w ≡ some (t, s'))
  annotated-returns elapsed none h = absurd (h refl)
  annotated-returns elapsed (some ((result, llm), s)) h = (_, s, refl)

  -- On a reachable service a work cycle returns, whatever its generator proposes: it is enough that the
  -- supersession chains of the live entry of its cognition are ranked.
  pub work-returns :
      (elapsed : ℕ) (prompt : Text) (actor : AuthenticatedActor) (mode : WorkMode) (llm : Llm)
      (s : Service S)
      → Reachable s
      → ((entry : Handle)
          → find_entry s.live llm.cognition ≡ some entry
          → HasRank entry.body.state.decisions)
      → (t : Turn) × (s' : Service S) × (work elapsed prompt actor mode llm s ≡ some (t, s'))
  unfolding work work_impl
  work-returns elapsed prompt actor mode llm s reach ranked =
      annotated-returns elapsed _ (
        work_on-returns llm.cognition prompt actor mode llm s (Reachable-AreAnswered s reach)
          ranked)
