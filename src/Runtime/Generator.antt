-- ===== src/Runtime/Generator.antt =====
-- What a work cycle of src/runtime.cpp keeps: the delta generator of the session, and whatever the
-- calls that it makes of `QivenContext` keep of the service.
use qiven_context_draft.Prelude.{
  ℕ, ◌≤◌, leb, ◌≡◌, refl, sym, ap, subst, ◌∙◌, Bool-cases, Option-cases, inl, inr, Option, none,
  some, Text, is_empty,
}
use qiven_context_draft.Foundation.{Foundation}
use qiven_context_draft.Cognition.Policy.{RecoveryAction}
use qiven_context_draft.Cognition.Records.{Snapshot}
use qiven_context_draft.Cognition.Defaults.{recovery_for}
use qiven_context_draft.Store.Contract.{CognitionStore}
use qiven_context_draft.Transaction.Types.{AuthenticatedActor, WorkMode, ContextTransaction}
use qiven_context_draft.Transaction.Successions.{supersessions}
use qiven_context_draft.Service.State.{
  Handle, CognitionHandle, Verdict, VerdictOutcome, Service, ExecutionGrant,
}
use qiven_context_draft.Service.Lifetime.{acquire_grant, release_grant}
use qiven_context_draft.Service.Write.{Written, write_to_cognition}
use qiven_context_draft.Service.Inversion.{some-cancel}
use qiven_context_draft.Runtime.Session.{Llm}
use qiven_context_draft.Runtime.Cycle.{
  Turn, Worked, proposed, disclosed, with_candidate, with_gap, recovery_step, recovered, concluded,
  after_write, propose, with_grant, work_on, work_impl, work, annotated, annotate_budget,
  with_service,
}
use qiven_context_draft.Runtime.Lease.{with_service-eq, second}

abbrev pub SameGenerator : Llm → Llm → Type 0
SameGenerator llm llm' = llm'.delta_generator ≡ llm.delta_generator

with_gap-SameGenerator :
    (outcome : VerdictOutcome) (transaction : ContextTransaction) (llm : Llm)
    → SameGenerator llm (with_gap outcome transaction llm)
unfolding with_gap
with_gap-SameGenerator VerdictOutcome.applied transaction llm = refl
with_gap-SameGenerator VerdictOutcome.refused transaction llm = refl
with_gap-SameGenerator VerdictOutcome.outcome_unknown transaction llm = refl

recovery_step-SameGenerator :
    (action : RecoveryAction) (transaction : ContextTransaction) (llm : Llm)
    → SameGenerator llm (recovery_step action transaction llm)
unfolding recovery_step
recovery_step-SameGenerator RecoveryAction.reread_rethink transaction llm = refl
recovery_step-SameGenerator RecoveryAction.halt_escalate transaction llm = refl
recovery_step-SameGenerator RecoveryAction.defer_to_supervised transaction llm = refl
recovery_step-SameGenerator RecoveryAction.design_review transaction llm = refl
recovery_step-SameGenerator RecoveryAction.fail_closed transaction llm = refl
recovery_step-SameGenerator RecoveryAction.block transaction llm = refl

recovered-SameGenerator :
    (state : Snapshot) (transaction : ContextTransaction) (v : Verdict) (llm : Llm)
    → SameGenerator llm (recovered state transaction v llm)
unfolding recovered
recovered-SameGenerator state transaction v llm =
    recovery_step-SameGenerator (recovery_for state v.reason) transaction _
    ∙ with_gap-SameGenerator v.outcome transaction (with_candidate transaction llm)

concluded-SameGenerator :
    (outcome : VerdictOutcome) (handle : Handle) (transaction : ContextTransaction) (v : Verdict)
    (llm : Llm) (t : Turn)
    → concluded outcome handle transaction v llm ≡ some t
    → SameGenerator llm t.1
unfolding concluded
concluded-SameGenerator VerdictOutcome.refused handle transaction v llm t e =
    sym (ap (λ u. u.1.delta_generator) (some-cancel e))
    ∙ recovered-SameGenerator handle.body.state transaction v llm
concluded-SameGenerator VerdictOutcome.outcome_unknown handle transaction v llm t e =
    sym (ap (λ u. u.1.delta_generator) (some-cancel e))
    ∙ recovered-SameGenerator handle.body.state transaction v llm
concluded-SameGenerator VerdictOutcome.applied handle transaction v llm t e =
    elim (Option-cases v.successor) [
      | inl nothing ↦ let went = rw nothing at e in absurd (cc went)
      | inr (successor, there) ↦
          let went = rw there at e in sym (ap (λ u. u.1.delta_generator) (some-cancel went))
    ]

annotate_budget-SameGenerator :
    (elapsed : ℕ) (llm : Llm) → SameGenerator llm (annotate_budget elapsed llm)
unfolding annotate_budget
annotate_budget-SameGenerator elapsed llm = elim (Bool-cases (leb llm.turn_budget.hard elapsed)) [
  | inl hard ↦ rw hard refl
  | inr within ↦ elim (Bool-cases (leb llm.turn_budget.soft elapsed)) [
    | inl soft ↦ rw (within, soft) refl
    | inr free ↦ rw (within, free) refl
  ]
]

-- What the generator proposes supersedes at most one decision at a time.
abbrev pub IsModest : Llm → Type 0
IsModest llm =
    (prompt : Text) (handle : Handle) → supersessions (proposed llm prompt handle).operations ≤ 1

first_turn :
    {A : Type 0} {u w : Turn} {x y : A}
    → ◌≡◌ {A = Option (Turn × A)} (some (u, x)) (some (w, y))
    → w.1.delta_generator ≡ u.1.delta_generator
first_turn q = cc

module _ ⦃F : Foundation⦄ {S : CognitionStore} (P : Service S → Type 0)
    (acquires : (actor : AuthenticatedActor) (mode : WorkMode) (s : Service S)
      → P s
      → P (acquire_grant actor mode s).1)
    (releases : (grant : ExecutionGrant) (s : Service S) → P s → P (release_grant grant s))
    (writes : (handle : CognitionHandle) (transaction : ContextTransaction) (grant : ExecutionGrant)
        (s s' : Service S) (v : Verdict)
      → write_to_cognition handle transaction grant s ≡ some (v, s')
      → supersessions transaction.operations ≤ 1
      → P s
      → P s') where
  with_service-turn :
      (o : Option Turn) (s s' : Service S) (t : Turn) → with_service o s ≡ some (t, s') → o ≡ some t
  with_service-turn none s s' t e = absurd (cc)
  with_service-turn (some u) s s' t e = cc

  after_write_keeps :
      (written : Written S) (handle : Handle) (transaction : ContextTransaction)
      (grant : ExecutionGrant) (llm : Llm) (s' : Service S) (t : Turn)
      → ((v : Verdict) (m : Service S) → written ≡ some (v, m) → P m)
      → after_write written handle transaction grant llm ≡ some (t, s')
      → P s' × SameGenerator llm t.1
  after_write_keeps none handle transaction grant llm s' t h e = absurd (cc)
  after_write_keeps (some (v, m)) handle transaction grant llm s' t h e =
      let o = concluded v.outcome handle transaction v llm in
      (
        subst P (sym (with_service-eq o (release_grant grant m) s' t e))
            (releases grant m (h v m refl)),
        concluded-SameGenerator v.outcome handle transaction v llm t
            (with_service-turn o (release_grant grant m) s' t e),
      )

  propose_keeps :
      (handle : Handle) (transaction : ContextTransaction) (grant : ExecutionGrant) (llm : Llm)
      (s s' : Service S) (t : Turn)
      → supersessions transaction.operations ≤ 1
      → P s
      → propose handle transaction grant llm s ≡ some (t, s')
      → P s' × SameGenerator llm t.1
  unfolding propose
  propose_keeps handle transaction grant llm s s' t modest p e =
      elim (Bool-cases (is_empty transaction.operations)) [
        | inl nothing ↦
            let went = rw nothing at e in
            (subst P (second went) (releases grant s p), first_turn went)
        | inr more ↦
            let based = record transaction { base = handle.body.revision } in
            let went = rw more at e in
            after_write_keeps (write_to_cognition (some handle) based grant s) handle based grant
              llm s' t (λ v m w. writes (some handle) based grant s m v w modest p) went
      ]

  with_grant_keeps :
      (o : Option ExecutionGrant) (m s' : Service S) (handle : Handle) (prompt : Text)
      (actor : AuthenticatedActor) (llm : Llm) (t : Turn)
      → IsModest llm
      → P m
      → with_grant (o, m) handle prompt actor llm ≡ some (t, s')
      → P s' × SameGenerator llm t.1
  unfolding proposed
  with_grant_keeps none m s' handle prompt actor llm t modest p e =
      (subst P (second e) p, first_turn e)
  with_grant_keeps (some grant) m s' handle prompt actor llm t modest p e =
      propose_keeps handle (proposed (disclosed actor llm) prompt handle) grant
        (disclosed actor llm) m s' t (modest prompt handle) p e

  work_on_keeps :
      (cognition : CognitionHandle) (prompt : Text) (actor : AuthenticatedActor) (mode : WorkMode)
      (llm : Llm) (s s' : Service S) (t : Turn)
      → IsModest llm
      → P s
      → work_on cognition prompt actor mode llm s ≡ some (t, s')
      → P s' × SameGenerator llm t.1
  work_on_keeps none prompt actor mode llm s s' t modest p e = (subst P (second e) p, first_turn e)
  work_on_keeps (some handle) prompt actor mode llm s s' t modest p e =
      let (o, m) = acquire_grant actor mode s in
      with_grant_keeps o m s' handle prompt actor llm t modest (acquires actor mode s p) e

  -- What taking and giving back the lease and every modest write keep of the service, a work cycle
  -- of a modest session keeps too, and the session keeps its generator.
  pub work_keeps :
      (elapsed : ℕ) (prompt : Text) (actor : AuthenticatedActor) (mode : WorkMode) (llm : Llm)
      (s s' : Service S) (t : Turn)
      → IsModest llm
      → P s
      → work elapsed prompt actor mode llm s ≡ some (t, s')
      → P s' × SameGenerator llm t.1
  unfolding work work_impl
  work_keeps elapsed prompt actor mode llm s s' t modest p e =
      annotation (work_on llm.cognition prompt actor mode llm s) refl e
    where
      annotation :
          (w : Worked S)
          → work_on llm.cognition prompt actor mode llm s ≡ w
          → annotated elapsed w ≡ some (t, s')
          → P s' × SameGenerator llm t.1
      annotation none f g = absurd (cc)
      annotation (some ((result, llm'), m)) f g =
          let (kept, same) =
            work_on_keeps llm.cognition prompt actor mode llm s m (result, llm') modest p f in
          (
            subst P (second g) kept,
            first_turn g ∙ annotate_budget-SameGenerator elapsed llm' ∙ same,
          )
