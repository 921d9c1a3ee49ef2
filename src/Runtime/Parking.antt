-- ===== src/Runtime/Parking.antt =====
-- What a work cycle of src/runtime.cpp parks for a re-think.
use qiven_context_draft.Prelude.{
  ℕ, ◌≡◌, ◌≢◌, ◌⊎◌, inl, inr, refl, sym, ap, subst, ◌∙◌, Bool-cases, Option-cases, List, [], ◌∷◌,
  ◌++◌, Option, none, some, Text, is_empty, is_empty→nil,
}
use qiven_context_draft.Foundation.{Foundation}
use qiven_context_draft.Cognition.Policy.{RefusalReason, RecoveryAction}
use qiven_context_draft.Cognition.Records.{Snapshot}
use qiven_context_draft.Cognition.Defaults.{recovery_for}
use qiven_context_draft.Store.Contract.{CognitionStore}
use qiven_context_draft.Transaction.Types.{AuthenticatedActor, WorkMode, ContextTransaction}
use qiven_context_draft.Service.State.{Handle, Verdict, VerdictOutcome, Service, ExecutionGrant}
use qiven_context_draft.Service.Lifetime.{acquire_grant}
use qiven_context_draft.Service.Write.{Written, write_to_cognition}
use qiven_context_draft.Service.Inversion.{some-cancel}
use qiven_context_draft.Runtime.Session.{Llm}
use qiven_context_draft.Runtime.Cycle.{
  Turn, Worked, with_candidate, with_gap, recovery_step, recovered, concluded, after_write, propose,
  proposed, disclosed, with_grant, work_on, work_impl, work, annotated,
}
use qiven_context_draft.Runtime.Lease.{annotate_budget_keeps}

-- After a write that was not applied: the delta is parked where the recovery table maps the reason
-- of the verdict to a re-think, and nowhere else.
abbrev pub FollowsTable :
    Snapshot
    → RefusalReason
    → ContextTransaction
    → List ContextTransaction
    → List ContextTransaction
    → Type 0
FollowsTable state reason transaction old new =
    ((recovery_for state reason ≡ RecoveryAction.reread_rethink) × (new ≡ old ++ transaction ∷ []))
    ⊎ ((recovery_for state reason ≢ RecoveryAction.reread_rethink) × (new ≡ old))

-- After any verdict.
abbrev pub ParksBy :
    VerdictOutcome
    → Snapshot
    → RefusalReason
    → ContextTransaction
    → List ContextTransaction
    → List ContextTransaction
    → Type 0
ParksBy VerdictOutcome.applied state reason transaction old new = new ≡ old
ParksBy VerdictOutcome.refused state reason transaction old new =
    FollowsTable state reason transaction old new
ParksBy VerdictOutcome.outcome_unknown state reason transaction old new =
    FollowsTable state reason transaction old new

with_gap_keeps :
    (outcome : VerdictOutcome) (transaction : ContextTransaction) (llm : Llm)
    → (with_gap outcome transaction llm).parked_deltas ≡ llm.parked_deltas
unfolding with_gap
with_gap_keeps VerdictOutcome.applied transaction llm = refl
with_gap_keeps VerdictOutcome.refused transaction llm = refl
with_gap_keeps VerdictOutcome.outcome_unknown transaction llm = refl

recovery_step-Parks :
    (action : RecoveryAction) (transaction : ContextTransaction) (llm : Llm)
    → ((action ≡ RecoveryAction.reread_rethink)
        × ((recovery_step action transaction llm).parked_deltas
            ≡ llm.parked_deltas ++ transaction ∷ []))
      ⊎ ((action ≢ RecoveryAction.reread_rethink)
          × ((recovery_step action transaction llm).parked_deltas ≡ llm.parked_deltas))
unfolding recovery_step
recovery_step-Parks RecoveryAction.reread_rethink transaction llm = inl (refl, refl)
recovery_step-Parks RecoveryAction.halt_escalate transaction llm = inr (λ e. cc, refl)
recovery_step-Parks RecoveryAction.defer_to_supervised transaction llm = inr (λ e. cc, refl)
recovery_step-Parks RecoveryAction.design_review transaction llm = inr (λ e. cc, refl)
recovery_step-Parks RecoveryAction.fail_closed transaction llm = inr (λ e. cc, refl)
recovery_step-Parks RecoveryAction.block transaction llm = inr (λ e. cc, refl)

recovered-Parks :
    (state : Snapshot) (transaction : ContextTransaction) (v : Verdict) (llm : Llm)
    → FollowsTable state v.reason transaction llm.parked_deltas
        (recovered state transaction v llm).parked_deltas
unfolding recovered
recovered-Parks state transaction v llm =
    let same = with_gap_keeps v.outcome transaction (with_candidate transaction llm) in
    elim (recovery_step-Parks (recovery_for state v.reason) transaction
      (with_gap v.outcome transaction (with_candidate transaction llm))) [
        | inl (rethink, parked) ↦ inl (rethink, parked ∙ ap (λ l. l ++ transaction ∷ []) same)
        | inr (other, kept) ↦ inr (other, kept ∙ same)
      ]

concluded-Parks :
    (outcome : VerdictOutcome) (handle : Handle) (transaction : ContextTransaction) (v : Verdict)
    (llm : Llm) (t : Turn)
    → concluded outcome handle transaction v llm ≡ some t
    → ParksBy outcome handle.body.state v.reason transaction llm.parked_deltas t.1.parked_deltas
unfolding concluded
concluded-Parks VerdictOutcome.refused handle transaction v llm t e =
    subst
      (λ (o : Turn).
        FollowsTable handle.body.state v.reason transaction llm.parked_deltas o.1.parked_deltas)
      (some-cancel e) (recovered-Parks handle.body.state transaction v llm)
concluded-Parks VerdictOutcome.outcome_unknown handle transaction v llm t e =
    subst
      (λ (o : Turn).
        FollowsTable handle.body.state v.reason transaction llm.parked_deltas o.1.parked_deltas)
      (some-cancel e) (recovered-Parks handle.body.state transaction v llm)
concluded-Parks VerdictOutcome.applied handle transaction v llm t e =
    elim (Option-cases v.successor) [
      | inl nothing ↦ let went = rw nothing at e in absurd (cc went)
      | inr (successor, there) ↦
          let went = rw there at e in sym (ap (λ (o : Turn). o.1.parked_deltas) (some-cancel went))
    ]

-- The delta that a cycle puts before the gate, based on the revision of the cognition.
abbrev pub delta_of : AuthenticatedActor → Llm → Text → Handle → ContextTransaction
delta_of actor llm prompt handle = record (proposed (disclosed actor llm) prompt handle) {
  base = handle.body.revision;
}

module _ ⦃F : Foundation⦄ {S : CognitionStore} where
  -- What a cycle over a cognition does to the parked deltas: without a lease and without operations
  -- nothing; otherwise what the verdict on the delta, based on the cognition's revision, asks for.
  pub data Parks (handle : Handle) (prompt : Text) (actor : AuthenticatedActor) (mode : WorkMode)
      (llm : Llm) (s : Service S) (new : List ContextTransaction) : Type 0 where
    unleased :
        (acquire_grant actor mode s).0 ≡ none
        → new ≡ llm.parked_deltas
        → Parks handle prompt actor mode llm s new
    idle :
        (proposed (disclosed actor llm) prompt handle).operations ≡ []
        → new ≡ llm.parked_deltas
        → Parks handle prompt actor mode llm s new
    judged :
        (grant : ExecutionGrant) (m m' : Service S) (v : Verdict)
        → acquire_grant actor mode s ≡ (some grant, m)
        → write_to_cognition (some handle) (delta_of actor llm prompt handle) grant m ≡ some (v, m')
        → ParksBy v.outcome handle.body.state v.reason
            (delta_of actor llm prompt handle)
            llm.parked_deltas
            new
        → Parks handle prompt actor mode llm s new

  after_write-Parks :
      (w : Written S) (handle : Handle) (transaction : ContextTransaction) (grant : ExecutionGrant)
      (llm : Llm) (t : Turn) (s' : Service S)
      → after_write w handle transaction grant llm ≡ some (t, s')
      → (v : Verdict) × (m' : Service S) × (w ≡ some (v, m'))
        × ParksBy v.outcome handle.body.state v.reason transaction llm.parked_deltas
            t.1.parked_deltas
  after_write-Parks none handle transaction grant llm t s' e = absurd (cc)
  after_write-Parks (some (v, s)) handle transaction grant llm t s' e =
      elim (Option-cases (concluded v.outcome handle transaction v llm)) [
        | inl never ↦ let went = rw never at e in absurd (cc went)
        | inr (u, there) ↦
            let went = rw there at e in
            let same : u ≡ t = ap (λ (p : Turn × Service S). p.0) (some-cancel went) in
            (
              v,
              s,
              refl,
              subst
                  (λ (o : Turn).
                    ParksBy v.outcome handle.body.state v.reason transaction llm.parked_deltas
                      o.1.parked_deltas)
                  same (concluded-Parks v.outcome handle transaction v llm u there),
            )
      ]

  with_grant-Parks :
      (o : Option ExecutionGrant) (m : Service S) (handle : Handle) (prompt : Text)
      (actor : AuthenticatedActor) (mode : WorkMode) (llm : Llm) (s s' : Service S) (t : Turn)
      → acquire_grant actor mode s ≡ (o, m)
      → with_grant (o, m) handle prompt actor llm ≡ some (t, s')
      → Parks handle prompt actor mode llm s t.1.parked_deltas
  unfolding propose
  with_grant-Parks none m handle prompt actor mode llm s s' t taken e =
      unleased (ap (λ p. p.0) taken)
        (sym (ap (λ (p : Turn × Service S). p.0.1.parked_deltas) (some-cancel e)))
  with_grant-Parks (some grant) m handle prompt actor mode llm s s' t taken e =
      let delta = proposed (disclosed actor llm) prompt handle in
      elim (Bool-cases (is_empty delta.operations)) [
        | inl nothing ↦
            let went = rw nothing at e in
            idle (is_empty→nil _ nothing)
              (sym (ap (λ (p : Turn × Service S). p.0.1.parked_deltas) (some-cancel went)))
        | inr more ↦
            let went = rw more at e in
            let (v, m', wrote, parks) =
              after_write-Parks
                (write_to_cognition (some handle) (delta_of actor llm prompt handle) grant m) handle
                _ grant (disclosed actor llm) t s' went in
            judged grant m m' v taken wrote parks
      ]

  annotated_keeps :
      (P : List ContextTransaction → Type 0) (elapsed : ℕ) (w : Worked S) (t : Turn)
      (s' : Service S)
      → ((u : Turn) → w ≡ some (u, s') → P u.1.parked_deltas)
      → annotated elapsed w ≡ some (t, s')
      → P t.1.parked_deltas
  annotated_keeps P elapsed none t s' h e = absurd (cc)
  annotated_keeps P elapsed (some ((result, llm'), s)) t s' h e =
      let same = some-cancel e in
      let kept : t.1.parked_deltas ≡ llm'.parked_deltas =
        sym (ap (λ (p : Turn × Service S). p.0.1.parked_deltas) same)
        ∙ (annotate_budget_keeps elapsed llm').0 in
      subst P (sym kept)
        (h (result, llm') (ap (λ (p : Turn × Service S). some ((result, llm'), p.1)) same))

  pub work-Parks :
      (elapsed : ℕ) (prompt : Text) (actor : AuthenticatedActor) (mode : WorkMode) (llm : Llm)
      (s s' : Service S) (t : Turn) (handle : Handle)
      → llm.cognition ≡ some handle
      → work elapsed prompt actor mode llm s ≡ some (t, s')
      → Parks handle prompt actor mode llm s t.1.parked_deltas
  unfolding work work_impl
  work-Parks elapsed prompt actor mode llm s s' t handle bound e =
      annotated_keeps (Parks handle prompt actor mode llm s) elapsed
        (work_on (some handle) prompt actor mode llm s) t s'
        (λ u e'.
          with_grant-Parks (acquire_grant actor mode s).0 (acquire_grant actor mode s).1 handle
            prompt actor mode llm s s' u refl e')
        (ap (λ c. annotated elapsed (work_on c prompt actor mode llm s)) (sym bound) ∙ e)
