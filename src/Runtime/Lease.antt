-- ===== src/Runtime/Lease.antt =====
-- The lease over a work cycle of src/runtime.cpp.
use qiven_context_draft.Prelude.{
  ℕ, leb, ◌≡◌, refl, sym, ap, ◌∙◌, false, Bool-cases, inl, inr, Option, none, some, Text, is_empty,
  is_empty→nil, list_eq, nat_eq,
}
use qiven_context_draft.Foundation.{Foundation}
use qiven_context_draft.Cognition.Records.{RevisionId, Snapshot, grant_eq}
use qiven_context_draft.Codec.Encode.{serialize_snapshot}
use qiven_context_draft.Store.Contract.{CognitionStore, ReceiptKind}
use qiven_context_draft.Transaction.Types.{AuthenticatedActor, WorkMode, ContextTransaction}
use qiven_context_draft.Service.State.{
  Handle, CognitionHandle, Verdict, Service, ExecutionGrant, no_grant,
}
use qiven_context_draft.Service.Lifetime.{acquire_grant, release_grant}
use qiven_context_draft.Service.Write.{
  Written, settle, commit, successor_of, published, write_to_cognition,
}
use qiven_context_draft.Service.Inversion.{Course, replay, turn, refusal, admission, course}
use qiven_context_draft.Service.Publication.{remember-keeps}
use qiven_context_draft.Service.Lease.{acquired, release_own, not_acquired, refuses_held}
use qiven_context_draft.Runtime.Session.{Llm}
use qiven_context_draft.Runtime.Cycle.{
  Turn, Worked, with_service, concluded, after_write, propose, with_grant, work_on, work_impl, work,
  annotated, annotate_budget, lost_race,
}

pub annotate_budget_keeps :
    (elapsed : ℕ) (llm : Llm)
    → let llm' = annotate_budget elapsed llm in
      (llm'.parked_deltas ≡ llm.parked_deltas) × (llm'.cognition ≡ llm.cognition)
unfolding annotate_budget
annotate_budget_keeps elapsed llm = elim (Bool-cases (leb llm.turn_budget.hard elapsed)) [
  | inl hard ↦ rw hard (refl, refl)
  | inr within ↦ elim (Bool-cases (leb llm.turn_budget.soft elapsed)) [
    | inl soft ↦ rw (within, soft) (refl, refl)
    | inr free ↦ rw (within, free) (refl, refl)
  ]
]

module _ ⦃F : Foundation⦄ {S : CognitionStore} where
  settle_keeps_lease :
      (entry : Handle) (transaction : ContextTransaction) (next : Snapshot) (kind : ReceiptKind)
      (revision : RevisionId) (s : Service S)
      → (settle entry transaction next
          (record { kind = kind; revision = revision })
          s).1.active_grant
        ≡ s.active_grant
  unfolding settle
  settle_keeps_lease entry transaction next ReceiptKind.compare_failed revision s = refl
  settle_keeps_lease entry transaction next ReceiptKind.outcome_unknown revision s =
      (remember-keeps transaction _ s).2
  settle_keeps_lease entry transaction next ReceiptKind.committed revision s =
      (remember-keeps transaction _ (published entry (successor_of entry next revision s) s)).2

  commit_keeps_lease :
      (entry : Handle) (transaction : ContextTransaction) (next : Snapshot) (store : S.State)
      (s : Service S)
      → (commit entry transaction next store s).1.active_grant ≡ s.active_grant
  unfolding commit
  commit_keeps_lease entry transaction next store s =
      let (receipt, store') =
        S.compare_and_swap entry.body.revision (serialize_snapshot next) store in
      settle_keeps_lease entry transaction next receipt.kind receipt.revision
        (record s { store = some store' })

  -- No write drops or moves the lease, whatever its verdict.
  pub write_to_cognition_keeps_lease :
      (handle : CognitionHandle) (transaction : ContextTransaction) (grant : ExecutionGrant)
      (s s' : Service S) (v : Verdict)
      → write_to_cognition handle transaction grant s ≡ some (v, s')
      → s'.active_grant ≡ s.active_grant
  write_to_cognition_keeps_lease handle transaction grant s s' v e =
      go (course handle transaction grant s s' v e)
    where
      go : Course handle transaction grant s v s' → s'.active_grant ≡ s.active_grant
      go (replay known kept) = ap (λ t. t.active_grant) kept
      go (turn nothing applied kept) = ap (λ t. t.active_grant) kept
      go (refusal reason same kept) = ap (λ t. t.active_grant) kept
      go (admission first nonempty a) =
          sym (ap (λ p. p.1.active_grant) a.committed)
          ∙ commit_keeps_lease a.entry transaction _ a.store s

  pub with_service-eq :
      (o : Option Turn) (s s' : Service S) (t : Turn) → with_service o s ≡ some (t, s') → s' ≡ s
  with_service-eq none s s' t e = absurd (cc)
  with_service-eq (some u) s s' t e = cc

  after_write-releases :
      (written : Written S) (handle : Handle) (transaction : ContextTransaction)
      (grant : ExecutionGrant) (llm : Llm) (s' : Service S) (t : Turn)
      → ((v : Verdict) (m : Service S) → written ≡ some (v, m) → m.active_grant ≡ grant.id)
      → after_write written handle transaction grant llm ≡ some (t, s')
      → s'.active_grant ≡ no_grant
  after_write-releases none handle transaction grant llm s' t h e = absurd (cc)
  after_write-releases (some (v, m)) handle transaction grant llm s' t h e =
      ap (λ x. x.active_grant)
        (with_service-eq (concluded v.outcome handle transaction v llm) (release_grant grant m) s' t
          e)
      ∙ (release_own grant m (h v m refl)).0

  pub second :
      {u w : Turn} {x y : Service S} → ◌≡◌ {A = Worked S} (some (u, x)) (some (w, y)) → x ≡ y
  second q = cc

  propose-releases :
      (handle : Handle) (transaction : ContextTransaction) (grant : ExecutionGrant) (llm : Llm)
      (s s' : Service S) (t : Turn)
      → s.active_grant ≡ grant.id
      → propose handle transaction grant llm s ≡ some (t, s')
      → s'.active_grant ≡ no_grant
  unfolding propose
  propose-releases handle transaction grant llm s s' t mine e =
      elim (Bool-cases (is_empty transaction.operations)) [
        | inl nothing ↦
            let went = rw nothing at e in
            sym (ap (λ x. x.active_grant) (second went)) ∙ (release_own grant s mine).0
        | inr more ↦
            let based = record transaction { base = handle.body.revision } in
            let went = rw more at e in
            after_write-releases (write_to_cognition (some handle) based grant s) handle based grant
              llm s' t
              (λ v m w. write_to_cognition_keeps_lease (some handle) based grant s m v w ∙ mine)
              went
      ]

  with_grant_keeps_lease :
      (o : Option ExecutionGrant) (m : Service S) (handle : Handle) (prompt : Text)
      (actor : AuthenticatedActor) (mode : WorkMode) (llm : Llm) (s s' : Service S) (t : Turn)
      → acquire_grant actor mode s ≡ (o, m)
      → with_grant (o, m) handle prompt actor llm ≡ some (t, s')
      → s'.active_grant ≡ s.active_grant
  with_grant_keeps_lease none m handle prompt actor mode llm s s' t a e =
      sym (ap (λ x. x.active_grant) (second e)) ∙ not_acquired actor mode s m a
  with_grant_keeps_lease (some grant) m handle prompt actor mode llm s s' t a e =
      let got = acquired actor mode s m grant a in
      propose-releases handle _ grant _ m s' t (got.leased ∙ sym got.given) e
      ∙ ap (λ v. record { value = v }) (sym (is_empty→nil _ got.idle))

  work_on_keeps_lease :
      (cognition : CognitionHandle) (prompt : Text) (actor : AuthenticatedActor) (mode : WorkMode)
      (llm : Llm) (s s' : Service S) (t : Turn)
      → work_on cognition prompt actor mode llm s ≡ some (t, s')
      → s'.active_grant ≡ s.active_grant
  work_on_keeps_lease none prompt actor mode llm s s' t e =
      sym (ap (λ x. x.active_grant) (second e))
  work_on_keeps_lease (some handle) prompt actor mode llm s s' t e =
      let (o, m) = acquire_grant actor mode s in
      with_grant_keeps_lease o m handle prompt actor mode llm s s' t refl e

  pub unannotated :
      (elapsed : ℕ) (w : Worked S) (t : Turn) (s' : Service S)
      → annotated elapsed w ≡ some (t, s')
      → (u : Turn) × (w ≡ some (u, s'))
  unannotated elapsed none t s' e = absurd (cc)
  unannotated elapsed (some ((result, llm), s)) t s' e =
      ((result, llm), ap (λ x. some ((result, llm), x)) (second e))

  -- A work cycle gives back the lease that it took, on every path, and leaves that of another flow
  -- alone: after the cycle the active grant is the one before it.
  pub work_keeps_lease :
      (elapsed : ℕ) (prompt : Text) (actor : AuthenticatedActor) (mode : WorkMode) (llm : Llm)
      (s s' : Service S) (t : Turn)
      → work elapsed prompt actor mode llm s ≡ some (t, s')
      → s'.active_grant ≡ s.active_grant
  unfolding work work_impl
  work_keeps_lease elapsed prompt actor mode llm s s' t e =
      let (u, e') = unannotated elapsed _ t s' e in
      work_on_keeps_lease llm.cognition prompt actor mode llm s s' u e'

  -- While another flow holds the lease, a cycle of a participant that has a cognition fails closed: it
  -- returns, parks nothing, keeps its cognition, and changes nothing in the service.
  pub work-competing :
      (elapsed : ℕ) (prompt : Text) (actor : AuthenticatedActor) (mode : WorkMode) (llm : Llm)
      (s : Service S) (handle : Handle)
      → llm.cognition ≡ some handle
      → is_empty s.active_grant.value ≡ false
      → (result : Text) × (llm' : Llm) × (work elapsed prompt actor mode llm s
          ≡ some ((result, llm'), s))
        × (llm'.parked_deltas ≡ llm.parked_deltas)
        × (llm'.cognition ≡ llm.cognition)
  unfolding work work_impl
  work-competing elapsed prompt actor mode llm s handle bound held =
      let (result, lost) = lost_race llm in
      let (parked, kept) = annotate_budget_keeps elapsed lost in
      (
        result,
        annotate_budget elapsed lost,
        ap (λ c. annotated elapsed (work_on c prompt actor mode llm s)) bound
            ∙ ap (λ p. annotated elapsed (with_grant p handle prompt actor llm))
                (refuses_held actor mode s held),
        parked,
        kept,
      )
