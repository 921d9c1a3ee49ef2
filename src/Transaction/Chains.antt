-- ===== src/Transaction/Chains.antt =====
-- The recursion of `reachesDecision` (src/persistence.cpp): where it is well founded, it returns
-- within the fuel of the model.
use qiven_context_draft.Prelude.{
  ℕ, zero, suc, ◌≤◌, ◌<◌, ℤ, int_eq, ◌≡◌, ◌≢◌, refl, sym, ap, subst, ◌∙◌, Bool, true, false,
  Bool-cases, Option-cases, inl, inr, List, [], ◌∷◌, Option, none, some, ◌==◌, arith, length, All,
}
use qiven_context_draft.Cognition.Policy.{RefusalReason}
use qiven_context_draft.Cognition.Records.{Decision, Snapshot}
use qiven_context_draft.Transaction.Types.{OperationKind, Operation}
use qiven_context_draft.Transaction.Find.{find_decision, any_prior, reaches_decision}
use qiven_context_draft.Transaction.Check.{Check, passed, refused, endless, ◌then_check◌, refuse_if}
use qiven_context_draft.Transaction.Invariants.{
  check_reached, check_chain, check_append_decision, check_supersede_decision,
  check_transition_obligation, check_amend_view_spec, check_kind, check_invariants,
}

-- A rank of the decision ids, at most their number, that falls from every decision to those that
-- it supersedes: the supersession chains have no cycle.
pub record HasRank (decisions : List Decision) : Type 0 where
  pub rank : ℤ → ℕ
  pub bounded : All (λ d. rank d.id ≤ length decisions) decisions
  pub falls : All (λ d. All (λ prior. rank prior < rank d.id) d.supersedes) decisions

pub find_decision-All :
    (P : Decision → Type 0) (ds : List Decision) (id : ℤ) (d : Decision)
    → All P ds
    → find_decision ds id ≡ some d
    → P d × (d.id ≡ id)
unfolding find_decision
find_decision-All P [] id d a e = absurd (cc)
find_decision-All P (k ∷ ds) id d a e = elim (Bool-cases (k.id == id)) [
  | inl same ↦
      let here : k ≡ d = ground (arith, same, e) in
      (subst P here a.0, ap (λ x. x.id) (sym here) ∙ (int_eq.beq_iff k.id id).0 same)
  | inr other ↦ find_decision-All P ds id d a.1 (ground (arith, other, e))
]

any_prior-returns :
    (reach : Decision → Option Bool) (decisions : List Decision) (ids : List ℤ)
    → All
        (λ id. (prior : Decision) → find_decision decisions id ≡ some prior → reach prior ≢ none)
        ids
    → any_prior reach decisions ids ≢ none
unfolding any_prior
any_prior-returns reach decisions [] h e = cc
any_prior-returns reach decisions (id ∷ ids) h e =
    elim (Option-cases (find_decision decisions id)) [
      | inl absent ↦ any_prior-returns reach decisions ids h.1 (ground (arith, absent, e))
      | inr (prior, found) ↦ elim (Option-cases (reach prior)) [
        | inl never ↦ h.0 prior found never
        | inr (true, done) ↦ absurd (ground (arith, found, done, e))
        | inr (false, done) ↦
            any_prior-returns reach decisions ids h.1 (ground (arith, found, done, e))
      ]
    ]

module _ (decisions : List Decision) (ranked : HasRank decisions) where
  prior_ranks :
      (fuel : ℕ) (from : Decision) (ids : List ℤ)
      → ranked.rank from.id < suc fuel
      → All (λ prior. ranked.rank prior < ranked.rank from.id) ids
      → All
          (λ id.
            (prior : Decision)
            → find_decision decisions id ≡ some prior
            → ranked.rank prior.id < fuel)
          ids
  prior_ranks fuel from [] h a = tt
  prior_ranks fuel from (id ∷ ids) h a = (
    λ prior found.
        let same = ap ranked.rank (find_decision-All _ decisions id prior ranked.falls found).1 in
        omega (arith, same, a.0, h),
    prior_ranks fuel from ids h a.1,
  )

  priors_return :
      (fuel : ℕ) (target : ℤ)
      → ((prior : Decision) (id : ℤ)
          → find_decision decisions id ≡ some prior
          → ranked.rank prior.id < fuel
          → reaches_decision fuel decisions prior target ≢ none)
      → (ids : List ℤ)
      → All
          (λ id.
            (prior : Decision)
            → find_decision decisions id ≡ some prior
            → ranked.rank prior.id < fuel)
          ids
      → All
          (λ id.
            (prior : Decision)
            → find_decision decisions id ≡ some prior
            → reaches_decision fuel decisions prior target ≢ none)
          ids
  priors_return fuel target returns [] a = tt
  priors_return fuel target returns (i ∷ ids) a =
      (λ prior f. returns prior i f (a.0 prior f), priors_return fuel target returns ids a.1)

  reaches_decision-returns :
      (fuel : ℕ) (from : Decision) (id target : ℤ)
      → find_decision decisions id ≡ some from
      → ranked.rank from.id < fuel
      → reaches_decision fuel decisions from target ≢ none
  unfolding reaches_decision
  reaches_decision-returns zero from id target found h e = absurd (omega arith)
  reaches_decision-returns (suc fuel) from id target found h e =
      elim (Bool-cases (from.id == target)) [
        | inl there ↦ absurd (ground (arith, there, e))
        | inr onward ↦
            any_prior-returns _ decisions from.supersedes
              (priors_return fuel target
                (λ prior i f r. reaches_decision-returns fuel prior i target f r) from.supersedes
                (prior_ranks fuel from from.supersedes h
                  (find_decision-All _ decisions id from ranked.falls found).0))
              (ground (arith, onward, e))
      ]

  -- Where the chains are ranked, the fuel of the model is enough for the chain check, whatever the
  -- successor and the target.
  pub check_chain-returns :
      (id target : ℤ) → check_chain decisions (find_decision decisions id) target ≢ endless
  unfolding check_chain
  check_chain-returns id target = starts (find_decision decisions id) refl
    where
      decided : (o : Option Bool) → o ≢ none → check_reached o ≢ endless
      decided none n e = n refl
      decided (some true) n e = cc
      decided (some false) n e = cc

      starts :
          (o : Option Decision)
          → find_decision decisions id ≡ o
          → check_chain decisions o target ≢ endless
      starts none found e = cc
      starts (some from) found e =
          decided _
            (reaches_decision-returns (suc (length decisions)) from id target found
              (omega (arith, (find_decision-All _ decisions id from ranked.bounded found).0)))
            e

pub refuse_if-decides : (b : Bool) (reason : RefusalReason) → refuse_if b reason ≢ endless
refuse_if-decides true reason e = cc
refuse_if-decides false reason e = cc

pub then_check-decides : (c d : Check) → c ≢ endless → d ≢ endless → (c then_check d) ≢ endless
then_check-decides passed d h k e = k e
then_check-decides (refused reason) d h k e = cc
then_check-decides endless d h k e = h refl

pub ruleset decides = (refuse_if-decides, then_check-decides)

-- Gate 8 decides every operation on a snapshot whose supersession chains are ranked.
pub check_invariants-returns :
    (current : Snapshot) (operation : Operation)
    → HasRank current.decisions
    → check_invariants current operation ≢ endless
unfolding check_invariants check_kind check_append_decision check_supersede_decision
    check_transition_obligation check_amend_view_spec
check_invariants-returns current operation ranked = by_kind operation.kind
  where
    by_kind : (kind : OperationKind) → check_kind current operation kind ≢ endless
    by_kind OperationKind.append_decision = unfold check_append_decision in search decides depth 9
    by_kind OperationKind.supersede_decision =
        unfold check_supersede_decision in
        search (decides, check_chain-returns current.decisions ranked) depth 9
    by_kind OperationKind.transition_obligation =
        unfold check_transition_obligation in search decides depth 9
    by_kind OperationKind.amend_view_spec = unfold check_amend_view_spec in search decides depth 12
    by_kind OperationKind.add_memory = search decides
    by_kind OperationKind.upsert_obligation = search decides
    by_kind OperationKind.close_obligation = search decides
    by_kind OperationKind.update_state = search decides
    by_kind OperationKind.add_evidence = search decides
    by_kind OperationKind.upsert_profile = search decides
    by_kind OperationKind.open_conflict = search decides
    by_kind OperationKind.resolve_conflict = search decides
    by_kind OperationKind.set_next_boundary = search decides
