-- ===== src/Transaction/Find.antt =====
-- The first-match searches of src/persistence.cpp, and the supersession chain.
use qiven_context_draft.Prelude.{
  ℕ, zero, suc, ℤ, int_eq, Bool, true, false, List, [], ◌∷◌, Option, none, some, Text, ◌==◌, nat_eq,
  list_eq, if◌then◌else◌,
}
use qiven_context_draft.Cognition.Records.{Decision, Obligation, Conflict, ProfileRecord}

unfoldable pub find_decision : List Decision → ℤ → Option Decision
find_decision [] id = none
find_decision (d ∷ ds) id = if d.id == id then some d else find_decision ds id

unfoldable pub find_obligation : List Obligation → ℤ → Option Obligation
find_obligation [] id = none
find_obligation (o ∷ os) id = if o.id == id then some o else find_obligation os id

unfoldable pub find_conflict : List Conflict → Text → Option Conflict
find_conflict [] id = none
find_conflict (c ∷ cs) id = if c.id == id then some c else find_conflict cs id

unfoldable pub find_profile : List ProfileRecord → Text → Option ProfileRecord
find_profile [] id = none
find_profile (p ∷ ps) id = if p.id == id then some p else find_profile ps id

-- The loop over the decisions that `from` supersedes; `reach` is the recursive call.
unfoldable pub any_prior : (Decision → Option Bool) → List Decision → List ℤ → Option Bool
any_prior reach decisions [] = some false
any_prior reach decisions (id ∷ ids) = elim (find_decision decisions id) [
  | none ↦ any_prior reach decisions ids
  | some prior ↦ elim (reach prior) [
    | none ↦ none
    | some true ↦ some true
    | some false ↦ any_prior reach decisions ids
  ]
]

-- `reachesDecision`: whether the chain from `from` reaches `target`. The recursion of the source has
-- no bound, so `none` stands for a depth beyond the fuel.
unfoldable pub reaches_decision : ℕ → List Decision → Decision → ℤ → Option Bool
reaches_decision zero decisions from target = none
reaches_decision (suc fuel) decisions from target =
    let rest =
      any_prior (λ prior. reaches_decision fuel decisions prior target) decisions from.supersedes in
    if from.id == target then some true else rest
