-- ===== src/Examples/Transactions.antt =====
-- The transaction theorems at a snapshot with two decisions, the second of which superseded the first.
use qiven_context_draft.Prelude.{
  ℕ, zero, suc, none, ◌≤◌, ◌≡◌, refl, ◌==◌, int_eq, Bool-cases, inl, inr, if◌then◌else◌, List, [],
  ◌∷◌, text, pos, ℤ, arith,
}
use qiven_context_draft.Cognition.Lifecycles.{Lifecycle}
use qiven_context_draft.Cognition.Records.{Decision, Snapshot}
use qiven_context_draft.Transaction.Types.{Operation, OperationKind}
use qiven_context_draft.Transaction.Check.{passed, each}
use qiven_context_draft.Transaction.Apply.{apply_all, apply, apply_kind, supersede_one}
use qiven_context_draft.Transaction.Invariants.{
  check_invariants, check_kind, check_supersede_decision, bad_pair, check_chain,
}
use qiven_context_draft.Transaction.Find.{find_decision, reaches_decision, any_prior}
use qiven_context_draft.Transaction.Orderly.{IsOrderly}
use qiven_context_draft.Transaction.Supersession.{retired_count}
use qiven_context_draft.Transaction.Successions.{supersessions, apply_all-IsOrderly}
use qiven_context_draft.Transaction.KeptViews.{KeepsViews}
use qiven_context_draft.Transaction.Ledger.{Extends, apply_all-Extends}
use qiven_context_draft.Examples.World.{world}

abbrev decision : ℤ → Lifecycle → List ℤ → List ℤ → Decision
decision id status supersedes superseded_by = record {
  id = id;
  status = status;
  title = text "t";
  content = text "c";
  supersedes = supersedes;
  superseded_by = superseded_by;
  provenance = record { sources = [] };
}

abbrev decided : Snapshot
decided = record world {
  decisions =
      decision (pos 1) Lifecycle.superseded [] (pos 2 ∷ [])
      ∷ decision (pos 2) Lifecycle.accepted (pos 1 ∷ []) []
      ∷ decision (pos 3) Lifecycle.accepted [] []
      ∷ [];
}

abbrev supersede : Operation
supersede = record {
  kind = OperationKind.supersede_decision;
  record_id = pos 2;
  successor_record_id = pos 3;
  aux = 0;
  scope = [];
  title = [];
  payload = text "why";
  provenance_ref = [];
}

supersede_passes : check_invariants decided supersede ≡ passed
unfolding check_invariants check_kind check_supersede_decision bad_pair find_decision check_chain
    reaches_decision any_prior text
supersede_passes = refl

-- The second decision ranks above the first, which it superseded.
abbrev age : ℤ → ℕ
age id = if id == pos 2 then 1 else 0

young : (id : ℤ) → age id ≤ 1
young id = elim (Bool-cases (id == pos 2)) [
  | inl second ↦ rw second (omega arith)
  | inr other ↦ rw other (omega arith)
]

decided-IsOrderly : IsOrderly decided.decisions
unfolding retired_count find_decision
decided-IsOrderly = record {
  rank = age;
  low = young;
  chained = (tt, (((omega arith, refl), tt), (tt, tt)));
}

apply_all-IsOrderly_example : IsOrderly (apply_all [] (supersede ∷ []) decided).decisions
unfolding supersessions
apply_all-IsOrderly_example =
    apply_all-IsOrderly decided [] (supersede ∷ []) (supersede_passes, tt) (omega arith)
      decided-IsOrderly

apply_all-Extends_example :
    Extends decided (apply_all [] (supersede ∷ []) decided)
    × KeepsViews (supersede ∷ []) decided.views (apply_all [] (supersede ∷ []) decided).views
apply_all-Extends_example = apply_all-Extends [] (supersede ∷ []) decided

abbrev between : ℤ → ℤ → Operation
between id successor = record supersede { record_id = id; successor_record_id = successor }

abbrev both : Snapshot
both = record world {
  decisions =
      decision (pos 1) Lifecycle.accepted [] [] ∷ decision (pos 2) Lifecycle.accepted [] [] ∷ [];
}

-- Gate 8 passes two supersessions of one transaction that close a cycle.
abbrev closing : List Operation
closing = between (pos 1) (pos 2) ∷ between (pos 2) (pos 1) ∷ []

closing_passes : each (check_invariants both) closing ≡ passed
unfolding each check_invariants check_kind check_supersede_decision bad_pair find_decision
    check_chain reaches_decision any_prior text
closing_passes = refl

-- The decision that the two leave for the other's id.
abbrev twin : ℤ → ℤ → Decision
twin id other = decision id Lifecycle.superseded (other ∷ []) (other ∷ [])

abbrev closed : List Decision
closed = twin (pos 1) (pos 2) ∷ twin (pos 2) (pos 1) ∷ []

closes : (apply_all [] closing both).decisions ≡ closed
unfolding apply_all apply apply_kind supersede_one
closes = refl

-- From then on the walk from either of them to another id has no end.
walk_never :
    (fuel : ℕ)
    → (reaches_decision fuel closed (twin (pos 1) (pos 2)) (pos 3) ≡ none)
      × (reaches_decision fuel closed (twin (pos 2) (pos 1)) (pos 3) ≡ none)
unfolding reaches_decision any_prior find_decision
walk_never zero = (refl, refl)
walk_never (suc fuel) = let (one, two) = walk_never fuel in (rw two refl, rw one refl)
