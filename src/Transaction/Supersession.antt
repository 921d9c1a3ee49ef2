-- ===== src/Transaction/Supersession.antt =====
-- What one supersession does to the list of decisions (`supersede_one`, src/persistence.cpp): whom
-- a search finds, who is retired, and what a decision supersedes.
use qiven_context_draft.Prelude.{
  ℕ, ◌+◌, ◌≤◌, ◌<◌, ℤ, int_eq, ◌≡◌, refl, sym, ap, ◌∙◌, Bool, true, false, not, Bool-cases, inl,
  inr, List, [], ◌∷◌, ◌++◌, map, Option, none, some, ◌==◌, arith, length, All, All-append,
  if◌then◌else◌,
}
use qiven_context_draft.Cognition.Lifecycles.{Lifecycle, lifecycle_eq}
use qiven_context_draft.Cognition.Records.{Decision}
use qiven_context_draft.Transaction.Find.{find_decision}
use qiven_context_draft.Transaction.Apply.{supersede_one}

abbrev pub is_past : Decision → Bool
is_past d = not (d.status == Lifecycle.accepted)

-- Whether a decision was found, and is not accepted any more.
abbrev pub is_retired : Option Decision → Bool
is_retired none = false
is_retired (some d) = is_past d

unfoldable pub retired_count : List Decision → ℕ
retired_count [] = 0
retired_count (d ∷ ds) = (if is_past d then 1 else 0) + retired_count ds

pub retired_count-length : (ds : List Decision) → retired_count ds ≤ length ds
unfolding retired_count
retired_count-length [] = omega arith
retired_count-length (d ∷ ds) = elim (Bool-cases (is_past d)) [
  | inl past ↦ rw past (omega (arith, retired_count-length ds))
  | inr current ↦ rw current (omega (arith, retired_count-length ds))
]

pub retired_count-append : (ds es : List Decision) → retired_count ds ≤ retired_count (ds ++ es)
unfolding retired_count
retired_count-append [] es = omega arith
retired_count-append (d ∷ ds) es = omega (arith, retired_count-append ds es)

-- A record behind those that are there hides none of them.
pub find_decision-append :
    (ds es : List Decision) (id : ℤ) (d : Decision)
    → find_decision ds id ≡ some d
    → find_decision (ds ++ es) id ≡ some d
unfolding find_decision
find_decision-append [] es id d e = absurd (cc)
find_decision-append (k ∷ ds) es id d e = elim (Bool-cases (k.id == id)) [
  | inl same ↦ ground (arith, same, e)
  | inr other ↦ rw other (find_decision-append ds es id d (ground (arith, other, e)))
]

pub is_retired-found :
    (o : Option Decision) → is_retired o ≡ true → (d : Decision) × (o ≡ some d) × (is_past d ≡ true)
is_retired-found none e = absurd (cc)
is_retired-found (some d) e = (d, refl, e)

module _ (a b : ℤ) where
  pub supersede_one-id : (d : Decision) → (supersede_one a b d).id ≡ d.id
  unfolding supersede_one
  supersede_one-id d = ground arith

  supersede_one-past : (d : Decision) → is_past d ≡ true → is_past (supersede_one a b d) ≡ true
  unfolding supersede_one
  supersede_one-past d e = ground (arith, e)

  supersede_one-retires : (d : Decision) → d.id ≡ a → is_past (supersede_one a b d) ≡ true
  unfolding supersede_one
  supersede_one-retires d e = ground (arith, e)

  abbrev pub superseded : List Decision → List Decision
  superseded ds = map (supersede_one a b) ds

  -- A search finds the same decision, changed.
  pub find_decision-superseded :
      (ds : List Decision) (id : ℤ) (d : Decision)
      → find_decision ds id ≡ some d
      → find_decision (superseded ds) id ≡ some (supersede_one a b d)
  unfolding find_decision supersede_one
  find_decision-superseded [] id d e = absurd (cc)
  find_decision-superseded (k ∷ ds) id d e = elim (Bool-cases (k.id == id)) [
    | inl same ↦
        rw (supersede_one-id k, same)
          (ap (λ x. some (supersede_one a b x)) (ground (arith, same, e)))
    | inr other ↦
        rw (supersede_one-id k, other) (find_decision-superseded ds id d (ground (arith, other, e)))
  ]

  -- Who was retired stays so.
  pub retired-superseded :
      (ds : List Decision) (id : ℤ)
      → is_retired (find_decision ds id) ≡ true
      → is_retired (find_decision (superseded ds) id) ≡ true
  retired-superseded ds id e =
      let (d, found, past) = is_retired-found (find_decision ds id) e in
      ap is_retired (find_decision-superseded ds id d found) ∙ supersede_one-past d past

  -- The superseded decision is retired.
  pub superseded-retires :
      (ds : List Decision) (d : Decision)
      → find_decision ds a ≡ some d
      → d.id ≡ a
      → is_retired (find_decision (superseded ds) a) ≡ true
  superseded-retires ds d found same =
      ap is_retired (find_decision-superseded ds a d found) ∙ supersede_one-retires d same

  retired_count-kept : (ds : List Decision) → retired_count ds ≤ retired_count (superseded ds)
  unfolding retired_count
  retired_count-kept [] = omega arith
  retired_count-kept (d ∷ ds) = elim (Bool-cases (is_past d)) [
    | inl past ↦ rw (past, supersede_one-past d past) (omega (arith, retired_count-kept ds))
    | inr current ↦ rw current (omega (arith, retired_count-kept ds))
  ]

  -- Superseding an accepted decision retires one more.
  pub retired_count-superseded :
      (ds : List Decision) (d : Decision)
      → find_decision ds a ≡ some d
      → is_past d ≡ false
      → retired_count ds < retired_count (superseded ds)
  unfolding retired_count find_decision
  retired_count-superseded [] d e n = absurd (cc)
  retired_count-superseded (k ∷ ds) d e n = elim (Bool-cases (k.id == a)) [
    | inl same ↦
        let here : k ≡ d = ground (arith, same, e) in
        rw
          (
            here,
            n,
            supersede_one-retires d (ap (λ x. x.id) (sym here) ∙ (int_eq.beq_iff k.id a).0 same),
          )
          (omega (arith, retired_count-kept ds))
    | inr other ↦
        let more = retired_count-superseded ds d (ground (arith, other, e)) n in
        elim (Bool-cases (is_past k)) [
          | inl past ↦ rw (past, supersede_one-past k past) (omega (arith, more))
          | inr current ↦ rw current (omega (arith, more))
        ]
  ]

  -- A decision supersedes what it did, and the successor also the superseded one.
  pub supersede_one-All :
      (P : ℤ → Type 0) (d : Decision)
      → All P d.supersedes
      → (d.id ≡ b → P a)
      → All P (supersede_one a b d).supersedes
  unfolding supersede_one
  supersede_one-All P d old new = elim (Bool-cases (d.id == b)) [
    | inl s ↦
        let more = All-append P d.supersedes (a ∷ []) old (new ((int_eq.beq_iff d.id b).0 s), tt) in
        elim (Bool-cases (d.id == a)) [ inl r ↦ rw (r, s) more | inr r ↦ rw (r, s) more ]
    | inr s ↦ elim (Bool-cases (d.id == a)) [ inl r ↦ rw (r, s) old | inr r ↦ rw (r, s) old ]
  ]
