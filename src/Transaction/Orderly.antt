-- ===== src/Transaction/Orderly.antt =====
-- What the transactions of src/persistence.cpp keep of the supersession chains, so that the walk of
-- `reachesDecision` along them ends.
use qiven_context_draft.Prelude.{
  ℕ, suc, ◌≤◌, ◌<◌, ℤ, int_eq, ◌≡◌, ◌≢◌, sym, ap, subst, ◌∙◌, true, false, Bool-cases, inl, inr,
  List, [], ◌∷◌, ◌++◌, Option, none, some, ◌==◌, arith, All, All-mono, All-append, if◌then◌else◌,
  beq_refl, beq_of_ne,
}
use qiven_context_draft.Cognition.Records.{Decision}
use qiven_context_draft.Transaction.Find.{find_decision}
use qiven_context_draft.Transaction.Invariants.{bad_pair}
use qiven_context_draft.Transaction.Apply.{supersede_one}
use qiven_context_draft.Transaction.Chains.{HasRank, find_decision-All}
use qiven_context_draft.Transaction.Supersession.{
  is_past, is_retired, retired_count, retired_count-length, retired_count-append,
  find_decision-append, is_retired-found, superseded, retired-superseded, superseded-retires,
  retired_count-superseded, supersede_one-All, supersede_one-id,
}

-- A decision that another one supersedes is there, is retired, and ranks below it.
abbrev pub IsBelow : List Decision → (ℤ → ℕ) → Decision → ℤ → Type 0
IsBelow ds rank d prior = (rank prior < rank d.id) × (is_retired (find_decision ds prior) ≡ true)

-- The decisions can be ranked by at most the number of retired ones, each above those that it
-- supersedes, which are all retired.
pub record IsOrderly (ds : List Decision) : Type 0 where
  pub rank : ℤ → ℕ
  pub low : (id : ℤ) → rank id ≤ retired_count ds
  pub chained : All (λ d. All (IsBelow ds rank d) d.supersedes) ds

all_of : {A : Type 0} {P : A → Type 0} → ((a : A) → P a) → (xs : List A) → All P xs
all_of f [] = tt
all_of f (x ∷ xs) = (f x, all_of f xs)

pub IsOrderly-HasRank : (ds : List Decision) → IsOrderly ds → HasRank ds
IsOrderly-HasRank ds o = record {
  rank = o.rank;
  bounded = all_of (λ d. omega (arith, o.low d.id, retired_count-length ds)) ds;
  falls = All-mono _ _ (λ d. All-mono _ _ (λ prior h. h.0) d.supersedes) ds o.chained;
}

pub IsOrderly-append :
    (ds : List Decision) (d : Decision)
    → d.supersedes ≡ []
    → IsOrderly ds
    → IsOrderly (ds ++ d ∷ [])
IsOrderly-append ds d nothing o = record {
  rank = o.rank;
  low = λ id. omega (arith, o.low id, retired_count-append ds (d ∷ []));
  chained =
      All-append _ ds (d ∷ [])
        (All-mono _ _
          (λ k.
            All-mono _ _
              (λ prior h.
                let (p, found, past) = is_retired-found (find_decision ds prior) h.1 in
                (h.0, ap is_retired (find_decision-append ds (d ∷ []) prior p found) ∙ past))
              k.supersedes)
          ds o.chained)
        (subst (All (IsBelow (ds ++ d ∷ []) o.rank d)) (sym nothing) tt, tt);
}

-- Two different accepted decisions, as gate 8 asks of a supersession.
pub record AreCurrent (ds : List Decision) (a b : ℤ) : Type 0 where
  pub old : Decision
  pub new : Decision
  pub old_found : find_decision ds a ≡ some old
  pub new_found : find_decision ds b ≡ some new
  pub old_current : is_past old ≡ false
  pub new_current : is_past new ≡ false
  pub different : a ≢ b

found-id : (ds : List Decision) (id : ℤ) (d : Decision) → find_decision ds id ≡ some d → d.id ≡ id
found-id ds id d e = (find_decision-All (λ _. Unit {0}) ds id d (all_of (λ _. tt) ds) e).1

pub bad_pair-AreCurrent :
    (ds : List Decision) (a b : ℤ) (o s : Option Decision)
    → find_decision ds a ≡ o
    → find_decision ds b ≡ s
    → bad_pair o s ≡ false
    → AreCurrent ds a b
unfolding bad_pair
bad_pair-AreCurrent ds a b none s e f h = absurd (cc)
bad_pair-AreCurrent ds a b (some old) none e f h = absurd (cc)
bad_pair-AreCurrent ds a b (some old) (some new) e f h = record {
  old = old;
  new = new;
  old_found = e;
  new_found = f;
  old_current = ground (arith, h);
  new_current = ground (arith, h);
  different = λ same.
      let p = found-id ds a old e in
      let q = found-id ds b new f in
      let ids : old.id ≡ new.id = p ∙ same ∙ sym q in
      let eq : (old.id == new.id) ≡ true = (int_eq.beq_iff old.id new.id).1 ids in
      ground (arith, eq, h);
}

module _ (a b : ℤ) (ds : List Decision) (o : IsOrderly ds) (current : AreCurrent ds a b) where
  -- The successor moves above all that is retired.
  raised : ℤ → ℕ
  raised id = if id == b then suc (retired_count ds) else o.rank id

  raised-other : (id : ℤ) → id ≢ b → raised id ≡ o.rank id
  unfolding raised
  raised-other id n = rw (beq_of_ne id b n)

  raised-same : raised b ≡ suc (retired_count ds)
  unfolding raised
  raised-same = rw (beq_refl b)

  raised-grows : (id : ℤ) → o.rank id ≤ raised id
  unfolding raised
  raised-grows id = elim (Bool-cases (id == b)) [
    | inl same ↦ rw same (omega (arith, o.low id))
    | inr other ↦ rw other (omega arith)
  ]

  raised-low : (id : ℤ) → raised id ≤ retired_count (superseded a b ds)
  unfolding raised
  raised-low id =
      let more =
        retired_count-superseded a b ds current.old current.old_found current.old_current in
      elim (Bool-cases (id == b)) [
        | inl same ↦ rw same (omega (arith, more))
        | inr other ↦ rw other (omega (arith, o.low id, more))
      ]

  retired-other : (id : ℤ) → is_retired (find_decision ds id) ≡ true → id ≢ b
  retired-other id past same =
      let here : is_retired (find_decision ds b) ≡ true =
        subst (λ i. is_retired (find_decision ds i) ≡ true) same past in
      let went = rw current.new_found at here in ground (arith, went, current.new_current)

  IsBelow-kept :
      (d : Decision) (prior : ℤ)
      → IsBelow ds o.rank d prior
      → IsBelow (superseded a b ds) raised (supersede_one a b d) prior
  IsBelow-kept d prior h =
      let same = raised-other prior (retired-other prior h.1) in
      let id = ap raised (supersede_one-id a b d) in
      (omega (arith, same, id, h.0, raised-grows d.id), retired-superseded a b ds prior h.1)

  IsBelow-new :
      (d : Decision) → d.id ≡ b → IsBelow (superseded a b ds) raised (supersede_one a b d) a
  IsBelow-new d here =
      let same = raised-other a current.different in
      let top = ap raised (supersede_one-id a b d ∙ here) ∙ raised-same in
      (
        omega (arith, same, top, o.low a),
        superseded-retires a b ds current.old current.old_found
            (found-id ds a current.old current.old_found),
      )

  chained-kept :
      (ks : List Decision)
      → All (λ d. All (IsBelow ds o.rank d) d.supersedes) ks
      → All (λ d. All (IsBelow (superseded a b ds) raised d) d.supersedes) (superseded a b ks)
  chained-kept [] h = tt
  chained-kept (k ∷ ks) h = (
    supersede_one-All a b _ k (All-mono _ _ (IsBelow-kept k) k.supersedes h.0) (IsBelow-new k),
    chained-kept ks h.1,
  )

  pub IsOrderly-superseded : IsOrderly (superseded a b ds)
  IsOrderly-superseded = record {
    rank = raised;
    low = raised-low;
    chained = chained-kept ds o.chained;
  }
