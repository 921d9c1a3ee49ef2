-- ===== src/Read/Budget.antt =====
-- How `build_bundle` (src/persistence.cpp) spends its budget.
use qiven_context_draft.Prelude.{
  ◌≡◌, inl, inr, refl, sym, ap, ◌∙◌, ℕ, ◌+◌, ◌^◌, ◌≤◌, ◌<◌, Bool-cases, subst, Option-cases, List,
  [], ◌∷◌, ◌++◌, append_assoc, append-nil, some, Text, All, map, leb, leb→le, arith, if◌then◌else◌,
}
use qiven_context_draft.Cognition.Records.{Decision, MemoryRecord, Snapshot}
use qiven_context_draft.Service.State.{Handle}
use qiven_context_draft.Service.Inversion.{some-cancel}
use qiven_context_draft.Read.Bundle.{
  Query, BundleCandidate, BundleOmission, ContextBundle, Selection, estimate, spent, over_budget,
  offer, decision_candidate, decision_name, offer_decisions, memory_candidate, memory_name,
  is_passed_over, offer_memory, budget_of, selected, boundary_floor, build_bundle,
}

-- A candidate with the name under which its omission is explained.
pub record Offer : Type 0 where
  pub candidate : BundleCandidate
  pub what : Text

abbrev pub cost : Offer → ℕ
cost o = estimate o.candidate.summary

abbrev pub total_cost : List Offer → ℕ
total_cost [] = 0
total_cost (o ∷ os) = cost o + total_cost os

abbrev pub decision_offer : Decision → Offer
decision_offer d = record { candidate = decision_candidate d; what = decision_name d }

-- The active records that are not negative knowledge.
abbrev pub memory_offers : List MemoryRecord → List Offer
memory_offers [] = []
memory_offers (r ∷ rs) =
    let rest = memory_offers rs in
    if is_passed_over r
    then rest
    else record { candidate = memory_candidate r; what = memory_name r } ∷ rest

-- What a bundle may disclose: every decision, then the memory.
abbrev pub eligible : Snapshot → List Offer
eligible snapshot = map decision_offer snapshot.decisions ++ memory_offers snapshot.memory

-- `zs` is `xs` and `ys` merged, each in its order.
pub data Merges : List Offer → List Offer → List Offer → Type 0 where
  none_left : Merges [] [] []
  from_left : {x : Offer} {xs ys zs : List Offer} → Merges xs ys zs → Merges (x ∷ xs) ys (x ∷ zs)
  from_right : {y : Offer} {xs ys zs : List Offer} → Merges xs ys zs → Merges xs (y ∷ ys) (y ∷ zs)

choose : ℕ → List Offer → Selection → Selection
choose budget [] sel = sel
choose budget (o ∷ os) sel = choose budget os (offer budget o.candidate o.what sel)

choose-append :
    (budget : ℕ) (os ps : List Offer) (sel : Selection)
    → choose budget (os ++ ps) sel ≡ choose budget ps (choose budget os sel)
unfolding choose
choose-append budget [] ps sel = refl
choose-append budget (o ∷ os) ps sel = choose-append budget os ps _

choose-decisions :
    (budget : ℕ) (ds : List Decision) (sel : Selection)
    → offer_decisions budget ds sel ≡ choose budget (map decision_offer ds) sel
unfolding offer_decisions choose
choose-decisions budget [] sel = refl
choose-decisions budget (d ∷ ds) sel = choose-decisions budget ds _

choose-memory :
    (budget : ℕ) (rs : List MemoryRecord) (sel : Selection)
    → offer_memory budget rs sel ≡ choose budget (memory_offers rs) sel
unfolding offer_memory choose
choose-memory budget [] sel = refl
choose-memory budget (r ∷ rs) sel = elim (Bool-cases (is_passed_over r)) [
  | inl passed ↦ rw passed (choose-memory budget rs sel)
  | inr offered ↦ rw offered (choose-memory budget rs _)
]

abbrev chosen_candidate : Offer → BundleCandidate
chosen_candidate o = o.candidate

abbrev omission : Offer → BundleOmission
omission o = over_budget o.what

-- From one selection to another, offers were taken or left.
record Spends (budget : ℕ) (os : List Offer) (sel sel' : Selection) : Type 0 where
  taken : List Offer
  left : List Offer
  merges : Merges taken left os
  candidates : sel'.candidates ≡ sel.candidates ++ map chosen_candidate taken
  omissions : sel'.omissions ≡ sel.omissions ++ map omission left
  used : sel'.used ≡ sel.used + total_cost taken
  within : sel.used ≤ budget → sel'.used ≤ budget
  too_dear : All (λ o. budget < sel'.used + cost o) left

take_offer :
    (budget : ℕ) (o : Offer) (os : List Offer) (sel sel' : Selection)
    → sel.used + cost o ≤ budget
    → Spends budget os
        (record sel { used = sel.used + cost o; candidates = sel.candidates ++ o.candidate ∷ [] })
        sel'
    → Spends budget (o ∷ os) sel sel'
take_offer budget o os sel sel' fits h = record {
  taken = o ∷ h.taken;
  left = h.left;
  merges = from_left h.merges;
  candidates = h.candidates ∙ append_assoc sel.candidates (o.candidate ∷ []) _;
  omissions = h.omissions;
  used = omega (arith, h.used);
  within = λ _. h.within fits;
  too_dear = h.too_dear;
}

leave_offer :
    (budget : ℕ) (o : Offer) (os : List Offer) (sel sel' : Selection)
    → budget < sel.used + cost o
    → Spends budget os (record sel { omissions = sel.omissions ++ omission o ∷ [] }) sel'
    → Spends budget (o ∷ os) sel sel'
leave_offer budget o os sel sel' dear h = record {
  taken = h.taken;
  left = o ∷ h.left;
  merges = from_right h.merges;
  candidates = h.candidates;
  omissions = h.omissions ∙ append_assoc sel.omissions (omission o ∷ []) _;
  used = h.used;
  within = h.within;
  too_dear = (omega (arith, h.used), h.too_dear);
}

-- Below 2 ^ 64 nothing wraps.
spent_exactly :
    (used : ℕ) (c : BundleCandidate)
    → used + estimate c.summary < 2 ^ 64
    → spent used c ≡ used + estimate c.summary
spent_exactly used c h = omega arith

choose-Spends :
    (budget : ℕ) (os : List Offer) (sel : Selection)
    → sel.used + total_cost os < 2 ^ 64
    → Spends budget os sel (choose budget os sel)
unfolding choose offer
choose-Spends budget [] sel h = record {
  taken = [];
  left = [];
  merges = none_left;
  candidates = sym (append-nil _);
  omissions = sym (append-nil _);
  used = omega arith;
  within = λ w. w;
  too_dear = tt;
}
choose-Spends budget (o ∷ os) sel h =
    let exact = spent_exactly sel.used o.candidate (omega arith) in
    elim (Bool-cases (leb (spent sel.used o.candidate) budget)) [
      | inl fits ↦ rw fits (
          rw exact (
            take_offer budget o os sel _ (omega (arith, leb→le _ _ fits, exact))
              (choose-Spends budget os _ (omega arith))))
      | inr dear ↦ rw dear (
          leave_offer budget o os sel _ (ground (arith, dear, exact))
            (choose-Spends budget os _ (omega arith)))
    ]

-- The candidates and omissions of a bundle are what is eligible, divided.
pub record Divides (budget : ℕ) (offers : List Offer) (bundle : ContextBundle) : Type 0 where
  pub taken : List Offer
  pub left : List Offer
  pub merges : Merges taken left offers
  pub candidates : bundle.candidates ≡ map chosen_candidate taken
  pub omissions : bundle.omissions ≡ map omission left
  pub within : total_cost taken ≤ budget
  pub too_dear : All (λ o. budget < total_cost taken + cost o) left

abbrev nothing_selected : Selection
nothing_selected = record { used = 0; candidates = []; omissions = [] }

selected-Spends :
    (snapshot : Snapshot) (query : Query)
    → total_cost (eligible snapshot) < 2 ^ 64
    → Spends (budget_of query) (eligible snapshot) nothing_selected (selected snapshot query)
unfolding selected
selected-Spends snapshot query h =
    let budget = budget_of query in
    let same : selected snapshot query ≡ choose budget (eligible snapshot) nothing_selected =
      choose-memory budget snapshot.memory _
      ∙ (ap (choose budget (memory_offers snapshot.memory))
            (choose-decisions budget snapshot.decisions nothing_selected)
          ∙ sym (choose-append budget (map decision_offer snapshot.decisions) _ _)) in
    subst (Spends budget (eligible snapshot) nothing_selected) (sym same)
      (choose-Spends budget (eligible snapshot) nothing_selected (omega arith))

-- Whatever the budget, a zero of which stands for 512, the candidates cost no more than it, nothing
-- that is eligible is lost: it is a candidate, in order, or an omission that is named, and each
-- omission would not have fitted beside the candidates. It is supposed that the costs of all that is
-- eligible sum up below 2 ^ 64.
pub build_bundle-Divides :
    (handle : Handle) (query : Query) (bundle : ContextBundle)
    → build_bundle handle query ≡ some bundle
    → total_cost (eligible handle.body.state) < 2 ^ 64
    → Divides (budget_of query) (eligible handle.body.state) bundle
unfolding build_bundle
build_bundle-Divides handle query bundle e h =
    elim (Option-cases (boundary_floor handle.body.state)) [
      | inl thrown ↦ absurd (cc (rw (thrown, build_bundle) at e))
      | inr floor ↦
          let s = selected-Spends handle.body.state query h in
          let same = some-cancel (rw (floor.1, build_bundle) at e) in
          record {
            taken = s.taken;
            left = s.left;
            merges = s.merges;
            candidates = ap (λ (b : ContextBundle). b.candidates) (sym same) ∙ s.candidates;
            omissions = ap (λ (b : ContextBundle). b.omissions) (sym same) ∙ s.omissions;
            within = omega (arith, s.used, s.within (omega arith));
            too_dear =
                subst (λ (u : ℕ). All (λ o. budget_of query < u + cost o) s.left)
                  (s.used ∙ omega arith) s.too_dear;
          }
    ]
