-- ===== src/Read/Views.antt =====
-- `QivenContext::resolve_view` (src/persistence.cpp): the view with an id, if its profile
-- references resolve. A null handle fails an assertion, so the functions of the read side take one
-- that is not null.
use qiven_context_draft.Prelude.{
  ◌≡◌, ◌⊎◌, inl, inr, refl, Bool, true, false, not, ◌&&◌, Bool-cases, Option-cases, List, [], ◌∷◌,
  Option, none, some, Text, ◌==◌, nat_eq, list_eq, is_empty, is_empty→nil, All, if◌then◌else◌,
}
use qiven_context_draft.Cognition.Records.{ProfileRecord, ViewSpec}
use qiven_context_draft.Transaction.Find.{find_profile}
use qiven_context_draft.Transaction.ViewRefs.{has_duplicates}
use qiven_context_draft.Service.State.{Handle}

-- `ResolveDiagnostic::Kind`
pub data ResolveKind : Type 0 where
  resolved not_found invalid_refs : ResolveKind

abbrev pub is_some {ℓ} : {A : Type ℓ} → Option A → Bool
is_some none = false
is_some (some a) = true

unfoldable pub refs_resolve : List ProfileRecord → List Text → Bool
refs_resolve profiles [] = true
refs_resolve profiles (ref ∷ refs) =
    is_some (find_profile profiles ref) && refs_resolve profiles refs

abbrev pub checked : List ProfileRecord → ViewSpec → Option ViewSpec × ResolveKind
checked profiles view =
    if is_empty view.profile_refs
    then (none, ResolveKind.invalid_refs)
    else if refs_resolve profiles view.profile_refs
    then (some view, ResolveKind.resolved)
    else (none, ResolveKind.invalid_refs)

unfoldable pub resolve_in :
    List ProfileRecord → List ViewSpec → Text → Option ViewSpec × ResolveKind
resolve_in profiles [] view_id = (none, ResolveKind.not_found)
resolve_in profiles (view ∷ views) view_id =
    if not (view.id == view_id) then resolve_in profiles views view_id else checked profiles view

unfoldable pub resolve_view : Handle → Text → Option ViewSpec × ResolveKind
resolve_view handle view_id = resolve_in handle.body.state.profiles handle.body.state.views view_id

-- The views in front of the first with the id have other ids.
abbrev IsFirst : Text → List ViewSpec → ViewSpec → Type 0
IsFirst view_id [] view = ⊥
IsFirst view_id (v ∷ vs) view =
    ((v ≡ view) × (v.id ≡ view_id)) ⊎ ((v.id == view_id) ≡ false) × IsFirst view_id vs view

abbrev Names : List ProfileRecord → Text → Type 0
Names profiles ref = (profile : ProfileRecord) × (find_profile profiles ref ≡ some profile)

-- A first view with the id, whose references are there, differ and all name profiles; or such a view
-- without references, or with one that names nothing; or no view with the id.
pub data Resolution (profiles : List ProfileRecord) (views : List ViewSpec) (view_id : Text)
    : Option ViewSpec × ResolveKind → Type 0 where
  real :
      (view : ViewSpec)
      → IsFirst view_id views view
      → is_empty view.profile_refs ≡ false
      → has_duplicates view.profile_refs ≡ false
      → All (Names profiles) view.profile_refs
      → Resolution profiles views view_id (some view, ResolveKind.resolved)
  invalid :
      (view : ViewSpec)
      → IsFirst view_id views view
      → (view.profile_refs ≡ []) ⊎ (refs_resolve profiles view.profile_refs ≡ false)
      → Resolution profiles views view_id (none, ResolveKind.invalid_refs)
  unknown :
      All (λ v. (v.id == view_id) ≡ false) views
      → Resolution profiles views view_id (none, ResolveKind.not_found)

refs_resolve-Names :
    (profiles : List ProfileRecord) (refs : List Text)
    → refs_resolve profiles refs ≡ true
    → All (Names profiles) refs
unfolding refs_resolve
refs_resolve-Names profiles [] h = tt
refs_resolve-Names profiles (ref ∷ refs) h = elim (Option-cases (find_profile profiles ref)) [
  | inl missing ↦ absurd (cc (rw missing at h))
  | inr found ↦ (found, refs_resolve-Names profiles refs (rw found.1 at h))
]

module _ (profiles : List ProfileRecord) (view_id : Text) where
  checked-Resolution :
      (views : List ViewSpec) (view : ViewSpec)
      → IsFirst view_id views view
      → has_duplicates view.profile_refs ≡ false
      → Resolution profiles views view_id (checked profiles view)
  checked-Resolution views view first distinct = elim (Bool-cases (is_empty view.profile_refs)) [
    | inl none_there ↦ rw none_there (invalid view first (inl (is_empty→nil _ none_there)))
    | inr some_there ↦ elim (Bool-cases (refs_resolve profiles view.profile_refs)) [
      | inl all_there ↦
          rw (some_there, all_there)
            (real view first some_there distinct (refs_resolve-Names profiles _ all_there))
      | inr missing ↦ rw (some_there, missing) (invalid view first (inr missing))
    ]
  ]

  behind :
      (v : ViewSpec) (views : List ViewSpec) (r : Option ViewSpec × ResolveKind)
      → (v.id == view_id) ≡ false
      → Resolution profiles views view_id r
      → Resolution profiles (v ∷ views) view_id r
  behind v views _ other (real view first refs distinct names) =
      real view (inr (other, first)) refs distinct names
  behind v views _ other (invalid view first why) = invalid view (inr (other, first)) why
  behind v views _ other (unknown all) = unknown (other, all)

  resolve_in-Resolution :
      (views : List ViewSpec)
      → All (λ view. has_duplicates view.profile_refs ≡ false) views
      → Resolution profiles views view_id (resolve_in profiles views view_id)
  unfolding resolve_in
  resolve_in-Resolution [] distinct = unknown tt
  resolve_in-Resolution (view ∷ views) distinct = elim (Bool-cases (view.id == view_id)) [
    | inl same ↦ rw same (
        checked-Resolution (view ∷ views) view
          (inl (refl, (list_eq.beq_iff view.id view_id).0 same)) distinct.0)
    | inr other ↦ rw other (behind view views _ other (resolve_in-Resolution views distinct.1))
  ]

pub resolve_view-Resolution :
    (handle : Handle) (view_id : Text)
    → All (λ view. has_duplicates view.profile_refs ≡ false) handle.body.state.views
    → Resolution handle.body.state.profiles handle.body.state.views view_id
        (resolve_view handle view_id)
unfolding resolve_view
resolve_view-Resolution handle view_id distinct = resolve_in-Resolution _ view_id _ distinct
