-- ===== src/Transaction/KeptViews.antt =====
-- What the operations of a transaction (src/persistence.cpp) leave of the views: only an amendment
-- changes views, and only those with its own title as id.
use qiven_context_draft.Prelude.{
  ◌≡◌, ◌≢◌, ◌⊎◌, inl, inr, refl, sym, ap, ◌∙◌, false, Bool-cases, List, [], ◌∷◌, ◌++◌, Text, ◌==◌,
  nat_eq, list_eq, list_beq_iff, beq_of_ne, All, if◌then◌else◌,
}
use qiven_context_draft.Cognition.Records.{ViewSpec, Snapshot}
use qiven_context_draft.Transaction.Types.{OperationKind, Operation}
use qiven_context_draft.Transaction.Apply.{remove_view, amend_views, apply_kind, apply, apply_all}

-- The views with an id, in order.
abbrev pub views_with : Text → List ViewSpec → List ViewSpec
views_with id [] = []
views_with id (v ∷ vs) = let rest = views_with id vs in if v.id == id then v ∷ rest else rest

-- An operation that amends no view with this id.
abbrev pub IsElsewhere : Text → OperationKind → Text → Type 0
IsElsewhere id kind title = (kind ≢ OperationKind.amend_view_spec) ⊎ (title ≢ id)

-- The views with an id that no operation amends are those that were there.
abbrev pub KeepsViews : List Operation → List ViewSpec → List ViewSpec → Type 0
KeepsViews operations xs ys =
    (id : Text)
    → All (λ o. IsElsewhere id o.kind o.title) operations
    → views_with id ys ≡ views_with id xs

module _ (id : Text) where
  added_view :
      (w : ViewSpec) (vs : List ViewSpec)
      → (w.id == id) ≡ false
      → views_with id (vs ++ w ∷ []) ≡ views_with id vs
  added_view w [] other = rw other
  added_view w (v ∷ vs) other = elim (Bool-cases (v.id == id)) [
    | inl same ↦ rw same (ap (λ l. v ∷ l) (added_view w vs other))
    | inr not_it ↦ rw not_it (added_view w vs other)
  ]

  removed_view :
      (title : Text) (vs : List ViewSpec)
      → title ≢ id
      → views_with id (remove_view title vs) ≡ views_with id vs
  unfolding remove_view
  removed_view title [] other = refl
  removed_view title (v ∷ vs) other = elim (Bool-cases (v.id == title)) [
    | inl gone ↦
        let named : v.id ≡ title = (list_beq_iff v.id title).0 gone in
        rw (gone, beq_of_ne v.id id (λ same. other (sym named ∙ same)))
          (removed_view title vs other)
    | inr stays ↦ elim (Bool-cases (v.id == id)) [
      | inl same ↦ rw (stays, same) (ap (λ l. v ∷ l) (removed_view title vs other))
      | inr not_it ↦ rw (stays, not_it) (removed_view title vs other)
    ]
  ]

  amended_views :
      (o : Operation) (vs : List ViewSpec)
      → o.title ≢ id
      → views_with id (amend_views o vs) ≡ views_with id vs
  unfolding amend_views
  amended_views o vs other = elim (Bool-cases (o.aux == 1)) [
    | inl removes ↦ rw removes (removed_view o.title vs other)
    | inr adds ↦ rw adds (added_view _ vs (beq_of_ne o.title id other))
  ]

  apply_kind-views :
      (ref : Text) (o : Operation) (s : Snapshot) (kind : OperationKind)
      → IsElsewhere id kind o.title
      → views_with id (apply_kind ref o s kind).views ≡ views_with id s.views
  unfolding apply_kind
  apply_kind-views ref o s OperationKind.append_decision h = refl
  apply_kind-views ref o s OperationKind.supersede_decision h = refl
  apply_kind-views ref o s OperationKind.add_memory h = refl
  apply_kind-views ref o s OperationKind.upsert_obligation h = refl
  apply_kind-views ref o s OperationKind.close_obligation h = refl
  apply_kind-views ref o s OperationKind.transition_obligation h = refl
  apply_kind-views ref o s OperationKind.update_state h = refl
  apply_kind-views ref o s OperationKind.add_evidence h = refl
  apply_kind-views ref o s OperationKind.upsert_profile h = refl
  apply_kind-views ref o s OperationKind.open_conflict h = refl
  apply_kind-views ref o s OperationKind.resolve_conflict h = refl
  apply_kind-views ref o s OperationKind.set_next_boundary h = refl
  apply_kind-views ref o s OperationKind.amend_view_spec (inl not_here) = absurd (not_here refl)
  apply_kind-views ref o s OperationKind.amend_view_spec (inr other) = amended_views o s.views other

-- The operations one after another.
pub apply_all-KeepsViews :
    (ref : Text) (operations : List Operation) (s : Snapshot)
    → KeepsViews operations s.views (apply_all ref operations s).views
unfolding apply_all apply
apply_all-KeepsViews ref [] s id h = refl
apply_all-KeepsViews ref (o ∷ rest) s id h =
    apply_all-KeepsViews ref rest (apply ref o s) id h.1 ∙ apply_kind-views id ref o s o.kind h.0
