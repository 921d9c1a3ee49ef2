-- ===== src/Transaction/ViewRefs.antt =====
-- The text handling of a view amendment in src/persistence.cpp: `agent:human` and the
-- comma-separated profile references.
use qiven_context_draft.Prelude.{
  Bool, true, false, ◌||◌, List, [], ◌∷◌, ◌++◌, Text, ◌==◌, nat_eq, list_eq, is_empty,
  if◌then◌else◌,
}

-- `scope.find(':') != npos`, `scope.substr(0, scope.find(':'))`, `scope.substr(scope.find(':') + 1)`
unfoldable pub has_colon : Text → Bool
has_colon [] = false
has_colon (c ∷ cs) = c == b':' || has_colon cs

unfoldable pub before_colon : Text → Text
before_colon [] = []
before_colon (c ∷ cs) = if c == b':' then [] else c ∷ before_colon cs

unfoldable pub after_colon : Text → Text
after_colon [] = []
after_colon (c ∷ cs) = if c == b':' then cs else after_colon cs

abbrev pub push_ref : Text → List Text → List Text
push_ref ref refs = if is_empty ref then refs else ref ∷ refs

-- `std::getline(parsed, ref, ',')` until the end; empty references are skipped.
unfoldable pub getlines : Text → Text → List Text
getlines ref [] = push_ref ref []
getlines ref (c ∷ cs) = elim (c == b',') [
  | true ↦ push_ref ref (getlines [] cs)
  | false ↦ getlines (ref ++ c ∷ []) cs
]

unfoldable pub profile_refs_of : Text → List Text
profile_refs_of provenance_ref = getlines [] provenance_ref

unfoldable pub holds_ref : List Text → Text → Bool
holds_ref [] ref = false
holds_ref (r ∷ rs) ref = ref == r || holds_ref rs ref

unfoldable pub has_duplicates : List Text → Bool
has_duplicates [] = false
has_duplicates (r ∷ rs) = holds_ref rs r || has_duplicates rs
