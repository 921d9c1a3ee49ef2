-- ===== src/Examples/Stores.antt =====
-- The store theorems at the small store.
use qiven_context_draft.Prelude.{◌≡◌, ◌≢◌, ◌⊎◌, refl, true, false, [], ◌∷◌, text, list_beq}
use qiven_context_draft.Foundation.{Bytes}
use qiven_context_draft.Store.Contract.{ReceiptKind}
use qiven_context_draft.Store.Memory.{minted, compare_and_swap, materialize, verify, has_revision}
use qiven_context_draft.Store.History.{
  IsLinear, Keeps, compare_and_swap_cases, compare_and_swap-IsLinear,
}
use qiven_context_draft.Examples.Port.{plain, plain_laws}
use qiven_context_draft.Examples.World.{first_store, first_store-IsLinear, first_revision}

abbrev new_bytes : Bytes
new_bytes = 1 ∷ 2 ∷ []

not_taken : verify first_store (minted first_revision new_bytes) ≡ false
unfolding verify has_revision minted list_beq text
not_taken = refl

compare_and_swap-IsLinear_example :
    IsLinear (compare_and_swap first_revision new_bytes first_store).1
compare_and_swap-IsLinear_example =
    compare_and_swap-IsLinear first_revision new_bytes first_store first_store-IsLinear not_taken

compare_and_swap_cases_example :
    let (receipt, m') = compare_and_swap first_revision new_bytes first_store in
    ((receipt.kind ≡ ReceiptKind.committed)
      × (m'.head ≡ receipt.revision)
      × (verify m' m'.head ≡ true)
      × (materialize m' m'.head ≡ new_bytes)
      × Keeps first_store m')
    ⊎ ((receipt.kind ≡ ReceiptKind.compare_failed)
        × (first_revision ≢ first_store.head)
        × (first_store.revisions ≢ [])
        × (m' ≡ first_store))
compare_and_swap_cases_example =
    compare_and_swap_cases first_revision new_bytes first_store first_store-IsLinear not_taken
