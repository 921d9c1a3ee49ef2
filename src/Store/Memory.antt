-- ===== src/Store/Memory.antt =====
-- `MemoryStore` of src/persistence.cpp. Its mutex makes each method one step; what it reports to the
-- allocation observer is not modelled.
use qiven_context_draft.Prelude.{
  Bool, true, false, not, ◌&&◌, List, [], ◌∷◌, ◌++◌, Option, none, some, text, ◌==◌, nat_eq,
  list_eq, is_empty, if◌then◌else◌,
}
use qiven_context_draft.Foundation.{Bytes, Foundation}
use qiven_context_draft.Cognition.Records.{RevisionId, revision_eq}
use qiven_context_draft.Store.Contract.{ReceiptKind, StoreReceipt, CognitionStore}

abbrev pub History : Type 0
History = List (RevisionId × Bytes)

pub record MemoryStore : Type 0 where
  pub revisions : History
  pub head : RevisionId

abbrev pub no_revision : RevisionId
no_revision = record { value = [] }

abbrev pub empty_store : MemoryStore
empty_store = record { revisions = []; head = no_revision }

-- `!revisions_.empty() && revisions_.back().second == stateBytes`
unfoldable pub holds_last : History → Bytes → Bool
holds_last [] bytes = false
holds_last ((key, state) ∷ []) bytes = state == bytes
holds_last (r ∷ (r' ∷ rest)) bytes = holds_last (r' ∷ rest) bytes

unfoldable pub find_state : History → RevisionId → Option Bytes
find_state [] revision = none
find_state ((key, state) ∷ rest) revision =
    if key == revision then some state else find_state rest revision

unfoldable pub has_revision : History → RevisionId → Bool
has_revision [] revision = false
has_revision ((key, state) ∷ rest) revision =
    if key == revision then true else has_revision rest revision

abbrev pub or_nothing : Option Bytes → Bytes
or_nothing none = []
or_nothing (some state) = state

unfoldable pub materialize : MemoryStore → RevisionId → Bytes
materialize m revision = or_nothing (find_state m.revisions revision)

unfoldable pub verify : MemoryStore → RevisionId → Bool
verify m revision = has_revision m.revisions revision

module _ ⦃F : Foundation⦄ where
  unfoldable pub minted : RevisionId → Bytes → RevisionId
  minted base state_bytes = record {
    value = text "rev-" ++ F.to_hex_u64 (F.fnv1a64_chain base.value state_bytes);
  }

  unfoldable pub compare_and_swap : RevisionId → Bytes → MemoryStore → StoreReceipt × MemoryStore
  compare_and_swap base state_bytes m =
      if not (is_empty m.revisions) && not (base == m.head)
      then (record { kind = ReceiptKind.compare_failed; revision = no_revision }, m)
      else if holds_last m.revisions state_bytes
      then (record { kind = ReceiptKind.committed; revision = m.head }, m)
      else (
        record { kind = ReceiptKind.committed; revision = minted base state_bytes },
        record {
          revisions = m.revisions ++ (minted base state_bytes, state_bytes) ∷ [];
          head = minted base state_bytes;
        },
      )

  abbrev pub memory_store : CognitionStore
  memory_store = record {
    State = MemoryStore;
    compare_and_swap = compare_and_swap;
    materialize = materialize;
    verify = verify;
    head = λ m. m.head;
  }
