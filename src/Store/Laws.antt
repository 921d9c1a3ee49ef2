-- ===== src/Store/Laws.antt =====
-- What a client of `ICognitionStore` (include/qiven/context/persistence.hpp) relies on, and that
-- `MemoryStore` keeps to it.
use qiven_context_draft.Prelude.{arith, ◌≡◌, inl, inr, true, false}
use qiven_context_draft.Foundation.{Bytes, Foundation}
use qiven_context_draft.Cognition.Records.{RevisionId}
use qiven_context_draft.Store.Contract.{ReceiptKind, CognitionStore}
use qiven_context_draft.Store.Memory.{MemoryStore, memory_store, minted, verify, compare_and_swap}
use qiven_context_draft.Store.History.{IsLinear, compare_and_swap_cases, compare_and_swap-IsLinear}

-- Every revision that was there is there, with the bytes that it had.
abbrev pub KeepsRevisions : (S : CognitionStore) → S.State → S.State → Type 0
KeepsRevisions S m m' =
    (r : RevisionId)
    → S.verify m r ≡ true
    → (S.verify m' r ≡ true) × (S.materialize m' r ≡ S.materialize m r)

-- What a committed compare-and-swap leaves behind.
pub record Commits (S : CognitionStore) (revision : RevisionId) (bytes : Bytes) (m m' : S.State)
    : Type 0 where
  pub at_head : S.head m' ≡ revision
  pub held : S.materialize m' (S.head m') ≡ bytes
  pub kept : KeepsRevisions S m m'

-- The promises of a store: `IsSound` is its own invariant, and `CanTake` what it asks of the bytes
-- that are put onto a base. A failed compare-and-swap changes nothing; after an unknown outcome
-- nothing is promised but the invariant.
pub record StoreLaws (S : CognitionStore) : Type 1 where
  pub IsSound : S.State → Type 0
  pub CanTake : RevisionId → Bytes → S.State → Type 0
  pub sound :
      (base : RevisionId) (bytes : Bytes) (m : S.State)
      → IsSound m
      → CanTake base bytes m
      → IsSound (S.compare_and_swap base bytes m).1
  pub commits :
      (base : RevisionId) (bytes : Bytes) (m : S.State)
      → IsSound m
      → CanTake base bytes m
      → let (receipt, m') = S.compare_and_swap base bytes m in
        receipt.kind ≡ ReceiptKind.committed → Commits S receipt.revision bytes m m'
  pub fails :
      (base : RevisionId) (bytes : Bytes) (m : S.State)
      → let (receipt, m') = S.compare_and_swap base bytes m in
        receipt.kind ≡ ReceiptKind.compare_failed → m' ≡ m

module _ ⦃F : Foundation⦄ where
  pub compare_and_swap-Commits :
      (base : RevisionId) (bytes : Bytes) (m : MemoryStore)
      → IsLinear m
      → verify m (minted base bytes) ≡ false
      → let (receipt, m') = compare_and_swap base bytes m in
        receipt.kind ≡ ReceiptKind.committed → Commits memory_store receipt.revision bytes m m'
  compare_and_swap-Commits base bytes m l fresh c =
      elim (compare_and_swap_cases base bytes m l fresh) [
        | inl (_, at_head, _, held, kept) ↦ record { at_head = at_head; held = held; kept = kept }
        | inr (failed, _, _, _) ↦ absurd (cc)
      ]

  pub compare_and_swap_fails :
      (base : RevisionId) (bytes : Bytes) (m : MemoryStore)
      → let (receipt, m') = compare_and_swap base bytes m in
        receipt.kind ≡ ReceiptKind.compare_failed → m' ≡ m
  unfolding compare_and_swap
  compare_and_swap_fails base bytes m e = ground (arith, e)

  -- The in-memory store is sound where its history is linear, and takes bytes whose id is new.
  abbrev pub memory_laws : StoreLaws memory_store
  memory_laws = record {
    IsSound = IsLinear;
    CanTake = λ base bytes m. verify m (minted base bytes) ≡ false;
    sound = compare_and_swap-IsLinear;
    commits = compare_and_swap-Commits;
    fails = compare_and_swap_fails;
  }
