-- ===== src/Store/History.antt =====
-- What `MemoryStore` of src/persistence.cpp promises: a linear history whose head is its last
-- revision, and a compare-and-swap on that head.
mod Keys
use qiven_context_draft.Prelude.{
  ◌≡◌, ◌≢◌, ◌⊎◌, inl, inr, refl, sym, ap, ◌∙◌, Bool, true, false, not, ◌&&◌, Bool-cases, [], ◌∷◌,
  ◌++◌, some, ◌==◌, nat_eq, list_eq, list_beq_iff, is_empty, if◌then◌else◌, arith, beq_refl,
  beq_symm_false, beq_of_ne, ne_of_beq, false≢true,
}
use qiven_context_draft.Foundation.{Bytes, Foundation}
use qiven_context_draft.Cognition.Records.{RevisionId, revision_eq}
use qiven_context_draft.Store.Contract.{ReceiptKind}
use qiven_context_draft.Store.Memory.{
  History, MemoryStore, no_revision, holds_last, find_state, has_revision, or_nothing, minted,
  compare_and_swap, materialize, verify,
}
use Keys.{
  last_key, AreDistinct, has_revision-append, find_state-append_old, find_state-append_new,
  last_key-append, AreDistinct-append, find_later, find_state-last, has_later, has_only,
  empty_or_last,
}

pub record IsLinear (m : MemoryStore) : Type 0 where
  pub at_head : m.head ≡ last_key m.revisions
  pub distinct : AreDistinct m.revisions

-- Every revision that was there is there, with the bytes that it had.
abbrev pub Keeps : MemoryStore → MemoryStore → Type 0
Keeps m m' =
    (r : RevisionId)
    → verify m r ≡ true
    → (verify m' r ≡ true) × (materialize m' r ≡ materialize m r)

abbrev appended : MemoryStore → RevisionId → Bytes → MemoryStore
appended m k bytes = record { revisions = m.revisions ++ (k, bytes) ∷ []; head = k }

appended_new :
    (m : MemoryStore) (k : RevisionId) (bytes : Bytes)
    → verify m k ≡ false
    → (verify (appended m k bytes) k ≡ true) × (materialize (appended m k bytes) k ≡ bytes)
unfolding verify materialize
appended_new m k bytes fresh = (
  rw (has_revision-append m.revisions k k bytes, fresh) (beq_refl k),
  ap or_nothing (find_state-append_new m.revisions k bytes fresh),
)

appended_old : (m : MemoryStore) (k : RevisionId) (bytes : Bytes) → Keeps m (appended m k bytes)
unfolding verify materialize
appended_old m k bytes r there = (
  rw (has_revision-append m.revisions k r bytes, there),
  ap or_nothing (find_state-append_old m.revisions k r bytes there),
)

last_held :
    (m : MemoryStore) (bytes : Bytes)
    → IsLinear m
    → holds_last m.revisions bytes ≡ true
    → (verify m m.head ≡ true) × (materialize m m.head ≡ bytes)
unfolding verify materialize
last_held m bytes l same =
    let (found, there) = find_state-last m.revisions bytes l.distinct same in
    (
      ap (has_revision m.revisions) l.at_head ∙ there,
      ap (λ r. or_nothing (find_state m.revisions r)) l.at_head ∙ ap or_nothing found,
    )

stale_base :
    (m : MemoryStore) (base : RevisionId)
    → (not (is_empty m.revisions) && not (base == m.head)) ≡ true
    → (base ≢ m.head) × (m.revisions ≢ [])
stale_base m base e = (
  λ same. ne_of_beq base m.head (ground arith) same,
  λ nothing. false≢true (ap (λ h. not (is_empty h) && not (base == m.head)) (sym nothing) ∙ e),
)

is_empty-append : (h : History) (r : RevisionId × Bytes) → is_empty (h ++ r ∷ []) ≡ false
is_empty-append [] r = refl
is_empty-append (x ∷ h) r = refl

and_false : (b : Bool) → (b && false) ≡ false
and_false true = refl
and_false false = refl

current_head : (m : MemoryStore) → (not (is_empty m.revisions) && not (m.head == m.head)) ≡ false
current_head m = rw (beq_refl m.head) (and_false (not (is_empty m.revisions)))

module _ ⦃F : Foundation⦄ where
  -- A compare-and-swap keeps a linear history linear (the head is its last revision, and the revision
  -- ids are distinct), if the id that it may mint is not taken.
  pub compare_and_swap-IsLinear :
      (base : RevisionId) (bytes : Bytes) (m : MemoryStore)
      → IsLinear m
      → verify m (minted base bytes) ≡ false
      → IsLinear (compare_and_swap base bytes m).1
  unfolding compare_and_swap verify
  compare_and_swap-IsLinear base bytes m l fresh = ground (
    arith,
    last_key-append m.revisions (minted base bytes) bytes,
    AreDistinct-append m.revisions (minted base bytes) bytes,
  )

  -- What a compare-and-swap leaves of a linear history, if the id that it may mint is not taken: a
  -- commit leaves the bytes at the head, which the receipt names, and keeps what every earlier
  -- revision materializes to; a failure names no outcome but `CompareFailed`, comes only from a base that is not the head of a
  -- nonempty history, and changes nothing.
  pub compare_and_swap_cases :
      (base : RevisionId) (bytes : Bytes) (m : MemoryStore)
      → IsLinear m
      → verify m (minted base bytes) ≡ false
      → let (receipt, m') = compare_and_swap base bytes m in
        ((receipt.kind ≡ ReceiptKind.committed)
          × (m'.head ≡ receipt.revision)
          × (verify m' m'.head ≡ true)
          × (materialize m' m'.head ≡ bytes)
          × Keeps m m')
        ⊎ ((receipt.kind ≡ ReceiptKind.compare_failed)
            × (base ≢ m.head)
            × (m.revisions ≢ [])
            × (m' ≡ m))
  compare_and_swap_cases base bytes m l fresh =
      elim (Bool-cases (not (is_empty m.revisions) && not (base == m.head))) [
        | inl stale ↦
            let (ne, nonempty) = stale_base m base stale in
            unfold compare_and_swap in rw stale (inr (refl, ne, nonempty, refl))
        | inr current ↦ elim (Bool-cases (holds_last m.revisions bytes)) [
          | inl same ↦
              let (there, held) = last_held m bytes l same in
              unfold compare_and_swap in
              rw (current, same) (inl (refl, refl, there, held, λ r v. (v, refl)))
          | inr new ↦
              let (there, held) = appended_new m (minted base bytes) bytes fresh in
              unfold compare_and_swap in
              rw (current, new)
                (inl (refl, refl, there, held, appended_old m (minted base bytes) bytes))
        ]
      ]
