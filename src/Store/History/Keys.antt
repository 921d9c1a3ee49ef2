-- ===== src/Store/History/Keys.antt =====
-- Lemmas on the histories of src/persistence.cpp: keys, their bytes, and one more of them.
use qiven_context_draft.Prelude.{
  ◌≡◌, ◌⊎◌, inl, inr, refl, sym, ap, ◌∙◌, true, false, [], ◌∷◌, ◌++◌, some, ◌==◌, nat_eq, list_eq,
  list_beq_iff, if◌then◌else◌, arith, beq_refl, beq_symm_false, beq_of_ne, false≢true,
}
use qiven_context_draft.Foundation.{Bytes}
use qiven_context_draft.Cognition.Records.{RevisionId, revision_eq}
use qiven_context_draft.Store.Memory.{History, no_revision, holds_last, find_state, has_revision}

abbrev pub last_key : History → RevisionId
last_key [] = no_revision
last_key ((key, state) ∷ []) = key
last_key (r ∷ (r' ∷ rest)) = last_key (r' ∷ rest)

abbrev pub AreDistinct : History → Type 0
AreDistinct [] = Unit
AreDistinct ((key, state) ∷ rest) = (has_revision rest key ≡ false) × AreDistinct rest

pub has_revision-append :
    (h : History) (k r : RevisionId) (b : Bytes)
    → has_revision (h ++ (k, b) ∷ []) r ≡ (if has_revision h r then true else k == r)
unfolding has_revision
has_revision-append [] k r b = ground arith
has_revision-append ((j, s) ∷ rest) k r b = ground (arith, has_revision-append rest k r b)

pub find_state-append_old :
    (h : History) (k r : RevisionId) (b : Bytes)
    → has_revision h r ≡ true
    → find_state (h ++ (k, b) ∷ []) r ≡ find_state h r
unfolding has_revision find_state
find_state-append_old [] k r b e = cc
find_state-append_old ((j, s) ∷ rest) k r b e = ground (arith, find_state-append_old rest k r b)

pub find_state-append_new :
    (h : History) (k : RevisionId) (b : Bytes)
    → has_revision h k ≡ false
    → find_state (h ++ (k, b) ∷ []) k ≡ some b
unfolding has_revision find_state
find_state-append_new [] k b e = rw (beq_refl k)
find_state-append_new ((j, s) ∷ rest) k b e = ground (arith, find_state-append_new rest k b)

pub last_key-append : (h : History) (k : RevisionId) (b : Bytes) → last_key (h ++ (k, b) ∷ []) ≡ k
last_key-append [] k b = refl
last_key-append (r ∷ []) k b = refl
last_key-append (r ∷ (r' ∷ rest)) k b = last_key-append (r' ∷ rest) k b

pub AreDistinct-append :
    (h : History) (k : RevisionId) (b : Bytes)
    → AreDistinct h
    → has_revision h k ≡ false
    → AreDistinct (h ++ (k, b) ∷ [])
unfolding has_revision
AreDistinct-append [] k b d e = (refl, tt)
AreDistinct-append ((j, s) ∷ rest) k b d e =
    let absent : has_revision rest k ≡ false = ground arith in
    let other : (k == j) ≡ false = beq_symm_false j k (ground arith) in
    (rw (has_revision-append rest k j b, d.0) other, AreDistinct-append rest k b d.1 absent)

pub find_later :
    (k : RevisionId) (s : Bytes) (h : History) (r : RevisionId)
    → has_revision h k ≡ false
    → has_revision h r ≡ true
    → (find_state ((k, s) ∷ h) r ≡ find_state h r) × (has_revision ((k, s) ∷ h) r ≡ true)
find_later k s h r absent there =
    let other : (k == r) ≡ false =
      beq_of_ne k r λ e. false≢true (sym absent ∙ (ap (has_revision h) e ∙ there)) in
    unfold find_state has_revision in (rw other, rw other there)

-- In a linear history the bytes at the end are those of the last key.
pub find_state-last :
    (h : History) (b : Bytes)
    → AreDistinct h
    → holds_last h b ≡ true
    → (find_state h (last_key h) ≡ some b) × (has_revision h (last_key h) ≡ true)
unfolding holds_last find_state has_revision
find_state-last [] b d e = absurd (cc)
find_state-last ((k, s) ∷ []) b d e = rw (beq_refl k) (ap some ((list_beq_iff s b).0 e), refl)
find_state-last ((k, s) ∷ ((k', s') ∷ rest)) b d e =
    let (found, there) = find_state-last ((k', s') ∷ rest) b d.1 e in
    let (same, still) = find_later k s ((k', s') ∷ rest) _ d.0 there in (same ∙ found, still)

pub has_later :
    (k r : RevisionId) (s : Bytes) (h : History)
    → has_revision h r ≡ true
    → has_revision ((k, s) ∷ h) r ≡ true
unfolding has_revision
has_later k r s h there = ground arith

pub has_only : (k : RevisionId) (s : Bytes) → has_revision ((k, s) ∷ []) k ≡ true
unfolding has_revision
has_only k s = rw (beq_refl k)

pub empty_or_last : (h : History) → (h ≡ []) ⊎ (has_revision h (last_key h) ≡ true)
empty_or_last [] = inl refl
empty_or_last ((k, s) ∷ []) = inr (has_only k s)
empty_or_last ((k, s) ∷ (r ∷ rest)) = elim (empty_or_last (r ∷ rest)) [
  | inl nothing ↦ absurd (cc)
  | inr there ↦ inr (has_later k _ s (r ∷ rest) there)
]
