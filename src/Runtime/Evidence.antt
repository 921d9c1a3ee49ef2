-- ===== src/Runtime/Evidence.antt =====
-- What recalls a record in a preparation packet (include/qiven/context/runtime.hpp), said of the
-- snapshot.
use qiven_context_draft.Prelude.{
  ◌≡◌, ◌⊎◌, inl, inr, refl, true, false, Bool-cases, List, [], ◌∷◌, ◌++◌, Option, none, some, Text,
  ◌==◌, nat_eq, list_eq, is_empty, map,
}
use qiven_context_draft.Cognition.Control.{requirement_kind_eq, requirement_boundary_eq}
use qiven_context_draft.Cognition.Records.{MemoryRecord, ProfileRecord, Snapshot}
use qiven_context_draft.Runtime.Invocation.{FailureFingerprint}
use qiven_context_draft.Runtime.Failures.{is_related, related_in, find_related_records}
use qiven_context_draft.Runtime.Packet.{
  Recalled, evidence_of, recall_memory, recall_profiles, recalled, pits_of,
}

abbrev pub Any {ℓ} : {A : Type ℓ} → (A → Type 0) → List A → Type 0
Any P [] = ⊥
Any P (x ∷ xs) = P x ⊎ Any P xs

-- A record with the key as its title, or a profile with the key as its id.
abbrev pub IsRecalled : Snapshot → Text → Type 0
IsRecalled snapshot key =
    Any (λ (r : MemoryRecord). r.title ≡ key) snapshot.memory
    ⊎ Any (λ (p : ProfileRecord). p.id ≡ key) snapshot.profiles

-- The intent has a fingerprint, and a record is related to it.
abbrev pub KnowsPit : Snapshot → Option FailureFingerprint → Type 0
KnowsPit snapshot prior =
    (fingerprint : FailureFingerprint) × (prior ≡ some fingerprint)
    × Any (λ r. is_related fingerprint r ≡ true) snapshot.memory

recall_memory-Any :
    (rs : List MemoryRecord) (key : Text)
    → is_empty (recall_memory rs key) ≡ false
    → Any (λ (r : MemoryRecord). r.title ≡ key) rs
unfolding recall_memory
recall_memory-Any [] key h = cc
recall_memory-Any (r ∷ rs) key h = elim (Bool-cases (r.title == key)) [
  | inl same ↦ inl ((list_eq.beq_iff r.title key).0 same)
  | inr other ↦ inr (recall_memory-Any rs key (rw other at h))
]

recall_profiles-Any :
    (ps : List ProfileRecord) (key : Text)
    → is_empty (recall_profiles ps key) ≡ false
    → Any (λ (p : ProfileRecord). p.id ≡ key) ps
unfolding recall_profiles
recall_profiles-Any [] key h = cc
recall_profiles-Any (p ∷ ps) key h = elim (Bool-cases (p.id == key)) [
  | inl same ↦ inl ((list_eq.beq_iff p.id key).0 same)
  | inr other ↦ inr (recall_profiles-Any ps key (rw other at h))
]

related_in-Any :
    (rs : List MemoryRecord) (fingerprint : FailureFingerprint)
    → is_empty (related_in rs fingerprint) ≡ false
    → Any (λ r. is_related fingerprint r ≡ true) rs
unfolding related_in
related_in-Any [] fingerprint h = cc
related_in-Any (r ∷ rs) fingerprint h = elim (Bool-cases (is_related fingerprint r)) [
  | inl related ↦ inl related
  | inr other ↦ inr (related_in-Any rs fingerprint (rw other at h))
]

split_nonempty :
    (xs ys : List Recalled)
    → is_empty (map evidence_of (xs ++ ys)) ≡ false
    → (is_empty xs ≡ false) ⊎ (is_empty ys ≡ false)
split_nonempty (x ∷ xs) ys h = inl refl
split_nonempty [] (y ∷ ys) h = inr refl
split_nonempty [] [] h = cc

pub recalled-IsRecalled :
    (snapshot : Snapshot) (key : Text)
    → is_empty (map evidence_of (recalled snapshot key)) ≡ false
    → IsRecalled snapshot key
recalled-IsRecalled snapshot key h = elim (split_nonempty _ _ h) [
  | inl here ↦ inl (recall_memory-Any snapshot.memory key here)
  | inr there ↦ inr (recall_profiles-Any snapshot.profiles key there)
]

pub pits_of-KnowsPit :
    (snapshot : Snapshot) (prior : Option FailureFingerprint)
    → is_empty (pits_of snapshot prior) ≡ false
    → KnowsPit snapshot prior
unfolding find_related_records
pits_of-KnowsPit snapshot none h = absurd (cc)
pits_of-KnowsPit snapshot (some fingerprint) h =
    (fingerprint, refl, related_in-Any snapshot.memory fingerprint h)
