-- ===== src/Examples/Port.antt =====
-- A concrete port of the primitives that the repository takes from qiven-foundation: a cursor is the
-- unread bytes, and the hash is a polynomial one.
use qiven_context_draft.Prelude.{
  ℕ, zero, suc, ◌+◌, ◌*◌, ◌%◌, ◌^◌, ◌≤◌, ◌≡◌, refl, ap, [], ◌∷◌, ◌++◌, Option, none, some, length,
  is_empty, ltb, le→ltb_false, if◌then◌else◌, arith, to_decimal, to_decimal-IsDigit, All-mono,
  IsDigit, inl,
}
use qiven_context_draft.Foundation.{Bytes, Foundation, FoundationLaws, IsHexDigit}

abbrev taken : ℕ → Bytes → Bytes
taken zero bs = []
taken (suc n) [] = []
taken (suc n) (b ∷ bs) = b ∷ taken n bs

abbrev left : ℕ → Bytes → Bytes
left zero bs = bs
left (suc n) [] = []
left (suc n) (b ∷ bs) = left n bs

taken-left : (n : ℕ) (bs : Bytes) → bs ≡ taken n bs ++ left n bs
taken-left zero bs = refl
taken-left (suc n) [] = refl
taken-left (suc n) (b ∷ bs) = ap (λ t. b ∷ t) (taken-left n bs)

length-taken : (n : ℕ) (bs : Bytes) → n ≤ length bs → length (taken n bs) ≡ n
length-taken zero bs h = refl
length-taken (suc n) [] h = absurd (omega arith)
length-taken (suc n) (b ∷ bs) h = ap suc (length-taken n bs (omega arith))

abbrev take_bytes : ℕ → Bytes → Option (Bytes × Bytes)
take_bytes n bs = if ltb (length bs) n then none else some (taken n bs, left n bs)

abbrev u32_of : Bytes → Option ℕ
u32_of (a ∷ b ∷ c ∷ d ∷ []) = some (a + 0x100 * b + 0x1_0000 * c + 0x100_0000 * d)
u32_of _ = none

abbrev u64_of : Bytes → Option ℕ
u64_of (a ∷ b ∷ c ∷ d ∷ e ∷ f ∷ g ∷ h ∷ []) = some (
    a
    + 0x100 * b
    + 0x1_0000 * c
    + 0x100_0000 * d
    + 0x1_0000_0000 * e
    + 0x100_0000_0000 * f
    + 0x1_0000_0000_0000 * g
    + 0x100_0000_0000_0000 * h)
u64_of _ = none

abbrev hash_from : ℕ → Bytes → ℕ
hash_from h [] = h
hash_from h (b ∷ bs) = hash_from ((h * 31 + b + 7) % 2 ^ 64) bs

instance abbrev pub plain : Foundation
plain = record {
  Cursor = Bytes;
  cursor = λ bs. bs;
  remaining = length;
  empty = is_empty;
  take = take_bytes;
  decode_le_u32 = u32_of;
  decode_le_u64 = u64_of;
  fnv1a64 = hash_from 0;
  fnv1a64_chain = λ t bs. hash_from (hash_from 0 t) bs;
  to_hex_u64 = to_decimal;
}

take_bytes_lem :
    (n : ℕ) (bs : Bytes)
    → n ≤ length bs
    → (span : Bytes) × (rest : Bytes) × (take_bytes n bs ≡ some (span, rest))
      × (bs ≡ span ++ rest)
      × (length span ≡ n)
take_bytes_lem n bs h =
    (taken n bs, left n bs, rw (le→ltb_false n (length bs) h), taken-left n bs, length-taken n bs h)

instance pub plain_laws : FoundationLaws plain
plain_laws = record {
  unread = λ bs. bs;
  unread-cursor = λ bs. refl;
  remaining_lem = λ bs. refl;
  empty_lem = λ bs. refl;
  take_lem = take_bytes_lem;
  decode_le_u32_lem = λ a b c d. refl;
  decode_le_u64_lem = λ a b c d e f g h. refl;
  to_hex_u64_lem =
      λ n. All-mono IsDigit IsHexDigit (λ c h. inl h) (to_decimal n) (to_decimal-IsDigit n);
}
