-- ===== src/Foundation.antt =====
-- The primitives that the program takes from qiven-foundation (`qiven/byte_cursor.hpp`,
-- `qiven/endian.hpp`, `qiven/hashing.hpp`), which is not part of the repository: parameters of the
-- model, and what the code relies on.
use qiven_context_draft.Prelude.{
  ℕ, ◌+◌, ◌*◌, ◌≤◌, ◌≡◌, List, [], ◌∷◌, ◌++◌, Option, some, Text, Bool, length, is_empty, All,
  IsDigit, ◌⊎◌, ◌<◌,
}

abbrev pub Bytes : Type 0
Bytes = List ℕ

-- `qiven::ByteCursor` with `remaining`, `empty` and `take`, the two decoders, and the hash functions;
-- `fnv1a64_chain` starts from `qiven::fnv1a64_offset_basis`.
pub record Foundation : Type 1 where
  pub Cursor : Type 0
  pub cursor : Bytes → Cursor
  pub remaining : Cursor → ℕ
  pub empty : Cursor → Bool
  pub take : ℕ → Cursor → Option (Bytes × Cursor)
  pub decode_le_u32 : Bytes → Option ℕ
  pub decode_le_u64 : Bytes → Option ℕ
  pub fnv1a64 : Bytes → ℕ
  pub fnv1a64_chain : Text → Bytes → ℕ
  pub to_hex_u64 : ℕ → Text

abbrev pub IsHexDigit : ℕ → Type 0
IsHexDigit c = IsDigit c ⊎ ((97 ≤ c) × (c < 103))

-- A cursor stands before its unread bytes; a take within them splits them; a decoder reads the
-- least significant byte first; a hash is written in lower-case hexadecimal digits.
pub record FoundationLaws (F : Foundation) : Type 0 where
  pub unread : F.Cursor → Bytes
  pub unread-cursor : (bytes : Bytes) → unread (F.cursor bytes) ≡ bytes
  pub remaining_lem : (c : F.Cursor) → F.remaining c ≡ length (unread c)
  pub empty_lem : (c : F.Cursor) → F.empty c ≡ is_empty (unread c)
  pub take_lem :
      (n : ℕ) (c : F.Cursor)
      → n ≤ length (unread c)
      → (span : Bytes) × (c' : F.Cursor) × (F.take n c ≡ some (span, c'))
        × (unread c ≡ span ++ unread c')
        × (length span ≡ n)
  pub decode_le_u32_lem :
      (a b c d : ℕ)
      → F.decode_le_u32 (a ∷ b ∷ c ∷ d ∷ []) ≡ some (a + 0x100 * b + 0x1_0000 * c + 0x100_0000 * d)
  pub decode_le_u64_lem :
      (a b c d e f g h : ℕ)
      → F.decode_le_u64 (a ∷ b ∷ c ∷ d ∷ e ∷ f ∷ g ∷ h ∷ [])
        ≡ some (
            a
            + 0x100 * b
            + 0x1_0000 * c
            + 0x100_0000 * d
            + 0x1_0000_0000 * e
            + 0x100_0000_0000 * f
            + 0x1_0000_0000_0000 * g
            + 0x100_0000_0000_0000 * h)
  pub to_hex_u64_lem : (n : ℕ) → All IsHexDigit (F.to_hex_u64 n)
