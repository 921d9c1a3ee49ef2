-- ===== src/Codec/Writer.antt =====
-- The little-endian writers of src/persistence.cpp. A writer is the list of bytes that it appends.
use qiven_context_draft.Prelude.{
  ℕ, ℤ, Bool, List, [], ◌∷◌, ◌++◌, ◌/◌, ◌%◌, ◌^◌, Text, Enum, to_code, to_bits, length,
  if◌then◌else◌,
}
use qiven_context_draft.Foundation.{Bytes}

unfoldable pub put_u8 : ℕ → Bytes
put_u8 value = value ∷ []

-- `(value >> shift) & 0xFF` for the shifts 0, 8, 16, 24.
unfoldable pub put_u32 : ℕ → Bytes
put_u32 value =
    (value % 256) ∷ (value / 2 ^ 8 % 256) ∷ (value / 2 ^ 16 % 256) ∷ (value / 2 ^ 24 % 256) ∷ []

unfoldable pub put_u64 : ℕ → Bytes
put_u64 value =
    (value % 256)
    ∷ (value / 2 ^ 8 % 256)
    ∷ (value / 2 ^ 16 % 256)
    ∷ (value / 2 ^ 24 % 256)
    ∷ (value / 2 ^ 32 % 256)
    ∷ (value / 2 ^ 40 % 256)
    ∷ (value / 2 ^ 48 % 256)
    ∷ (value / 2 ^ 56 % 256)
    ∷ []

unfoldable pub put_i64 : ℤ → Bytes
put_i64 value = put_u64 (to_bits value)

-- The cast to `std::uint32_t` wraps.
unfoldable pub put_str : Text → Bytes
put_str value = put_u32 (length value % 2 ^ 32) ++ value

unfoldable pub put_bool : Bool → Bytes
put_bool b = put_u8 (if b then 1 else 0)

unfoldable pub put_enum {ℓ} : {E : Type ℓ} ⦃n : Enum E⦄ → E → Bytes
put_enum e = put_u8 (to_code e)

-- The loop over the elements of a vector, and the loop behind its size.
module _ {ℓ} {A : Type ℓ} (put : A → Bytes) where
  unfoldable pub put_each : List A → Bytes
  put_each [] = []
  put_each (x ∷ xs) = put x ++ put_each xs

  unfoldable pub put_many : List A → Bytes
  put_many xs = put_u32 (length xs % 2 ^ 32) ++ put_each xs
