-- ===== src/Codec/Reader.antt =====
-- `Reader` of src/persistence.cpp. Its error is sticky: once it is set, every read is a no-op, every
-- loop stops, and `deserializeImpl` drops what was read. So a reader is an action that fails with
-- the first error. `fault` is a `value()` of an empty optional.
use qiven_context_draft.Prelude.{
  ℕ, zero, suc, ℤ, Bool, List, [], ◌∷◌, Option, none, some, Text, text, Enum, from_code, of_bits,
  ltb, not, nat_beq, if◌then◌else◌,
}
use qiven_context_draft.Foundation.{Bytes, Foundation}

pub data DeserializeErrorKind : Type 0 where
  truncated bad_version bad_enum resource_abuse digest_mismatch : DeserializeErrorKind

pub record DeserializeError : Type 0 where
  pub kind : DeserializeErrorKind
  pub offset : ℕ
  pub detail : Text

abbrev pub error : DeserializeErrorKind → Text → DeserializeError
error k what = record { kind = k; offset = 0; detail = what }

pub data Outcome {ℓ} (A : Type ℓ) : Type ℓ where
  ok : A → Outcome A
  err : DeserializeError → Outcome A
  fault : Outcome A

abbrev pub max_serialized_records : ℕ
max_serialized_records = 100000

module _ ⦃F : Foundation⦄ where
  abbrev pub Reader : Type 0 → Type 0
  Reader A = F.Cursor → Outcome (A × F.Cursor)

  abbrev pub after :
      {A B : Type 0} → Outcome (A × F.Cursor) → (A → Reader B) → Outcome (B × F.Cursor)
  after (ok (a, c)) f = f a c
  after (err e) f = err e
  after fault f = fault

  infixl 5 ◌>>=◌ ◌>>◌
  unfoldable pub ◌>>=◌ : {A B : Type 0} → Reader A → (A → Reader B) → Reader B
  ◌>>=◌ p f c = after (p c) f

  abbrev pub ◌>>◌ : {B : Type 0} → Reader (Unit {0}) → Reader B → Reader B
  p >> q = p >>= λ _. q

  unfoldable pub pure : {A : Type 0} → A → Reader A
  pure a c = ok (a, c)

  unfoldable pub fail : {A : Type 0} → DeserializeErrorKind → Text → Reader A
  fail k what c = err (error k what)

  -- `need(count, what)` and then `cursor.take(count).value()`
  abbrev pub taken : Option (Bytes × F.Cursor) → Outcome (Bytes × F.Cursor)
  taken none = fault
  taken (some r) = ok r

  unfoldable pub take : ℕ → Text → Reader Bytes
  take count what c =
      if ltb (F.remaining c) count
      then err (error DeserializeErrorKind.truncated what)
      else taken (F.take count c)

  -- `.front()` of a span, and `*` of a decoded optional
  unfoldable pub front : Bytes → Reader ℕ
  front [] c = fault
  front (b ∷ bs) c = ok (b, c)

  unfoldable pub value : Option ℕ → Reader ℕ
  value none c = fault
  value (some v) c = ok (v, c)

  unfoldable pub u8 : Text → Reader ℕ
  u8 what = do span ← take 1 what; front span

  unfoldable pub u32 : Text → Reader ℕ
  u32 what = do span ← take 4 what; value (F.decode_le_u32 span)

  unfoldable pub u64 : Text → Reader ℕ
  u64 what = do span ← take 8 what; value (F.decode_le_u64 span)

  unfoldable pub i64 : Text → Reader ℤ
  i64 what = do bits ← u64 what; pure (of_bits bits)

  unfoldable pub str : Text → Reader Text
  str what = do size ← u32 what; take size (text "string length exceeds input")

  unfoldable pub at_most : ℕ → ℕ → DeserializeErrorKind → Text → Reader (Unit {0})
  at_most limit n kind what = if ltb limit n then fail kind what else pure tt

  unfoldable pub enum_value : {E : Type 0} ⦃n : Enum E⦄ → Text → ℕ → Reader E
  enum_value what max_value = do
    raw ← u8 what
    at_most max_value raw DeserializeErrorKind.bad_enum what
    pure (from_code raw)

  unfoldable pub capped_count : Text → Reader ℕ
  capped_count what = do
    count ← u32 what
    at_most max_serialized_records count DeserializeErrorKind.resource_abuse what
    pure count

  -- `u8(what) != 0`
  unfoldable pub flag : Text → Reader Bool
  flag what = do byte ← u8 what; pure (not (nat_beq byte 0))

  -- The loop over `count` elements, and the loop behind its capped count.
  unfoldable pub times : {A : Type 0} → Reader A → ℕ → Reader (List A)
  times p zero = pure []
  times p (suc count) = do x ← p; xs ← times p count; pure (x ∷ xs)

  unfoldable pub many : {A : Type 0} → Text → Reader A → Reader (List A)
  many what p = do count ← capped_count what; times p count

  unfoldable pub string_vector : Text → Reader (List Text)
  string_vector what = many what (str what)
