-- ===== src/Codec/Fields.antt =====
-- Each writer of src/persistence.cpp is read back by its reader, and each reader consumes what it
-- returns.
use mathlib.Core.List.{map-id}
use qiven_context_draft.Prelude.{
  ℕ, zero, suc, ℤ, ◌≤◌, ◌<◌, ◌%◌, ◌^◌, ◌≡◌, refl, ap, subst, ◌∙◌, Bool, true, false, List, [], ◌∷◌,
  map, some, Text, arith, length, All, IsI64, of_bits, of_bits-to_bits, to_bits-lt, Enum, to_code,
  from_code-to_code,
}
use qiven_context_draft.Foundation.{Bytes, Foundation, FoundationLaws}
use qiven_context_draft.Codec.Writer.{
  put_u8, put_u32, put_u64, put_i64, put_str, put_bool, put_enum, put_each, put_many,
}
use qiven_context_draft.Codec.Reader.{
  Reader, u8, u32, u64, i64, str, enum_value, capped_count, flag, times, many, string_vector,
  max_serialized_records,
}
use qiven_context_draft.Codec.Rules.{
  Reads, Reads-pure, Reads-bind, Reads-then, Reads-last, Reads-take, Reads-value, Reads-front,
  Reads-at_most, Consumes, Consumes-pure, Consumes-bind, Consumes-if, Consumes-take, Consumes-value,
  Consumes-front, Consumes-at_most,
}

-- A length that the cast to `std::uint32_t` keeps, and a size within the reader's cap.
abbrev pub IsShort : Text → Type 0
IsShort s = length s < 2 ^ 32

abbrev pub IsCapped : {A : Type 0} → List A → Type 0
IsCapped xs = length xs ≤ max_serialized_records

abbrev pub AreShort : List Text → Type 0
AreShort xs = IsCapped xs × All IsShort xs

module _ ⦃F : Foundation⦄ ⦃L : FoundationLaws F⦄ where
  pub Reads-u8 : (what : Text) (b : ℕ) → Reads (u8 what) (put_u8 b) b
  unfolding u8 put_u8
  Reads-u8 what b = Reads-bind _ (Reads-take 1 what (b ∷ []) refl) (Reads-front b [])

  u32_bytes : (v : ℕ) → v < 2 ^ 32 → F.decode_le_u32 (put_u32 v) ≡ some v
  unfolding put_u32
  u32_bytes v h = L.decode_le_u32_lem _ _ _ _ ∙ ap some (omega arith)

  u64_bytes : (v : ℕ) → v < 2 ^ 64 → F.decode_le_u64 (put_u64 v) ≡ some v
  unfolding put_u64
  u64_bytes v h = L.decode_le_u64_lem _ _ _ _ _ _ _ _ ∙ ap some (omega arith)

  pub Reads-u32 : (what : Text) (v : ℕ) → v < 2 ^ 32 → Reads (u32 what) (put_u32 v) v
  unfolding u32
  Reads-u32 what v h =
      (Reads-then _ (Reads-take 4 what (put_u32 v) (unfold put_u32 in refl))
        (Reads-value _ v (u32_bytes v h)))

  pub Reads-u64 : (what : Text) (v : ℕ) → v < 2 ^ 64 → Reads (u64 what) (put_u64 v) v
  unfolding u64
  Reads-u64 what v h =
      (Reads-then _ (Reads-take 8 what (put_u64 v) (unfold put_u64 in refl))
        (Reads-value _ v (u64_bytes v h)))

  pub Reads-i64 : (what : Text) (i : ℤ) → IsI64 i → Reads (i64 what) (put_i64 i) i
  unfolding i64 put_i64
  Reads-i64 what i h =
      subst (Reads (i64 what) (put_i64 i)) (of_bits-to_bits i h)
        (Reads-last of_bits (Reads-u64 what _ (to_bits-lt i)))

  pub Reads-str : (what s : Text) → IsShort s → Reads (str what) (put_str s) s
  unfolding str put_str
  Reads-str what s h =
      Reads-bind _ (Reads-u32 what _ (omega arith)) (Reads-take _ _ s (omega arith))

  pub Reads-flag : (what : Text) (b : Bool) → Reads (flag what) (put_bool b) b
  unfolding flag put_bool
  Reads-flag what true = Reads-last _ (Reads-u8 what 1)
  Reads-flag what false = Reads-last _ (Reads-u8 what 0)

  pub Reads-enum_value :
      {E : Type 0} ⦃n : Enum E⦄ (what : Text) (limit : ℕ) (e : E)
      → length n.others ≤ limit
      → Reads (enum_value what limit) (put_enum e) e
  unfolding enum_value put_enum
  Reads-enum_value ⦃n⦄ what limit e h =
      subst (Reads (enum_value what limit) (put_enum e)) (from_code-to_code e) (
        Reads-then _ (Reads-u8 what (to_code e))
          (Reads-last _ (Reads-at_most limit _ _ what (omega (arith, n.code-le e)))))

  pub Reads-capped_count :
      {A : Type 0} (what : Text) (xs : List A)
      → IsCapped xs
      → Reads (capped_count what) (put_u32 (length xs % 2 ^ 32)) (length xs)
  unfolding capped_count
  Reads-capped_count what xs h = subst (Reads (capped_count what) _) {y = length xs} (omega arith) (
      Reads-then _ (Reads-u32 what _ (omega arith))
        (Reads-last _ (Reads-at_most _ _ _ what (omega arith))))

  module _ {A : Type 0} (P : A → Type 0) (p : Reader A) (put : A → Bytes) (g : A → A)
      (reads : (a : A) → P a → Reads p (put a) (g a)) where
    pub Reads-times :
        (xs : List A) → All P xs → Reads (times p (length xs)) (put_each put xs) (map g xs)
    unfolding times put_each
    Reads-times [] h = Reads-pure []
    Reads-times (x ∷ xs) h = Reads-bind _ (reads x h.0) (Reads-last _ (Reads-times xs h.1))

    pub Reads-many-map :
        (what : Text) (xs : List A)
        → IsCapped xs
        → All P xs
        → Reads (many what p) (put_many put xs) (map g xs)
    unfolding many put_many
    Reads-many-map what xs c h = Reads-bind _ (Reads-capped_count what xs c) (Reads-times xs h)

  module _ {A : Type 0} (P : A → Type 0) (p : Reader A) (put : A → Bytes)
      (reads : (a : A) → P a → Reads p (put a) a) where
    pub Reads-many :
        (what : Text) (xs : List A)
        → IsCapped xs
        → All P xs
        → Reads (many what p) (put_many put xs) xs
    Reads-many what xs c h =
        subst (Reads (many what p) (put_many put xs)) (map-id xs)
          (Reads-many-map P p put (λ a. a) reads what xs c h)

  pub Reads-string_vector :
      (what : Text) (xs : List Text)
      → AreShort xs
      → Reads (string_vector what) (put_many put_str xs) xs
  unfolding string_vector
  Reads-string_vector what xs h =
      Reads-many IsShort (str what) put_str (Reads-str what) what xs h.0 h.1

  pub Consumes-u8 : (what : Text) → Consumes (u8 what)
  unfolding u8
  Consumes-u8 what = search (Consumes-bind, Consumes-take, Consumes-front)

  pub Consumes-u32 : (what : Text) → Consumes (u32 what)
  unfolding u32
  Consumes-u32 what = search (Consumes-bind, Consumes-take, Consumes-value)

  pub Consumes-u64 : (what : Text) → Consumes (u64 what)
  unfolding u64
  Consumes-u64 what = search (Consumes-bind, Consumes-take, Consumes-value)

  pub Consumes-i64 : (what : Text) → Consumes (i64 what)
  unfolding i64
  Consumes-i64 what = search (Consumes-bind, Consumes-u64, Consumes-pure)

  pub Consumes-str : (what : Text) → Consumes (str what)
  unfolding str
  Consumes-str what = search (Consumes-bind, Consumes-u32, Consumes-take)

  pub Consumes-flag : (what : Text) → Consumes (flag what)
  unfolding flag
  Consumes-flag what = search (Consumes-bind, Consumes-u8, Consumes-pure)

  pub Consumes-enum_value :
      {E : Type 0} ⦃n : Enum E⦄ (what : Text) (limit : ℕ) → Consumes (enum_value {E = E} what limit)
  unfolding enum_value
  Consumes-enum_value what limit =
      search (Consumes-bind, Consumes-u8, Consumes-at_most, Consumes-pure)

  Consumes-capped_count : (what : Text) → Consumes (capped_count what)
  unfolding capped_count
  Consumes-capped_count what = search (Consumes-bind, Consumes-u32, Consumes-at_most, Consumes-pure)

  Consumes-times : {A : Type 0} (p : Reader A) (n : ℕ) → Consumes p → Consumes (times p n)
  unfolding times
  Consumes-times p zero h = Consumes-pure []
  Consumes-times p (suc n) h =
      Consumes-bind p _ h
        (λ x. Consumes-bind (times p n) _ (Consumes-times p n h) (λ xs. Consumes-pure (x ∷ xs)))

  pub Consumes-many :
      {A : Type 0} (what : Text) (p : Reader A) → Consumes p → Consumes (many what p)
  unfolding many
  Consumes-many what p h =
      Consumes-bind _ _ (Consumes-capped_count what) (λ n. Consumes-times p n h)

  pub Consumes-string_vector : (what : Text) → Consumes (string_vector what)
  unfolding string_vector
  Consumes-string_vector what = Consumes-many what (str what) (Consumes-str what)

pub ruleset consumes_rules = (
  Consumes-pure, Consumes-bind, Consumes-if, Consumes-u8, Consumes-i64, Consumes-str, Consumes-flag,
  Consumes-enum_value, Consumes-many, Consumes-string_vector,
)
