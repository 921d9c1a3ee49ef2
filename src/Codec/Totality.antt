-- ===== src/Codec/Totality.antt =====
-- What a reader of src/persistence.cpp delivers on any bytes: an error of its own, never a `value()`
-- of an empty optional, or a value within its range.
use qiven_context_draft.Prelude.{
  ℕ, zero, suc, ◌≤◌, ◌<◌, ◌^◌, ◌≡◌, refl, ap, subst, ◌∙◌, Bool, true, false, ◌⊎◌, inl, inr,
  Bool-cases, List, [], ◌∷◌, ◌++◌, Option, some, Text, text, arith, length, All, IsI64,
  of_bits-IsI64, Enum, ltb, if◌then◌else◌,
}
use qiven_context_draft.Foundation.{Bytes, Foundation, FoundationLaws}
use qiven_context_draft.Codec.Reader.{
  Outcome, ok, err, fault, Reader, after, ◌>>=◌, pure, fail, take, front, value, u8, u32, u64, i64,
  str, at_most, enum_value, capped_count, flag, times, many, string_vector, DeserializeErrorKind,
  max_serialized_records,
}
use qiven_context_draft.Codec.Fields.{IsShort, AreShort}
use qiven_context_draft.Codec.Fits.{Fit}

abbrev pub AreBytes : Bytes → Type 0
AreBytes = All (λ b. b < 256)

abbrev pub Any : {A : Type 0} → A → Type 0
Any a = Unit

AreBytes-split : (xs ys : Bytes) → AreBytes (xs ++ ys) → AreBytes xs × AreBytes ys
AreBytes-split [] ys h = (tt, h)
AreBytes-split (x ∷ xs) ys h = let (p, q) = AreBytes-split xs ys h.1 in ((h.0, p), q)

uncons :
    (xs : Bytes) (n : ℕ)
    → length xs ≡ suc n
    → (x : ℕ) × (ys : Bytes) × (xs ≡ x ∷ ys) × (length ys ≡ n)
uncons [] n h = absurd (omega arith)
uncons (x ∷ xs) n h = (x, xs, refl, omega arith)

none_left : (xs : Bytes) → length xs ≡ 0 → xs ≡ []
none_left [] h = refl
none_left (x ∷ xs) h = absurd (omega arith)

four :
    (xs : Bytes) (n : ℕ)
    → length xs ≡ suc (suc (suc (suc n)))
    → (a b c d : ℕ) × (rest : Bytes) × (xs ≡ a ∷ b ∷ c ∷ d ∷ rest) × (length rest ≡ n)
four xs n h =
    let (a, xs₁, e₁, l₁) = uncons xs _ h in
    let (b, xs₂, e₂, l₂) = uncons xs₁ _ l₁ in
    let (c, xs₃, e₃, l₃) = uncons xs₂ _ l₂ in
    let (d, xs₄, e₄, l₄) = uncons xs₃ _ l₃ in (a, b, c, d, xs₄, cc, l₄)

module _ ⦃F : Foundation⦄ ⦃L : FoundationLaws F⦄ where
  abbrev pub Delivers : {A : Type 0} → (A → Type 0) → Outcome (A × F.Cursor) → Type 0
  Delivers P (ok (a, c)) = P a × AreBytes (L.unread c)
  Delivers P (err e) = Unit
  Delivers P fault = ⊥

  pub record Yields {A : Type 0} (p : Reader A) (P : A → Type 0) : Type 0 where
    pub at : (c : F.Cursor) → AreBytes (L.unread c) → Delivers P (p c)

  pub Yields-pure : {A : Type 0} {P : A → Type 0} (a : A) → P a → Yields (pure a) P
  unfolding pure
  Yields-pure a h = record { at = λ c b. (h, b) }

  pub Yields-fail :
      {A : Type 0} {P : A → Type 0} (k : DeserializeErrorKind) (what : Text)
      → Yields (fail {A = A} k what) P
  unfolding fail
  Yields-fail k what = record { at = λ c b. tt }

  Delivers-after :
      {A B : Type 0} {P : A → Type 0} {Q : B → Type 0} (f : A → Reader B)
      (o : Outcome (A × F.Cursor))
      → Delivers P o
      → ((a : A) → P a → Yields (f a) Q)
      → Delivers Q (after o f)
  Delivers-after f (ok (a, c)) h k = (k a h.0).at c h.1
  Delivers-after f (err e) h k = tt
  Delivers-after f fault h k = h

  pub Yields-bind :
      {A B : Type 0} {P : A → Type 0} {Q : B → Type 0} {p : Reader A} (f : A → Reader B)
      → Yields p P
      → ((a : A) → P a → Yields (f a) Q)
      → Yields (p >>= f) Q
  unfolding ◌>>=◌
  Yields-bind {p = p} f h k = record { at = λ c b. Delivers-after f (p c) (h.at c b) k }

  pub Yields-if :
      {A : Type 0} {P : A → Type 0} (b : Bool) (p q : Reader A)
      → Yields p P
      → Yields q P
      → Yields (if b then p else q) P
  Yields-if true p q h k = h
  Yields-if false p q h k = k

  abbrev Span : ℕ → Bytes → Type 0
  Span n bytes = (length bytes ≡ n) × AreBytes bytes

  Yields-take : (n : ℕ) (what : Text) → Yields (take n what) (Span n)
  unfolding take
  Yields-take n what = record { at = λ c b. delivers c b (Bool-cases (ltb (F.remaining c) n)) }
    where
      delivers :
          (c : F.Cursor)
          → AreBytes (L.unread c)
          → (ltb (F.remaining c) n ≡ true) ⊎ (ltb (F.remaining c) n ≡ false)
          → Delivers (Span n) (take n what c)
      delivers c b (inl short) = rw short tt
      delivers c b (inr enough) =
          let room : n ≤ length (L.unread c) = ground (arith, L.remaining_lem c) in
          let (span, d, t, u, l) = L.take_lem n c room in
          let (p, q) = AreBytes-split span (L.unread d) (subst AreBytes u b) in
          rw (enough, t) ((l, p), q)

  Yields-value : (v : Option ℕ) (n : ℕ) {P : ℕ → Type 0} → v ≡ some n → P n → Yields (value v) P
  unfolding value
  Yields-value v n e h = record { at = λ c b. rw e (h, b) }

  Yields-front : (span : Bytes) → Span 1 span → Yields (front span) Any
  unfolding front
  Yields-front [] h = absurd (omega (arith, h.0))
  Yields-front (x ∷ xs) h = record { at = λ c b. (tt, b) }

  pub Yields-u8 : (what : Text) → Yields (u8 what) Any
  unfolding u8
  Yields-u8 what = Yields-bind _ (Yields-take 1 what) Yields-front

  decoded_u32 :
      (span : Bytes) → Span 4 span → Yields (value (F.decode_le_u32 span)) (λ v. v < 2 ^ 32)
  decoded_u32 span (l, bytes) =
      let (a, b, c, d, rest, e, l') = four span 0 l in
      let same : span ≡ a ∷ b ∷ c ∷ d ∷ [] = cc (e, none_left rest l') in
      let (p, (q, (r, (t, _)))) = subst AreBytes same bytes in
      Yields-value _ _ (ap F.decode_le_u32 same ∙ L.decode_le_u32_lem a b c d) (omega arith)

  decoded_u64 :
      (span : Bytes) → Span 8 span → Yields (value (F.decode_le_u64 span)) (λ v. v < 2 ^ 64)
  decoded_u64 span (l, bytes) =
      let (a, b, c, d, middle, e₁, l₁) = four span 4 l in
      let (f, g, h, i, rest, e₂, l₂) = four middle 0 l₁ in
      let same : span ≡ a ∷ b ∷ c ∷ d ∷ f ∷ g ∷ h ∷ i ∷ [] = cc (e₁, e₂, none_left rest l₂) in
      let (p₁, (p₂, (p₃, (p₄, (p₅, (p₆, (p₇, (p₈, _)))))))) = subst AreBytes same bytes in
      Yields-value _ _ (ap F.decode_le_u64 same ∙ L.decode_le_u64_lem a b c d f g h i) (omega arith)

  pub Yields-u32 : (what : Text) → Yields (u32 what) (λ v. v < 2 ^ 32)
  unfolding u32
  Yields-u32 what = Yields-bind _ (Yields-take 4 what) decoded_u32

  pub Yields-u64 : (what : Text) → Yields (u64 what) (λ v. v < 2 ^ 64)
  unfolding u64
  Yields-u64 what = Yields-bind _ (Yields-take 8 what) decoded_u64

  pub Yields-i64 : (what : Text) → Yields (i64 what) IsI64
  unfolding i64
  Yields-i64 what = Yields-bind _ (Yields-u64 what) (λ w h. Yields-pure _ (of_bits-IsI64 w h))

  pub Yields-str : (what : Text) → Yields (str what) IsShort
  unfolding str
  Yields-str what = Yields-bind _ (Yields-u32 what) λ n h. record {
    at = λ c b. short n h _ ((Yields-take n (text "string length exceeds input")).at c b);
  }
    where
      short :
          (n : ℕ)
          → n < 2 ^ 32
          → (o : Outcome (Bytes × F.Cursor)) → Delivers (Span n) o
          → Delivers IsShort o
      short n h (ok (bytes, c)) d = (omega (arith, h, d.0.0), d.1)
      short n h (err e) d = tt
      short n h fault d = d

  Yields-at_most :
      (limit n : ℕ) (kind : DeserializeErrorKind) (what : Text)
      → Yields (at_most limit n kind what) (λ _. n ≤ limit)
  unfolding at_most pure fail
  Yields-at_most limit n kind what = record { at = λ c b. within c b (Bool-cases (ltb limit n)) }
    where
      within :
          (c : F.Cursor)
          → AreBytes (L.unread c)
          → (ltb limit n ≡ true) ⊎ (ltb limit n ≡ false)
          → Delivers (λ _. n ≤ limit) (at_most limit n kind what c)
      within c b (inl over) = rw over tt
      within c b (inr under) = rw under (ground arith, b)

  pub Yields-enum_value :
      {E : Type 0} (n : Enum E) (what : Text) (limit : ℕ)
      → Yields (enum_value ⦃n = n⦄ what limit) Any
  unfolding enum_value
  Yields-enum_value n what limit = Yields-bind _ (Yields-u8 what) λ raw _.
      Yields-bind _ (Yields-at_most limit raw DeserializeErrorKind.bad_enum what)
        λ _ _. Yields-pure _ tt

  Yields-capped_count : (what : Text) → Yields (capped_count what) (λ n. n ≤ max_serialized_records)
  unfolding capped_count
  Yields-capped_count what = Yields-bind _ (Yields-u32 what) λ n _.
      Yields-bind _
        (Yields-at_most max_serialized_records n DeserializeErrorKind.resource_abuse what)
        λ _ h. Yields-pure n h

  pub Yields-flag : (what : Text) → Yields (flag what) Any
  unfolding flag
  Yields-flag what = Yields-bind _ (Yields-u8 what) λ _ _. Yields-pure _ tt

  Yields-times :
      {A : Type 0} {P : A → Type 0} (p : Reader A) (n : ℕ)
      → Yields p P
      → Yields (times p n) (λ xs. (length xs ≡ n) × All P xs)
  unfolding times
  Yields-times p zero h = Yields-pure [] (refl, tt)
  Yields-times p (suc n) h =
      Yields-bind _ h λ x q.
        Yields-bind _ (Yields-times p n h) λ xs r. Yields-pure (x ∷ xs) (ap suc r.0, (q, r.1))

  capped_elements :
      {A : Type 0} (P : A → Type 0) (n : ℕ) (o : Outcome (List A × F.Cursor))
      → n ≤ max_serialized_records
      → Delivers (λ xs. (length xs ≡ n) × All P xs) o
      → Delivers (Fit P) o
  capped_elements P n (ok (xs, c)) q d = ((omega (arith, q, d.0.0), d.0.1), d.1)
  capped_elements P n (err e) q d = tt
  capped_elements P n fault q d = d

  Yields-capped_times :
      {A : Type 0} {P : A → Type 0} (p : Reader A)
      → Yields p P
      → (n : ℕ) → n ≤ max_serialized_records
      → Yields (times p n) (Fit P)
  Yields-capped_times p h n q = record {
    at = λ c b. capped_elements _ n (times p n c) q ((Yields-times p n h).at c b);
  }

  pub Yields-many :
      {A : Type 0} {P : A → Type 0} (what : Text) {p : Reader A}
      → Yields p P
      → Yields (many what p) (Fit P)
  unfolding many
  Yields-many what {p = p} h = Yields-bind _ (Yields-capped_count what) (Yields-capped_times p h)

  pub Yields-string_vector : (what : Text) → Yields (string_vector what) AreShort
  unfolding string_vector
  Yields-string_vector what = Yields-many what (Yields-str what)
