-- ===== src/Codec/Rules.antt =====
-- What a reader reads: rules for each way to build one. `Reads p bytes a` says that `p`, before
-- `bytes` and whatever follows them, takes exactly `bytes` and returns `a`; `Consumes p` says that
-- every success of `p` is of that form.
use qiven_context_draft.Prelude.{
  ℕ, ◌≤◌, ◌≡◌, refl, sym, ap, ◌∙◌, Bool, true, false, [], ◌∷◌, ◌++◌, append_assoc, append-nil,
  Option, none, some, Text, arith, length, length-append, append-cancel, le→ltb_false, subst, ltb,
  ◌⊎◌, inl, inr, Bool-cases, if◌then◌else◌,
}
use qiven_context_draft.Foundation.{Bytes, Foundation, FoundationLaws}
use qiven_context_draft.Codec.Reader.{
  Outcome, ok, err, fault, Reader, after, ◌>>=◌, pure, fail, take, front, value, at_most,
  DeserializeErrorKind,
}

module _ ⦃F : Foundation⦄ ⦃L : FoundationLaws F⦄ where
  pub record Reads {A : Type 0} (p : Reader A) (bytes : Bytes) (a : A) : Type 0 where
    pub at :
        (c : F.Cursor) (rest : Bytes)
        → L.unread c ≡ bytes ++ rest
        → (c' : F.Cursor) × (p c ≡ ok (a, c')) × (L.unread c' ≡ rest)

  pub Reads-pure : {A : Type 0} (a : A) → Reads (pure a) [] a
  unfolding pure
  Reads-pure a = record { at = λ c rest e. (c, refl, e) }

  pub Reads-bind :
      {A B : Type 0} {p : Reader A} (f : A → Reader B) {xs ys : Bytes} {a : A} {b : B}
      → Reads p xs a
      → Reads (f a) ys b
      → Reads (p >>= f) (xs ++ ys) b
  unfolding ◌>>=◌
  Reads-bind f {xs = xs} {ys = ys} h k = record {
    at = λ c rest e.
        let (c', e', u) = h.at c (ys ++ rest) (e ∙ append_assoc xs ys rest) in
        let (d, e'', v) = k.at c' rest u in (d, rw e' e'', v);
  }

  -- The rest reads nothing.
  pub Reads-then :
      {A B : Type 0} {p : Reader A} (f : A → Reader B) {xs : Bytes} {a : A} {b : B}
      → Reads p xs a
      → Reads (f a) [] b
      → Reads (p >>= f) xs b
  Reads-then {p = p} f {xs = xs} {b = b} h k =
      subst (λ bs. Reads (p >>= f) bs b) (append-nil xs) (Reads-bind f h k)

  pub Reads-last :
      {A B : Type 0} {p : Reader A} {xs : Bytes} {a : A} (g : A → B)
      → Reads p xs a
      → Reads (p >>= λ x. pure (g x)) xs (g a)
  unfolding ◌>>=◌ pure
  Reads-last g h = record { at = λ c rest e. let (c', e', u) = h.at c rest e in (c', rw e', u) }

  take_splits :
      (n : ℕ) (bytes rest : Bytes) (c : F.Cursor)
      → length bytes ≡ n
      → L.unread c ≡ bytes ++ rest
      → (c' : F.Cursor) × (F.take n c ≡ some (bytes, c')) × (L.unread c' ≡ rest)
  take_splits n bytes rest c fits e =
      let room : n ≤ length (L.unread c) =
        omega (arith, length-append bytes rest, fits, ap length e) in
      let (span, c', t, u, l) = L.take_lem n c room in
      let (same, left) = append-cancel span bytes (sym u ∙ e) (l ∙ sym fits) in
      (c', t ∙ ap (λ b. some (b, c')) same, left)

  pub Reads-take :
      (n : ℕ) (what : Text) (bytes : Bytes) → length bytes ≡ n → Reads (take n what) bytes bytes
  unfolding take
  Reads-take n what bytes fits = record {
    at = λ c rest e.
        let (c', t, u) = take_splits n bytes rest c fits e in
        let enough : n ≤ F.remaining c =
          omega (arith, L.remaining_lem c, length-append bytes rest, fits, ap length e) in
        (c', rw (le→ltb_false n (F.remaining c) enough, t), u);
  }

  pub Reads-value : (v : Option ℕ) (n : ℕ) → v ≡ some n → Reads (value v) [] n
  unfolding value
  Reads-value v n e = record { at = λ c rest u. (c, rw e, u) }

  pub Reads-front : (b : ℕ) (bs : Bytes) → Reads (front (b ∷ bs)) [] b
  unfolding front
  Reads-front b bs = record { at = λ c rest u. (c, refl, u) }

  pub Reads-at_most :
      (limit n : ℕ) (kind : DeserializeErrorKind) (what : Text)
      → n ≤ limit
      → Reads (at_most limit n kind what) [] tt
  unfolding at_most pure
  Reads-at_most limit n kind what h = record {
    at = λ c rest u. (c, rw (le→ltb_false n limit h), u);
  }

  -- Every success takes some bytes, and reads the same from them before any others.
  pub record Consumes {A : Type 0} (p : Reader A) : Type 0 where
    pub at :
        (c c' : F.Cursor) (a : A)
        → p c ≡ ok (a, c')
        → (bytes : Bytes) × (L.unread c ≡ bytes ++ L.unread c') × Reads p bytes a

  pub Consumes-pure : {A : Type 0} (a : A) → Consumes (pure a)
  unfolding pure
  Consumes-pure a = record {
    at = λ c c' b e. ([], cc, subst (Reads (pure a) []) (cc) (Reads-pure a));
  }

  pub Consumes-fail :
      {A : Type 0} (k : DeserializeErrorKind) (what : Text) → Consumes (fail {A = A} k what)
  unfolding fail
  Consumes-fail k what = record { at = λ c c' b e. absurd (cc) }

  pub Consumes-if :
      {A : Type 0} (b : Bool) (p q : Reader A)
      → Consumes p
      → Consumes q
      → Consumes (if b then p else q)
  Consumes-if true p q h k = h
  Consumes-if false p q h k = k

  after-eq-ok :
      {A B : Type 0} (o : Outcome (A × F.Cursor)) (f : A → Reader B) {r : B × F.Cursor}
      → after o f ≡ ok r
      → (a : A) × (c : F.Cursor) × (o ≡ ok (a, c)) × (f a c ≡ ok r)
  after-eq-ok (ok (a, c)) f e = (a, c, refl, e)
  after-eq-ok (err x) f e = absurd (cc)
  after-eq-ok fault f e = absurd (cc)

  pub Consumes-bind :
      {A B : Type 0} (p : Reader A) (f : A → Reader B)
      → Consumes p
      → ((a : A) → Consumes (f a))
      → Consumes (p >>= f)
  unfolding ◌>>=◌
  Consumes-bind p f h k = record {
    at = λ c c' b e.
        let (a, m, e₁, e₂) = after-eq-ok (p c) f e in
        let (xs, u, r) = h.at c m a e₁ in
        let (ys, v, r') = (k a).at m c' b e₂ in
        (xs ++ ys, u ∙ (ap (λ t. xs ++ t) v ∙ sym (append_assoc xs ys _)), Reads-bind f r r');
  }

  pub Consumes-take : (n : ℕ) (what : Text) → Consumes (take n what)
  unfolding take
  Consumes-take n what = record {
    at = λ c c' bytes e. taken_bytes c c' bytes e (Bool-cases (ltb (F.remaining c) n));
  }
    where
      taken_bytes :
          (c c' : F.Cursor) (bytes : Bytes)
          → take n what c ≡ ok (bytes, c')
          → (ltb (F.remaining c) n ≡ true) ⊎ (ltb (F.remaining c) n ≡ false)
          → (xs : Bytes) × (L.unread c ≡ xs ++ L.unread c') × Reads (take n what) xs bytes
      taken_bytes c c' bytes e (inl short) = absurd (ground arith)
      taken_bytes c c' bytes e (inr enough) =
          let room : n ≤ length (L.unread c) = ground (arith, L.remaining_lem c) in
          let (span, d, t, u, l) = L.take_lem n c room in
          let same : bytes ≡ span = ground arith in
          let end : c' ≡ d = ground arith in
          (
            span,
            u ∙ ap (λ m. span ++ L.unread m) (sym end),
            subst (Reads (take n what) span) (sym same) (Reads-take n what span l),
          )

  pub Consumes-value : (v : Option ℕ) → Consumes (value v)
  unfolding value pure
  Consumes-value none = record { at = λ c c' a e. absurd (cc) }
  Consumes-value (some v) = Consumes-pure v

  pub Consumes-front : (bs : Bytes) → Consumes (front bs)
  unfolding front pure
  Consumes-front [] = record { at = λ c c' a e. absurd (cc) }
  Consumes-front (b ∷ bs) = Consumes-pure b

  pub Consumes-at_most :
      (limit n : ℕ) (kind : DeserializeErrorKind) (what : Text)
      → Consumes (at_most limit n kind what)
  unfolding at_most
  Consumes-at_most limit n kind what =
      Consumes-if (ltb limit n) _ _ (Consumes-fail kind what) (Consumes-pure tt)
