-- ===== src/Trial/Find.antt =====
-- Where `std::string::find` stops in a text that is put together from pieces.
use qiven_context_draft.Prelude.{
  ℕ, zero, suc, ◌+◌, ◌≡◌, refl, sym, ap, ◌∙◌, Bool, true, false, not, ◌&&◌, ◌||◌, Bool-cases, inl,
  inr, [], ◌∷◌, ◌++◌, Option, none, some, Text, ◌==◌, nat_eq, length, length-append, All, arith,
  beq_refl,
}
use qiven_context_draft.Trial.Strings.{starts_with, later, find, drop_text, take_text}

later-suc : (n : ℕ) (o : Option ℕ) → later 1 (later n o) ≡ later (suc n) o
later-suc n none = refl
later-suc n (some i) = ap (λ x. some x) (omega arith)

later-zero : (o : Option ℕ) → o ≡ later 0 o
later-zero none = refl
later-zero (some i) = ap (λ x. some x) (omega arith)

-- The key is not found before the end of a piece, whatever follows it.
pub record Skips (key piece : Text) (rest : Text) : Type 0 where
  pub skips : find key (piece ++ rest) ≡ later (length piece) (find key rest)

pub Skips-nil : (key rest : Text) → Skips key [] rest
Skips-nil key rest = record { skips = later-zero (find key rest) }

Skips-cons :
    (key : Text) (c : ℕ) (cs rest : Text)
    → starts_with key (c ∷ (cs ++ rest)) ≡ false
    → Skips key cs rest
    → Skips key (c ∷ cs) rest
unfolding find
Skips-cons key c cs rest h k = record {
  skips = rw h (ap (later 1) k.skips ∙ later-suc (length cs) (find key rest));
}

-- Whether a key and a text differ before either ends.
unfoldable differs : Text → Text → Bool
differs [] t = false
differs (k ∷ ks) [] = false
differs (k ∷ ks) (c ∷ cs) = not (k == c) || differs ks cs

differs-starts_with :
    (key s rest : Text) → differs key s ≡ true → starts_with key (s ++ rest) ≡ false
unfolding differs starts_with
differs-starts_with [] s rest h = absurd (cc)
differs-starts_with (k ∷ ks) [] rest h = absurd (cc)
differs-starts_with (k ∷ ks) (c ∷ cs) rest h = elim (Bool-cases (k == c)) [
  | inl same ↦ rw same (differs-starts_with ks cs rest (ground (arith, same, h)))
  | inr other ↦ rw other refl
]

-- Whether a key differs from a text at each of its places.
unfoldable pub is_clear : Text → Text → Bool
unfolding differs
is_clear key [] = true
is_clear key (c ∷ cs) = differs key (c ∷ cs) && is_clear key cs

pub is_clear-Skips : (key s rest : Text) → is_clear key s ≡ true → Skips key s rest
unfolding is_clear
is_clear-Skips key [] rest h = Skips-nil key rest
is_clear-Skips key (c ∷ cs) rest h =
    Skips-cons key c cs rest (differs-starts_with key (c ∷ cs) rest (ground (arith, h)))
      (is_clear-Skips key cs rest (ground (arith, h)))

abbrev pub Avoids : ℕ → Text → Type 0
Avoids k s = All (λ c. (k == c) ≡ false) s

-- A key whose first character is not in the piece, or whose second one is not, nor the line feed
-- that follows.
pub first_avoided : (k : ℕ) (ks s rest : Text) → Avoids k s → Skips (k ∷ ks) s rest
unfolding starts_with
first_avoided k ks [] rest h = Skips-nil (k ∷ ks) rest
first_avoided k ks (c ∷ cs) rest h =
    Skips-cons (k ∷ ks) c cs rest (rw h.0) (first_avoided k ks cs rest h.1)

and_false : (b c : Bool) → c ≡ false → (b && c) ≡ false
and_false true c h = h
and_false false c h = refl

pub second_avoided :
    (j k : ℕ) (ks : Text) (c : ℕ) (s rest : Text)
    → (k == 10) ≡ false
    → Avoids k s
    → Skips (j ∷ k ∷ ks) (c ∷ s) (10 ∷ rest)
unfolding starts_with
second_avoided j k ks c [] rest n h =
    Skips-cons (j ∷ k ∷ ks) c [] (10 ∷ rest) (and_false (j == c) _ (rw n)) (Skips-nil _ (10 ∷ rest))
second_avoided j k ks c (d ∷ s) rest n h =
    Skips-cons (j ∷ k ∷ ks) c (d ∷ s) (10 ∷ rest) (and_false (j == c) _ (rw h.0))
      (second_avoided j k ks d s rest n h.1)

starts_with-key : (key rest : Text) → starts_with key (key ++ rest) ≡ true
unfolding starts_with
starts_with-key [] rest = refl
starts_with-key (k ∷ ks) rest = rw (beq_refl k) (starts_with-key ks rest)

pub drop_text-append : (s rest : Text) → drop_text (length s) (s ++ rest) ≡ rest
unfolding drop_text
drop_text-append [] rest = refl
drop_text-append (c ∷ cs) rest = drop_text-append cs rest

pub take_text-append : (s rest : Text) → take_text (length s) (s ++ rest) ≡ s
unfolding take_text
take_text-append [] rest = refl
take_text-append (c ∷ cs) rest = ap (λ t. c ∷ t) (take_text-append cs rest)

pub second_missing :
    (j k : ℕ) (ks s rest : Text) → (k == 10) ≡ false → Avoids k s → Skips (j ∷ k ∷ ks) s (10 ∷ rest)
second_missing j k ks [] rest n h = Skips-nil (j ∷ k ∷ ks) (10 ∷ rest)
second_missing j k ks (c ∷ s) rest n h = second_avoided j k ks c s rest n h.1

drop_text-nil : (n : ℕ) → drop_text n [] ≡ []
unfolding drop_text
drop_text-nil zero = refl
drop_text-nil (suc n) = refl

zero_plus : (m : ℕ) → 0 + m ≡ m
zero_plus m = omega arith

suc_plus : (n m : ℕ) → suc n + m ≡ suc (n + m)
suc_plus n m = omega arith

pub drop_text-drop_text : (n m : ℕ) (t : Text) → drop_text (n + m) t ≡ drop_text m (drop_text n t)
unfolding drop_text
drop_text-drop_text zero m t = ap (λ k. drop_text k t) (zero_plus m)
drop_text-drop_text (suc n) m [] = drop_text-nil (suc n + m) ∙ sym (drop_text-nil m)
drop_text-drop_text (suc n) m (c ∷ t) =
    ap (λ k. drop_text k (c ∷ t)) (suc_plus n m) ∙ drop_text-drop_text n m t

-- The first place of a key in a text, and what stands behind it.
pub record Reaches (key t : Text) (pos : ℕ) (after : Text) : Type 0 where
  pub found : find key t ≡ some pos
  pub there : drop_text pos t ≡ key ++ after
  pub size : length t ≡ pos + length (key ++ after)

pub Reaches-here : (k : ℕ) (ks after : Text) → Reaches (k ∷ ks) ((k ∷ ks) ++ after) 0 after
unfolding find drop_text
Reaches-here k ks after = record {
  found = rw (starts_with-key (k ∷ ks) after) refl;
  there = refl;
  size = omega arith;
}

pub Reaches-skip :
    (key piece rest : Text) (pos : ℕ) (after : Text)
    → Skips key piece rest
    → Reaches key rest pos after
    → Reaches key (piece ++ rest) (length piece + pos) after
Reaches-skip key piece rest pos after h r = record {
  found = h.skips ∙ ap (later (length piece)) r.found;
  there =
      drop_text-drop_text (length piece) pos (piece ++ rest)
      ∙ ap (drop_text pos) (drop_text-append piece rest)
      ∙ r.there;
  size = omega (arith, length-append piece rest, r.size);
}
