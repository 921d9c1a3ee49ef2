-- ===== src/Trial/Lines.antt =====
-- The pieces of an artifact file (apps/artifact_trial.cpp): what the searches of `verify` skip on
-- the way to a key, and the value behind a key.
use qiven_context_draft.Prelude.{
  ℕ, ◌+◌, ◌^◌, ◌<◌, ◌≡◌, refl, sym, ap, subst, ◌∙◌, ◌⊎◌, inl, inr, beq_of_ne, Bool, not, ◌&&◌, true,
  false, List, [], ◌∷◌, ◌++◌, append_assoc, some, Text, text, ◌==◌, nat_eq, length, length-append,
  All, All-append, All-mono, arith, IsDigit, to_decimal, to_decimal-IsDigit,
}
use qiven_context_draft.Foundation.{Bytes, Foundation, FoundationLaws, IsHexDigit}
use qiven_context_draft.Cognition.Records.{Snapshot}
use qiven_context_draft.Transaction.Digest.{draft_content_id, draft_snapshot_digest}
use qiven_context_draft.Trial.Strings.{
  find, drop_text, take_text, later, or_npos, find_from, minus, substr,
}
use qiven_context_draft.Trial.Artifact.{Field, count_fields, then_fields, line_end}
use qiven_context_draft.Trial.Find.{
  Avoids, first_avoided, is_clear, is_clear-Skips, Reaches, Reaches-skip, Reaches-here,
  drop_text-append, take_text-append, drop_text-drop_text,
}

-- An identity has no line feed, and none of the second letters of the keys.
abbrev pub IsIdentity : Text → Type 0
IsIdentity t = Avoids 10 t × Avoids b'o' t × Avoids b'y' t

-- Whether a character is not in a text.
unfoldable pub lacks : ℕ → Text → Bool
lacks k [] = true
lacks k (c ∷ cs) = not (k == c) && lacks k cs

pub lacks-Avoids : (k : ℕ) (s : Text) → lacks k s ≡ true → Avoids k s
unfolding lacks
lacks-Avoids k [] h = tt
lacks-Avoids k (c ∷ cs) h = (ground (arith, h), lacks-Avoids k cs (ground (arith, h)))

lacks-IsIdentity : (s : Text) → (lacks 10 s && (lacks b'o' s && lacks b'y' s)) ≡ true → IsIdentity s
lacks-IsIdentity s h = (
  lacks-Avoids 10 s (ground (arith, h)),
  lacks-Avoids b'o' s (ground (arith, h)),
  lacks-Avoids b'y' s (ground (arith, h)),
)

pub digit_differs : (k c : ℕ) → (k < 48) ⊎ (57 < k) → IsDigit c → (k == c) ≡ false
digit_differs k c (inl low) d = beq_of_ne k c (λ e. omega (arith, e, low, d.0))
digit_differs k c (inr high) d = beq_of_ne k c (λ e. omega (arith, e, high, d.1))

hex_differs : (k c : ℕ) → (k < 48) ⊎ (102 < k) → IsHexDigit c → (k == c) ≡ false
hex_differs k c (inl low) (inl d) = beq_of_ne k c (λ e. omega (arith, e, low, d.0))
hex_differs k c (inl low) (inr d) = beq_of_ne k c (λ e. omega (arith, e, low, d.0))
hex_differs k c (inr high) (inl d) = beq_of_ne k c (λ e. omega (arith, e, high, d.1))
hex_differs k c (inr high) (inr d) = beq_of_ne k c (λ e. omega (arith, e, high, d.1))

pub decimal-Avoids : (k n : ℕ) → (k < 48) ⊎ (57 < k) → Avoids k (to_decimal n)
decimal-Avoids k n o =
    All-mono IsDigit (λ c. (k == c) ≡ false) (λ c d. digit_differs k c o d) (to_decimal n)
      (to_decimal-IsDigit n)

module _ ⦃F : Foundation⦄ ⦃L : FoundationLaws F⦄ where
  hex-Avoids : (k n : ℕ) → (k < 48) ⊎ (102 < k) → Avoids k (F.to_hex_u64 n)
  hex-Avoids k n o =
      All-mono IsHexDigit (λ c. (k == c) ≡ false) (λ c d. hex_differs k c o d) (F.to_hex_u64 n)
        (L.to_hex_u64_lem n)

  hex-IsIdentity :
      (prefix : Text) (n : ℕ) → IsIdentity prefix → IsIdentity (prefix ++ F.to_hex_u64 n)
  hex-IsIdentity prefix n h = (
    All-append _ prefix _ h.0 (hex-Avoids 10 n (inl (omega arith))),
    All-append _ prefix _ h.1 (hex-Avoids b'o' n (inr (omega arith))),
    All-append _ prefix _ h.2 (hex-Avoids b'y' n (inr (omega arith))),
  )

  pub content_id-IsIdentity : (bytes : Bytes) → IsIdentity (draft_content_id bytes)
  unfolding draft_content_id text lacks
  content_id-IsIdentity bytes =
      hex-IsIdentity (text "draft-") (F.fnv1a64 bytes) (lacks-IsIdentity (text "draft-") refl)

  pub digest-IsIdentity : (bytes : Bytes) → IsIdentity (draft_snapshot_digest bytes).value
  unfolding draft_snapshot_digest text lacks
  digest-IsIdentity bytes =
      hex-IsIdentity (text "snap-") (F.fnv1a64 bytes) (lacks-IsIdentity (text "snap-") refl)

-- How long the fields are.
unfoldable pub fields_length : List Field → ℕ
fields_length [] = 0
fields_length ((label, value) ∷ fields) = length label + (length value + fields_length fields)

pub Reaches-fields :
    (k : ℕ) (ks : Text) (fields : List Field) (rest : Text) (pos : ℕ) (after : Text)
    → All (λ f. is_clear (k ∷ ks) f.0 ≡ true) fields
    → All (λ f. Avoids k f.1) fields
    → Reaches (k ∷ ks) rest pos after
    → Reaches (k ∷ ks) (then_fields fields rest) (fields_length fields + pos) after
unfolding then_fields fields_length
Reaches-fields k ks [] rest pos after l v r =
    subst (λ p. Reaches (k ∷ ks) rest p after) (omega arith) r
Reaches-fields k ks ((label, value) ∷ fields) rest pos after l v r =
    let behind = then_fields fields rest in
    subst (λ p. Reaches (k ∷ ks) (label ++ (value ++ behind)) p after) (omega arith)
      (Reaches-skip (k ∷ ks) label (value ++ behind) _ after
        (is_clear-Skips (k ∷ ks) label (value ++ behind) l.0)
        (Reaches-skip (k ∷ ks) value behind _ after (first_avoided k ks value behind v.0)
          (Reaches-fields k ks fields rest pos after l.1 v.1 r)))

pub count_values :
    (k : ℕ) (state : Snapshot)
    → (k < 48) ⊎ (57 < k)
    → All (λ (f : Field). Avoids k f.1) (count_fields state)
count_values k state o =
    let d : (n : ℕ) → Avoids k (to_decimal n) = λ n. decimal-Avoids k n o in
    (d _, (d _, (d _, (d _, (d _, (d _, (d _, (d _, tt))))))))

plus_zero : (n : ℕ) → n + 0 ≡ n
plus_zero n = omega arith

span_of : (pos n m : ℕ) → pos + (n + m) < 2 ^ 64 → minus (pos + (n + m)) (pos + n) ≡ m
span_of pos n m h = omega (arith, h)

-- The line feed behind a value.
line_end_at : (s rest : Text) → Avoids 10 s → find line_end (s ++ (10 ∷ rest)) ≡ some (length s)
line_end_at s rest h =
    (Reaches-skip line_end s (10 ∷ rest) 0 rest (first_avoided 10 [] s (10 ∷ rest) h)
      (Reaches-here 10 [] rest)).found
    ∙ ap (λ n. some n) (plus_zero (length s))

-- The value between a key and the end of its line.
pub value_at :
    (key t : Text) (pos : ℕ) (value rest : Text)
    → Reaches key t pos (value ++ (10 ∷ rest))
    → Avoids 10 key
    → Avoids 10 value
    → length t < 2 ^ 64
    → substr (pos + length key) (minus (find_from line_end pos t) (pos + length key)) t ≡ value
value_at key t pos value rest r h k small =
    let n = length key in
    let m = length value in
    let ended : find line_end (drop_text pos t) ≡ some (n + m) =
      ap (find line_end) (r.there ∙ sym (append_assoc key value (10 ∷ rest)))
      ∙ line_end_at (key ++ value) rest (All-append _ key value h k)
      ∙ ap (λ x. some x) (length-append key value) in
    let at : find_from line_end pos t ≡ pos + (n + m) = ap (λ o. or_npos (later pos o)) ended in
    let within : pos + (n + m) < 2 ^ 64 = omega (
      arith,
      r.size,
      small,
      length-append key (value ++ (10 ∷ rest)),
      length-append value (10 ∷ rest),
    ) in
    let behind : drop_text (pos + n) t ≡ value ++ (10 ∷ rest) =
      drop_text-drop_text pos n t
      ∙ ap (drop_text n) r.there
      ∙ drop_text-append key (value ++ (10 ∷ rest)) in
    ap (λ x. take_text (minus x (pos + n)) (drop_text (pos + n) t)) at
    ∙ ap (λ x. take_text x (drop_text (pos + n) t)) (span_of pos n m within)
    ∙ ap (take_text m) behind
    ∙ take_text-append value (10 ∷ rest)
