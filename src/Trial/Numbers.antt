-- ===== src/Trial/Numbers.antt =====
-- The byte section of an artifact file (apps/artifact_trial.cpp): what is written is read back.
use qiven_context_draft.Prelude.{
  ℕ, ◌+◌, ◌*◌, ◌-◌, ◌^◌, ◌<◌, ◌≡◌, refl, sym, ap, subst, ◌∙◌, true, false, [], ◌∷◌, ◌++◌, some,
  Text, ltb, All, All-append, All-mono, ◌%◌, arith, to_decimal, to_decimal-IsDigit, IsDigit,
  digits_value, decimal_value, digit_test, to_decimal-IsCons,
}
use qiven_context_draft.Foundation.{Bytes}
use qiven_context_draft.Trial.Strings.{between, inside, scan_step, scan, before_number}
use qiven_context_draft.Trial.Artifact.{byte_text}

scan-digits :
    (digits rest : Text) (v : ℕ)
    → All IsDigit digits
    → scan (inside false v) (digits ++ rest) ≡ scan (inside false (digits_value digits v)) rest
unfolding scan scan_step
scan-digits [] rest v h = refl
scan-digits (c ∷ cs) rest v h = rw (digit_test c h.0) (scan-digits cs rest (v * 10 + (c - 48)) h.1)

not_special : (c : ℕ) → IsDigit c → before_number c ≡ some (inside false (c - 48))
not_special c h = ground (arith, h.0, h.1)

scan-first :
    (c : ℕ) (cs rest : Text)
    → All IsDigit (c ∷ cs)
    → scan between ((c ∷ cs) ++ rest) ≡ scan (inside false (digits_value (c ∷ cs) 0)) rest
unfolding scan scan_step
scan-first c cs rest h = rw (not_special c h.0) (
    scan-digits cs rest (c - 48) h.1
    ∙ ap (λ v. scan (inside false (digits_value cs v)) rest) (omega arith))

abbrev pub IsByte : ℕ → Type 0
IsByte b = b < 256

in_range : (v : ℕ) → IsByte v → (ltb v (2 ^ 32) ≡ true) × (v % 256 ≡ v)
in_range v h = (ground (arith, h), omega (arith, h))

scan-space :
    (v : ℕ) (rest : Text) → IsByte v → scan (inside false v) (32 ∷ rest) ≡ v ∷ scan between rest
unfolding scan scan_step
scan-space v rest h = let (small, same) = in_range v h in rw (small, same) refl

scan-number :
    (b : ℕ) (rest : Text)
    → IsByte b
    → scan between (to_decimal b ++ (32 ∷ rest)) ≡ b ∷ scan between rest
scan-number b rest h =
    let (c, cs, e) = to_decimal-IsCons b in
    let digits : All IsDigit (c ∷ cs) = subst (All IsDigit) e (to_decimal-IsDigit b) in
    ap (λ t. scan between (t ++ (32 ∷ rest))) e
    ∙ scan-first c cs (32 ∷ rest) digits
    ∙ ap (λ t. scan (inside false (digits_value t 0)) (32 ∷ rest)) (sym e)
    ∙ ap (λ v. scan (inside false v) (32 ∷ rest)) (decimal_value b (omega (arith, h)))
    ∙ scan-space b rest h

-- The loop reads back the bytes that were written.
pub scan-byte_text : (bytes : Bytes) → All IsByte bytes → scan between (byte_text bytes) ≡ bytes
unfolding byte_text scan
scan-byte_text [] h = refl
scan-byte_text (b ∷ bytes) h =
    scan-number b (byte_text bytes) h.0 ∙ ap (λ t. b ∷ t) (scan-byte_text bytes h.1)

-- The written bytes are digits and spaces.
pub byte_text-All :
    (P : ℕ → Type 0)
    → ((c : ℕ) → IsDigit c → P c)
    → P 32
    → (bytes : Bytes) → All P (byte_text bytes)
unfolding byte_text
byte_text-All P digit space [] = tt
byte_text-All P digit space (b ∷ bytes) =
    All-append P (to_decimal b) (32 ∷ byte_text bytes)
      (All-mono IsDigit P digit (to_decimal b) (to_decimal-IsDigit b))
      (space, byte_text-All P digit space bytes)
