-- ===== src/Prelude/Strings.antt =====
-- A `std::string` is the list of its bytes. Decimal text is `std::to_string` and `std::stoll`.
use Prim.Native.Nat.{ℕ, zero, suc, ◌+◌, ◌-◌, ◌*◌, ◌/◌, ◌%◌, ◌^◌, ◌≤◌, ◌<◌}
use Prim.Native.Char.{code}
use Prim.Native.String.{String}
use mathlib.Core.Path.{◌≡◌, refl, sym, ap, ◌∙◌, subst}
use mathlib.Core.Bool.{Bool, true, false, ◌&&◌, ◌||◌}
use mathlib.Core.Logic.{inl, inr}
use mathlib.Core.Option.{Option, none, some}
use mathlib.Core.List.{List, [], ◌∷◌}
use native.Mathlib.Omega.{arith}
use native.Mathlib.Nat.{pow-suc}
use qiven_context_draft.Prelude.Tests.{ltb, leb, nat_beq, if◌then◌else◌, Bool-cases}
use qiven_context_draft.Prelude.Lists.{All}
use qiven_context_draft.Prelude.Int.{ℤ, pos, negsuc, IsI64}

abbrev pub Text : Type 0
Text = List ℕ

-- A literal of the source. It is shut, so that goals show the literal and not its bytes.
unfoldable pub text : String → Text
text String.[] = []
text (String.◌∷◌ c s) = code c ∷ text s

-- `std::to_string`. Twenty digits hold every 64-bit number.
decimal_loop : ℕ → ℕ → Text → Text
decimal_loop zero n acc = acc
decimal_loop (suc fuel) n acc =
    let rest = decimal_loop fuel (n / 10) ((48 + n % 10) ∷ acc) in
    if ltb n 10 then (48 + n) ∷ acc else rest

unfoldable pub to_decimal : ℕ → Text
unfolding decimal_loop
to_decimal n = decimal_loop 20 n []

unfoldable pub to_string : ℤ → Text
to_string (pos n) = to_decimal n
to_string (negsuc n) = b'-' ∷ to_decimal (suc n)

abbrev pub digits_value : Text → ℕ → ℕ
digits_value [] v = v
digits_value (c ∷ cs) v = digits_value cs (v * 10 + (c - 48))

decimal_loop-value :
    (fuel n : ℕ) (acc : Text)
    → n < 10 ^ fuel
    → digits_value (decimal_loop fuel n acc) 0 ≡ digits_value acc n
unfolding decimal_loop
decimal_loop-value zero n acc h = ap (digits_value acc) (omega arith)
decimal_loop-value (suc fuel) n acc h = elim (Bool-cases (ltb n 10)) [
  | inl last ↦ rw last (ap (digits_value acc) (omega arith))
  | inr more ↦ rw more (
      decimal_loop-value fuel (n / 10) ((48 + n % 10) ∷ acc) (omega (arith, pow-suc 10 fuel))
      ∙ ap (digits_value acc) (omega arith))
]

abbrev pub IsDigit : ℕ → Type 0
IsDigit c = (48 ≤ c) × (c < 58)

decimal_loop-IsDigit :
    (fuel n : ℕ) (acc : Text) → All IsDigit acc → All IsDigit (decimal_loop fuel n acc)
unfolding decimal_loop
decimal_loop-IsDigit zero n acc h = h
decimal_loop-IsDigit (suc fuel) n acc h = elim (Bool-cases (ltb n 10)) [
  | inl last ↦ rw last (ground arith, h)
  | inr more ↦ rw more (decimal_loop-IsDigit fuel (n / 10) _ (omega arith, h))
]

pub decimal_value : (n : ℕ) → n < 10 ^ 20 → digits_value (to_decimal n) 0 ≡ n
unfolding to_decimal
decimal_value n h = decimal_loop-value 20 n [] h

pub to_decimal-injective :
    (n m : ℕ) → n < 10 ^ 20 → m < 10 ^ 20 → to_decimal n ≡ to_decimal m → n ≡ m
to_decimal-injective n m h k e =
    sym (decimal_value n h) ∙ (ap (λ t. digits_value t 0) e ∙ decimal_value m k)

-- `std::stoll`: white space, a sign, then as many digits as there are. `none` is a throw, for no
-- digit or for a number out of range.
abbrev pub is_space : ℕ → Bool
is_space c = nat_beq c 32 || (leb 9 c && leb c 13)

abbrev pub is_digit : ℕ → Bool
is_digit c = leb 48 c && ltb c 58

skip_space : Text → Text
skip_space [] = []
skip_space (c ∷ cs) = let rest = skip_space cs in if is_space c then rest else c ∷ cs

leading_value : Text → ℕ → ℕ
leading_value [] v = v
leading_value (c ∷ cs) v =
    let rest = leading_value cs (v * 10 + (c - 48)) in if is_digit c then rest else v

abbrev starts_with_digit : Text → Bool
starts_with_digit [] = false
starts_with_digit (c ∷ cs) = is_digit c

abbrev positive : ℕ → Option ℤ
positive v = if ltb v (2 ^ 63) then some (pos v) else none

abbrev negative : ℕ → Option ℤ
negative zero = some (pos 0)
negative (suc v) = if ltb v (2 ^ 63) then some (negsuc v) else none

signed : (ℕ → Option ℤ) → Text → Option ℤ
unfolding leading_value
signed sign digits = if starts_with_digit digits then sign (leading_value digits 0) else none

parse_signed : Text → Option ℤ
unfolding signed
parse_signed [] = none
parse_signed (c ∷ cs) =
    if nat_beq c b'-'
    then signed negative cs
    else if nat_beq c b'+'
    then signed positive cs
    else signed positive (c ∷ cs)

unfoldable pub stoll : Text → Option ℤ
unfolding skip_space parse_signed
stoll t = parse_signed (skip_space t)

leading_value-digits : (t : Text) (v : ℕ) → All IsDigit t → leading_value t v ≡ digits_value t v
unfolding leading_value
leading_value-digits [] v h = refl
leading_value-digits (c ∷ cs) v h =
    ground (arith, h.0.0, h.0.1, leading_value-digits cs (v * 10 + (c - 48)) h.1)

pub digit_test : (c : ℕ) → IsDigit c → is_digit c ≡ true
digit_test c h = ground (arith, h.0, h.1)

minus_sign : (t : Text) → parse_signed (skip_space (b'-' ∷ t)) ≡ signed negative t
unfolding parse_signed skip_space
minus_sign t = refl

signed-digits :
    (sign : ℕ → Option ℤ) (c : ℕ) (cs : Text)
    → All IsDigit (c ∷ cs)
    → signed sign (c ∷ cs) ≡ sign (digits_value (c ∷ cs) 0)
unfolding signed
signed-digits sign c cs h =
    rw (digit_test c h.0) (ap sign (leading_value-digits cs (0 + (c - 48)) h.1))

abbrev pub IsCons : Text → Type 0
IsCons t = (c : ℕ) × (cs : Text) × (t ≡ c ∷ cs)

decimal_loop-IsCons : (fuel n c : ℕ) (cs : Text) → IsCons (decimal_loop fuel n (c ∷ cs))
unfolding decimal_loop
decimal_loop-IsCons zero n c cs = (c, cs, refl)
decimal_loop-IsCons (suc fuel) n c cs = elim (Bool-cases (ltb n 10)) [
  | inl last ↦ rw last (48 + n, c ∷ cs, refl)
  | inr more ↦ rw more (decimal_loop-IsCons fuel (n / 10) (48 + n % 10) (c ∷ cs))
]

pub to_decimal-IsCons : (n : ℕ) → IsCons (to_decimal n)
unfolding to_decimal decimal_loop
to_decimal-IsCons n = elim (Bool-cases (ltb n 10)) [
  | inl last ↦ rw last (48 + n, [], refl)
  | inr more ↦ rw more (decimal_loop-IsCons 19 (n / 10) (48 + n % 10) [])
]

pub to_decimal-IsDigit : (n : ℕ) → All IsDigit (to_decimal n)
unfolding to_decimal
to_decimal-IsDigit n = decimal_loop-IsDigit 20 n [] tt

signed-to_decimal :
    (sign : ℕ → Option ℤ) (n : ℕ) → n < 10 ^ 20 → signed sign (to_decimal n) ≡ sign n
signed-to_decimal sign n h =
    let (c, cs, e) = to_decimal-IsCons n in
    let digits : All IsDigit (c ∷ cs) = subst (All IsDigit) e (to_decimal-IsDigit n) in
    ap (signed sign) e
    ∙ (signed-digits sign c cs digits
        ∙ ap sign (
            ap (λ t. digits_value t 0) (sym e)
            ∙ (unfold to_decimal in decimal_loop-value 20 n [] h)))

parse_digits :
    (c : ℕ) (cs : Text) → IsDigit c → parse_signed (skip_space (c ∷ cs)) ≡ signed positive (c ∷ cs)
unfolding parse_signed skip_space
parse_digits c cs h = ground (arith, h.0, h.1)

-- A printed 64-bit id is read back.
pub stoll-to_string : (i : ℤ) → IsI64 i → stoll (to_string i) ≡ some i
unfolding stoll to_string
stoll-to_string (pos n) h =
    let (c, cs, e) = to_decimal-IsCons n in
    ap (λ t. parse_signed (skip_space t)) e
    ∙ (parse_digits c cs (subst (All IsDigit) e (to_decimal-IsDigit n)).0
        ∙ (ap (signed positive) (sym e)
            ∙ (signed-to_decimal positive n (omega arith) ∙ ground arith)))
stoll-to_string (negsuc n) h =
    minus_sign (to_decimal (suc n))
    ∙ (signed-to_decimal negative (suc n) (omega arith) ∙ ground arith)
