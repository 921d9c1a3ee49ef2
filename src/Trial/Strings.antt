-- ===== src/Trial/Strings.antt =====
-- The members of `std::string` and of `std::istream` that apps/artifact_trial.cpp reads an artifact
-- file with.
use qiven_context_draft.Prelude.{
  ℕ, zero, suc, ◌+◌, ◌-◌, ◌*◌, ◌%◌, ◌^◌, Bool, true, false, ◌&&◌, List, [], ◌∷◌, ◌++◌, Option, none,
  some, Text, ◌==◌, nat_eq, is_empty, ltb, is_digit, is_space, if◌then◌else◌,
}

unfoldable pub starts_with : Text → Text → Bool
starts_with [] t = true
starts_with (k ∷ ks) [] = false
starts_with (k ∷ ks) (c ∷ cs) = k == c && starts_with ks cs

abbrev pub later : ℕ → Option ℕ → Option ℕ
later n none = none
later n (some i) = some (n + i)

-- `t.find(key)`
unfoldable pub find : Text → Text → Option ℕ
find key [] = if is_empty key then some 0 else none
find key (c ∷ cs) =
    let rest = find key cs in if starts_with key (c ∷ cs) then some 0 else later 1 rest

unfoldable pub drop_text : ℕ → Text → Text
drop_text zero t = t
drop_text (suc n) [] = []
drop_text (suc n) (c ∷ cs) = drop_text n cs

unfoldable pub take_text : ℕ → Text → Text
take_text zero t = []
take_text (suc n) [] = []
take_text (suc n) (c ∷ cs) = c ∷ take_text n cs

-- `t.find(key, pos)`, with `npos` where there is none.
abbrev pub or_npos : Option ℕ → ℕ
or_npos none = 2 ^ 64 - 1
or_npos (some i) = i

abbrev pub find_from : Text → ℕ → Text → ℕ
find_from key pos t = or_npos (later pos (find key (drop_text pos t)))

-- The difference of two 64-bit sizes.
abbrev pub minus : ℕ → ℕ → ℕ
minus a b = (a + (2 ^ 64 - b)) % 2 ^ 64

-- `t.substr(pos, n)`, at a position that is not behind the end.
abbrev pub substr : ℕ → ℕ → Text → Text
substr pos n t = take_text n (drop_text pos t)

-- Where `stream >> value` stands: in the white space before a number, behind its sign, or in its
-- digits. `value` is a 32-bit unsigned number, which a minus sign negates.
pub data Scan : Type 0 where
  between : Scan
  signed : Bool → Scan
  inside : Bool → ℕ → Scan

-- `std::byte { static_cast<unsigned char>(value) }`
abbrev pub byte_of : Bool → ℕ → ℕ
byte_of negated v = if negated then (2 ^ 32 - v) % 2 ^ 32 % 256 else v % 256

-- Before a number; `none` is a character at which the extraction fails.
abbrev pub before_number : ℕ → Option Scan
before_number c =
    if is_space c
    then some between
    else if c == b'-'
    then some (signed true)
    else if c == b'+'
    then some (signed false)
    else if is_digit c
    then some (inside false (c - 48))
    else none

-- The byte that a character completes, and where the loop goes on; a number out of range fails.
abbrev pub completed : Bool → ℕ → Option Scan → List ℕ × Option Scan
completed negated v next = if ltb v (2 ^ 32) then (byte_of negated v ∷ [], next) else ([], none)

unfoldable pub scan_step : Scan → ℕ → List ℕ × Option Scan
scan_step between c = ([], before_number c)
scan_step (signed negated) c =
    if is_digit c then ([], some (inside negated (c - 48))) else ([], none)
scan_step (inside negated v) c =
    if is_digit c
    then ([], some (inside negated (v * 10 + (c - 48))))
    else completed negated v (before_number c)

-- `while (stream >> value) bytes.push_back(...)`
unfoldable pub scan : Scan → Text → List ℕ
scan between [] = []
scan (signed negated) [] = []
scan (inside negated v) [] = (completed negated v none).0
scan state (c ∷ cs) =
    let (bytes, next) = scan_step state c in
    bytes ++ elim next [ none ↦ [] | some state' ↦ scan state' cs ]
