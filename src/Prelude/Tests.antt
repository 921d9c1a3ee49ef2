-- ===== src/Prelude/Tests.antt =====
-- Boolean tests, the conditional, and an interface for the `==` of the C++ types.
use Prim.Native.Nat.{ℕ, ◌≤◌, ◌<◌, compare, Ordering}
use mathlib.Core.Path.{◌≡◌, refl, sym, ap, ◌∙◌}
use mathlib.Core.Logic.{◌≢◌, ◌↔◌, ◌⊎◌, inl, inr}
use mathlib.Core.Bool.{Bool, true, false, not, ◌&&◌, false≢true}
use mathlib.Core.Option.{Option, none, some}
use mathlib.Core.List.{List, [], ◌∷◌}
use native.Mathlib.Omega.{arith}
use qiven_context_draft.Prelude.Lists.{get_or, length}

abbrev pub ltb : ℕ → ℕ → Bool
ltb a b = elim (compare a b) [ Ordering.lt ↦ true | _ ↦ false ]

abbrev pub leb : ℕ → ℕ → Bool
leb a b = elim (compare a b) [ Ordering.gt ↦ false | _ ↦ true ]

abbrev pub nat_beq : ℕ → ℕ → Bool
nat_beq a b = elim (compare a b) [ Ordering.eq ↦ true | _ ↦ false ]

infix 1 if◌then◌else◌
abbrev pub if◌then◌else◌ {ℓ} : {A : Type ℓ} → Bool → A → A → A
if true then x else y = x
if false then x else y = y

pub Bool-cases : (b : Bool) → (b ≡ true) ⊎ (b ≡ false)
Bool-cases true = inl refl
Bool-cases false = inr refl

pub Option-cases {ℓ} : {A : Type ℓ} (o : Option A) → (o ≡ none) ⊎ ((a : A) × (o ≡ some a))
Option-cases none = inl refl
Option-cases (some a) = inr (a, refl)

pub leb→le : (a b : ℕ) → leb a b ≡ true → a ≤ b
leb→le a b h = ground arith

pub ltb→lt : (a b : ℕ) → ltb a b ≡ true → a < b
ltb→lt a b h = ground arith

pub le→ltb_false : (a b : ℕ) → a ≤ b → ltb b a ≡ false
le→ltb_false a b h = ground arith

-- A Boolean test that decides equality, as `operator==` does on the types of the source.
pub record Eq {ℓ} (T : Type ℓ) : Type ℓ where
  pub beq : T → T → Bool
  pub beq_iff : (x y : T) → (beq x y ≡ true) ↔ (x ≡ y)

pub nat_beq_iff : (n m : ℕ) → (nat_beq n m ≡ true) ↔ (n ≡ m)
nat_beq_iff n m = ground arith

instance abbrev pub nat_eq : Eq ℕ
nat_eq = record { beq_iff = nat_beq_iff; beq = nat_beq }

infix 50 ◌==◌
abbrev pub ◌==◌ {ℓ} : {T : Type ℓ} ⦃e : Eq T⦄ → T → T → Bool
◌==◌ ⦃e⦄ = e.beq

pub beq_refl {ℓ} : {A : Type ℓ} ⦃e : Eq A⦄ (a : A) → (a == a) ≡ true
beq_refl ⦃e⦄ a = (e.beq_iff a a).1 refl

module _ {ℓ} {A : Type ℓ} ⦃e : Eq A⦄ where
  unfoldable pub list_beq : List A → List A → Bool
  list_beq [] [] = true
  list_beq (x ∷ xs) (y ∷ ys) = x == y && list_beq xs ys
  list_beq _ _ = false

  list_beq_sound : (xs ys : List A) → list_beq xs ys ≡ true → xs ≡ ys
  unfolding list_beq
  list_beq_sound [] [] h = refl
  list_beq_sound [] (y ∷ ys) h = cc
  list_beq_sound (x ∷ xs) [] h = cc
  list_beq_sound (x ∷ xs) (y ∷ ys) h = ground (arith, (e.beq_iff x y).0, list_beq_sound xs ys)

  list_beq_refl : (xs : List A) → list_beq xs xs ≡ true
  unfolding list_beq
  list_beq_refl [] = refl
  list_beq_refl (x ∷ xs) = rw (beq_refl x) (list_beq_refl xs)

  list_beq_complete : (xs ys : List A) → xs ≡ ys → list_beq xs ys ≡ true
  list_beq_complete xs ys h = rw (← h) (list_beq_refl xs)

  pub list_beq_iff : (xs ys : List A) → (list_beq xs ys ≡ true) ↔ (xs ≡ ys)
  list_beq_iff xs ys = (list_beq_sound xs ys, list_beq_complete xs ys)

instance abbrev pub list_eq {ℓ} : {A : Type ℓ} ⦃e : Eq A⦄ → Eq (List A)
list_eq = record { beq = list_beq; beq_iff = list_beq_iff }

-- An `enum class`: the underlying value of each enumerator, and the enumerators in order.
pub record Enum {ℓ} (E : Type ℓ) : Type ℓ where
  pub code : E → ℕ
  pub first : E
  pub others : List E
  pub get-code : (e : E) → get_or (first ∷ others) (code e) first ≡ e
  pub code-le : (e : E) → code e ≤ length others

-- `static_cast<std::uint8_t>(e)` and `static_cast<E>(raw)`, the latter for a value in range.
abbrev pub to_code {ℓ} : {E : Type ℓ} ⦃n : Enum E⦄ → E → ℕ
to_code ⦃n⦄ = n.code

pub from_code {ℓ} : {E : Type ℓ} ⦃n : Enum E⦄ → ℕ → E
from_code ⦃n⦄ raw = get_or (n.first ∷ n.others) raw n.first

pub from_code-to_code {ℓ} : {E : Type ℓ} ⦃n : Enum E⦄ (e : E) → from_code (to_code e) ≡ e
unfolding from_code
from_code-to_code ⦃n⦄ e = n.get-code e

module _ {ℓ} {E : Type ℓ} (n : Enum E) where
  abbrev pub enum_beq : E → E → Bool
  enum_beq a b = nat_beq (n.code a) (n.code b)

  pub enum_beq_iff : (a b : E) → (enum_beq a b ≡ true) ↔ (a ≡ b)
  enum_beq_iff a b = (
    λ h.
        sym (n.get-code a)
        ∙ (ap (λ c. get_or (n.first ∷ n.others) c n.first) ((nat_beq_iff _ _).0 h) ∙ n.get-code b),
    λ e. (nat_beq_iff _ _).1 (ap n.code e),
  )

  abbrev pub enum_eq : Eq E
  enum_eq = record { beq = enum_beq; beq_iff = enum_beq_iff }

pub beq_symm_false {ℓ} : {A : Type ℓ} ⦃e : Eq A⦄ (a b : A) → (a == b) ≡ false → (b == a) ≡ false
beq_symm_false ⦃e⦄ a b h = elim (Bool-cases (e.beq b a)) [
  | inl same ↦ absurd (false≢true (sym h ∙ (e.beq_iff a b).1 (sym ((e.beq_iff b a).0 same))))
  | inr differ ↦ differ
]

pub ne_of_beq {ℓ} : {A : Type ℓ} ⦃e : Eq A⦄ (a b : A) → (a == b) ≡ false → a ≢ b
ne_of_beq ⦃e⦄ a b h same = false≢true (sym h ∙ (e.beq_iff a b).1 same)

pub beq_of_ne {ℓ} : {A : Type ℓ} ⦃e : Eq A⦄ (a b : A) → a ≢ b → (a == b) ≡ false
beq_of_ne ⦃e⦄ a b h = elim (Bool-cases (e.beq a b)) [
  | inl same ↦ absurd (h ((e.beq_iff a b).0 same))
  | inr differ ↦ differ
]

pub eq_of_not_beq {ℓ} : {A : Type ℓ} ⦃e : Eq A⦄ (a b : A) → not (a == b) ≡ false → a ≡ b
eq_of_not_beq ⦃e⦄ a b h = elim (Bool-cases (e.beq a b)) [
  | inl same ↦ (e.beq_iff a b).0 same
  | inr differ ↦ absurd (false≢true (sym h ∙ ap not differ))
]
