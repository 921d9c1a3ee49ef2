-- ===== src/Transaction/Check.antt =====
-- The outcome of a gate of `write_to_cognition`, and the loop of a gate over the operations.
use qiven_context_draft.Prelude.{arith, Bool, true, false, List, [], ◌∷◌, ◌≡◌, refl, All}
use qiven_context_draft.Cognition.Policy.{RefusalReason}

-- `endless` is a recursion of the source that does not return.
pub data Check : Type 0 where
  passed : Check
  refused : RefusalReason → Check
  endless : Check

-- The first gate that does not pass decides.
infixr 30 ◌then_check◌
abbrev pub ◌then_check◌ : Check → Check → Check
passed then_check next = next
refused reason then_check next = refused reason
endless then_check next = endless

-- `if (violated) return refuse(reason);`
abbrev pub refuse_if : Bool → RefusalReason → Check
refuse_if true reason = refused reason
refuse_if false reason = passed

unfoldable pub each {ℓ} : {A : Type ℓ} → (A → Check) → List A → Check
each check [] = passed
each check (x ∷ xs) = check x then_check each check xs

-- A loop that passes has passed every element.
pub each-passed {ℓ} :
    {A : Type ℓ} (check : A → Check) (xs : List A)
    → each check xs ≡ passed
    → All (λ x. check x ≡ passed) xs
unfolding each
each-passed check [] e = tt
each-passed check (x ∷ xs) e = (ground arith, each-passed check xs (ground arith))

pub then_check-passed : (c d : Check) → (c then_check d) ≡ passed → (c ≡ passed) × (d ≡ passed)
then_check-passed passed d e = (refl, e)
then_check-passed (refused reason) d e = absurd (cc)
then_check-passed endless d e = absurd (cc)

pub refuse_if-passed : (b : Bool) (reason : RefusalReason) → refuse_if b reason ≡ passed → b ≡ false
refuse_if-passed false reason e = refl
refuse_if-passed true reason e = absurd (cc)
