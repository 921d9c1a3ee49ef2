-- ===== src/Runtime/Tools.antt =====
-- What a tool contract (include/qiven/context/runtime.hpp) constructs is what it accepts.
use qiven_context_draft.Prelude.{
  ◌≡◌, refl, sym, ap, ◌∙◌, inl, inr, true, false, false≢true, not, Bool-cases, List, [], ◌∷◌, ◌==◌,
  list_eq, nat_eq, All, Text, text, is_empty, beq_refl, beq_of_ne,
}
use qiven_context_draft.Runtime.Invocation.{
  ActionIntent, ToolContract, is_placeholder, argument, construct_words, construct_invocation,
  fits_word, validate_words, validate_invocation,
}

-- A placeholder is filled.
abbrev pub IsFilled : ToolContract → ActionIntent → Text → Type 0
IsFilled contract intent word =
    is_placeholder word ≡ true → is_empty (argument contract intent word) ≡ false

-- No fixed word is one that is substituted.
argument-fixed :
    (contract : ToolContract) (intent : ActionIntent) (word : Text)
    → is_placeholder word ≡ false
    → argument contract intent word ≡ word
unfolding argument is_placeholder text
argument-fixed contract intent word h =
    let other : (w : Text) → is_placeholder w ≡ true → (word == w) ≡ false = λ w open_word.
      beq_of_ne word w (λ e. false≢true (sym h ∙ (ap is_placeholder e ∙ open_word))) in
    rw (other (text "{operation}") refl, other (text "{tool}") refl, other (text "{subject}") refl)

fits-argument :
    (contract : ToolContract) (intent : ActionIntent) (word : Text)
    → IsFilled contract intent word
    → fits_word word (argument contract intent word) ≡ true
fits-argument contract intent word filled = elim (Bool-cases (is_placeholder word)) [
  | inl hole ↦ rw hole (ap not (filled hole))
  | inr fixed ↦
      rw fixed (ap (λ a. a == word) (argument-fixed contract intent word fixed) ∙ beq_refl word)
]

validate-construct :
    (contract : ToolContract) (intent : ActionIntent) (words : List Text)
    → All (IsFilled contract intent) words
    → validate_words words (construct_words contract intent words) ≡ true
unfolding validate_words construct_words
validate-construct contract intent [] h = refl
validate-construct contract intent (word ∷ words) h =
    rw (fits-argument contract intent word h.0) (validate-construct contract intent words h.1)

-- The invocation that a contract constructs from an intent passes its own validation, if the intent
-- or the contract fills every placeholder of the template.
pub validate_invocation-construct_invocation :
    (contract : ToolContract) (intent : ActionIntent)
    → All (IsFilled contract intent) contract.argv_template
    → validate_invocation contract (construct_invocation contract intent) ≡ true
unfolding validate_invocation construct_invocation
validate_invocation-construct_invocation contract intent h =
    validate-construct contract intent contract.argv_template h
