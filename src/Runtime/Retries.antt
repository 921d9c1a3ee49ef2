-- ===== src/Runtime/Retries.antt =====
-- What normalizing a failure's text (include/qiven/context/runtime.hpp) keeps, and the retries that
-- it recognizes.
use qiven_context_draft.Prelude.{
  ◌≡◌, ◌⊎◌, refl, sym, ap, ◌∙◌, inl, inr, ℕ, false, ◌||◌, Bool-cases, [], ◌∷◌, ◌++◌, append_assoc,
  append-nil, some, All, Text, is_empty, beq_refl, nat_eq, list_eq,
}
use qiven_context_draft.Runtime.Invocation.{ActionIntent, FailureFingerprint}
use qiven_context_draft.Runtime.Failures.{
  Words, RetryEvidenceState, is_volatile, is_space, flush, take_char, take_chars, no_words,
  normalize_failure_text, retry_permitted,
}

abbrev IsWord : Text → Type 0
IsWord word = All (λ c. is_space c ≡ false) word

IsWord-append : (xs : Text) (c : ℕ) → IsWord xs → is_space c ≡ false → IsWord (xs ++ c ∷ [])
IsWord-append [] c h k = (k, tt)
IsWord-append (x ∷ xs) c h k = (h.0, IsWord-append xs c h.1 k)

take_chars-append :
    (xs ys : Text) (w : Words) → take_chars (xs ++ ys) w ≡ take_chars ys (take_chars xs w)
unfolding take_chars
take_chars-append [] ys w = refl
take_chars-append (x ∷ xs) ys w = take_chars-append xs ys (take_char x w)

-- The characters of a word are collected.
take_chars-word :
    (cs : Text) (w : Words)
    → IsWord cs
    → take_chars cs w ≡ record { out = w.out; word = w.word ++ cs }
unfolding take_chars
take_chars-word [] w h = ap (λ t. record { out = w.out; word = t }) (sym (append-nil w.word))
take_chars-word (c ∷ cs) w h = rw (h.0) (
    take_chars-word cs (record w { word = w.word ++ c ∷ [] }) h.1
    ∙ ap (λ t. record { out = w.out; word = t }) (append_assoc w.word (c ∷ []) cs))

abbrev IsNormal : Text → Type 0
IsNormal t = normalize_failure_text t ≡ t

single-IsNormal :
    (word : Text) → IsWord word → (is_empty word || is_volatile word) ≡ false → IsNormal word
unfolding normalize_failure_text flush
single-IsNormal word k kept = rw (take_chars-word word no_words k, kept) refl

-- A space closes the words in front of it.
take_chars-space :
    (out word : Text)
    → IsWord word
    → take_chars (out ++ b' ' ∷ word) no_words
      ≡ record { out = normalize_failure_text out; word = word }
unfolding take_chars normalize_failure_text
take_chars-space out word k =
    take_chars-append out (b' ' ∷ word) no_words
    ∙ take_chars-word word (take_char b' ' (take_chars out no_words)) k

flush-IsNormal : (out word : Text) → IsNormal out → IsWord word → IsNormal (flush out word)
unfolding flush normalize_failure_text
flush-IsNormal out word h k = elim (Bool-cases (is_empty word || is_volatile word)) [
  | inl dropped ↦ rw dropped h
  | inr kept ↦ elim (Bool-cases (is_empty out)) [
    | inl first ↦ rw (kept, first) (single-IsNormal word k kept)
    | inr later ↦ rw (kept, later, take_chars-space out word k, h, kept, later) refl
  ]
]

abbrev AreNormal : Words → Type 0
AreNormal w = IsNormal w.out × IsWord w.word

take_char-AreNormal : (c : ℕ) (w : Words) → AreNormal w → AreNormal (take_char c w)
take_char-AreNormal c w h = elim (Bool-cases (is_space c)) [
  | inl space ↦ rw space (flush-IsNormal w.out w.word h.0 h.1, tt)
  | inr letter ↦ rw letter (h.0, IsWord-append w.word c h.1 letter)
]

take_chars-AreNormal : (cs : Text) (w : Words) → AreNormal w → AreNormal (take_chars cs w)
unfolding take_chars
take_chars-AreNormal [] w h = h
take_chars-AreNormal (c ∷ cs) w h =
    take_chars-AreNormal cs (take_char c w) (take_char-AreNormal c w h)

-- A normalized text is normalized to itself.
pub normalize_failure_text-idempotent :
    (message : Text)
    → normalize_failure_text (normalize_failure_text message) ≡ normalize_failure_text message
unfolding normalize_failure_text flush take_chars
normalize_failure_text-idempotent message =
    let w = take_chars message no_words in
    let h = take_chars-AreNormal message no_words (refl, tt) in flush-IsNormal w.out w.word h.0 h.1

-- Without new evidence, the same operation of the same tool is not retried after a failure whose
-- recorded message is the earlier one or its normalized text.
pub retry_permitted-blind :
    (prior own : FailureFingerprint) (candidate : ActionIntent) (evidence : RetryEvidenceState)
    → evidence.has_new_evidence ≡ false
    → candidate.tool ≡ prior.tool
    → candidate.operation ≡ prior.operation
    → candidate.prior_failure ≡ some own
    → (own.stable_message ≡ prior.stable_message)
      ⊎ (own.stable_message ≡ normalize_failure_text prior.stable_message)
    → retry_permitted prior candidate evidence ≡ false
unfolding retry_permitted
retry_permitted-blind prior own candidate evidence none_new tool operation failed same =
    let signature : normalize_failure_text own.stable_message
        ≡ normalize_failure_text prior.stable_message =
      elim same [
        | inl as_is ↦ ap normalize_failure_text as_is
        | inr normal ↦
            ap normalize_failure_text normal
            ∙ normalize_failure_text-idempotent prior.stable_message
      ] in
    rw
      (
        none_new,
        tool,
        operation,
        failed,
        signature,
        beq_refl prior.tool,
        beq_refl prior.operation,
        beq_refl (normalize_failure_text prior.stable_message),
      )
      refl
