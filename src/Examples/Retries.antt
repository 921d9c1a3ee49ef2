-- ===== src/Examples/Retries.antt =====
-- Failure texts, recalled pits and retries at small failures.
use qiven_context_draft.Prelude.{◌≡◌, refl, inr, pos, true, false, [], some, Text, text, list_beq}
use qiven_context_draft.Cognition.Control.{ClaimClass, ActionKind}
use qiven_context_draft.Runtime.Invocation.{ActionIntent, FailureFingerprint}
use qiven_context_draft.Runtime.Failures.{
  normalize_failure_text, retry_permitted, flush, take_chars, is_volatile, contains, is_prefix,
}
use qiven_context_draft.Runtime.Retries.{normalize_failure_text-idempotent, retry_permitted-blind}

abbrev noisy : Text
noisy = text " build  failed at 20260101 in /tmp/x12"

normalized : normalize_failure_text noisy ≡ text "build failed at in"
unfolding normalize_failure_text flush take_chars is_volatile contains is_prefix text list_beq
normalized = refl

abbrev prior : FailureFingerprint
prior = record {
  operation = text "build";
  tool = text "qiven";
  category = text "compile";
  stable_message = noisy;
  exit_code = pos 1;
  affected_files = [];
}

abbrev own : FailureFingerprint
own = record prior { stable_message = normalize_failure_text noisy }

abbrev again : ActionIntent
again = record {
  kind = ActionKind.begin_task;
  claim_class = ClaimClass.local_recall;
  concepts = [];
  files = [];
  tool = text "qiven";
  operation = text "build";
  prior_failure = some own;
}

normalize_failure_text-idempotent_example :
    normalize_failure_text (normalize_failure_text noisy) ≡ normalize_failure_text noisy
normalize_failure_text-idempotent_example = normalize_failure_text-idempotent noisy

retry_permitted-blind_example :
    retry_permitted prior again (record { has_new_evidence = false }) ≡ false
retry_permitted-blind_example =
    retry_permitted-blind prior own again (record { has_new_evidence = false }) refl refl refl refl
      (inr refl)

-- New evidence, or another message, opens the way.
with_evidence : retry_permitted prior again (record { has_new_evidence = true }) ≡ true
unfolding retry_permitted
with_evidence = refl

abbrev another : FailureFingerprint
another = record prior { stable_message = text "linker failed" }

other_failure :
    retry_permitted prior
      (record again { prior_failure = some another })
      (record { has_new_evidence = false })
    ≡ true
unfolding retry_permitted normalize_failure_text flush take_chars is_volatile contains is_prefix
    text list_beq
other_failure = refl
