-- ===== src/Runtime/Invocation.antt =====
-- Requirements, readiness and tool contracts of include/qiven/context/runtime.hpp.
use qiven_context_draft.Prelude.{
  ℕ, ℤ, Bool, true, false, not, ◌&&◌, List, [], ◌∷◌, ◌++◌, Option, none, some, Text, text, ◌==◌,
  nat_eq, list_eq, is_empty, if◌then◌else◌,
}
use qiven_context_draft.Cognition.Control.{
  ClaimClass, ActionKind, RequirementKind, RequirementBoundary, claim_class_eq, action_kind_eq,
  requirement_boundary_eq,
}
use qiven_context_draft.Cognition.Records.{InvocationRule, Snapshot}

pub record FailureFingerprint : Type 0 where
  pub operation : Text
  pub tool : Text
  pub category : Text
  pub stable_message : Text
  pub exit_code : ℤ
  pub affected_files : List Text

pub record ActionIntent : Type 0 where
  pub kind : ActionKind
  pub claim_class : ClaimClass
  pub concepts : List Text
  pub files : List Text
  pub tool : Text
  pub operation : Text
  pub prior_failure : Option FailureFingerprint

pub data CognitiveNeedKind : Type 0 where
  recall verify_canonical_fact verify_live_fact search_existing_implementation search_evidence
        calculate simulate request_review ask_human :
      CognitiveNeedKind

pub record CognitiveNeed : Type 0 where
  pub kind : CognitiveNeedKind
  pub subject : Text
  pub scope : Text

pub record CognitiveRequirement : Type 0 where
  pub kind : RequirementKind
  pub subject : Text
  pub blocking : Bool

pub data RequirementStatus : Type 0 where
  pending satisfied failed : RequirementStatus

pub record PreparedRequirement : Type 0 where
  pub requirement : CognitiveRequirement
  pub boundary : RequirementBoundary
  pub status : RequirementStatus
  pub evidence : List Text

pub data PreparationFailure : Type 0 where
  no_failure invocation_policy_missing required_recall_missing : PreparationFailure

pub record PreparationPacket : Type 0 where
  pub intent : ActionIntent
  pub discretionary_needs : List CognitiveNeed
  pub requirements : List PreparedRequirement
  pub mandatory_context : List Text
  pub known_pits : List Text
  pub live_facts : List Text
  pub failure : PreparationFailure

unfoldable pub mark_satisfied : PreparedRequirement → Text → PreparedRequirement
mark_satisfied prepared evidence = record prepared {
  status = RequirementStatus.satisfied;
  evidence = prepared.evidence ++ evidence ∷ [];
}

abbrev pub is_satisfied : RequirementStatus → Bool
is_satisfied RequirementStatus.satisfied = true
is_satisfied _ = false

abbrev pub is_none : PreparationFailure → Bool
is_none PreparationFailure.no_failure = true
is_none _ = false

unfoldable pub judgment_open : List PreparedRequirement → Bool
judgment_open [] = true
judgment_open (p ∷ ps) =
    not (
      p.requirement.blocking
      && (p.boundary == RequirementBoundary.before_judgment && not (is_satisfied p.status)))
    && judgment_open ps

unfoldable pub execution_open : List PreparedRequirement → Bool
execution_open [] = true
execution_open (p ∷ ps) =
    not (p.requirement.blocking && not (is_satisfied p.status)) && execution_open ps

unfoldable pub ready_for_judgment : PreparationPacket → Bool
ready_for_judgment packet = is_none packet.failure && judgment_open packet.requirements

unfoldable pub ready_for_execution : PreparationPacket → Bool
ready_for_execution packet = is_none packet.failure && execution_open packet.requirements

abbrev pub claim_matches : Option ClaimClass → ClaimClass → Bool
claim_matches none claim = true
claim_matches (some c) claim = c == claim

abbrev pub applies : ActionIntent → InvocationRule → Bool
applies intent rule =
    rule.action == intent.kind && claim_matches rule.claim_class intent.claim_class

abbrev pub derived : InvocationRule → PreparedRequirement
derived rule = record {
  requirement = record {
    kind = rule.requirement;
    subject = rule.subject;
    blocking = rule.blocking;
  };
  boundary = rule.boundary;
  status = RequirementStatus.pending;
  evidence = [];
}

unfoldable pub derive_from : List InvocationRule → ActionIntent → List PreparedRequirement
derive_from [] intent = []
derive_from (rule ∷ rules) intent =
    let rest = derive_from rules intent in if applies intent rule then derived rule ∷ rest else rest

unfoldable pub derive_requirements : Snapshot → ActionIntent → List PreparedRequirement
derive_requirements snapshot intent = derive_from snapshot.invocation.rules intent

pub record ToolContract : Type 0 where
  pub tool : Text
  pub operation : Text
  pub argv_template : List Text

abbrev pub ends_with : ℕ → Text → Bool
ends_with b [] = false
ends_with b (c ∷ []) = c == b
ends_with b (c ∷ (d ∷ rest)) = ends_with b (d ∷ rest)

-- 123 and 125 are the braces; the length is two at least.
unfoldable pub is_placeholder : Text → Bool
is_placeholder [] = false
is_placeholder (c ∷ rest) = c == 123 && ends_with 125 rest

abbrev pub or_default : Text → Text → Text
or_default value default = if is_empty value then default else value

abbrev pub first_concept : List Text → Text
first_concept [] = []
first_concept (c ∷ cs) = c

unfoldable pub argument : ToolContract → ActionIntent → Text → Text
argument contract intent word =
    if word == text "{operation}"
    then or_default intent.operation contract.operation
    else if word == text "{tool}"
    then or_default intent.tool contract.tool
    else if word == text "{subject}"
    then first_concept intent.concepts
    else word

unfoldable pub construct_words : ToolContract → ActionIntent → List Text → List Text
construct_words contract intent [] = []
construct_words contract intent (word ∷ words) =
    argument contract intent word ∷ construct_words contract intent words

unfoldable pub construct_invocation : ToolContract → ActionIntent → List Text
construct_invocation contract intent = construct_words contract intent contract.argv_template

abbrev pub fits_word : Text → Text → Bool
fits_word word argument = if is_placeholder word then not (is_empty argument) else argument == word

-- The arity test and the loop over both lists.
unfoldable pub validate_words : List Text → List Text → Bool
validate_words [] [] = true
validate_words (word ∷ words) (argument ∷ arguments) =
    fits_word word argument && validate_words words arguments
validate_words _ _ = false

unfoldable pub validate_invocation : ToolContract → List Text → Bool
validate_invocation contract argv = validate_words contract.argv_template argv
