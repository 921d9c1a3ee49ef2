-- ===== src/Runtime/Packet.antt =====
-- `build_preparation_packet` and the judgment precondition of include/qiven/context/runtime.hpp.
use qiven_context_draft.Prelude.{
  Bool, true, false, not, ◌&&◌, List, [], ◌∷◌, ◌++◌, Option, none, some, Text, text, ◌==◌, nat_eq,
  list_eq, is_empty, map, if◌then◌else◌,
}
use qiven_context_draft.Cognition.Control.{
  ActionKind, RequirementKind, action_kind_eq, requirement_kind_eq,
}
use qiven_context_draft.Cognition.Records.{MemoryRecord, ProfileRecord, Snapshot}
use qiven_context_draft.Runtime.Invocation.{
  ActionIntent, CognitiveNeed, FailureFingerprint, PreparationFailure, PreparationPacket,
  PreparedRequirement, RequirementStatus, is_none, is_satisfied, derive_requirements,
}
use qiven_context_draft.Runtime.Failures.{find_related_records}

-- A record that a key recalls: the context that it adds, and its evidence.
pub record Recalled : Type 0 where
  pub context : Text
  pub evidence : Text

abbrev pub context_of : Recalled → Text
context_of r = r.context

abbrev pub evidence_of : Recalled → Text
evidence_of r = r.evidence

-- Only the exact title or profile id recalls.
unfoldable pub recall_memory : List MemoryRecord → Text → List Recalled
recall_memory [] subject = []
recall_memory (r ∷ rs) subject =
    let rest = recall_memory rs subject in
    if r.title == subject
    then record { context = r.title ++ (text ": " ++ r.statement); evidence = r.title } ∷ rest
    else rest

unfoldable pub recall_profiles : List ProfileRecord → Text → List Recalled
recall_profiles [] subject = []
recall_profiles (p ∷ ps) subject =
    let rest = recall_profiles ps subject in
    if p.id == subject
    then record { context = p.id ++ (text ": " ++ p.summary); evidence = p.id } ∷ rest
    else rest

abbrev pub recalled : Snapshot → Text → List Recalled
recalled snapshot subject =
    recall_memory snapshot.memory subject ++ recall_profiles snapshot.profiles subject

abbrev pub pits_of : Snapshot → Option FailureFingerprint → List Text
pits_of snapshot none = []
pits_of snapshot (some fingerprint) = find_related_records snapshot fingerprint

abbrev pub has_fingerprint : Option FailureFingerprint → Bool
has_fingerprint none = false
has_fingerprint (some fingerprint) = true

-- What the loop gathers for the packet.
pub record Gathered : Type 0 where
  pub mandatory_context : List Text
  pub known_pits : List Text
  pub failure : PreparationFailure

-- The first failure of a requirement that blocks is the packet's.
abbrev pub first_failure : PreparationFailure → PreparationFailure
first_failure failure =
    if is_none failure then PreparationFailure.required_recall_missing else failure

abbrev pub settled_by : Bool → Bool → PreparedRequirement → PreparedRequirement
settled_by resolved blocks prepared =
    if resolved
    then record prepared { status = RequirementStatus.satisfied }
    else if blocks
    then record prepared { status = RequirementStatus.failed }
    else prepared

abbrev pub failing : Bool → Bool → PreparationFailure → PreparationFailure
failing resolved blocks failure =
    if resolved then failure else if blocks then first_failure failure else failure

abbrev pub add_evidence : PreparedRequirement → List Text → PreparedRequirement
add_evidence prepared evidence = record prepared { evidence = prepared.evidence ++ evidence }

abbrev pub has_evidence : PreparedRequirement → List Text → Bool
has_evidence prepared evidence = not (is_empty (prepared.evidence ++ evidence))

abbrev pub prepare_recall :
    List Recalled → PreparedRequirement → Gathered → PreparedRequirement × Gathered
prepare_recall found prepared g =
    let evidence = map evidence_of found in
    let resolved = has_evidence prepared evidence in
    let blocks = prepared.requirement.blocking in
    (
      settled_by resolved blocks (add_evidence prepared evidence),
      record g {
        mandatory_context = g.mandatory_context ++ map context_of found;
        failure = failing resolved blocks g.failure;
      },
    )

-- Without a fingerprint there is nothing to look for.
abbrev pub prepare_pits :
    Snapshot
    → Option FailureFingerprint
    → PreparedRequirement
    → Gathered
    → PreparedRequirement × Gathered
prepare_pits snapshot prior prepared g =
    let found = pits_of snapshot prior in
    let resolved = has_fingerprint prior && has_evidence prepared found in
    let blocks = prepared.requirement.blocking && not (is_satisfied prepared.status) in
    (
      settled_by resolved blocks (add_evidence prepared found),
      record g { known_pits = g.known_pits ++ found; failure = failing resolved blocks g.failure },
    )

-- The body of the loop.
unfoldable pub prepare :
    Snapshot → ActionIntent → PreparedRequirement → Gathered → PreparedRequirement × Gathered
prepare snapshot intent prepared g =
    if prepared.requirement.kind == RequirementKind.mandatory_recall
    then prepare_recall (recalled snapshot prepared.requirement.subject) prepared g
    else if prepared.requirement.kind == RequirementKind.inspect_known_pit
    then prepare_pits snapshot intent.prior_failure prepared g
    else (prepared, g)

unfoldable pub prepare_all :
    Snapshot
    → ActionIntent
    → List PreparedRequirement
    → Gathered
    → List PreparedRequirement × Gathered
prepare_all snapshot intent [] g = ([], g)
prepare_all snapshot intent (p ∷ ps) g =
    let (p', g') = prepare snapshot intent p g in
    let (ps', g'') = prepare_all snapshot intent ps g' in (p' ∷ ps', g'')

abbrev pub nothing_gathered : Gathered
nothing_gathered = record {
  mandatory_context = [];
  known_pits = [];
  failure = PreparationFailure.no_failure;
}

-- An absent policy is a failure, and not a policy without rules.
abbrev pub without_policy : ActionIntent → List CognitiveNeed → PreparationPacket
without_policy intent needs = record {
  intent = intent;
  discretionary_needs = needs;
  requirements = [];
  mandatory_context = [];
  known_pits = [];
  live_facts = [];
  failure = PreparationFailure.invocation_policy_missing;
}

abbrev pub under_policy : Snapshot → ActionIntent → List CognitiveNeed → PreparationPacket
under_policy snapshot intent needs =
    let (requirements, g) =
      prepare_all snapshot intent (derive_requirements snapshot intent) nothing_gathered in
    record {
      intent = intent;
      discretionary_needs = needs;
      requirements = requirements;
      mandatory_context = g.mandatory_context;
      known_pits = g.known_pits;
      live_facts = [];
      failure = g.failure;
    }

unfoldable pub build_preparation_packet :
    Snapshot → ActionIntent → List CognitiveNeed → PreparationPacket
build_preparation_packet snapshot intent needs =
    if not snapshot.invocation.present
    then without_policy intent needs
    else under_policy snapshot intent needs

pub record LowerLayerHit : Type 0 where
  pub repo : Text
  pub symbol : Text
  pub summary : Text

pub record ExistingImplementationReport : Type 0 where
  pub searched : Bool
  pub hits : List LowerLayerHit

unfoldable pub primitive_judgment_precondition_met :
    ActionIntent → ExistingImplementationReport → Bool
primitive_judgment_precondition_met intent report =
    if not (intent.kind == ActionKind.introduce_primitive) then true else report.searched
