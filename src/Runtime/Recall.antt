-- ===== src/Runtime/Recall.antt =====
-- What a packet that is ready for judgment (include/qiven/context/runtime.hpp) has recalled.
use qiven_context_draft.Prelude.{
  ◌≡◌, ◌≢◌, ◌⊎◌, inl, inr, refl, sym, ap, ap₂, ◌∙◌, Bool, true, false, not, ◌&&◌, Bool-cases, List,
  [], ◌∷◌, ◌++◌, Option, Text, ◌==◌, nat_eq, list_eq, is_empty, All, arith, ne_of_beq,
  if◌then◌else◌,
}
use qiven_context_draft.Cognition.Control.{
  RequirementKind, RequirementBoundary, requirement_kind_eq, requirement_boundary_eq,
}
use qiven_context_draft.Cognition.Records.{InvocationRule, Snapshot}
use qiven_context_draft.Runtime.Invocation.{
  ActionIntent, CognitiveNeed, FailureFingerprint, PreparationFailure, PreparationPacket,
  PreparedRequirement, RequirementStatus, is_none, is_satisfied, judgment_open, ready_for_judgment,
  applies, derived, derive_from, derive_requirements,
}
use qiven_context_draft.Runtime.Packet.{
  has_fingerprint, Gathered, failing, has_evidence, prepare, prepare_all, nothing_gathered,
  without_policy, under_policy, build_preparation_packet,
}
use qiven_context_draft.Runtime.Evidence.{
  IsRecalled, KnowsPit, recalled-IsRecalled, pits_of-KnowsPit,
}

-- A requirement as it was derived.
abbrev IsFresh : PreparedRequirement → Type 0
IsFresh p = (p.status ≡ RequirementStatus.pending) × (p.evidence ≡ [])

-- What answers a blocking requirement, whenever it is due: an exact record for a recall, a related
-- record for a pit. The builder answers no other kind, so those are due later than the judgment.
abbrev pub Answers :
    Snapshot → Option FailureFingerprint → RequirementKind → Text → RequirementBoundary → Type 0
Answers snapshot prior kind subject boundary =
    (kind ≡ RequirementKind.mandatory_recall) × IsRecalled snapshot subject
    ⊎ (kind ≡ RequirementKind.inspect_known_pit) × KnowsPit snapshot prior
    ⊎ (kind ≢ RequirementKind.mandatory_recall)
      × (kind ≢ RequirementKind.inspect_known_pit)
      × (boundary ≢ RequirementBoundary.before_judgment)

resolved_of_failing :
    (resolved blocks : Bool) (failure : PreparationFailure)
    → is_none (failing resolved blocks failure) ≡ true
    → blocks ≡ true
    → resolved ≡ true
resolved_of_failing true blocks f h e = refl
resolved_of_failing false true PreparationFailure.no_failure h e = absurd (cc)
resolved_of_failing false true PreparationFailure.invocation_policy_missing h e = absurd (cc)
resolved_of_failing false true PreparationFailure.required_recall_missing h e = absurd (cc)
resolved_of_failing false false f h e = absurd (cc)

failing-before :
    (resolved blocks : Bool) (failure : PreparationFailure)
    → is_none (failing resolved blocks failure) ≡ true
    → is_none failure ≡ true
failing-before true blocks f h = h
failing-before false false f h = h
failing-before false true PreparationFailure.no_failure h = refl
failing-before false true PreparationFailure.invocation_policy_missing h = h
failing-before false true PreparationFailure.required_recall_missing h = h

false_of_not : (b : Bool) → not b ≡ true → b ≡ false
false_of_not true e = cc
false_of_not false e = refl

fresh_evidence :
    (p : PreparedRequirement) (found : List Text)
    → p.evidence ≡ []
    → has_evidence p found ≡ true
    → is_empty found ≡ false
fresh_evidence p found fresh h =
    false_of_not (is_empty found) (sym (ap (λ e. not (is_empty (e ++ found))) fresh) ∙ h)

-- One requirement that did not close the judgment.
abbrev is_open : PreparedRequirement → Bool
is_open p = judgment_open (p ∷ [])

and_left : (a b : Bool) → (a && b) ≡ true → a ≡ true
and_left true b h = refl
and_left false b h = h

and_right : (a b : Bool) → (a && b) ≡ true → b ≡ true
and_right true b h = h
and_right false b h = absurd (cc)

-- A pending requirement that blocks and did not close the judgment is due later.
closed_before :
    (p : PreparedRequirement)
    → p.status ≡ RequirementStatus.pending
    → p.requirement.blocking ≡ true
    → is_open p ≡ true
    → p.boundary ≢ RequirementBoundary.before_judgment
unfolding judgment_open
closed_before p pending blocking h e =
    let due =
      (requirement_boundary_eq.beq_iff p.boundary RequirementBoundary.before_judgment).1 e in
    absurd (ground (arith, h, due, blocking, ap is_satisfied pending))

module _ (snapshot : Snapshot) (intent : ActionIntent) where
  prepare-before :
      (p : PreparedRequirement) (g : Gathered)
      → is_none (prepare snapshot intent p g).1.failure ≡ true
      → is_none g.failure ≡ true
  unfolding prepare
  prepare-before p g h =
      elim (Bool-cases (p.requirement.kind == RequirementKind.mandatory_recall)) [
        | inl recall ↦ failing-before _ p.requirement.blocking g.failure (rw recall at h)
        | inr other ↦ elim (Bool-cases (p.requirement.kind == RequirementKind.inspect_known_pit)) [
          | inl pit ↦ failing-before _ _ g.failure (rw (other, pit) at h)
          | inr later ↦ rw (other, later) at h
        ]
      ]

  prepare-Answers :
      (p : PreparedRequirement) (g : Gathered)
      → IsFresh p
      → is_none (prepare snapshot intent p g).1.failure ≡ true
      → is_open (prepare snapshot intent p g).0 ≡ true
      → p.requirement.blocking ≡ true
      → Answers snapshot intent.prior_failure p.requirement.kind p.requirement.subject p.boundary
  unfolding prepare
  prepare-Answers p g fresh h open_still blocking =
      elim (Bool-cases (p.requirement.kind == RequirementKind.mandatory_recall)) [
        | inl recall ↦
            let passed = rw recall at h in
            let resolved = resolved_of_failing _ p.requirement.blocking g.failure passed blocking in
            inl (
              (requirement_kind_eq.beq_iff p.requirement.kind RequirementKind.mandatory_recall).0
                  recall,
              recalled-IsRecalled snapshot p.requirement.subject
                  (fresh_evidence p _ fresh.1 resolved),
            )
        | inr other ↦ elim (Bool-cases (p.requirement.kind == RequirementKind.inspect_known_pit)) [
          | inl pit ↦
              let passed = rw (other, pit) at h in
              let resolved =
                resolved_of_failing _ _ g.failure passed
                  (ap₂ ◌&&◌ blocking (ap (λ t. not (is_satisfied t)) fresh.0)) in
              inr (
                inl (
                  (requirement_kind_eq.beq_iff p.requirement.kind
                        RequirementKind.inspect_known_pit).0
                      pit,
                  pits_of-KnowsPit snapshot intent.prior_failure (
                      fresh_evidence p _ fresh.1
                        (and_right (has_fingerprint intent.prior_failure) _ resolved)),
                ))
          | inr later ↦ inr (
              inr (
                ne_of_beq p.requirement.kind RequirementKind.mandatory_recall other,
                ne_of_beq p.requirement.kind RequirementKind.inspect_known_pit later,
                closed_before p fresh.0 blocking (rw (other, later) at open_still),
              ))
        ]
      ]

  prepare_all-before :
      (ps : List PreparedRequirement) (g : Gathered)
      → is_none (prepare_all snapshot intent ps g).1.failure ≡ true
      → is_none g.failure ≡ true
  unfolding prepare_all
  prepare_all-before [] g h = h
  prepare_all-before (p ∷ ps) g h = prepare-before p g (prepare_all-before ps _ h)

  prepare_all-Answers :
      (ps : List PreparedRequirement) (g : Gathered)
      → All IsFresh ps
      → is_none (prepare_all snapshot intent ps g).1.failure ≡ true
      → judgment_open (prepare_all snapshot intent ps g).0 ≡ true
      → All
          (λ p.
            p.requirement.blocking ≡ true
            → Answers snapshot intent.prior_failure p.requirement.kind p.requirement.subject
                p.boundary)
          ps
  unfolding prepare_all judgment_open
  prepare_all-Answers [] g fresh h open_still = tt
  prepare_all-Answers (p ∷ ps) g fresh h open_still =
      let rest = (prepare snapshot intent p g).1 in
      (
        prepare-Answers p g fresh.0 (prepare_all-before ps rest h) (ground (arith, open_still)),
        prepare_all-Answers ps rest fresh.1 h (ground (arith, open_still)),
      )

  derive_from-IsFresh : (rules : List InvocationRule) → All IsFresh (derive_from rules intent)
  unfolding derive_from
  derive_from-IsFresh [] = tt
  derive_from-IsFresh (rule ∷ rules) = elim (Bool-cases (applies intent rule)) [
    | inl does ↦ rw does ((refl, refl), derive_from-IsFresh rules)
    | inr not_here ↦ rw not_here (derive_from-IsFresh rules)
  ]

  derive_from-All :
      (P : PreparedRequirement → Type 0) (rules : List InvocationRule)
      → All P (derive_from rules intent)
      → All (λ rule. applies intent rule ≡ true → P (derived rule)) rules
  unfolding derive_from
  derive_from-All P [] h = tt
  derive_from-All P (rule ∷ rules) h = elim (Bool-cases (applies intent rule)) [
    | inl does ↦ let went = rw does at h in (λ e. went.0, derive_from-All P rules went.1)
    | inr not_here ↦ (λ e. absurd (cc (e, not_here)), derive_from-All P rules (rw not_here at h))
  ]

ready_under_policy :
    (present : Bool) (missing full : PreparationPacket)
    → is_none missing.failure ≡ false
    → ready_for_judgment (if not present then missing else full) ≡ true
    → (present ≡ true) × (is_none full.failure ≡ true) × (judgment_open full.requirements ≡ true)
unfolding ready_for_judgment
ready_under_policy true missing full m h = (refl, and_left _ _ h, and_right _ _ h)
ready_under_policy false missing full m h = absurd (cc (m, and_left (is_none missing.failure) _ h))

-- A packet that was just built is ready for judgment only where the policy is present, and each rule
-- that applies to the intent and blocks is answered, whenever it is due: a recall by a record or a
-- profile with exactly its subject as title or id, a known pit by a record related to the fingerprint
-- of the intent's failure; the rules of other kinds are then not due before the judgment.
pub build_preparation_packet-Answers :
    (snapshot : Snapshot) (intent : ActionIntent) (needs : List CognitiveNeed)
    → ready_for_judgment (build_preparation_packet snapshot intent needs) ≡ true
    → (snapshot.invocation.present ≡ true)
      × All
          (λ rule.
            applies intent rule ≡ true
            → rule.blocking ≡ true
            → Answers snapshot intent.prior_failure rule.requirement rule.subject rule.boundary)
          snapshot.invocation.rules
unfolding build_preparation_packet derive_requirements
build_preparation_packet-Answers snapshot intent needs h =
    let (there, sound, open_still) =
      ready_under_policy snapshot.invocation.present (without_policy intent needs)
        (under_policy snapshot intent needs) refl h in
    (
      there,
      derive_from-All snapshot intent _ snapshot.invocation.rules (
          prepare_all-Answers snapshot intent (derive_from snapshot.invocation.rules intent)
            nothing_gathered (derive_from-IsFresh snapshot intent snapshot.invocation.rules) sound
            open_still),
    )
