-- ===== src/Codec/Canonical.antt =====
-- Every snapshot that `deserializeImpl` of src/persistence.cpp accepts, of any version that it reads,
-- fits the format.
mod Records
use qiven_context_draft.Prelude.{
  ◌≡◌, ◌≢◌, refl, sym, ap, ap₂, subst, inl, inr, Bool-cases, ◌∙◌, Bool, true, false, List, [], ◌∷◌,
  map, All, ℕ, leb, arith,
}
use qiven_context_draft.Foundation.{Bytes, Foundation, FoundationLaws}
use qiven_context_draft.Cognition.Records.{Snapshot}
use qiven_context_draft.Codec.Reader.{Outcome, ok, err, fault}
use qiven_context_draft.Codec.Encode.{serialize_snapshot}
use qiven_context_draft.Codec.Decode.{
  get_source, get_handoff_policy, get_recovery_rule, get_state, get_decision, get_memory,
  get_obligation, get_evidence, get_conflict, get_profile, get_view, get_claim_class, get_rule,
  get_floor, get_role, get_policy, get_invocation, get_body, get_snapshot, finished, deserialize,
  unsupported,
}
use qiven_context_draft.Codec.Fields.{IsCapped}
use qiven_context_draft.Codec.Fits.{
  Fit, Fits, SourceFits, StateFits, DecisionFits, MemoryFits, ObligationFits, EvidenceFits,
  ConflictFits, ProfileFits, ViewFits, RuleFits, RoleFits, restored, restored_memory,
  restored_obligation,
}
use qiven_context_draft.Codec.Totality.{
  AreBytes, Any, Delivers, Yields, Yields-pure, Yields-fail, Yields-bind, Yields-if, Yields-u8,
  Yields-i64, Yields-str, Yields-enum_value, Yields-flag, Yields-many, Yields-string_vector,
}
use qiven_context_draft.Codec.RoundTrip.{deserialize-serialize_snapshot}
use Records.{
  Kept, Kept-All, Yields-source, Yields-handoff_policy, Yields-recovery_rule, Yields-state,
  Yields-decision, Yields-memory, Yields-obligation, Yields-evidence, Yields-conflict,
  Yields-profile, Yields-view,
}

restored_same :
    (s : Snapshot)
    → map restored_memory s.memory ≡ s.memory
    → map restored_obligation s.obligations ≡ s.obligations
    → restored s ≡ s
unfolding restored
restored_same s p q =
    ap₂ (λ memory obligations. record s { memory = memory; obligations = obligations }) p q

module _ ⦃F : Foundation⦄ ⦃L : FoundationLaws F⦄ where
  Yields-claim_class : (present : Bool) → Yields (get_claim_class present) Any
  unfolding get_claim_class
  Yields-claim_class true = Yields-bind _ (Yields-enum_value _ _ 4) λ _ _. Yields-pure _ tt
  Yields-claim_class false = Yields-pure _ tt

  Yields-rule : (version : ℕ) → Yields (get_rule version) RuleFits
  unfolding get_rule
  Yields-rule version = Yields-bind _ (Yields-enum_value _ _ 13) λ _ _.
      Yields-bind {P = Any} _
        (Yields-if (leb 8 version) _ _
          (Yields-bind _ (Yields-flag _) λ present _. Yields-claim_class present)
          (Yields-pure _ tt))
        λ _ _. Yields-bind _ (Yields-enum_value _ _ 8) λ _ _.
          Yields-bind {P = Any} _
            (Yields-if (leb 8 version) _ _ (Yields-enum_value _ _ 1) (Yields-pure _ tt))
            λ _ _.
              Yields-bind _ (Yields-str _)
                λ _ subject. Yields-bind _ (Yields-flag _) λ _ _. Yields-pure _ subject

  Yields-invocation : (version : ℕ) → Yields (get_invocation version) (λ i. Fit RuleFits i.rules)
  unfolding get_invocation
  Yields-invocation version =
      Yields-if (leb 7 version) _ _
        (Yields-bind {P = Any} _ (Yields-if (leb 8 version) _ _ (Yields-flag _) (Yields-pure _ tt))
          λ _ _. Yields-bind _ (Yields-many _ (Yields-rule version)) λ _ rules. Yields-pure _ rules)
        (Yields-pure _ (omega arith, tt))

  Yields-floor : Yields get_floor Any
  unfolding get_floor
  Yields-floor = Yields-bind _ (Yields-flag _) λ _ _.
      Yields-bind _ (Yields-enum_value _ _ 2)
        λ _ _. Yields-bind _ (Yields-flag _) λ _ _. Yields-pure _ tt

  Yields-role : Yields get_role RoleFits
  unfolding get_role
  Yields-role = Yields-bind _ (Yields-enum_value _ _ 2) λ _ _.
      Yields-bind _ (Yields-many _ (Yields-enum_value _ _ 5)) λ _ authorities.
        Yields-bind _ (Yields-string_vector _) λ _ duties. Yields-bind _ Yields-floor λ _ _.
          Yields-bind _ (Yields-many _ Yields-source) λ _ sources.
            Yields-pure _
              (record { authorities = authorities.0; duties = duties; sources = sources })

  Yields-policy : Yields get_policy (λ p. IsCapped p.handoff × IsCapped p.recovery)
  unfolding get_policy
  Yields-policy = Yields-bind _ (Yields-many _ Yields-handoff_policy) λ _ handoff.
      Yields-bind _ (Yields-many _ Yields-recovery_rule)
        λ _ recovery. Yields-pure _ (handoff.0, recovery.0)

  Yields-body : (version : ℕ) → Yields (get_body version) (Kept Fits restored)
  unfolding get_body restored
  Yields-body version = Yields-bind _ (Yields-str _) λ _ root_principal.
      Yields-bind _ (Yields-string_vector _) λ _ articles. Yields-bind _ Yields-policy λ _ policy.
        Yields-bind _ Yields-state λ _ state.
          Yields-bind _ (Yields-many _ Yields-decision) λ _ decisions.
            Yields-bind _ (Yields-many _ Yields-memory) λ memory memory_fits.
              Yields-bind _ (Yields-many _ Yields-obligation) λ obligations obligations_fit.
                Yields-bind _ (Yields-many _ Yields-evidence) λ _ evidence.
                  Yields-bind _ (Yields-many _ Yields-conflict) λ _ conflicts.
                    Yields-bind _ (Yields-many _ Yields-profile) λ _ profiles.
                      Yields-bind _ (Yields-many _ Yields-view) λ _ views.
                        Yields-bind _ (Yields-invocation version) λ _ rules.
                          Yields-bind _ (Yields-many _ Yields-role) λ _ roles.
                            let (memory_parts, same_memory) =
                              Kept-All MemoryFits restored_memory memory memory_fits.1 in
                            let (obligation_parts, same_obligations) =
                              Kept-All ObligationFits restored_obligation obligations
                                obligations_fit.1 in
                            Yields-pure _ (
                              record {
                                root_principal = root_principal;
                                articles = articles;
                                handoff = policy.0;
                                recovery = policy.1;
                                rules = rules;
                                state = state;
                                decisions = decisions;
                                memory = (memory_fits.0, memory_parts);
                                obligations = (obligations_fit.0, obligation_parts);
                                evidence = evidence;
                                conflicts = conflicts;
                                profiles = profiles;
                                views = views;
                                roles = roles;
                              },
                              restored_same _ same_memory same_obligations,
                            )

  Yields-snapshot : Yields get_snapshot (Kept Fits restored)
  unfolding get_snapshot
  Yields-snapshot =
      Yields-bind _ (Yields-u8 _)
        λ version _. Yields-if (unsupported version) _ _ (Yields-fail _ _) (Yields-body version)

  -- On any bytes the deserializer returns: a snapshot or an error of its own, and never a `value()`
  -- of an empty optional.
  pub deserialize-total : (bytes : Bytes) → AreBytes bytes → deserialize bytes ≢ fault
  unfolding deserialize
  deserialize-total bytes h =
      returns _
        (Yields-snapshot.at (F.cursor bytes) (subst AreBytes (sym (L.unread-cursor bytes)) h))
    where
      returns :
          (o : Outcome (Snapshot × F.Cursor)) → Delivers (Kept Fits restored) o → finished o ≢ fault
      returns (ok (s, c)) d e = elim (Bool-cases (F.empty c)) [
        | inl last ↦ absurd (ground (arith, last, e))
        | inr more ↦ absurd (ground (arith, more, e))
      ]
      returns (err x) d e = absurd (cc)
      returns fault d e = d

  accepted-Fits :
      (bytes : Bytes) (s : Snapshot)
      → AreBytes bytes
      → deserialize bytes ≡ ok s
      → Kept Fits restored s
  unfolding deserialize
  accepted-Fits bytes s h e =
      accepted _
        (Yields-snapshot.at (F.cursor bytes) (subst AreBytes (sym (L.unread-cursor bytes)) h)) e
    where
      accepted :
          (o : Outcome (Snapshot × F.Cursor))
          → Delivers (Kept Fits restored) o
          → finished o ≡ ok s
          → Kept Fits restored s
      accepted (ok (t, c)) d e' = elim (Bool-cases (F.empty c)) [
        | inl last ↦ subst (Kept Fits restored) (ground (arith, last, e')) d.0
        | inr more ↦ absurd (ground (arith, more, e'))
      ]
      accepted (err x) d e' = absurd (cc)
      accepted fault d e' = absurd d

  -- Whatever the deserializer accepts, in the current version or an earlier one that it still reads,
  -- fits the format and has nothing to lose: written again in the current version, it is read back
  -- as itself.
  pub deserialize-rewritten :
      (bytes : Bytes) (s : Snapshot)
      → AreBytes bytes
      → deserialize bytes ≡ ok s
      → deserialize (serialize_snapshot s) ≡ ok s
  deserialize-rewritten bytes s h e =
      let (fits, same) = accepted-Fits bytes s h e in
      deserialize-serialize_snapshot s fits ∙ ap ok same
