-- ===== src/Codec/Acceptance.antt =====
-- What `deserializeImpl` of src/persistence.cpp accepts, whatever the bytes.
use qiven_context_draft.Prelude.{
  ◌≡◌, ◌≢◌, inl, inr, ℕ, sym, ap, subst, ◌∙◌, Bool, true, false, Bool-cases, [], ◌∷◌, ◌++◌,
  append-nil, arith, is_empty→nil,
}
use qiven_context_draft.Foundation.{Bytes, Foundation, FoundationLaws}
use qiven_context_draft.Cognition.Records.{Snapshot}
use qiven_context_draft.Codec.Encode.{serialize_snapshot}
use qiven_context_draft.Codec.Decode.{
  get_source, get_handoff_policy, get_recovery_rule, get_state, get_decision, get_memory,
  get_obligation, get_evidence, get_conflict, get_profile, get_view, get_claim_class, get_rule,
  get_floor, get_role, get_policy, get_invocation, get_body, get_snapshot, finished, deserialize,
}
use qiven_context_draft.Codec.Reader.{Outcome, ok, err, fault}
use qiven_context_draft.Codec.Fits.{Fits, restored}
use qiven_context_draft.Codec.Rules.{Reads, Consumes, Consumes-fail}
use qiven_context_draft.Codec.Fields.{consumes_rules}
use qiven_context_draft.Codec.RoundTrip.{deserialize-serialize_snapshot}

module _ ⦃F : Foundation⦄ ⦃L : FoundationLaws F⦄ where
  Consumes-source : Consumes get_source
  unfolding get_source
  Consumes-source = search consumes_rules depth 9

  Consumes-handoff_policy : Consumes get_handoff_policy
  unfolding get_handoff_policy
  Consumes-handoff_policy = search consumes_rules depth 9

  Consumes-recovery_rule : Consumes get_recovery_rule
  unfolding get_recovery_rule
  Consumes-recovery_rule = search consumes_rules depth 9

  Consumes-state : Consumes get_state
  unfolding get_state
  Consumes-state = search consumes_rules depth 12

  Consumes-decision : Consumes get_decision
  unfolding get_decision
  Consumes-decision = search (consumes_rules, Consumes-source) depth 12

  Consumes-memory : Consumes get_memory
  unfolding get_memory
  Consumes-memory = search (consumes_rules, Consumes-source) depth 12

  Consumes-obligation : Consumes get_obligation
  unfolding get_obligation
  Consumes-obligation = search consumes_rules depth 12

  Consumes-evidence : Consumes get_evidence
  unfolding get_evidence
  Consumes-evidence = search consumes_rules depth 12

  Consumes-conflict : Consumes get_conflict
  unfolding get_conflict
  Consumes-conflict = search consumes_rules depth 12

  Consumes-profile : Consumes get_profile
  unfolding get_profile
  Consumes-profile = search consumes_rules depth 12

  Consumes-view : Consumes get_view
  unfolding get_view
  Consumes-view = search consumes_rules depth 12

  Consumes-claim_class : (present : Bool) → Consumes (get_claim_class present)
  unfolding get_claim_class
  Consumes-claim_class true = search consumes_rules depth 9
  Consumes-claim_class false = search consumes_rules depth 9

  Consumes-rule : (version : ℕ) → Consumes (get_rule version)
  unfolding get_rule
  Consumes-rule version = search (consumes_rules, Consumes-claim_class) depth 15

  Consumes-invocation : (version : ℕ) → Consumes (get_invocation version)
  unfolding get_invocation
  Consumes-invocation version = search (consumes_rules, Consumes-rule) depth 12

  Consumes-floor : Consumes get_floor
  unfolding get_floor
  Consumes-floor = search consumes_rules depth 9

  Consumes-role : Consumes get_role
  unfolding get_role
  Consumes-role = search (consumes_rules, Consumes-source, Consumes-floor) depth 12

  Consumes-policy : Consumes get_policy
  unfolding get_policy
  Consumes-policy = search (consumes_rules, Consumes-handoff_policy, Consumes-recovery_rule) depth 9

ruleset record_rules = (
  Consumes-policy, Consumes-state, Consumes-decision, Consumes-memory, Consumes-obligation,
  Consumes-evidence, Consumes-conflict, Consumes-profile, Consumes-view, Consumes-invocation,
  Consumes-role,
)

module _ ⦃F : Foundation⦄ ⦃L : FoundationLaws F⦄ where
  Consumes-body : (version : ℕ) → Consumes (get_body version)
  unfolding get_body
  Consumes-body version = search (consumes_rules, record_rules) depth 20

  pub Consumes-snapshot : Consumes get_snapshot
  unfolding get_snapshot
  Consumes-snapshot = search (consumes_rules, Consumes-fail, Consumes-body) depth 9

  finished-eq-ok :
      (o : Outcome (Snapshot × F.Cursor)) (s : Snapshot)
      → finished o ≡ ok s
      → (c : F.Cursor) × (o ≡ ok (s, c)) × (L.unread c ≡ [])
  finished-eq-ok (ok (t, c)) s e = elim (Bool-cases (F.empty c)) [
    | inl last ↦
        (c, ap (λ x. ok (x, c)) (ground arith), is_empty→nil _ (sym (L.empty_lem c) ∙ last))
    | inr more ↦ absurd (ground arith)
  ]
  finished-eq-ok (err x) s e = absurd (cc)
  finished-eq-ok fault s e = absurd (cc)

  -- Bytes that are accepted are exactly the bytes that the reader takes.
  accepted_bytes :
      (bytes : Bytes) (s : Snapshot) → deserialize bytes ≡ ok s → Reads get_snapshot bytes s
  unfolding deserialize
  accepted_bytes bytes s e =
      let (c, o, u) = finished-eq-ok (get_snapshot (F.cursor bytes)) s e in
      let (taken, v, r) = Consumes-snapshot.at (F.cursor bytes) c s o in
      subst (λ b. Reads get_snapshot b s)
        (sym (sym (L.unread-cursor bytes) ∙ (v ∙ (ap (λ t. taken ++ t) u ∙ append-nil taken)))) r

  ok-injective : {s t : Snapshot} → ok s ≡ ok t → s ≡ t
  ok-injective e = cc

  read_once :
      {s t : Snapshot} {c d : F.Cursor} (o : Outcome (Snapshot × F.Cursor))
      → o ≡ ok (s, c)
      → o ≡ ok (t, d)
      → (s ≡ t) × (c ≡ d)
  read_once o e e' = (cc, cc)

  Reads-deterministic :
      (bytes rest : Bytes) (s t : Snapshot)
      → Reads get_snapshot bytes s
      → Reads get_snapshot (bytes ++ rest) t
      → (s ≡ t) × (rest ≡ [])
  Reads-deterministic bytes rest s t h k =
      let (c, e, u) = h.at (F.cursor (bytes ++ rest)) rest (L.unread-cursor _) in
      let (d, e', v) =
        k.at (F.cursor (bytes ++ rest)) [] (L.unread-cursor _ ∙ sym (append-nil _)) in
      let (same, end) = read_once _ e e' in (same, sym u ∙ (ap L.unread end ∙ v))

  -- The accepted byte strings are prefix-free, so that a truncated encoding is never accepted:
  -- where some bytes deserialize to a snapshot, no extension of them by one byte or more does.
  pub deserialize-prefix_free :
      (bytes : Bytes) (b : ℕ) (rest : Bytes) (s t : Snapshot)
      → deserialize bytes ≡ ok s
      → deserialize (bytes ++ b ∷ rest) ≢ ok t
  deserialize-prefix_free bytes b rest s t e e' =
      let (_, none_left) =
        Reads-deterministic bytes (b ∷ rest) s t (accepted_bytes _ s e) (accepted_bytes _ t e') in
      cc none_left

  -- Snapshots that fit the format and have the same bytes are restored to the same snapshot.
  pub serialize_snapshot-injective :
      (s t : Snapshot)
      → Fits s
      → Fits t
      → serialize_snapshot s ≡ serialize_snapshot t
      → restored s ≡ restored t
  serialize_snapshot-injective s t h k e = ok-injective (
      sym (deserialize-serialize_snapshot s h)
      ∙ (ap deserialize e ∙ deserialize-serialize_snapshot t k))
