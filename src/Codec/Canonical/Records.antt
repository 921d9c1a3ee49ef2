-- ===== src/Codec/Canonical/Records.antt =====
-- What the record readers of src/persistence.cpp deliver fits the format.
use qiven_context_draft.Prelude.{◌≡◌, refl, ap₂, List, [], ◌∷◌, map, All}
use qiven_context_draft.Foundation.{Foundation, FoundationLaws}
use qiven_context_draft.Codec.Decode.{
  get_source, get_handoff_policy, get_recovery_rule, get_state, get_decision, get_memory,
  get_obligation, get_evidence, get_conflict, get_profile, get_view,
}
use qiven_context_draft.Codec.Fits.{
  SourceFits, StateFits, DecisionFits, MemoryFits, ObligationFits, EvidenceFits, ConflictFits,
  ProfileFits, ViewFits, restored_memory, restored_obligation,
}
use qiven_context_draft.Codec.Totality.{
  Any, Yields, Yields-pure, Yields-bind, Yields-i64, Yields-str, Yields-enum_value, Yields-flag,
  Yields-many, Yields-string_vector,
}

abbrev pub Kept : {A : Type 0} → (A → Type 0) → (A → A) → A → Type 0
Kept P f a = P a × (f a ≡ a)

pub Kept-All :
    {A : Type 0} (P : A → Type 0) (f : A → A) (xs : List A)
    → All (Kept P f) xs
    → All P xs × (map f xs ≡ xs)
Kept-All P f [] h = (tt, refl)
Kept-All P f (x ∷ xs) h = let (p, q) = Kept-All P f xs h.1 in ((h.0.0, p), ap₂ ◌∷◌ h.0.1 q)

module _ ⦃F : Foundation⦄ ⦃L : FoundationLaws F⦄ where
  pub Yields-source : Yields get_source SourceFits
  unfolding get_source
  Yields-source = Yields-bind _ (Yields-enum_value _ _ 5) λ kind _.
      Yields-bind _ (Yields-str _) λ reference r.
        Yields-bind _ (Yields-str _) λ note n. Yields-pure _ (record { reference = r; note = n })

  pub Yields-handoff_policy : Yields get_handoff_policy Any
  unfolding get_handoff_policy
  Yields-handoff_policy = Yields-bind _ (Yields-enum_value _ _ 5) λ _ _.
      Yields-bind _ (Yields-enum_value _ _ 4)
        λ _ _. Yields-bind _ (Yields-flag _) λ _ _. Yields-pure _ tt

  pub Yields-recovery_rule : Yields get_recovery_rule Any
  unfolding get_recovery_rule
  Yields-recovery_rule =
      Yields-bind _ (Yields-enum_value _ _ 11)
        λ _ _. Yields-bind _ (Yields-enum_value _ _ 5) λ _ _. Yields-pure _ tt

  pub Yields-state : Yields get_state StateFits
  unfolding get_state
  Yields-state = Yields-bind _ (Yields-str _) λ _ objective.
      Yields-bind _ (Yields-str _) λ _ current. Yields-bind _ (Yields-str _) λ _ checkpoint_ref.
        Yields-bind _ (Yields-str _) λ _ candidate_ref.
          Yields-bind _ (Yields-str _) λ _ next_boundary_ref.
            Yields-bind _ (Yields-str _) λ _ repositories. Yields-bind _ (Yields-str _) λ _ roadmap.
              Yields-pure _ (record {
                objective = objective;
                current = current;
                checkpoint_ref = checkpoint_ref;
                candidate_ref = candidate_ref;
                next_boundary_ref = next_boundary_ref;
                repositories = repositories;
                roadmap = roadmap;
              })

  pub Yields-decision : Yields get_decision DecisionFits
  unfolding get_decision
  Yields-decision = Yields-bind _ (Yields-i64 _) λ _ id.
      Yields-bind _ (Yields-enum_value _ _ 3) λ _ _. Yields-bind _ (Yields-str _) λ _ title.
        Yields-bind _ (Yields-str _) λ _ content.
          Yields-bind _ (Yields-many _ (Yields-i64 _)) λ _ supersedes.
            Yields-bind _ (Yields-many _ (Yields-i64 _)) λ _ superseded_by.
              Yields-bind _ (Yields-many _ Yields-source) λ _ sources. Yields-pure _ (record {
                id = id;
                title = title;
                content = content;
                supersedes = supersedes;
                superseded_by = superseded_by;
                sources = sources;
              })

  pub Yields-memory : Yields get_memory (Kept MemoryFits restored_memory)
  unfolding get_memory restored_memory
  Yields-memory = Yields-bind _ (Yields-enum_value _ _ 5) λ _ _.
      Yields-bind _ (Yields-enum_value _ _ 1) λ _ _. Yields-bind _ (Yields-str _) λ _ title.
        Yields-bind _ (Yields-str _) λ _ statement.
          Yields-bind _ (Yields-many _ Yields-source) λ _ sources.
            Yields-pure _ (record { title = title; statement = statement; sources = sources }, refl)

  pub Yields-obligation : Yields get_obligation (Kept ObligationFits restored_obligation)
  unfolding get_obligation restored_obligation
  Yields-obligation = Yields-bind _ (Yields-enum_value _ _ 5) λ _ _.
      Yields-bind _ (Yields-enum_value _ _ 5) λ _ _. Yields-bind _ (Yields-i64 _) λ _ id.
        Yields-bind _ (Yields-str _) λ _ statement. Yields-bind _ (Yields-str _) λ _ completion.
          Yields-pure _
            (record { id = id; statement = statement; completion_criteria = completion }, refl)

  pub Yields-evidence : Yields get_evidence EvidenceFits
  unfolding get_evidence
  Yields-evidence = Yields-bind _ (Yields-str _) λ _ bound_to.
      Yields-bind _ (Yields-str _)
        λ _ content. Yields-pure _ (record { bound_to = bound_to; content = content })

  pub Yields-conflict : Yields get_conflict ConflictFits
  unfolding get_conflict
  Yields-conflict = Yields-bind _ (Yields-str _) λ _ id.
      Yields-bind _ (Yields-enum_value _ _ 1) λ _ _. Yields-bind _ (Yields-str _) λ _ scope.
        Yields-bind _ (Yields-str _) λ _ description. Yields-bind _ (Yields-str _) λ _ resolution.
          Yields-pure _
            (record { id = id; scope = scope; description = description; resolution = resolution })

  pub Yields-profile : Yields get_profile ProfileFits
  unfolding get_profile
  Yields-profile = Yields-bind _ (Yields-str _) λ _ id. Yields-bind _ (Yields-str _) λ _ kind.
      Yields-bind _ (Yields-str _) λ _ summary.
        Yields-bind _ (Yields-enum_value _ _ 3)
          λ _ _. Yields-pure _ (record { id = id; kind = kind; summary = summary })

  pub Yields-view : Yields get_view ViewFits
  unfolding get_view
  Yields-view = Yields-bind _ (Yields-str _) λ _ id. Yields-bind _ (Yields-str _) λ _ agent.
      Yields-bind _ (Yields-str _) λ _ human. Yields-bind _ (Yields-str _) λ _ summary.
        Yields-bind _ (Yields-string_vector _) λ _ profile_refs. Yields-pure _ (record {
          id = id;
          agent = agent;
          human = human;
          summary = summary;
          profile_refs = profile_refs;
        })
