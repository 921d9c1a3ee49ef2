-- ===== src/Read/Silence.antt =====
-- What the machine rendering (`RenderBundle`, src/persistence.cpp) says of authorization.
use qiven_context_draft.Prelude.{
  ◌≡◌, refl, ap, ℕ, false, List, [], ◌∷◌, ◌++◌, Text, text, ◌==◌, nat_eq, All, All-append, All-map,
  map, arith,
}
use qiven_context_draft.Read.Bundle.{
  BundleCandidate, ObligationEvaluation, BundleOmission, ContextBundle,
}
use qiven_context_draft.Read.Render.{
  OutputView, floor_line, constraint_line, candidate_line, obligation_line, omission_line,
  render_bundle,
}
use qiven_context_draft.Read.Lines.{AreLines, lines_of, content_lines, render_machine-lines}

-- A line that begins with the word that a reader looks for.
abbrev pub BeginsAuthorization : Text → Type 0
BeginsAuthorization line = (rest : Text) × (line ≡ text "authorization" ++ rest)

abbrev first_char : Text → ℕ
first_char [] = 0
first_char (c ∷ cs) = c

silent_of_first : (line : Text) → (first_char line == b'a') ≡ false → BeginsAuthorization line → ⊥
unfolding text
silent_of_first line h (rest, e) =
    let first : first_char line ≡ b'a' = ap first_char e in absurd (ground (arith, h, first))

abbrev IsSilent : Text → Type 0
IsSilent line = BeginsAuthorization line → ⊥

snapshot-IsSilent : (t : Text) → IsSilent (text "snapshot=" ++ t)
unfolding text
snapshot-IsSilent t = silent_of_first (text "snapshot=" ++ t) refl

floor-IsSilent : (t : Text) → IsSilent (floor_line t)
unfolding text
floor-IsSilent t = silent_of_first (floor_line t) refl

constraint-IsSilent : (t : Text) → IsSilent (constraint_line t)
unfolding text
constraint-IsSilent t = silent_of_first (constraint_line t) refl

candidate-IsSilent : (c : BundleCandidate) → IsSilent (candidate_line c)
unfolding text
candidate-IsSilent c = silent_of_first (candidate_line c) refl

obligation-IsSilent : (o : ObligationEvaluation) → IsSilent (obligation_line o)
unfolding text
obligation-IsSilent o = silent_of_first (obligation_line o) refl

omission-IsSilent : (o : BundleOmission) → IsSilent (omission_line o)
unfolding text
omission-IsSilent o = silent_of_first (omission_line o) refl

then_each {ℓ} :
    {A : Type ℓ} (f : A → Text)
    → ((a : A) → IsSilent (f a))
    → (xs : List A) (rest : List Text) → All IsSilent rest
    → All IsSilent (map f xs ++ rest)
then_each f silent xs rest h = All-append IsSilent (map f xs) rest (All-map IsSilent f silent xs) h

content_lines-AreSilent : (bundle : ContextBundle) → All IsSilent (content_lines bundle)
content_lines-AreSilent bundle = (
  snapshot-IsSilent bundle.snapshot.value,
  then_each floor_line floor-IsSilent bundle.mandatory_inputs _ (
      then_each constraint_line constraint-IsSilent bundle.protected_constraints _ (
        then_each candidate_line candidate-IsSilent bundle.candidates _ (
          then_each obligation_line obligation-IsSilent bundle.obligations _
            (All-map IsSilent omission_line omission-IsSilent bundle.omissions)))),
)

-- Where no text of a bundle has a line feed in it, a reader of the machine rendering finds one line
-- for the revision and one for each floor, constraint, candidate, obligation and omission, in
-- order, and behind them one that says that authorization is not granted; no line in front of it
-- begins with "authorization".
pub render_bundle-lines :
    (bundle : ContextBundle)
    → AreLines bundle
    → (lines_of (render_bundle bundle OutputView.machine)
        ≡ content_lines bundle ++ text "authorization: not_granted" ∷ [])
      × All (λ line. BeginsAuthorization line → ⊥) (content_lines bundle)
unfolding render_bundle
render_bundle-lines bundle h = (render_machine-lines bundle h, content_lines-AreSilent bundle)
