-- ===== src/Read/Render.antt =====
-- `QivenContext::RenderBundle` (src/persistence.cpp): the two renderings of a bundle.
use qiven_context_draft.Prelude.{ℕ, List, [], ◌∷◌, ◌++◌, Text, text, length, to_decimal, to_string}
use qiven_context_draft.Read.Bundle.{
  BundleCandidate, Evaluation, ObligationEvaluation, BundleOmission, ContextBundle,
}

pub data OutputView : Type 0 where
  human machine : OutputView

-- The line feed.
abbrev pub eol : Text
eol = 10 ∷ []

abbrev pub evaluation_code : Evaluation → ℕ
evaluation_code Evaluation.met = 0
evaluation_code Evaluation.unknown = 1
evaluation_code Evaluation.unmet = 2

abbrev pub floor_line : Text → Text
floor_line floor = text "floor|" ++ floor

abbrev pub constraint_line : Text → Text
constraint_line constraint = text "constraint|" ++ constraint

abbrev pub candidate_line : BundleCandidate → Text
candidate_line c = text "candidate|" ++ (c.kind ++ (text "|" ++ (c.id ++ (text "|" ++ c.summary))))

abbrev pub obligation_line : ObligationEvaluation → Text
obligation_line o =
    text "obligation|"
    ++ (to_string o.id ++ (text "|" ++ to_decimal (evaluation_code o.evaluation)))

abbrev pub omission_line : BundleOmission → Text
omission_line o = text "omission|" ++ (o.what ++ (text "|" ++ o.reason))

abbrev pub not_granted : Text
not_granted = text "authorization: not_granted"

-- A loop that appends a line for each element.
unfoldable pub each_line {ℓ} : {A : Type ℓ} → (A → Text) → List A → Text
each_line f [] = []
each_line f (x ∷ xs) = f x ++ (eol ++ each_line f xs)

unfoldable pub render_machine : ContextBundle → Text
render_machine bundle =
    (text "snapshot=" ++ bundle.snapshot.value)
    ++ (eol
        ++ (each_line floor_line bundle.mandatory_inputs
            ++ (each_line constraint_line bundle.protected_constraints
                ++ (each_line candidate_line bundle.candidates
                    ++ (each_line obligation_line bundle.obligations
                        ++ (each_line omission_line bundle.omissions ++ (not_granted ++ eol)))))))

unfoldable pub render_human : ContextBundle → Text
render_human bundle =
    (text "[ RUN] bundle " ++ bundle.snapshot.value)
    ++ (eol
        ++ (text "[ OK ] floors: "
            ++ (to_decimal (length bundle.mandatory_inputs)
                ++ (text ", constraints: "
                    ++ (to_decimal (length bundle.protected_constraints)
                        ++ (text ", candidates: "
                            ++ (to_decimal (length bundle.candidates)
                                ++ (text ", omissions: "
                                    ++ (to_decimal (length bundle.omissions)
                                        ++ (eol ++ (not_granted ++ eol)))))))))))

unfoldable pub render_bundle : ContextBundle → OutputView → Text
render_bundle bundle OutputView.machine = render_machine bundle
render_bundle bundle OutputView.human = render_human bundle
