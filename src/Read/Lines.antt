-- ===== src/Read/Lines.antt =====
-- What a reader of the machine rendering (`RenderBundle`, src/persistence.cpp) finds in it.
use qiven_context_draft.Prelude.{
  ◌≡◌, refl, sym, ap, ◌∙◌, ℤ, pos, negsuc, suc, Bool, true, false, List, [], ◌∷◌, ◌++◌,
  append_assoc, append-nil, Text, text, ◌==◌, nat_eq, All, map, is_empty, not, ◌&&◌, All-mono,
  All-unit, to_decimal-IsDigit, IsDigit, to_string, arith, if◌then◌else◌,
}
use qiven_context_draft.Read.Bundle.{
  BundleCandidate, ObligationEvaluation, BundleOmission, ContextBundle,
}
use qiven_context_draft.Read.Render.{
  eol, evaluation_code, floor_line, constraint_line, candidate_line, obligation_line, omission_line,
  not_granted, each_line, render_machine,
}

abbrev pub IsLine : Text → Type 0
IsLine line = All (λ c. (c == 10) ≡ false) line

-- `std::getline` until the end; `line` is what was read of the current one.
unfoldable pub lines_from : Text → Text → List Text
lines_from line [] = if is_empty line then [] else line ∷ []
lines_from line (c ∷ cs) = elim (c == 10) [
  | true ↦ line ∷ lines_from [] cs
  | false ↦ lines_from (line ++ c ∷ []) cs
]

abbrev pub lines_of : Text → List Text
lines_of t = lines_from [] t

lines_from-line :
    (read line rest : Text)
    → IsLine line
    → lines_from read (line ++ (eol ++ rest)) ≡ (read ++ line) ∷ lines_of rest
unfolding lines_from
lines_from-line read [] rest h = ap (λ l. l ∷ lines_of rest) (sym (append-nil read))
lines_from-line read (c ∷ cs) rest h =
    rw (h.0, lines_from)
      (lines_from-line (read ++ c ∷ []) cs rest h.1
        ∙ ap (λ l. l ∷ lines_of rest) (append_assoc read (c ∷ []) cs))

lines_of-each {ℓ} :
    {A : Type ℓ} (f : A → Text) (xs : List A) (rest : Text)
    → All (λ x. IsLine (f x)) xs
    → lines_of (each_line f xs ++ rest) ≡ map f xs ++ lines_of rest
unfolding each_line
lines_of-each f [] rest h = refl
lines_of-each f (x ∷ xs) rest h =
    ap lines_of (append_assoc (f x) (eol ++ each_line f xs) rest)
    ∙ (lines_from-line [] (f x) (each_line f xs ++ rest) h.0
        ∙ ap (λ ls. f x ∷ ls) (lines_of-each f xs rest h.1))

IsLine-append : (s t : Text) → IsLine s → IsLine t → IsLine (s ++ t)
IsLine-append [] t h k = k
IsLine-append (c ∷ cs) t h k = (h.0, IsLine-append cs t h.1 k)

IsLine-digits : (t : Text) → All IsDigit t → IsLine t
IsLine-digits [] h = tt
IsLine-digits (c ∷ cs) h = (ground (arith, h.0.0), IsLine-digits cs h.1)

IsLine-to_string : (i : ℤ) → IsLine (to_string i)
unfolding to_string
IsLine-to_string (pos n) = IsLine-digits _ (to_decimal-IsDigit n)
IsLine-to_string (negsuc n) = (refl, IsLine-digits _ (to_decimal-IsDigit (suc n)))

pub record CandidateLine (c : BundleCandidate) : Type 0 where
  pub kind : IsLine c.kind
  pub id : IsLine c.id
  pub summary : IsLine c.summary

-- No text of the bundle has a line feed in it.
pub record AreLines (bundle : ContextBundle) : Type 0 where
  pub snapshot : IsLine bundle.snapshot.value
  pub inputs : All IsLine bundle.mandatory_inputs
  pub constraints : All IsLine bundle.protected_constraints
  pub candidates : All CandidateLine bundle.candidates
  pub omissions : All (λ o. IsLine o.what × IsLine o.reason) bundle.omissions

is_line : Text → Bool
is_line [] = true
is_line (c ∷ cs) = not (c == 10) && is_line cs

-- A fixed text is a line by evaluation.
IsLine-literal : (t : Text) → is_line t ≡ true → IsLine t
unfolding is_line
IsLine-literal [] h = tt
IsLine-literal (c ∷ cs) h = (ground (arith, h), IsLine-literal cs (ground (arith, h)))

IsLine-labelled : (label t : Text) → is_line label ≡ true → IsLine t → IsLine (label ++ t)
IsLine-labelled label t h k = IsLine-append label t (IsLine-literal label h) k

floor-IsLine : (t : Text) → IsLine t → IsLine (floor_line t)
unfolding is_line text
floor-IsLine t h = IsLine-labelled (text "floor|") t refl h

constraint-IsLine : (t : Text) → IsLine t → IsLine (constraint_line t)
unfolding is_line text
constraint-IsLine t h = IsLine-labelled (text "constraint|") t refl h

bar-IsLine : (s t : Text) → IsLine s → IsLine t → IsLine (s ++ (text "|" ++ t))
unfolding is_line text
bar-IsLine s t h k = IsLine-append s _ h (IsLine-labelled (text "|") t refl k)

candidate-IsLine : (c : BundleCandidate) → CandidateLine c → IsLine (candidate_line c)
unfolding is_line text
candidate-IsLine c h =
    IsLine-labelled (text "candidate|") _ refl
      (bar-IsLine c.kind _ h.kind (bar-IsLine c.id c.summary h.id h.summary))

obligation-IsLine : (o : ObligationEvaluation) → IsLine (obligation_line o)
unfolding is_line text
obligation-IsLine o = IsLine-labelled (text "obligation|") _ refl (
    bar-IsLine (to_string o.id) _ (IsLine-to_string o.id)
      (IsLine-digits _ (to_decimal-IsDigit (evaluation_code o.evaluation))))

omission-IsLine : (o : BundleOmission) → IsLine o.what × IsLine o.reason → IsLine (omission_line o)
unfolding is_line text
omission-IsLine o h = IsLine-labelled (text "omission|") _ refl (bar-IsLine o.what o.reason h.0 h.1)

snapshot-IsLine : (t : Text) → IsLine t → IsLine (text "snapshot=" ++ t)
unfolding is_line text
snapshot-IsLine t h = IsLine-labelled (text "snapshot=") t refl h

lines_of-last : lines_of (not_granted ++ eol) ≡ not_granted ∷ []
unfolding is_line text lines_from
lines_of-last = refl

-- The lines in front of the last.
abbrev pub content_lines : ContextBundle → List Text
content_lines bundle =
    (text "snapshot=" ++ bundle.snapshot.value)
    ∷ (map floor_line bundle.mandatory_inputs
        ++ (map constraint_line bundle.protected_constraints
            ++ (map candidate_line bundle.candidates
                ++ (map obligation_line bundle.obligations
                    ++ (map omission_line bundle.omissions)))))

-- The lines of a rendering are those, and one more.
pub render_machine-lines :
    (bundle : ContextBundle)
    → AreLines bundle
    → lines_of (render_machine bundle) ≡ content_lines bundle ++ not_granted ∷ []
unfolding render_machine
render_machine-lines bundle h =
    let last = lines_of-last in
    let rest : lines_of (
          each_line floor_line bundle.mandatory_inputs
          ++ (each_line constraint_line bundle.protected_constraints
              ++ (each_line candidate_line bundle.candidates
                  ++ (each_line obligation_line bundle.obligations
                      ++ (each_line omission_line bundle.omissions ++ (not_granted ++ eol))))))
        ≡ map floor_line bundle.mandatory_inputs
          ++ (map constraint_line bundle.protected_constraints
              ++ (map candidate_line bundle.candidates
                  ++ (map obligation_line bundle.obligations
                      ++ (map omission_line bundle.omissions ++ not_granted ∷ [])))) =
      rw
        (
          lines_of-each floor_line bundle.mandatory_inputs _
              (All-mono IsLine _ floor-IsLine _ h.inputs),
          lines_of-each constraint_line bundle.protected_constraints _
              (All-mono IsLine _ constraint-IsLine _ h.constraints),
          lines_of-each candidate_line bundle.candidates _
              (All-mono CandidateLine _ candidate-IsLine _ h.candidates),
          lines_of-each obligation_line bundle.obligations _
              (All-mono (λ _. Unit {0}) _ (λ o _. obligation-IsLine o) _ (All-unit _)),
          lines_of-each omission_line bundle.omissions _
              (All-mono _ _ omission-IsLine _ h.omissions),
          last,
        )
        refl in
    lines_from-line [] _ _ (snapshot-IsLine _ h.snapshot)
    ∙ (ap (λ ls. (text "snapshot=" ++ bundle.snapshot.value) ∷ ls) rest ∙ simp append_assoc)
