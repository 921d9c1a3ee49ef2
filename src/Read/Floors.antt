-- ===== src/Read/Floors.antt =====
-- The floors of a bundle (`build_bundle`, src/persistence.cpp), and when a bundle is returned.
use qiven_context_draft.Prelude.{
  ◌≡◌, ◌⊎◌, inl, inr, refl, sym, ap₂, subst, Bool, true, false, ◌&&◌, Bool-cases, Option-cases,
  List, [], ◌∷◌, ◌++◌, some, ℤ, int_eq, Text, text, ◌==◌, nat_eq, list_eq, is_empty, is_empty→nil,
  All, All-mono, map, stoll,
}
use qiven_context_draft.Cognition.Policy.{Handoff, handoff_eq}
use qiven_context_draft.Cognition.Lifecycles.{
  MemoryKind, MemoryStatus, ConflictStatus, memory_kind_eq, memory_status_eq, conflict_status_eq,
  obligation_status_eq,
}
use qiven_context_draft.Cognition.Records.{Snapshot, MemoryRecord, Conflict, HandoffPolicy}
use qiven_context_draft.Transaction.Find.{find_obligation}
use qiven_context_draft.Service.State.{Handle}
use qiven_context_draft.Service.Inversion.{some-cancel}
use qiven_context_draft.Read.Bundle.{
  Query, ContextBundle, boundary_line, boundary_floor, conflict_line, open_conflicts, negative_line,
  negative_knowledge, article_line, floors, row_constraints, constraints, review_line, class_line,
  attended_line, push_if, build_bundle,
}

abbrev pub Has : Text → List Text → Type 0
Has line [] = ⊥
Has line (l ∷ ls) = (l ≡ line) ⊎ Has line ls

Has-append_left : (line : Text) (xs ys : List Text) → Has line xs → Has line (xs ++ ys)
Has-append_left line [] ys h = elim h [ ]
Has-append_left line (x ∷ xs) ys (inl e) = inl e
Has-append_left line (x ∷ xs) ys (inr h) = inr (Has-append_left line xs ys h)

Has-append_right : (line : Text) (xs ys : List Text) → Has line ys → Has line (xs ++ ys)
Has-append_right line [] ys h = h
Has-append_right line (x ∷ xs) ys h = inr (Has-append_right line xs ys h)

-- Each line of a map stands in it.
map-Has {ℓ} : {A : Type ℓ} (f : A → Text) (xs : List A) → All (λ a. Has (f a) (map f xs)) xs
map-Has f [] = tt
map-Has f (x ∷ xs) = (
  inl refl,
  All-mono (λ a. Has (f a) (map f xs)) (λ a. Has (f a) (f x ∷ map f xs)) (λ a h. inr h) xs
      (map-Has f xs),
)

abbrev ConflictShown : List Text → Conflict → Type 0
ConflictShown lines c = c.status ≡ ConflictStatus.opened → Has (conflict_line c) lines

abbrev NegativeShown : List Text → MemoryRecord → Type 0
NegativeShown lines r =
    r.kind ≡ MemoryKind.negative_knowledge
    → r.status ≡ MemoryStatus.active
    → Has (negative_line r) lines

Has-push :
    (test : Bool) (line other : Text) (ls : List Text)
    → Has line ls
    → Has line (push_if test other ls)
Has-push true line other ls h = inr h
Has-push false line other ls h = h

Has-pushed :
    (test : Bool) (line : Text) (ls : List Text) → test ≡ true → Has line (push_if test line ls)
Has-pushed true line ls e = inl refl
Has-pushed false line ls e = absurd (cc)

open_conflicts-Shown : (cs : List Conflict) → All (ConflictShown (open_conflicts cs)) cs
unfolding open_conflicts
open_conflicts-Shown [] = tt
open_conflicts-Shown (c ∷ cs) = (
  λ e. Has-pushed _ _ _ ((conflict_status_eq.beq_iff c.status ConflictStatus.opened).1 e),
  All-mono (ConflictShown (open_conflicts cs)) _ (λ d h e. Has-push _ _ _ _ (h e)) cs
      (open_conflicts-Shown cs),
)

negative_knowledge-Shown : (rs : List MemoryRecord) → All (NegativeShown (negative_knowledge rs)) rs
unfolding negative_knowledge
negative_knowledge-Shown [] = tt
negative_knowledge-Shown (r ∷ rs) = (
  λ e k. Has-pushed _ _ _ (
      ap₂ ◌&&◌ ((memory_kind_eq.beq_iff r.kind MemoryKind.negative_knowledge).1 e)
        ((memory_status_eq.beq_iff r.status MemoryStatus.active).1 k)),
  All-mono (NegativeShown (negative_knowledge rs)) _ (λ d h e k. Has-push _ _ _ _ (h e k)) rs
      (negative_knowledge-Shown rs),
)

abbrev ReviewShown : List Text → HandoffPolicy → Type 0
ReviewShown lines row = row.required ≡ Handoff.h2_review → Has review_line lines

row_constraints-Shown : (rows : List HandoffPolicy) → All (ReviewShown (row_constraints rows)) rows
unfolding row_constraints
row_constraints-Shown [] = tt
row_constraints-Shown (row ∷ rows) = (
  λ e. Has-pushed _ _ _ ((handoff_eq.beq_iff row.required Handoff.h2_review).1 e),
  All-mono (ReviewShown (row_constraints rows)) _
      (λ d h e.
        Has-push (row.required == Handoff.h2_review) review_line review_line _
          (Has-push row.root_principal_only review_line class_line (row_constraints rows) (h e)))
      rows (row_constraints-Shown rows),
)

-- A boundary reference is empty, or it is a number, and an obligation with that id is shown.
abbrev BoundaryShown : Snapshot → List Text → Type 0
BoundaryShown snapshot lines =
    (snapshot.state.next_boundary_ref ≡ [])
    ⊎ (id : ℤ) × (stoll snapshot.state.next_boundary_ref ≡ some id)
      × All (λ line. Has line lines)
          (boundary_line snapshot.state.next_boundary_ref (find_obligation snapshot.obligations id))

pub record HoldsFloors (snapshot : Snapshot) (bundle : ContextBundle) : Type 0 where
  pub governance :
      Has (text "governance: " ++ snapshot.governance.root_principal) bundle.mandatory_inputs
  pub articles :
      All (λ a. Has (article_line a) bundle.mandatory_inputs) snapshot.constitution.articles
  pub objective : Has (text "objective: " ++ snapshot.state.objective) bundle.mandatory_inputs
  pub boundary : BoundaryShown snapshot bundle.mandatory_inputs
  pub conflicts : All (ConflictShown bundle.mandatory_inputs) snapshot.conflicts
  pub negative : All (NegativeShown bundle.mandatory_inputs) snapshot.memory
  pub reviews : All (ReviewShown bundle.protected_constraints) snapshot.policy.handoff
  pub read_only : Has attended_line bundle.protected_constraints

-- Where the parts of the floors stand.
module _ (snapshot : Snapshot) (boundary : List Text) where
  tail_lines : List Text
  tail_lines = open_conflicts snapshot.conflicts ++ negative_knowledge snapshot.memory

  floors-tail : (line : Text) → Has line tail_lines → Has line (floors snapshot boundary)
  unfolding tail_lines
  floors-tail line h = inr (
      Has-append_right line (map article_line snapshot.constitution.articles) _
        (inr (Has-append_right line boundary _ h)))

  floors-boundary : (line : Text) → Has line boundary → Has line (floors snapshot boundary)
  floors-boundary line h = inr (
      Has-append_right line (map article_line snapshot.constitution.articles) _
        (inr (Has-append_left line boundary _ h)))

  floors-conflicts : All (ConflictShown (floors snapshot boundary)) snapshot.conflicts
  unfolding tail_lines
  floors-conflicts =
      All-mono (ConflictShown (open_conflicts snapshot.conflicts)) _
        (λ c h e. floors-tail (conflict_line c) (Has-append_left _ _ _ (h e))) snapshot.conflicts
        (open_conflicts-Shown snapshot.conflicts)

  floors-negative : All (NegativeShown (floors snapshot boundary)) snapshot.memory
  unfolding tail_lines
  floors-negative =
      All-mono (NegativeShown (negative_knowledge snapshot.memory)) _
        (λ r h e k.
          floors-tail (negative_line r)
            (Has-append_right _ (open_conflicts snapshot.conflicts) _ (h e k)))
        snapshot.memory (negative_knowledge-Shown snapshot.memory)

  floors-articles :
      All (λ a. Has (article_line a) (floors snapshot boundary)) snapshot.constitution.articles
  floors-articles =
      All-mono (λ a. Has (article_line a) (map article_line snapshot.constitution.articles)) _
        (λ a h. inr (Has-append_left (article_line a) _ _ h)) snapshot.constitution.articles
        (map-Has article_line snapshot.constitution.articles)

constraints-Shown :
    (snapshot : Snapshot) → All (ReviewShown (constraints snapshot)) snapshot.policy.handoff
unfolding constraints
constraints-Shown snapshot =
    All-mono (ReviewShown (row_constraints snapshot.policy.handoff)) _
      (λ row h e. Has-append_left review_line _ _ (h e)) snapshot.policy.handoff
      (row_constraints-Shown snapshot.policy.handoff)

lines-Has : (ls : List Text) → All (λ l. Has l ls) ls
lines-Has [] = tt
lines-Has (l ∷ ls) = (inl refl, All-mono (λ k. Has k ls) _ (λ k h. inr h) ls (lines-Has ls))

boundary_floor-Shown :
    (snapshot : Snapshot) (boundary : List Text)
    → boundary_floor snapshot ≡ some boundary
    → BoundaryShown snapshot (floors snapshot boundary)
unfolding boundary_floor
boundary_floor-Shown snapshot boundary e =
    elim (Bool-cases (is_empty snapshot.state.next_boundary_ref)) [
      | inl nothing ↦ inl (is_empty→nil _ nothing)
      | inr there ↦ elim (Option-cases (stoll snapshot.state.next_boundary_ref)) [
        | inl thrown ↦ absurd (cc (rw (there, thrown) at e))
        | inr (id, read) ↦
            let same = some-cancel (rw (there, read) at e) in
            inr (
              id,
              read,
              All-mono (λ l. Has l boundary) _ (floors-boundary snapshot boundary)
                  (boundary_line snapshot.state.next_boundary_ref
                    (find_obligation snapshot.obligations id))
                  (subst (λ b. All (λ l. Has l boundary) b) (sym same) (lines-Has boundary)),
            )
      ]
    ]

-- Whatever the budget, a bundle holds the floors of its cognition: the root principal, every article
-- of the constitution, the objective, the obligation that a boundary reference names, every open
-- conflict, and all active negative knowledge; and among its constraints the demand of a review
-- where a row of the handoff table has it, and that unattended automation is read-only.
pub build_bundle-HoldsFloors :
    (handle : Handle) (query : Query) (bundle : ContextBundle)
    → build_bundle handle query ≡ some bundle
    → HoldsFloors handle.body.state bundle
unfolding build_bundle constraints
build_bundle-HoldsFloors handle query bundle e =
    let snapshot = handle.body.state in
    elim (Option-cases (boundary_floor snapshot)) [
      | inl thrown ↦ absurd (cc (rw (thrown, build_bundle) at e))
      | inr (boundary, at) ↦
          subst (HoldsFloors snapshot) (some-cancel (rw (at, build_bundle) at e)) (record {
            governance = inl refl;
            articles = floors-articles snapshot boundary;
            objective =
                inr (
                  Has-append_right _ (map article_line snapshot.constitution.articles) _
                    (inl refl));
            boundary = boundary_floor-Shown snapshot boundary at;
            conflicts = floors-conflicts snapshot boundary;
            negative = floors-negative snapshot boundary;
            reviews = constraints-Shown snapshot;
            read_only =
                Has-append_right attended_line (row_constraints snapshot.policy.handoff) _
                  (inr (inl refl));
          })
    ]
