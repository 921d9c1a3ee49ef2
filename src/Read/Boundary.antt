-- ===== src/Read/Boundary.antt =====
-- The bundle of what a write of src/persistence.cpp made: gate 9 lets only boundary references
-- pass that `build_bundle` can read.
use qiven_context_draft.Prelude.{
  ◌≡◌, ◌≢◌, ◌⊎◌, inl, inr, sym, ap, subst, ◌∙◌, true, false, ◌&&◌, Bool-cases, List, [], ◌∷◌, none,
  some, ℤ, int_eq, IsI64, Text, ◌==◌, nat_eq, list_eq, is_empty, All, to_string, stoll,
  stoll-to_string, beq_refl, arith,
}
use qiven_context_draft.Foundation.{Foundation}
use qiven_context_draft.Cognition.Lifecycles.{ObligationStatus, obligation_status_eq}
use qiven_context_draft.Cognition.Records.{Snapshot, Obligation}
use qiven_context_draft.Store.Contract.{CognitionStore}
use qiven_context_draft.Transaction.Types.{ContextTransaction}
use qiven_context_draft.Transaction.Find.{find_obligation}
use qiven_context_draft.Transaction.Apply.{names_open}
use qiven_context_draft.Service.State.{
  Handle, CognitionHandle, Verdict, VerdictOutcome, Service, ExecutionGrant, find_entry,
}
use qiven_context_draft.Service.Write.{replayed, write_to_cognition}
use qiven_context_draft.Service.Inversion.{successor_state, some-cancel}
use qiven_context_draft.Service.Gates.{IsCoherent, write_to_cognition-Gated}
use qiven_context_draft.Service.Chain.{write_to_cognition-Chained}
use qiven_context_draft.Service.Steps.{Reachable}
use qiven_context_draft.Read.Bundle.{
  Query, ContextBundle, boundary_line, boundary_floor, assembled, build_bundle,
}
use qiven_context_draft.Read.Floors.{Has, HoldsFloors, build_bundle-HoldsFloors}

abbrev pub HaveIds : List Obligation → Type 0
HaveIds obligations = All (λ o. IsI64 o.id) obligations

-- A reference that is a number, and the first obligation with that id.
abbrev pub NamesObligation : List Obligation → Text → Type 0
NamesObligation obligations ref =
    (id : ℤ) × (o : Obligation) × (stoll ref ≡ some id) × (find_obligation obligations id ≡ some o)

find_obligation-behind :
    (o : Obligation) (os : List Obligation) (ref : Text)
    → NamesObligation os ref
    → NamesObligation (o ∷ os) ref
unfolding find_obligation
find_obligation-behind o os ref (id, found, read, at) = elim (Bool-cases (o.id == id)) [
  | inl same ↦ (id, o, read, rw same)
  | inr other ↦ (id, found, read, rw other at)
]

names_open-Names :
    (os : List Obligation) (ref : Text)
    → HaveIds os
    → names_open os ref ≡ true
    → NamesObligation os ref
unfolding names_open find_obligation
names_open-Names [] ref ids h = absurd (cc)
names_open-Names (o ∷ os) ref ids h =
    elim (Bool-cases (to_string o.id == ref && o.status == ObligationStatus.opened)) [
      | inl this ↦
          let same : to_string o.id ≡ ref =
            (list_eq.beq_iff (to_string o.id) ref).0 (ground (arith, this)) in
          (o.id, o, ap stoll (sym same) ∙ stoll-to_string o.id ids.0, rw (beq_refl o.id))
      | inr other ↦ find_obligation-behind o os ref (names_open-Names os ref ids.1 (rw other at h))
    ]

-- What follows of a snapshot that gate 9 let pass.
module _ (snapshot : Snapshot) (coherent : IsCoherent snapshot) (ids : HaveIds snapshot.obligations)
    (there : is_empty snapshot.state.next_boundary_ref ≡ false) where
  coherent-Names : NamesObligation snapshot.obligations snapshot.state.next_boundary_ref
  coherent-Names = elim coherent [
    | inl nothing ↦ absurd (cc (there, ap is_empty nothing))
    | inr open_there ↦ names_open-Names snapshot.obligations _ ids open_there
  ]

  named_floor : (boundary : List Text) × (boundary_floor snapshot ≡ some boundary)
  unfolding boundary_floor
  named_floor =
      let (id, o, read, at) = coherent-Names in
      (boundary_line snapshot.state.next_boundary_ref (some o), rw (there, read, at))

coherent_floor :
    (snapshot : Snapshot)
    → IsCoherent snapshot
    → HaveIds snapshot.obligations
    → (boundary : List Text) × (boundary_floor snapshot ≡ some boundary)
unfolding boundary_floor
coherent_floor snapshot coherent ids =
    elim (Bool-cases (is_empty snapshot.state.next_boundary_ref)) [
      | inl nothing ↦ ([], rw nothing)
      | inr there ↦ named_floor snapshot coherent ids there
    ]

-- A boundary reference is empty, or it is the number of an obligation of the snapshot, and the first
-- obligation with that id stands in the bundle.
abbrev pub ShowsBoundary : Snapshot → ContextBundle → Type 0
ShowsBoundary snapshot bundle =
    (is_empty snapshot.state.next_boundary_ref ≡ true)
    ⊎ (id : ℤ) × (o : Obligation) × (stoll snapshot.state.next_boundary_ref ≡ some id)
      × (find_obligation snapshot.obligations id ≡ some o)
      × All (λ line. Has line bundle.mandatory_inputs)
          (boundary_line snapshot.state.next_boundary_ref (some o))

shows_boundary :
    (snapshot : Snapshot) (bundle : ContextBundle)
    → IsCoherent snapshot
    → HaveIds snapshot.obligations
    → HoldsFloors snapshot bundle
    → ShowsBoundary snapshot bundle
shows_boundary snapshot bundle coherent ids floors =
    elim (Bool-cases (is_empty snapshot.state.next_boundary_ref)) [
      | inl nothing ↦ inl nothing
      | inr there ↦ elim floors.boundary [
        | inl nothing ↦ absurd (cc (there, ap is_empty nothing))
        | inr (id, read, shown) ↦
            let (id', o, read', at) = coherent-Names snapshot coherent ids there in
            let same : id' ≡ id = some-cancel (sym read' ∙ read) in
            inr (
              id',
              o,
              read',
              at,
              subst
                  (λ found.
                    All (λ line. Has line bundle.mandatory_inputs)
                      (boundary_line snapshot.state.next_boundary_ref found))
                  (subst (λ i. find_obligation snapshot.obligations i ≡ some o) same at) shown,
            )
      ]
    ]

-- A bundle is returned whatever the query, with every floor and the obligation of the boundary.
abbrev pub IsBundled : Handle → Type 0
IsBundled handle =
    (query : Query)
    → (bundle : ContextBundle) × (build_bundle handle query ≡ some bundle)
      × HoldsFloors handle.body.state bundle
      × ShowsBoundary handle.body.state bundle

coherent-IsBundled :
    (handle : Handle)
    → IsCoherent handle.body.state
    → HaveIds handle.body.state.obligations
    → IsBundled handle
unfolding build_bundle
coherent-IsBundled handle coherent ids query =
    let (boundary, at) = coherent_floor handle.body.state coherent ids in
    let built : build_bundle handle query ≡ some (assembled handle query boundary) =
      rw (at, build_bundle) in
    let floors = build_bundle-HoldsFloors handle query _ built in
    (
      assembled handle query boundary,
      built,
      floors,
      shows_boundary handle.body.state _ coherent ids floors,
    )

module _ ⦃F : Foundation⦄ {S : CognitionStore} where
  -- In a reachable service, where a first write with operations is applied, the cognition that it
  -- returns can be disclosed: a bundle is returned whatever the query, and holds every floor and,
  -- where the boundary reference of the cognition is not empty, the line of the obligation of the
  -- cognition that it names. It is supposed that the obligations of the successor have 64-bit ids.
  pub write_to_cognition-IsBundled :
      (handle : CognitionHandle) (transaction : ContextTransaction) (grant : ExecutionGrant)
      (entry : Handle) (s s' : Service S) (v : Verdict)
      → Reachable s
      → write_to_cognition handle transaction grant s ≡ some (v, s')
      → replayed transaction s ≡ none
      → transaction.operations ≢ []
      → v.outcome ≡ VerdictOutcome.applied
      → find_entry s.live handle ≡ some entry
      → HaveIds (successor_state entry transaction).obligations
      → (successor : Handle) × (v.successor ≡ some successor) × IsBundled successor
  write_to_cognition-IsBundled handle transaction grant entry s s' v reach e first nonempty r found
        ids =
      let g =
        write_to_cognition-Gated handle transaction grant s s' v e first nonempty
          (λ (refused : v.outcome ≡ VerdictOutcome.refused). absurd (cc (r, refused))) in
      let c =
        write_to_cognition-Chained handle transaction grant entry s s' v reach e first nonempty r
          found in
      let same : g.entry ≡ entry = some-cancel (sym g.is_live ∙ found) in
      (
        c.successor,
        c.returned,
        coherent-IsBundled c.successor
            (subst IsCoherent (sym c.state)
              (subst (λ (x : Handle). IsCoherent (successor_state x transaction)) same g.coherent))
            (subst (λ (x : Snapshot). HaveIds x.obligations) (sym c.state) ids),
      )
