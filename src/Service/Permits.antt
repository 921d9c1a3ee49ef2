-- ===== src/Service/Permits.antt =====
-- What the gates of `write_to_cognition` (src/persistence.cpp) let through.
use qiven_context_draft.Prelude.{
  ◌≡◌, ◌≢◌, refl, sym, ap, ◌∙◌, Bool, true, false, not, ◌&&◌, ◌||◌, List, [], ◌∷◌, Option, none,
  some, Option-cases, inl, inr, Text, ◌==◌, is_empty, arith, All, false≢true, ne_of_beq,
  eq_of_not_beq, nat_eq, list_eq, is_empty→nil,
}
use qiven_context_draft.Foundation.{Foundation}
use qiven_context_draft.Cognition.Policy.{Handoff, handoff_eq}
use qiven_context_draft.Cognition.Records.{Snapshot, HandoffPolicy, grant_eq, revision_eq}
use qiven_context_draft.Store.Contract.{CognitionStore}
use qiven_context_draft.Transaction.Types.{
  ContextTransaction, Operation, WorkMode, H2Evidence, work_mode_eq,
}
use qiven_context_draft.Transaction.Digest.{digest_operations}
use qiven_context_draft.Transaction.Check.{passed, then_check-passed, refuse_if-passed}
use qiven_context_draft.Transaction.Handoff.{op_class, find_row, check_h2, check_row, check_policy}
use qiven_context_draft.Service.State.{
  QuarantineState, quarantine_state_eq, Handle, Service, ExecutionGrant,
}
use qiven_context_draft.Service.Write.{check_entry, check_request, rejects}

and_false_right : (a b : Bool) → (a && b) ≡ false → a ≡ true → b ≡ false
and_false_right true b e h = e
and_false_right false b e h = absurd (cc)

or_false : (a b : Bool) → (a || b) ≡ false → (a ≡ false) × (b ≡ false)
or_false false b e = (refl, e)
or_false true b e = absurd (cc)

ne_of_not_empty : (t : Text) → is_empty t ≡ false → t ≢ []
ne_of_not_empty t h nothing = false≢true (sym h ∙ ap is_empty nothing)

not-false : (b : Bool) → not b ≡ false → b ≡ true
not-false true e = refl
not-false false e = absurd (cc)

beq_of_eq : {mode mode' : WorkMode} → mode ≡ mode' → (mode == mode') ≡ true
beq_of_eq {mode} {mode'} e = (work_mode_eq.beq_iff mode mode').1 e

-- The evidence is there and referred to, bound to these operations, and given by the root principal
-- under another binding than the writer's.
pub record Reviewed ⦃F : Foundation⦄ (binding root_principal : Text)
    (transaction : ContextTransaction) : Type 0 where
  pub h2 : H2Evidence
  pub given : transaction.h2 ≡ some h2
  pub named : (h2.reviewer ≢ []) × (h2.reviewer_binding ≢ []) × (h2.review_ref ≢ [])
  pub referred : transaction.handoff_evidence_ref ≢ []
  pub bound : h2.reviewed_delta_digest ≡ digest_operations transaction.operations
  pub authorized : h2.reviewer ≡ root_principal
  pub independent : h2.reviewer_binding ≢ binding

-- The handoff table has a row for the class of the operation.
abbrev pub IsRegistered : List HandoffPolicy → Operation → Type 0
IsRegistered rows operation =
    (row : HandoffPolicy) × (find_row rows (op_class operation.kind) ≡ some row)

abbrev pub NeedsReview : List HandoffPolicy → Operation → Type 0
NeedsReview rows operation =
    (row : HandoffPolicy) × (find_row rows (op_class operation.kind) ≡ some row)
    × (row.required ≡ Handoff.h2_review)

module _ ⦃F : Foundation⦄ {S : CognitionStore} where
  pub entry_permit :
      (entry : Handle) (grant : ExecutionGrant) (s : Service S)
      → check_entry entry grant s ≡ passed
      → (entry.body.quarantine ≡ QuarantineState.promoted)
        × (s.active_grant.value ≢ [])
        × (s.active_grant ≡ grant.id)
  unfolding check_entry
  entry_permit entry grant s e =
      let (p, q) = then_check-passed _ _ e in
      let (held, mine) = or_false _ _ (refuse_if-passed _ _ q) in
      (eq_of_not_beq _ _ (refuse_if-passed _ _ p), ne_of_not_empty _ held, eq_of_not_beq _ _ mine)

  pub request_permit :
      (entry : Handle) (transaction : ContextTransaction) (grant : ExecutionGrant) (s : Service S)
      (governance : Snapshot)
      → check_request entry transaction grant s governance ≡ passed
      → (rejects s.identity s.grant_actor governance ≡ false)
        × (transaction.operations ≢ [] → grant.mode ≢ WorkMode.unattended)
        × (transaction.base ≡ entry.body.revision)
  unfolding check_request
  request_permit entry transaction grant s governance e =
      let (p, rest) = then_check-passed _ _ e in
      let (q, r) = then_check-passed _ _ rest in
      (
        refuse_if-passed _ _ p,
        λ nonempty unattended. nonempty (
            is_empty→nil _
              (not-false _ (and_false_right _ _ (refuse_if-passed _ _ q) (beq_of_eq unattended)))),
        eq_of_not_beq _ _ (refuse_if-passed _ _ r),
      )

module _ ⦃F : Foundation⦄ (binding root_principal : Text) (transaction : ContextTransaction) where
  h2_permit :
      (o : Option H2Evidence)
      → transaction.h2 ≡ o
      → check_h2 binding root_principal transaction o ≡ passed
      → Reviewed binding root_principal transaction
  unfolding check_h2
  h2_permit none g e = absurd (cc)
  h2_permit (some h2) g e =
      let (p, rest) = then_check-passed _ _ e in
      let (q, rest') = then_check-passed _ _ rest in
      let (r, t) = then_check-passed _ _ rest' in
      let (reviewer, others) = or_false _ _ (refuse_if-passed _ _ p) in
      let (reviewer_binding, others') = or_false _ _ others in
      let (review_ref, evidence_ref) = or_false _ _ others' in
      record {
        h2 = h2;
        given = g;
        named = (
          ne_of_not_empty _ reviewer,
          ne_of_not_empty _ reviewer_binding,
          ne_of_not_empty _ review_ref,
        );
        referred = ne_of_not_empty _ evidence_ref;
        bound = eq_of_not_beq _ _ (refuse_if-passed _ _ t);
        authorized = eq_of_not_beq _ _ (refuse_if-passed _ _ r);
        independent = ne_of_beq _ _ (refuse_if-passed _ _ q);
      }

  policy_permit :
      (rows : List HandoffPolicy) (operation : Operation)
      → check_policy binding root_principal transaction rows operation ≡ passed
      → NeedsReview rows operation
      → Reviewed binding root_principal transaction
  unfolding check_policy check_row
  policy_permit rows operation e (row, found, required) =
      h2_permit transaction.h2 refl (ground (arith, found, required, e))

  policy-IsRegistered :
      (rows : List HandoffPolicy) (operation : Operation)
      → check_policy binding root_principal transaction rows operation ≡ passed
      → IsRegistered rows operation
  unfolding check_policy check_row
  policy-IsRegistered rows operation e =
      elim (Option-cases (find_row rows (op_class operation.kind))) [
        | inl missing ↦ let went = rw missing at e in absurd (cc went)
        | inr found ↦ found
      ]

  pub policy_each-IsRegistered :
      (rows : List HandoffPolicy) (operations : List Operation)
      → All (λ o. check_policy binding root_principal transaction rows o ≡ passed) operations
      → All (IsRegistered rows) operations
  policy_each-IsRegistered rows [] h = tt
  policy_each-IsRegistered rows (o ∷ os) h =
      (policy-IsRegistered rows o h.0, policy_each-IsRegistered rows os h.1)

  -- A transaction that passes the policy gate and holds one operation that needs a review was
  -- reviewed.
  pub policy_each_permit :
      (rows : List HandoffPolicy) (operations : List Operation)
      → All (λ o. check_policy binding root_principal transaction rows o ≡ passed) operations
      → All (λ o. NeedsReview rows o → Reviewed binding root_principal transaction) operations
  policy_each_permit rows [] h = tt
  policy_each_permit rows (o ∷ os) h = (policy_permit rows o h.0, policy_each_permit rows os h.1)
