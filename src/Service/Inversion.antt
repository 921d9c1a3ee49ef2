-- ===== src/Service/Inversion.antt =====
-- How a write of src/persistence.cpp comes to each outcome.
use qiven_context_draft.Prelude.{
  false≢true, is_empty→nil, ◌≡◌, ◌≢◌, ◌⊎◌, inl, inr, refl, sym, ap, ◌∙◌, false, Bool-cases,
  Option-cases, List, [], Option, none, some, is_empty, arith,
}
use qiven_context_draft.Foundation.{Foundation}
use qiven_context_draft.Cognition.Policy.{RefusalReason}
use qiven_context_draft.Cognition.Records.{Snapshot}
use qiven_context_draft.Store.Contract.{CognitionStore}
use qiven_context_draft.Transaction.Types.{ContextTransaction}
use qiven_context_draft.Transaction.Check.{Check, passed, refused, endless}
use qiven_context_draft.Transaction.Apply.{apply_all}
use qiven_context_draft.Service.State.{
  Handle, CognitionHandle, Verdict, VerdictOutcome, refuse, Service, ExecutionGrant, find_entry,
  canonical_head,
}
use qiven_context_draft.Service.Write.{
  Written, on_pass, replayed, check_entry, check_request, check_operations, commit, commit_onto,
  write_operations, write_governed, write_entry, write_to_cognition,
}

abbrev pub successor_state : Handle → ContextTransaction → Snapshot
successor_state entry transaction =
    apply_all transaction.handoff_evidence_ref transaction.operations entry.body.state

-- What a write has gone through when it reaches the store.
pub record Admitted ⦃F : Foundation⦄ {S : CognitionStore} (handle : CognitionHandle)
    (transaction : ContextTransaction) (grant : ExecutionGrant) (s : Service S) (v : Verdict)
    (s' : Service S) : Type 0 where
  pub entry : Handle
  pub governance : Snapshot
  pub store : S.State
  pub is_live : find_entry s.live handle ≡ some entry
  pub entry_passed : check_entry entry grant s ≡ passed
  pub governed : canonical_head s ≡ some governance
  pub request_passed : check_request entry transaction grant s governance ≡ passed
  pub operations_passed : check_operations entry transaction s governance ≡ passed
  pub stored : s.store ≡ some store
  pub committed : commit entry transaction (successor_state entry transaction) store s ≡ (v, s')

pub some-cancel : {A : Type 0} {a b : A} → some a ≡ some b → a ≡ b
some-cancel e = cc

nonempty : {A : Type 0} {xs : List A} → is_empty xs ≡ false → xs ≢ []
nonempty h e = false≢true (sym h ∙ ap is_empty e)

module _ ⦃F : Foundation⦄ {S : CognitionStore} where
  -- A call that returns went past a gate, or was refused by it with the state as it was.
  pub on_pass-eq-some :
      (c : Check) (s s' : Service S) (v : Verdict) (next : Written S)
      → on_pass c s next ≡ some (v, s')
      → ((c ≡ passed) × (next ≡ some (v, s')))
        ⊎ ((reason : RefusalReason) × (c ≡ refused reason) × (v ≡ refuse reason) × (s' ≡ s))
  on_pass-eq-some passed s s' v next e = inl (refl, e)
  on_pass-eq-some (refused reason) s s' v next e = inr (reason, refl, cc, cc)
  on_pass-eq-some endless s s' v next e = absurd (cc)

  -- A write that returns was replayed, an ordinary turn, refused before the store with nothing
  -- changed, or admitted to the store.
  pub data Course (handle : CognitionHandle) (transaction : ContextTransaction)
      (grant : ExecutionGrant) (s : Service S) (v : Verdict) (s' : Service S) : Type 0 where
    replay : replayed transaction s ≡ some v → s' ≡ s → Course handle transaction grant s v s'
    turn :
        transaction.operations ≡ []
        → (v.outcome ≡ VerdictOutcome.applied)
        → s' ≡ s
        → Course handle transaction grant s v s'
    refusal :
        (reason : RefusalReason)
        → v ≡ refuse reason
        → s' ≡ s
        → Course handle transaction grant s v s'
    admission :
        replayed transaction s ≡ none
        → transaction.operations ≢ []
        → Admitted handle transaction grant s v s'
        → Course handle transaction grant s v s'

  module _ (handle : CognitionHandle) (transaction : ContextTransaction) (grant : ExecutionGrant)
      (s s' : Service S) (v : Verdict) where
    -- The layers of the call, outermost first.
    pub write-fresh :
        replayed transaction s ≡ none
        → write_to_cognition handle transaction grant s
          ≡ write_entry (find_entry s.live handle) transaction grant s
    unfolding write_to_cognition write_entry
    write-fresh e = rw (e, write_to_cognition)

    pub write-replayed :
        (w : Verdict)
        → replayed transaction s ≡ some w
        → write_to_cognition handle transaction grant s ≡ some (w, s)
    unfolding write_to_cognition
    write-replayed w e = rw (e, write_to_cognition)

    module _ (fresh : replayed transaction s ≡ none) (entry : Handle)
        (is_live : find_entry s.live handle ≡ some entry)
        (entry_passed : check_entry entry grant s ≡ passed) where
      stored-Course :
          (governance : Snapshot) (o : Option S.State)
          → s.store ≡ o
          → canonical_head s ≡ some governance
          → check_request entry transaction grant s governance ≡ passed
          → check_operations entry transaction s governance ≡ passed
          → transaction.operations ≢ []
          → commit_onto o entry transaction (successor_state entry transaction) s ≡ some (v, s')
          → Course handle transaction grant s v s'
      stored-Course governance none o g r p n e = absurd (cc)
      stored-Course governance (some store) o g r p n e = admission fresh n (record {
        entry = entry;
        governance = governance;
        store = store;
        is_live = is_live;
        entry_passed = entry_passed;
        governed = g;
        request_passed = r;
        operations_passed = p;
        stored = o;
        committed = some-cancel e;
      })

      operations-Course :
          (governance : Snapshot)
          → canonical_head s ≡ some governance
          → check_request entry transaction grant s governance ≡ passed
          → write_operations entry transaction s governance ≡ some (v, s')
          → Course handle transaction grant s v s'
      unfolding write_operations
      operations-Course governance g r e = elim (Bool-cases (is_empty transaction.operations)) [
        | inl nothing ↦
            let turned = rw nothing at e in
            turn (is_empty→nil _ nothing) (ground arith) (ground arith)
        | inr more ↦
            let went = rw more at e in
            elim (on_pass-eq-some (check_operations entry transaction s governance) s s' v _ went) [
              | inl (p, next) ↦ stored-Course governance s.store refl g r p (nonempty more) next
              | inr (reason, c, same, kept) ↦ refusal reason same kept
            ]
      ]

      governed-Course :
          (o : Option Snapshot)
          → canonical_head s ≡ o
          → write_governed entry transaction grant s o ≡ some (v, s')
          → Course handle transaction grant s v s'
      unfolding write_governed
      governed-Course none g e = refusal RefusalReason.unverified_actor (cc) (cc)
      governed-Course (some governance) g e =
          elim (on_pass-eq-some (check_request entry transaction grant s governance) s s' v _ e) [
            | inl (p, next) ↦ operations-Course governance g p next
            | inr (reason, c, same, kept) ↦ refusal reason same kept
          ]

    entry-Course :
        replayed transaction s ≡ none
        → (o : Option Handle) → find_entry s.live handle ≡ o
        → write_entry o transaction grant s ≡ some (v, s')
        → Course handle transaction grant s v s'
    unfolding write_entry
    entry-Course fresh none l e = refusal RefusalReason.stale_base (cc) (cc)
    entry-Course fresh (some entry) l e =
        elim (on_pass-eq-some (check_entry entry grant s) s s' v _ e) [
          | inl (p, next) ↦ governed-Course fresh entry l p (canonical_head s) refl next
          | inr (reason, c, same, kept) ↦ refusal reason same kept
        ]

    pub course :
        write_to_cognition handle transaction grant s ≡ some (v, s')
        → Course handle transaction grant s v s'
    course e = elim (Option-cases (replayed transaction s)) [
      | inl fresh ↦ entry-Course fresh _ refl (sym (write-fresh fresh) ∙ e)
      | inr (w, known) ↦
          let same : ◌≡◌ {A = Verdict × Service S} (w, s) (v, s') =
            some-cancel (sym (write-replayed w known) ∙ e) in
          replay (known ∙ ap (λ p. some p.0) same) (sym (ap (λ p. p.1) same))
    ]
