-- ===== src/Runtime/Cycles.antt =====
-- One work cycle of src/runtime.cpp after another, each from the session and the service that the
-- one before it left, as the programs of apps/ call them.
use qiven_context_draft.Prelude.{
  ℕ, ◌≤◌, ◌≡◌, refl, sym, subst, List, [], ◌∷◌, Option, none, some, Text, Bool-cases, inl, inr,
  ◌==◌, nat_eq, list_eq,
}
use qiven_context_draft.Foundation.{Foundation}
use qiven_context_draft.Cognition.Records.{grant_eq}
use qiven_context_draft.Store.Contract.{CognitionStore}
use qiven_context_draft.Transaction.Types.{AuthenticatedActor, WorkMode, ContextTransaction}
use qiven_context_draft.Transaction.Successions.{supersessions}
use qiven_context_draft.Service.State.{CognitionHandle, Verdict, Service, ExecutionGrant}
use qiven_context_draft.Service.Lifetime.{acquire_grant, release_grant}
use qiven_context_draft.Service.Write.{write_to_cognition}
use qiven_context_draft.Service.Steps.{Reachable, then_step, acquired, released, written}
use qiven_context_draft.Service.Lease.{acquire_grant_keeps}
use qiven_context_draft.Service.Orderly.{
  AreOrderly, find_entry-HasRank, write_to_cognition-AreOrderly,
}
use qiven_context_draft.Runtime.Session.{Llm}
use qiven_context_draft.Runtime.Cycle.{Worked, work, proposed}
use qiven_context_draft.Runtime.Returns.{work-returns}
use qiven_context_draft.Runtime.Generator.{IsModest, SameGenerator, work_keeps}

-- One request of a human: what is asked, by whom, how, and how long the turn takes.
pub record Request : Type 0 where
  pub elapsed : ℕ
  pub prompt : Text
  pub actor : AuthenticatedActor
  pub mode : WorkMode

IsModest-kept : (llm llm' : Llm) → SameGenerator llm llm' → IsModest llm → IsModest llm'
unfolding proposed
IsModest-kept llm llm' same modest prompt handle = rw same (modest prompt handle)

module _ ⦃F : Foundation⦄ {S : CognitionStore} where
  abbrev pub next_cycle :
      Worked S → (Llm → Service S → Option (Llm × Service S)) → Option (Llm × Service S)
  next_cycle none rest = none
  next_cycle (some ((result, llm), s)) rest = rest llm s

  -- The cycles of a session; `none` is a cycle that does not return.
  unfoldable pub cycles : List Request → Llm → Service S → Option (Llm × Service S)
  cycles [] llm s = some (llm, s)
  cycles (r ∷ rest) llm s = next_cycle (work r.elapsed r.prompt r.actor r.mode llm s) (cycles rest)

  -- A service that its operations reach, all of whose live cognitions have ordered chains.
  pub record IsRunning (s : Service S) : Type 0 where
    pub reachable : Reachable s
    pub orderly : AreOrderly s.live

  acquires :
      (actor : AuthenticatedActor) (mode : WorkMode) (s : Service S)
      → IsRunning s
      → IsRunning (acquire_grant actor mode s).1
  acquires actor mode s p = record {
    reachable = then_step p.reachable (acquired actor mode s);
    orderly = subst AreOrderly (sym (acquire_grant_keeps actor mode s).0) p.orderly;
  }

  release_grant-live :
      (grant : ExecutionGrant) (s : Service S) → (release_grant grant s).live ≡ s.live
  unfolding release_grant
  release_grant-live grant s = elim (Bool-cases (s.active_grant == grant.id)) [
    | inl mine ↦ rw mine refl
    | inr other ↦ rw other refl
  ]

  releases :
      (grant : ExecutionGrant) (s : Service S) → IsRunning s → IsRunning (release_grant grant s)
  releases grant s p = record {
    reachable = then_step p.reachable (released grant s);
    orderly = subst AreOrderly (sym (release_grant-live grant s)) p.orderly;
  }

  writes :
      (handle : CognitionHandle) (transaction : ContextTransaction) (grant : ExecutionGrant)
      (s s' : Service S) (v : Verdict)
      → write_to_cognition handle transaction grant s ≡ some (v, s')
      → supersessions transaction.operations ≤ 1
      → IsRunning s
      → IsRunning s'
  writes handle transaction grant s s' v e modest p = record {
    reachable = then_step p.reachable (written handle transaction grant s s' v e);
    orderly = write_to_cognition-AreOrderly handle transaction grant s s' v e modest p.orderly;
  }

  -- From a reachable service whose live cognitions have ordered supersession chains, any number of
  -- work cycles of a session returns, if no transaction that its generator proposes supersedes more
  -- than one decision; and the service that they leave is again such a service.
  pub cycles-return :
      (requests : List Request) (llm : Llm) (s : Service S)
      → IsRunning s
      → IsModest llm
      → (llm' : Llm) × (s' : Service S) × (cycles requests llm s ≡ some (llm', s')) × IsRunning s'
  unfolding cycles
  cycles-return [] llm s p modest = (llm, s, refl, p)
  cycles-return (r ∷ rest) llm s p modest =
      let ((result, llm'), s', e) =
        work-returns r.elapsed r.prompt r.actor r.mode llm s p.reachable
          (find_entry-HasRank s.live llm.cognition p.orderly) in
      let (kept, same) =
        work_keeps IsRunning acquires releases writes r.elapsed r.prompt r.actor r.mode llm s s'
          (result, llm') modest p e in
      let (last, final, f, running) =
        cycles-return rest llm' s' kept (IsModest-kept llm llm' same modest) in
      (last, final, rw e f, running)
