-- ===== src/Runtime/Cycle.antt =====
-- `LLM::work` and `LLM::work_impl` of src/runtime.cpp: acquire, propose, write, release, and the next
-- action that the recovery table of the cognition mandates.
use qiven_context_draft.Prelude.{
  ℕ, [], ◌∷◌, ◌++◌, Option, none, some, Text, text, is_empty, leb, if◌then◌else◌,
}
use qiven_context_draft.Foundation.{Foundation}
use qiven_context_draft.Cognition.Policy.{RecoveryAction}
use qiven_context_draft.Cognition.Records.{Snapshot}
use qiven_context_draft.Cognition.Defaults.{recovery_for}
use qiven_context_draft.Store.Contract.{CognitionStore}
use qiven_context_draft.Transaction.Types.{AuthenticatedActor, WorkMode, ContextTransaction}
use qiven_context_draft.Service.State.{
  Handle, CognitionHandle, Verdict, VerdictOutcome, Service, ExecutionGrant,
}
use qiven_context_draft.Service.Lifetime.{acquire_grant, release_grant}
use qiven_context_draft.Service.Write.{Written, write_to_cognition}
use qiven_context_draft.Runtime.Session.{CheckpointTrigger, SessionCheckpoint, Llm, refusal_name}

-- The result string and the session after a cycle.
abbrev pub Turn : Type 0
Turn = Text × Llm

abbrev pub no_transaction : ContextTransaction
no_transaction = record {
  base = record { value = [] };
  operations = [];
  handoff_evidence_ref = [];
  h2 = none;
  idempotency_key = [];
}

unfoldable pub proposed : Llm → Text → Handle → ContextTransaction
proposed llm prompt handle = elim llm.delta_generator [
  | none ↦ no_transaction
  | some generate ↦ generate prompt handle.body.state
]

abbrev pub with_action : Text → SessionCheckpoint → SessionCheckpoint
with_action action checkpoint = record checkpoint { next_action = action }

-- A competing flow holds the chain.
abbrev pub lost_race : Llm → Turn
lost_race llm = (
  llm.name ++ text ": grant refused",
  record llm {
    checkpoint =
        record (with_action (text "fail closed: a competing flow holds the chain") llm.checkpoint) {
          last_trigger = CheckpointTrigger.turn_boundary;
        };
  },
)

abbrev pub disclosed : AuthenticatedActor → Llm → Llm
disclosed actor llm = record llm {
  checkpoint = record (llm.checkpoint) {
    serving_disclosure = actor.serving_model ++ (text "/" ++ actor.binding);
  };
}

abbrev pub ordinary_turn : Llm → Turn
ordinary_turn llm = (
  llm.name ++ text ": no material cognition this turn",
  record llm { checkpoint = with_action (text "continue") llm.checkpoint },
)

-- The successor becomes the session's cognition.
abbrev pub rebound : Handle → Llm → Turn
rebound successor llm = (
  llm.name ++ (text ": delta applied; head=" ++ successor.body.revision.value),
  record llm {
    cognition = some successor;
    checkpoint = record (with_action (text "continue") llm.checkpoint) {
      accepted_refs = llm.checkpoint.accepted_refs ++ successor.body.revision ∷ [];
      last_trigger = CheckpointTrigger.material_transaction;
    };
  },
)

unfoldable pub recovery_step : RecoveryAction → ContextTransaction → Llm → Llm
recovery_step RecoveryAction.reread_rethink transaction llm = record llm {
  parked_deltas = llm.parked_deltas ++ transaction ∷ [];
  checkpoint = record (with_action (text "re-read, re-think; never blind-retry") llm.checkpoint) {
    known_gaps = text "delta parked: admission gate refused";
  };
}
recovery_step RecoveryAction.halt_escalate transaction llm = record llm {
  checkpoint =
      with_action (text "halt; escalate for typed handoff; retry is forbidden") llm.checkpoint;
}
recovery_step RecoveryAction.defer_to_supervised transaction llm = record llm {
  checkpoint = with_action (text "defer to a supervised session") llm.checkpoint;
}
recovery_step RecoveryAction.design_review transaction llm = record llm {
  checkpoint = with_action (text "design review required (constitution 17)") llm.checkpoint;
}
recovery_step RecoveryAction.fail_closed transaction llm = record llm {
  checkpoint = with_action (text "fail closed") llm.checkpoint;
}
recovery_step RecoveryAction.block transaction llm = record llm {
  checkpoint = with_action (text "outcome unknown; dependent mutations stopped") llm.checkpoint;
}

abbrev pub with_candidate : ContextTransaction → Llm → Llm
with_candidate transaction llm = record llm {
  checkpoint = record (llm.checkpoint) {
    unaccepted_candidates = llm.checkpoint.unaccepted_candidates ++ transaction.base ∷ [];
  };
}

-- A lost acknowledgement is recorded as a gap.
unfoldable pub with_gap : VerdictOutcome → ContextTransaction → Llm → Llm
with_gap VerdictOutcome.outcome_unknown transaction llm = record llm {
  checkpoint = record (llm.checkpoint) {
    evidence_gaps =
        llm.checkpoint.evidence_gaps
        ++ record {
          what = text "commit outcome for key " ++ transaction.idempotency_key;
          why_unknown = text "store acknowledgement lost; the receipt records it as unresolved";
        }
          ∷ [];
  };
}
with_gap VerdictOutcome.applied transaction llm = llm
with_gap VerdictOutcome.refused transaction llm = llm

unfoldable pub recovered : Snapshot → ContextTransaction → Verdict → Llm → Llm
recovered state transaction verdict llm =
    recovery_step (recovery_for state verdict.reason) transaction
      (with_gap verdict.outcome transaction (with_candidate transaction llm))

abbrev pub not_applied : Snapshot → ContextTransaction → Verdict → Llm → Turn
not_applied state transaction verdict llm =
    let llm' = recovered state transaction verdict llm in
    (
      llm.name
          ++ (text ": refused ("
              ++ (refusal_name verdict.reason
                  ++ (text "); next: " ++ llm'.checkpoint.next_action))),
      llm',
    )

-- `none` is the null successor that the source would read from.
unfoldable pub concluded :
    VerdictOutcome → Handle → ContextTransaction → Verdict → Llm → Option Turn
concluded VerdictOutcome.applied handle transaction verdict llm = elim verdict.successor [
  | none ↦ none
  | some successor ↦ some (rebound successor llm)
]
concluded VerdictOutcome.refused handle transaction verdict llm =
    some (not_applied handle.body.state transaction verdict llm)
concluded VerdictOutcome.outcome_unknown handle transaction verdict llm =
    some (not_applied handle.body.state transaction verdict llm)

abbrev pub Worked : CognitionStore → Type 0
Worked S = Option (Turn × Service S)

-- With the seconds that the turn took.
unfoldable pub annotate_budget : ℕ → Llm → Llm
annotate_budget elapsed llm =
    if leb llm.turn_budget.hard elapsed
    then record llm {
      checkpoint =
          with_action (llm.checkpoint.next_action ++ text "; HARD budget exceeded: halt")
            llm.checkpoint;
    }
    else if leb llm.turn_budget.soft elapsed
    then record llm {
      checkpoint =
          with_action
            (llm.checkpoint.next_action ++ text "; soft budget reached: finish the safe checkpoint")
            llm.checkpoint;
    }
    else llm

module _ ⦃F : Foundation⦄ {S : CognitionStore} where
  abbrev pub with_service : Option Turn → Service S → Worked S
  with_service none s = none
  with_service (some t) s = some (t, s)

  -- The lease is given back before the verdict is looked at.
  abbrev pub after_write : Written S → Handle → ContextTransaction → ExecutionGrant → Llm → Worked S
  after_write none handle transaction grant llm = none
  after_write (some (verdict, s)) handle transaction grant llm =
      with_service (concluded verdict.outcome handle transaction verdict llm)
        (release_grant grant s)

  unfoldable pub propose : Handle → ContextTransaction → ExecutionGrant → Llm → Service S → Worked S
  propose handle transaction grant llm s =
      if is_empty transaction.operations
      then some (ordinary_turn llm, release_grant grant s)
      else (let based = record transaction { base = handle.body.revision } in
          after_write (write_to_cognition (some handle) based grant s) handle based grant llm)

  abbrev pub with_grant :
      Option ExecutionGrant × Service S → Handle → Text → AuthenticatedActor → Llm → Worked S
  with_grant (none, s) handle prompt actor llm = some (lost_race llm, s)
  with_grant (some grant, s) handle prompt actor llm =
      propose handle (proposed (disclosed actor llm) prompt handle) grant (disclosed actor llm) s

  abbrev pub work_on :
      CognitionHandle → Text → AuthenticatedActor → WorkMode → Llm → Service S → Worked S
  work_on none prompt actor mode llm s = some ((llm.name ++ text ": no cognition bound", llm), s)
  work_on (some handle) prompt actor mode llm s =
      with_grant (acquire_grant actor mode s) handle prompt actor llm

  unfoldable pub work_impl : Text → AuthenticatedActor → WorkMode → Llm → Service S → Worked S
  work_impl prompt actor mode llm s = work_on llm.cognition prompt actor mode llm s

  abbrev pub annotated : ℕ → Worked S → Worked S
  annotated elapsed none = none
  annotated elapsed (some ((result, llm), s)) = some ((result, annotate_budget elapsed llm), s)

  unfoldable pub work : ℕ → Text → AuthenticatedActor → WorkMode → Llm → Service S → Worked S
  work elapsed prompt actor mode llm s = annotated elapsed (work_impl prompt actor mode llm s)
