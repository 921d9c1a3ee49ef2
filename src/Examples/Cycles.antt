-- ===== src/Examples/Cycles.antt =====
-- The runtime theorems at the small cognition.
use qiven_context_draft.Prelude.{
  ◌≡◌, refl, sym, ◌∙◌, true, false, false≢true, [], ◌∷◌, none, some, Text, text, list_beq,
  to_decimal, subst, All, is_empty,
}
use qiven_context_draft.Cognition.Control.{ClaimClass, ActionKind}
use qiven_context_draft.Cognition.Policy.{RefusalReason, RecoveryAction}
use qiven_context_draft.Cognition.Defaults.{recovery_for, recovery_in}
use qiven_context_draft.Store.Memory.{memory_store}
use qiven_context_draft.Transaction.Types.{WorkMode}
use qiven_context_draft.Transaction.Chains.{HasRank}
use qiven_context_draft.Service.State.{
  Handle, Service, no_grant, no_actor, root_principal_verifier, canonical_head, head_snapshot,
  find_canonical, find_entry, find_live, refuse,
}
use qiven_context_draft.Service.Lifetime.{acquire_grant, release_grant}
use qiven_context_draft.Service.Write.{write_to_cognition, replayed, find_receipt, write_entry}
use qiven_context_draft.Service.Inversion.{some-cancel}
use qiven_context_draft.Runtime.Session.{Llm, CheckpointTrigger}
use qiven_context_draft.Runtime.Cycle.{
  Turn, proposed, propose, work, work_impl, ordinary_turn, disclosed, annotate_budget, not_applied,
  recovered, recovery_step, with_gap, concluded,
}
use qiven_context_draft.Runtime.Lease.{work_keeps_lease, work-competing}
use qiven_context_draft.Runtime.Parking.{Parks, work-Parks}
use qiven_context_draft.Runtime.Returns.{work-returns}
use qiven_context_draft.Runtime.Invocation.{
  ActionIntent, ToolContract, is_placeholder, argument, construct_invocation, validate_invocation,
}
use qiven_context_draft.Runtime.Tools.{IsFilled, validate_invocation-construct_invocation}
use qiven_context_draft.Examples.Port.{plain, plain_laws}
use qiven_context_draft.Examples.World.{world, first_handle, root, booted, booted-Reachable, leased}
use qiven_context_draft.Examples.Writes.{transaction}

abbrev pub session : Llm
session = record {
  name = text "m";
  turn_budget = record { soft = 60; hard = 120 };
  cognition = some first_handle;
  delta_generator = none;
  checkpoint = record {
    session_id = [];
    exact_task = [];
    accepted_refs = [];
    unaccepted_candidates = [];
    evidence_gaps = [];
    known_gaps = [];
    next_action = [];
    last_trigger = CheckpointTrigger.turn_boundary;
    serving_disclosure = [];
  };
  parked_deltas = [];
}

abbrev idle_turn : Turn
idle_turn = ordinary_turn (disclosed root session)

-- The lease was taken and given back.
abbrev released : Service memory_store
released = record leased { active_grant = no_grant; grant_actor = no_actor }

worked :
    work 1 (text "go") root WorkMode.supervised_foreground session booted
    ≡ some (idle_turn, released)
unfolding work work_impl propose proposed annotate_budget acquire_grant release_grant canonical_head
    head_snapshot find_canonical root_principal_verifier text list_beq to_decimal
worked = refl

work_keeps_lease_example : released.active_grant ≡ booted.active_grant
work_keeps_lease_example =
    work_keeps_lease 1 (text "go") root WorkMode.supervised_foreground session booted released
      idle_turn worked

held : is_empty leased.active_grant.value ≡ false
unfolding text
held = refl

work-competing_example :
    (result : Text) × (llm' : Llm) × (work 1
        (text "go")
        root
        WorkMode.supervised_foreground
        session
        leased
      ≡ some ((result, llm'), leased))
    × (llm'.parked_deltas ≡ session.parked_deltas)
    × (llm'.cognition ≡ session.cognition)
work-competing_example =
    work-competing 1 (text "go") root WorkMode.supervised_foreground session leased first_handle
      refl held

abbrev pub mover : Llm
mover = record session { delta_generator = some (λ prompt state. transaction) }

-- A cognition that is not registered, whose table maps a stale base to a re-think.
abbrev stray : Handle
stray = record first_handle {
  address = 9;
  body = record first_handle.body {
    state = record world {
      policy = record world.policy {
        recovery =
            record { reason = RefusalReason.stale_base; action = RecoveryAction.reread_rethink }
            ∷ [];
      };
    };
  };
}

abbrev strayed : Llm
strayed = record mover { cognition = some stray }

abbrev parked_turn : Turn
parked_turn =
    not_applied stray.body.state transaction (refuse RefusalReason.stale_base)
      (disclosed root strayed)

parked :
    work 1 (text "go") root WorkMode.supervised_foreground strayed booted
    ≡ some (parked_turn, released)
unfolding work work_impl propose proposed annotate_budget recovered recovery_step with_gap concluded
    acquire_grant release_grant canonical_head head_snapshot find_canonical root_principal_verifier
    write_to_cognition replayed find_receipt write_entry find_entry find_live text list_beq
    to_decimal recovery_for recovery_in
parked = refl

work-Parks_example :
    Parks stray (text "go") root WorkMode.supervised_foreground strayed booted (transaction ∷ [])
unfolding recovered recovery_step recovery_for recovery_in with_gap
work-Parks_example =
    work-Parks 1 (text "go") root WorkMode.supervised_foreground strayed booted released parked_turn
      stray refl parked

found : find_entry booted.live mover.cognition ≡ some first_handle
unfolding find_entry find_live
found = refl

no_decisions : HasRank world.decisions
no_decisions = record { rank = λ id. 0; bounded = tt; falls = tt }

only_entry :
    (entry : Handle)
    → find_entry booted.live mover.cognition ≡ some entry
    → HasRank entry.body.state.decisions
only_entry entry e =
    subst (λ (h : Handle). HasRank h.body.state.decisions) (some-cancel (sym found ∙ e))
      no_decisions

work-returns_example :
    (t : Turn) × (s' : Service memory_store) × (work 1
        (text "go")
        root
        WorkMode.supervised_foreground
        mover
        booted
      ≡ some (t, s'))
work-returns_example =
    work-returns 1 (text "go") root WorkMode.supervised_foreground mover booted booted-Reachable
      only_entry

abbrev pub intent : ActionIntent
intent = record {
  kind = ActionKind.begin_task;
  claim_class = ClaimClass.local_recall;
  concepts = [];
  files = [];
  tool = [];
  operation = text "gate";
  prior_failure = none;
}

abbrev contract : ToolContract
contract = record {
  tool = text "qiven";
  operation = text "gate";
  argv_template = text "python" ∷ text "{operation}" ∷ [];
}

filled : All (IsFilled contract intent) contract.argv_template
unfolding is_placeholder argument text list_beq
filled = (λ e. absurd (false≢true e), (λ e. refl, tt))

validate_invocation-construct_invocation_example :
    validate_invocation contract (construct_invocation contract intent) ≡ true
validate_invocation-construct_invocation_example =
    validate_invocation-construct_invocation contract intent filled
