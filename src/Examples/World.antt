-- ===== src/Examples/World.antt =====
-- A small cognition over a store of one revision, booted by the root principal, who holds the lease.
use qiven_context_draft.Prelude.{
  ◌≡◌, refl, ap, subst, ◌∙◌, false, [], ◌∷◌, some, pos, text, arith, is_empty, list_beq,
}
use qiven_context_draft.Foundation.{Bytes}
use qiven_context_draft.Cognition.Policy.{Role, Handoff, OperationClass}
use qiven_context_draft.Cognition.Records.{RevisionId, StateView, Obligation, Snapshot}
use qiven_context_draft.Cognition.Lifecycles.{ObligationStatus, TriggerKind}
use qiven_context_draft.Codec.Encode.{serialize_snapshot}
use qiven_context_draft.Codec.Fits.{Fits, StateFits, restored, restored_obligation}
use qiven_context_draft.Store.Memory.{MemoryStore, memory_store, no_revision}
use qiven_context_draft.Store.History.{IsLinear}
use qiven_context_draft.Transaction.Types.{AuthenticatedActor, WorkMode}
use qiven_context_draft.Codec.Reader.{ok}
use qiven_context_draft.Codec.Writer.{put_u8}
use qiven_context_draft.Codec.Decode.{deserialize}
use qiven_context_draft.Codec.RoundTrip.{deserialize-serialize_snapshot}
use qiven_context_draft.Store.Memory.{materialize, find_state, has_revision}
use qiven_context_draft.Transaction.Digest.{draft_snapshot_digest}
use qiven_context_draft.Service.State.{
  QuarantineState, Handle, Service, ExecutionGrant, root_principal_verifier, canonical_head,
  head_snapshot, find_canonical,
}
use qiven_context_draft.Service.Lifetime.{
  canonical_remote, attach_store, create_cognition, cold_boot, materialized, mint, acquire_grant,
  grant_of,
}
use qiven_context_draft.Service.Steps.{
  new_service, Reachable, fresh, then_step, attached, started, acquired,
}
use qiven_context_draft.Examples.Port.{plain, plain_laws}

-- What is due at the next boundary.
abbrev pub due : Obligation
due = record {
  status = ObligationStatus.opened;
  trigger = TriggerKind.manual;
  trigger_value = [];
  id = pos 7;
  statement = text "ship";
  completion_criteria = [];
}

-- The next boundary is that obligation.
abbrev pub first_state : StateView
first_state = record {
  objective = [];
  current = [];
  checkpoint_ref = [];
  candidate_ref = [];
  next_boundary_ref = text "7";
  repositories = [];
  roadmap = [];
}

-- One row of policy: the state may be updated without a review. One obligation is open.
abbrev pub world_in : StateView → Snapshot
world_in state = record {
  governance = record { root_principal = text "root" };
  constitution = record { articles = [] };
  policy = record {
    handoff =
        record {
          op_class = OperationClass.state_update;
          required = Handoff.h_none;
          root_principal_only = false;
        }
        ∷ [];
    recovery = [];
  };
  invocation = record { present = false; rules = [] };
  state = state;
  decisions = [];
  memory = [];
  obligations = due ∷ [];
  evidence = [];
  conflicts = [];
  profiles = [];
  views = [];
  roles = [];
}

abbrev pub world : Snapshot
world = world_in first_state

abbrev pub moved : Snapshot
moved = world_in (record first_state { current = text "on" })

first_state-StateFits : StateFits first_state
unfolding text
first_state-StateFits = record {
  objective = omega arith;
  current = omega arith;
  checkpoint_ref = omega arith;
  candidate_ref = omega arith;
  next_boundary_ref = omega arith;
  repositories = omega arith;
  roadmap = omega arith;
}

moved-StateFits : StateFits (record first_state { current = text "on" })
unfolding text
moved-StateFits = record {
  objective = omega arith;
  current = omega arith;
  checkpoint_ref = omega arith;
  candidate_ref = omega arith;
  next_boundary_ref = omega arith;
  repositories = omega arith;
  roadmap = omega arith;
}

world_in-Fits : (state : StateView) → StateFits state → Fits (world_in state)
unfolding text
world_in-Fits state state_fits = record {
  root_principal = omega arith;
  articles = (omega arith, tt);
  handoff = omega arith;
  recovery = omega arith;
  rules = (omega arith, tt);
  state = state_fits;
  decisions = (omega arith, tt);
  memory = (omega arith, tt);
  obligations = (
    omega arith,
    (record { id = omega arith; statement = omega arith; completion_criteria = omega arith }, tt),
  );
  evidence = (omega arith, tt);
  conflicts = (omega arith, tt);
  profiles = (omega arith, tt);
  views = (omega arith, tt);
  roles = (omega arith, tt);
}

pub world-Fits : Fits world
world-Fits = world_in-Fits first_state first_state-StateFits

pub moved-Fits : Fits moved
moved-Fits = world_in-Fits _ moved-StateFits

pub world_restored : deserialize (serialize_snapshot world) ≡ ok world
unfolding restored restored_obligation
world_restored = deserialize-serialize_snapshot world world-Fits

abbrev pub first_revision : RevisionId
first_revision = record { value = text "r" }

abbrev pub first_store : MemoryStore
first_store = record {
  revisions = (first_revision, serialize_snapshot world) ∷ [];
  head = first_revision;
}

pub first_store-IsLinear : IsLinear first_store
unfolding has_revision
first_store-IsLinear = record { at_head = refl; distinct = (refl, tt) }

abbrev pub first_handle : Handle
first_handle = record {
  address = 0;
  body = record {
    state = world;
    digest = draft_snapshot_digest (serialize_snapshot world);
    revision = first_revision;
    epoch = 1;
    quarantine = QuarantineState.promoted;
  };
}

abbrev pub root : AuthenticatedActor
root = record {
  principal = text "root";
  role = Role.owner;
  binding = text "b";
  serving_model = text "m";
  reasoning = [];
  designation = [];
}

abbrev pub attached_service : Service memory_store
attached_service = attach_store (some first_store) (new_service memory_store)

abbrev pub booted : Service memory_store
booted = record (new_service memory_store) {
  epoch = 1;
  store = some first_store;
  live = first_handle ∷ [];
  next_address = 1;
}

abbrev pub root_grant : ExecutionGrant
root_grant = record {
  id = grant_of 1;
  epoch = 1;
  principal = text "root";
  mode = WorkMode.supervised_foreground;
}

-- The root principal holds the lease.
abbrev pub leased : Service memory_store
leased = record booted {
  identity = some root_principal_verifier;
  active_grant = grant_of 1;
  grant_actor = root;
  grant_generation = 1;
}

materialized-ok :
    (bytes : Bytes) (revision : RevisionId) (quarantine : QuarantineState)
    (s : Service memory_store) (snapshot : Snapshot)
    → is_empty bytes ≡ false
    → deserialize bytes ≡ ok snapshot
    → materialized bytes revision quarantine s ≡ mint bytes revision quarantine s (ok snapshot)
unfolding materialized
materialized-ok bytes revision quarantine s snapshot h e = rw (h, e)

boots :
    create_cognition (canonical_remote no_revision) attached_service
    ≡ materialized
        (serialize_snapshot world)
        first_revision
        QuarantineState.promoted
        attached_service
unfolding create_cognition cold_boot attach_store materialize find_state serialize_snapshot put_u8
    list_beq text
boots = refl

not_empty : is_empty (serialize_snapshot world) ≡ false
unfolding serialize_snapshot put_u8
not_empty = refl

booted_by : (create_cognition (canonical_remote no_revision) attached_service).1 ≡ booted
unfolding attach_store
booted_by =
    ap (λ p. p.1)
      (boots
        ∙ materialized-ok (serialize_snapshot world) first_revision QuarantineState.promoted
            attached_service world not_empty world_restored)

pub leased_by : acquire_grant root WorkMode.supervised_foreground booted ≡ (some root_grant, leased)
unfolding acquire_grant canonical_head head_snapshot find_canonical root_principal_verifier text
    list_beq
leased_by = refl

pub booted-Reachable : Reachable booted
booted-Reachable = subst Reachable booted_by (
    then_step (then_step fresh (attached (some first_store) (new_service memory_store)))
      (started (canonical_remote no_revision) attached_service))

pub leased-Reachable : Reachable leased
leased-Reachable =
    subst Reachable (ap (λ p. p.1) leased_by)
      (then_step booted-Reachable (acquired root WorkMode.supervised_foreground booted))
