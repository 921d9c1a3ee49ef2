-- ===== src/Examples/Participants.antt =====
-- The participants' graph around the small cognition, and the preparation of an intent.
use qiven_context_draft.Prelude.{◌≡◌, refl, true, false, [], ◌∷◌, some, none, text, list_beq, All}
use qiven_context_draft.Cognition.Policy.{Role}
use qiven_context_draft.Cognition.Lifecycles.{EpistemicType, MemoryKind, MemoryStatus}
use qiven_context_draft.Cognition.Control.{ActionKind, RequirementKind, RequirementBoundary}
use qiven_context_draft.Cognition.Records.{InvocationRule, Snapshot}
use qiven_context_draft.Store.Memory.{has_revision, verify}
use qiven_context_draft.Runtime.Session.{Llm}
use qiven_context_draft.Runtime.Invocation.{
  applies, judgment_open, ready_for_judgment, derive_from, derive_requirements, PreparationFailure,
}
use qiven_context_draft.Runtime.Packet.{
  recall_memory, recall_profiles, prepare, prepare_all, build_preparation_packet,
}
use qiven_context_draft.Runtime.Recall.{Answers, build_preparation_packet-Answers}
use qiven_context_draft.Runtime.Participants.{
  Shared, Device, QualificationStatus, LlmClientTool, Human, has_blocked, is_whole, is_continueable,
}
use qiven_context_draft.Runtime.Continuity.{Continues, is_continueable-Continues}
use qiven_context_draft.Examples.Port.{plain}
use qiven_context_draft.Examples.World.{world, first_handle, booted}
use qiven_context_draft.Examples.Cycles.{session, intent}

abbrev llm : Shared Llm
llm = record { address = 1; body = session }

abbrev device : Shared Device
device = record {
  address = 2;
  body = record { name = text "pc"; os = []; env = []; reachable = true };
}

abbrev client : LlmClientTool
client = record {
  name = text "relay";
  current_llm = some llm;
  target_device = some device;
  binding = record {
    role = Role.worker;
    model_id = text "m";
    qualification = record { status = QualificationStatus.untested; evidence_ref = []; date = [] };
  };
  operational = true;
  last_feedback = [];
}

abbrev human : Human
human = record { name = text "h"; preferences = []; verified_principal = text "root" }

is_continueable-Continues_example :
    ((is_continueable (some human) (some client) (some device) (some llm) (some first_handle) booted
        ≡ true)
      → Continues human client device llm first_handle booted)
    × (Continues human client device llm first_handle booted
        → is_continueable
            (some human)
            (some client)
            (some device)
            (some llm)
            (some first_handle)
            booted
          ≡ true)
is_continueable-Continues_example =
    is_continueable-Continues human client device llm first_handle booted

continueable :
    is_continueable (some human) (some client) (some device) (some llm) (some first_handle) booted
    ≡ true
unfolding is_continueable is_whole has_blocked verify has_revision text list_beq
continueable = refl

-- Another model serves than the binding names.
drifted :
    is_continueable
      (some human)
      (some client)
      (some device)
      (some (record llm { body = record session { name = text "n" } }))
      (some first_handle)
      booted
    ≡ false
unfolding is_continueable is_whole has_blocked verify has_revision text list_beq
drifted = refl

-- One rule for the kind of the intent, which blocks.
abbrev mandate : InvocationRule
mandate = record {
  action = ActionKind.begin_task;
  claim_class = none;
  requirement = RequirementKind.mandatory_recall;
  boundary = RequirementBoundary.before_judgment;
  subject = text "notes";
  blocking = true;
}

abbrev mandated : Snapshot
mandated = record world {
  invocation = record { present = true; rules = mandate ∷ [] };
  memory =
      record {
        kind = MemoryKind.lesson;
        epistemic = EpistemicType.observation;
        status = MemoryStatus.active;
        title = text "notes";
        statement = text "read first";
        provenance = record { sources = [] };
      }
      ∷ [];
}

prepared : ready_for_judgment (build_preparation_packet mandated intent []) ≡ true
unfolding ready_for_judgment judgment_open build_preparation_packet derive_requirements derive_from
    prepare_all prepare recall_memory recall_profiles text list_beq
prepared = refl

build_preparation_packet-Answers_example :
    (mandated.invocation.present ≡ true)
    × All
        (λ rule.
          applies intent rule ≡ true
          → rule.blocking ≡ true
          → Answers mandated intent.prior_failure rule.requirement rule.subject rule.boundary)
        mandated.invocation.rules
build_preparation_packet-Answers_example =
    build_preparation_packet-Answers mandated intent [] prepared

-- Without the record the packet fails, and is not ready.
unprepared :
    (build_preparation_packet (record mandated { memory = [] }) intent []).failure
    ≡ PreparationFailure.required_recall_missing
unfolding build_preparation_packet derive_requirements derive_from prepare_all prepare recall_memory
    recall_profiles text list_beq
unprepared = refl
