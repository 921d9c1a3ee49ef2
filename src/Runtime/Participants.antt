-- ===== src/Runtime/Participants.antt =====
-- The participants of include/qiven/context/runtime.hpp, the human's call down to the work cycle,
-- and `is_continueable` of src/persistence.cpp, the predicate over their whole graph.
use qiven_context_draft.Prelude.{
  ℕ, Bool, false, not, ◌&&◌, ◌||◌, List, [], ◌∷◌, Option, none, some, Text, text, ◌==◌, nat_eq,
  list_eq, is_empty, if◌then◌else◌,
}
use qiven_context_draft.Foundation.{Foundation}
use qiven_context_draft.Cognition.Policy.{Role, OperationClass}
use qiven_context_draft.Cognition.Lifecycles.{ObligationStatus, obligation_status_eq}
use qiven_context_draft.Cognition.Records.{RoleSpec, Obligation, RevisionId, Snapshot}
use qiven_context_draft.Cognition.Defaults.{find_role_spec, role_spec_valid}
use qiven_context_draft.Store.Contract.{CognitionStore}
use qiven_context_draft.Transaction.Types.{AuthenticatedActor, WorkMode}
use qiven_context_draft.Service.State.{Handle, CognitionHandle, Service}
use qiven_context_draft.Runtime.Session.{Llm}
use qiven_context_draft.Runtime.Cycle.{work}

-- An object behind a `shared_ptr`: pointers are compared by address. A null pointer is `none`.
pub record Shared (A : Type 0) : Type 0 where
  pub address : ℕ
  pub body : A

pub record Device : Type 0 where
  pub name : Text
  pub os : Text
  pub env : Text
  pub reachable : Bool

pub data QualificationStatus : Type 0 where
  untested provisional qualified : QualificationStatus

pub record Qualification : Type 0 where
  pub status : QualificationStatus
  pub evidence_ref : Text
  pub date : Text

pub record ParticipantBinding : Type 0 where
  pub role : Role
  pub model_id : Text
  pub qualification : Qualification

pub record SessionDesignation : Type 0 where
  pub id : Text
  pub base : Role
  pub grant_ref : Text
  pub process_bypasses : List Text

unfoldable pub designation_valid : SessionDesignation → Bool
designation_valid d = not (is_empty d.id) && not (is_empty d.grant_ref)

abbrev pub authorities_of : Option RoleSpec → List OperationClass
authorities_of none = []
authorities_of (some spec) = if not (role_spec_valid spec) then [] else spec.authorities

-- The registry decides by the role alone.
unfoldable pub effective_authorities : Snapshot → AuthenticatedActor → List OperationClass
effective_authorities snapshot actor = authorities_of (find_role_spec snapshot.roles actor.role)

pub record LlmClientTool : Type 0 where
  pub name : Text
  pub current_llm : Option (Shared Llm)
  pub target_device : Option (Shared Device)
  pub binding : ParticipantBinding
  pub operational : Bool
  pub last_feedback : Text

pub record HumanPreference : Type 0 where
  pub key : Text
  pub value : Text

pub record Human : Type 0 where
  pub name : Text
  pub preferences : List HumanPreference
  pub verified_principal : Text

-- The result, the client with the session that it drove, and the service; `none` is a call that
-- does not return, or a null session that is dereferenced.
abbrev pub Relayed : CognitionStore → Type 0
Relayed S = Option (Text × LlmClientTool × Service S)

abbrev pub actor_of : Human → LlmClientTool → Llm → AuthenticatedActor
actor_of human client llm = record {
  principal = human.verified_principal;
  role = client.binding.role;
  binding = client.binding.model_id;
  serving_model = llm.name;
  reasoning = text "standard";
  designation = [];
}

unfoldable pub has_blocked : List Obligation → Bool
has_blocked [] = false
has_blocked (o ∷ os) = o.status == ObligationStatus.blocked || has_blocked os

abbrev pub points_to : {A : Type 0} → Option (Shared A) → Shared A → Bool
points_to none target = false
points_to (some p) target = p.address == target.address

abbrev pub is_handle : CognitionHandle → Handle → Bool
is_handle none handle = false
is_handle (some h) handle = h.address == handle.address

abbrev pub is_stored : (S : CognitionStore) → Option S.State → RevisionId → Bool
is_stored S none revision = false
is_stored S (some store) revision = not (is_empty revision.value) && S.verify store revision

module _ {S : CognitionStore} where
  -- The tests behind the null checks, each an early return.
  unfoldable pub is_whole :
      Human → LlmClientTool → Shared Device → Shared Llm → Handle → Service S → Bool
  is_whole human client device llm handle s =
      if not (points_to client.current_llm llm)
        || (not (points_to client.target_device device)
            || not (is_handle llm.body.cognition handle))
      then false
      else if not (client.binding.model_id == llm.body.name)
      then false
      else if not (is_stored S s.store handle.body.revision)
      then false
      else if is_empty human.verified_principal
          || not (human.verified_principal == handle.body.state.governance.root_principal)
      then false
      else if not client.operational || not device.body.reachable
      then false
      else not (has_blocked handle.body.state.obligations)

  unfoldable pub is_continueable :
      Option Human
      → Option LlmClientTool
      → Option (Shared Device)
      → Option (Shared Llm)
      → CognitionHandle
      → Service S
      → Bool
  is_continueable (some human) (some client) (some device) (some llm) (some handle) s =
      is_whole human client device llm handle s
  is_continueable _ _ _ _ _ s = false

module _ ⦃F : Foundation⦄ {S : CognitionStore} where
  abbrev pub relayed : LlmClientTool → Shared Llm → Option ((Text × Llm) × Service S) → Relayed S
  relayed client llm none = none
  relayed client llm (some ((result, after), s)) = some (
    result,
    record client { current_llm = some (record llm { body = after }); last_feedback = result },
    s,
  )

  abbrev pub control :
      Option (Shared Llm) → ℕ → AuthenticatedActor → Text → LlmClientTool → Service S → Relayed S
  control none elapsed actor prompt client s = none
  control (some llm) elapsed actor prompt client s =
      relayed client llm (work elapsed prompt actor WorkMode.supervised_foreground llm.body s)

  -- The relay waits for nothing, and always collects.
  unfoldable pub control_llm_from_human :
      ℕ → AuthenticatedActor → Text → LlmClientTool → Service S → Relayed S
  control_llm_from_human elapsed actor prompt client s =
      control client.current_llm elapsed actor prompt client s

  abbrev pub use_llm :
      Option (Shared Llm) → ℕ → Human → Text → LlmClientTool → Service S → Relayed S
  use_llm none elapsed human prompt client s = none
  use_llm (some llm) elapsed human prompt client s =
      control_llm_from_human elapsed (actor_of human client llm.body) prompt client s

  unfoldable pub use_llm_to_work : ℕ → Human → Text → LlmClientTool → Service S → Relayed S
  use_llm_to_work elapsed human prompt client s =
      use_llm client.current_llm elapsed human prompt client s
