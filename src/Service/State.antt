-- ===== src/Service/State.antt =====
-- The state of `QivenContext` and the values that it hands out. A handle is a `shared_ptr` to an
-- immutable materialization: an address, by which handles are compared, and the value behind it. The
-- admission mutex makes each operation one step on this state.
use qiven_context_draft.Prelude.{
  ℕ, Bool, false, not, ◌&&◌, List, [], ◌∷◌, Option, none, some, Text, ◌==◌, nat_eq, list_eq,
  is_empty, Eq, Enum, enum_eq, ◌≡◌, ◌≤◌, refl, arith, length, get_or, if◌then◌else◌,
}
use qiven_context_draft.Foundation.{Foundation}
use qiven_context_draft.Cognition.Policy.{RefusalReason, Role}
use qiven_context_draft.Cognition.Records.{
  SnapshotDigest, RevisionId, GrantId, Snapshot, revision_eq, grant_eq,
}
use qiven_context_draft.Codec.Reader.{Outcome, ok, err, fault}
use qiven_context_draft.Codec.Decode.{deserialize}
use qiven_context_draft.Store.Contract.{CognitionStore}
use qiven_context_draft.Transaction.Types.{AuthenticatedActor, WorkMode}

pub data QuarantineState : Type 0 where
  isolated verified authority_pending promoted : QuarantineState

abbrev pub quarantine_state_code : QuarantineState → ℕ
quarantine_state_code QuarantineState.isolated = 0
quarantine_state_code QuarantineState.verified = 1
quarantine_state_code QuarantineState.authority_pending = 2
quarantine_state_code QuarantineState.promoted = 3

abbrev pub quarantine_state_others : List QuarantineState
quarantine_state_others =
    QuarantineState.verified ∷ QuarantineState.authority_pending ∷ QuarantineState.promoted ∷ []

pub get-quarantine_state_code :
    (e : QuarantineState)
    → get_or
        (QuarantineState.isolated ∷ quarantine_state_others)
        (quarantine_state_code e)
        QuarantineState.isolated
      ≡ e
get-quarantine_state_code QuarantineState.isolated = refl
get-quarantine_state_code _ = refl

pub quarantine_state_code-le :
    (e : QuarantineState) → quarantine_state_code e ≤ length quarantine_state_others
quarantine_state_code-le QuarantineState.isolated = omega arith
quarantine_state_code-le _ = omega arith

instance abbrev pub quarantine_state_enum : Enum QuarantineState
quarantine_state_enum = record {
  code = quarantine_state_code;
  first = QuarantineState.isolated;
  others = quarantine_state_others;
  get-code = get-quarantine_state_code;
  code-le = quarantine_state_code-le;
}

instance abbrev pub quarantine_state_eq : Eq QuarantineState
quarantine_state_eq = enum_eq quarantine_state_enum

pub record Materialization : Type 0 where
  pub state : Snapshot
  pub digest : SnapshotDigest
  pub revision : RevisionId
  pub epoch : ℕ
  pub quarantine : QuarantineState

pub record Handle : Type 0 where
  pub address : ℕ
  pub body : Materialization

-- A null handle is `none`.
abbrev pub CognitionHandle : Type 0
CognitionHandle = Option Handle

pub data VerdictOutcome : Type 0 where
  applied refused outcome_unknown : VerdictOutcome

pub record Verdict : Type 0 where
  pub outcome : VerdictOutcome
  pub reason : RefusalReason
  pub successor : CognitionHandle

abbrev pub refuse : RefusalReason → Verdict
refuse reason = record { outcome = VerdictOutcome.refused; reason = reason; successor = none }

pub record ExecutionGrant : Type 0 where
  pub id : GrantId
  pub epoch : ℕ
  pub principal : Text
  pub mode : WorkMode

pub record Receipt : Type 0 where
  pub request_digest : Text
  pub outcome : Verdict

-- `IIdentityVerifier`
abbrev pub Verifier : Type 0
Verifier = AuthenticatedActor → Snapshot → Bool

pub record Service (S : CognitionStore) : Type 0 where
  pub epoch : ℕ
  pub store : Option S.State
  pub identity : Option Verifier
  pub live : List Handle
  pub active_grant : GrantId
  pub grant_actor : AuthenticatedActor
  pub receipts : List (Text × Receipt)
  pub grant_generation : ℕ
  pub next_address : ℕ

abbrev pub no_grant : GrantId
no_grant = record { value = [] }

abbrev pub no_actor : AuthenticatedActor
no_actor = record {
  principal = [];
  role = Role.worker;
  binding = [];
  serving_model = [];
  reasoning = [];
  designation = [];
}

-- `RootPrincipalVerifier::verify`
unfoldable pub root_principal_verifier : Verifier
root_principal_verifier actor governance =
    not (is_empty actor.principal)
    && (not (is_empty actor.binding)
        && (not (is_empty actor.serving_model)
            && actor.principal == governance.governance.root_principal))

abbrev pub or_root_verifier : Option Verifier → Verifier
or_root_verifier none = root_principal_verifier
or_root_verifier (some v) = v

-- The live entry of a handle: the first with its address.
unfoldable pub find_live : List Handle → ℕ → Option Handle
find_live [] address = none
find_live (h ∷ hs) address = if h.address == address then some h else find_live hs address

unfoldable pub find_entry : List Handle → CognitionHandle → Option Handle
find_entry live none = none
find_entry live (some handle) = find_live live handle.address

-- `entry->materialization = replacement`
unfoldable pub replace_live : List Handle → ℕ → Handle → List Handle
replace_live [] address replacement = []
replace_live (h ∷ hs) address replacement =
    if h.address == address then replacement ∷ hs else h ∷ replace_live hs address replacement

unfoldable pub find_canonical : List Handle → RevisionId → Option Snapshot
find_canonical [] head = none
find_canonical (h ∷ hs) head =
    if h.body.revision == head && h.body.quarantine == QuarantineState.promoted
    then some h.body.state
    else find_canonical hs head

abbrev pub parsed : Outcome Snapshot → Option Snapshot
parsed (ok snapshot) = some snapshot
parsed (err e) = none
parsed fault = none

-- Whether the identity port accepts the actor against the canonical head.
abbrev pub accepts : Verifier → AuthenticatedActor → Option Snapshot → Bool
accepts verify actor none = false
accepts verify actor (some governance) = verify actor governance

module _ ⦃F : Foundation⦄ (S : CognitionStore) where
  -- The fast path is a live canonical materialization, the slow path parses the stored bytes.
  unfoldable pub head_snapshot : List Handle → S.State → Option Snapshot
  head_snapshot live store =
      if is_empty (S.head store).value then none else elim (find_canonical live (S.head store)) [
        | some snapshot ↦ some snapshot
        | none ↦ parsed (deserialize (S.materialize store (S.head store)))
      ]

module _ ⦃F : Foundation⦄ {S : CognitionStore} where
  unfoldable pub canonical_head : Service S → Option Snapshot
  canonical_head s = elim s.store [ none ↦ none | some store ↦ head_snapshot S s.live store ]
