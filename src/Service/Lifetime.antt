-- ===== src/Service/Lifetime.antt =====
-- Everything of `QivenContext` (src/persistence.cpp) but the write: attaching the ports,
-- materializing, the single-writer lease, retirement, and the quarantine state machine.
use qiven_context_draft.Prelude.{
  ℕ, ◌+◌, ◌%◌, ◌^◌, Bool, true, false, not, ◌&&◌, List, [], ◌∷◌, ◌++◌, Option, none, some, Text,
  text, ◌==◌, nat_eq, list_eq, is_empty, to_decimal, if◌then◌else◌,
}
use qiven_context_draft.Foundation.{Bytes, Foundation}
use qiven_context_draft.Cognition.Records.{RevisionId, GrantId, Snapshot, grant_eq}
use qiven_context_draft.Cognition.Defaults.{make_genesis}
use qiven_context_draft.Codec.Reader.{
  Outcome, ok, err, fault, DeserializeError, DeserializeErrorKind, error,
}
use qiven_context_draft.Codec.Encode.{serialize_snapshot}
use qiven_context_draft.Codec.Decode.{deserialize}
use qiven_context_draft.Store.Contract.{CognitionStore, ReceiptKind, StoreReceipt}
use qiven_context_draft.Store.Memory.{no_revision}
use qiven_context_draft.Transaction.Types.{AuthenticatedActor, WorkMode}
use qiven_context_draft.Transaction.Digest.{draft_content_id, draft_snapshot_digest}
use qiven_context_draft.Service.State.{
  QuarantineState, Handle, CognitionHandle, Verifier, Service, ExecutionGrant, no_grant, no_actor,
  or_root_verifier, find_live, find_entry, replace_live, canonical_head, accepts,
  quarantine_state_eq,
}

pub data CognitionSource : Type 0 where
  canonical_remote : RevisionId → CognitionSource
  handoff_artifact : Bytes → Text → CognitionSource
  compressed_stream : CognitionSource

-- `asserted` is a failed `QIVEN_ASSERT`, `thrown` an exception.
pub data Created : Type 0 where
  created : Handle → Created
  failed : DeserializeError → Created
  asserted thrown : Created

abbrev pub grant_of : ℕ → GrantId
grant_of generation = record { value = text "grant-" ++ to_decimal generation }

unfoldable pub remove_live : List Handle → ℕ → List Handle
remove_live [] address = []
remove_live (h ∷ hs) address = if h.address == address then hs else h ∷ remove_live hs address

module _ ⦃F : Foundation⦄ {S : CognitionStore} where
  unfoldable pub attach_store : Option S.State → Service S → Service S
  attach_store store s = record s { store = store }

  unfoldable pub attach_identity_verifier : Option Verifier → Service S → Service S
  attach_identity_verifier verifier s = record s { identity = some (or_root_verifier verifier) }

  -- Parse, and publish a fresh materialization under the next epoch.
  abbrev pub mint :
      Bytes → RevisionId → QuarantineState → Service S → Outcome Snapshot → Created × Service S
  mint bytes revision quarantine s (err e) = (Created.failed e, s)
  mint bytes revision quarantine s fault = (Created.thrown, s)
  mint bytes revision quarantine s (ok snapshot) =
      let epoch = (s.epoch + 1) % 2 ^ 64 in
      let minted : Handle = record {
        address = s.next_address;
        body = record {
          state = snapshot;
          digest = draft_snapshot_digest bytes;
          revision = revision;
          epoch = epoch;
          quarantine = quarantine;
        };
      } in
      (
        Created.created minted,
        record s { epoch = epoch; live = s.live ++ minted ∷ []; next_address = s.next_address + 1 },
      )

  unfoldable pub materialized :
      Bytes → RevisionId → QuarantineState → Service S → Created × Service S
  materialized bytes revision quarantine s =
      if is_empty bytes
      then (Created.failed (error DeserializeErrorKind.truncated (text "empty source")), s)
      else mint bytes revision quarantine s (deserialize bytes)

  -- A store with no state gets the genesis snapshot as its first.
  abbrev pub seeded : StoreReceipt × S.State → Bytes → Service S → Created × Service S
  seeded (receipt, store) bytes s = elim receipt.kind [
    | ReceiptKind.committed ↦
        materialized bytes receipt.revision QuarantineState.promoted
          (record s { store = some store })
    | _ ↦ (Created.asserted, record s { store = some store })
  ]

  unfoldable pub cold_boot : RevisionId → S.State → Service S → Created × Service S
  cold_boot revision store s =
      let id = if is_empty revision.value then S.head store else revision in
      let bytes = S.materialize store id in
      if is_empty bytes
      then (if is_empty id.value
          then seeded (S.compare_and_swap no_revision (serialize_snapshot make_genesis) store)
              (serialize_snapshot make_genesis) s
          else (
            Created.failed
                (error DeserializeErrorKind.truncated (text "revision not found: " ++ id.value)),
            s,
          ))
      else materialized bytes id QuarantineState.promoted s

  abbrev pub boot : RevisionId → Option S.State → Service S → Created × Service S
  boot revision none s = (Created.asserted, s)
  boot revision (some store) s = cold_boot revision store s

  unfoldable pub create_cognition : CognitionSource → Service S → Created × Service S
  create_cognition (canonical_remote revision) s = boot revision s.store s
  create_cognition (handoff_artifact bytes expected_digest) s =
      if not (is_empty expected_digest) && not (draft_content_id bytes == expected_digest)
      then (
        Created.failed
            (error DeserializeErrorKind.digest_mismatch (text "artifact digest mismatch")),
        s,
      )
      else materialized bytes no_revision QuarantineState.isolated s
  create_cognition compressed_stream s = (Created.thrown, s)

  abbrev pub next_generation : Service S → ℕ
  next_generation s = (s.grant_generation + 1) % 2 ^ 64

  -- The default port is installed even where the actor is refused.
  unfoldable pub acquire_grant :
      AuthenticatedActor → WorkMode → Service S → Option ExecutionGrant × Service S
  acquire_grant actor mode s =
      let verify = or_root_verifier s.identity in
      let with_port = record s { identity = some verify } in
      if not (is_empty s.active_grant.value)
      then (none, s)
      else if not (accepts verify actor (canonical_head s))
      then (none, with_port)
      else (
        some (record {
          id = grant_of (next_generation s);
          epoch = s.epoch;
          principal = actor.principal;
          mode = mode;
        }),
        record with_port {
          active_grant = grant_of (next_generation s);
          grant_actor = actor;
          grant_generation = next_generation s;
        },
      )

  unfoldable pub release_grant : ExecutionGrant → Service S → Service S
  release_grant grant s =
      if s.active_grant == grant.id
      then record s { active_grant = no_grant; grant_actor = no_actor }
      else s

  abbrev pub retire : ℕ → Option Handle → Service S → Bool × Service S
  retire address none s = (false, s)
  retire address (some entry) s = (true, record s { live = remove_live s.live address })

  unfoldable pub retire_cognition : CognitionHandle → Service S → Bool × Service S
  retire_cognition none s = (false, s)
  retire_cognition (some handle) s = retire handle.address (find_live s.live handle.address) s

  -- The two governed steps of the quarantine state machine mint a successor of the entry.
  abbrev pub requarantine :
      QuarantineState → QuarantineState → Option Handle → Service S → CognitionHandle × Service S
  requarantine from to none s = (none, s)
  requarantine from to (some entry) s =
      let successor : Handle = record {
        address = s.next_address;
        body = record (entry.body) { quarantine = to };
      } in
      if entry.body.quarantine == from
      then (
        some successor,
        record s {
          live = replace_live s.live entry.address successor;
          next_address = s.next_address + 1;
        },
      )
      else (none, s)

  unfoldable pub governed_step :
      QuarantineState
      → QuarantineState
      → CognitionHandle
      → AuthenticatedActor
      → Service S
      → CognitionHandle × Service S
  governed_step from to handle actor s =
      let verify = or_root_verifier s.identity in
      let with_port = record s { identity = some verify } in
      if not (accepts verify actor (canonical_head s))
      then (none, with_port)
      else requarantine from to (find_entry s.live handle) with_port

  unfoldable pub verify_restored :
      CognitionHandle → AuthenticatedActor → Service S → CognitionHandle × Service S
  verify_restored = governed_step QuarantineState.isolated QuarantineState.verified

  unfoldable pub promote_authority :
      CognitionHandle → AuthenticatedActor → Service S → CognitionHandle × Service S
  promote_authority = governed_step QuarantineState.authority_pending QuarantineState.promoted
