-- ===== src/Examples/Writes.antt =====
-- A first write to the small cognition, and what the theorems say of it.
use qiven_context_draft.Prelude.{
  ◌≡◌, ◌≢◌, refl, sym, ap, subst, ◌∙◌, false, [], ◌∷◌, none, some, text, to_decimal, pos, list_beq,
  beq_of_ne, beq_refl, to_string, list_eq, nat_eq,
}
use qiven_context_draft.Cognition.Policy.{RefusalReason}
use qiven_context_draft.Cognition.Records.{RevisionId, revision_eq}
use qiven_context_draft.Codec.Encode.{serialize_snapshot}
use qiven_context_draft.Codec.Fits.{restored}
use qiven_context_draft.Codec.Acceptance.{serialize_snapshot-injective}
use qiven_context_draft.Store.Memory.{
  MemoryStore, memory_store, minted, compare_and_swap, holds_last, has_revision, verify,
}
use qiven_context_draft.Store.Laws.{memory_laws}
use qiven_context_draft.Transaction.Types.{Operation, OperationKind, ContextTransaction}
use qiven_context_draft.Transaction.Digest.{draft_snapshot_digest, request_digest_of}
use qiven_context_draft.Transaction.Check.{each}
use qiven_context_draft.Transaction.Handoff.{
  op_class, find_row, check_row, check_policy, check_conflicts, touches_conflicts, is_blocked,
}
use qiven_context_draft.Transaction.Invariants.{check_kind, check_invariants}
use qiven_context_draft.Transaction.Apply.{apply_kind, apply, apply_all, check_boundary, names_open}
use qiven_context_draft.Service.State.{
  QuarantineState, Handle, Verdict, VerdictOutcome, Service, root_principal_verifier, find_live,
  find_entry, replace_live, find_canonical, head_snapshot, canonical_head, refuse,
}
use qiven_context_draft.Service.Write.{
  find_receipt, put_receipt, replayed, remember, check_entry, check_request, check_operations,
  settle, commit, write_operations, write_governed, write_entry, write_to_cognition,
}
use qiven_context_draft.Codec.Reader.{ok}
use qiven_context_draft.Codec.Decode.{deserialize}
use qiven_context_draft.Codec.Fits.{Fits}
use qiven_context_draft.Store.Memory.{materialize}
use qiven_context_draft.Transaction.Chains.{HasRank}
use qiven_context_draft.Service.Inversion.{successor_state, some-cancel}
use qiven_context_draft.Service.Gates.{Gated, write_to_cognition-Gated}
use qiven_context_draft.Service.Publication.{
  Published, write_to_cognition-Published, write_to_cognition-restorable,
}
use qiven_context_draft.Service.Chain.{Chained, write_to_cognition-Chained}
use qiven_context_draft.Service.Receipts.{PassesFirstGates, write_to_cognition-once}
use qiven_context_draft.Service.Outcomes.{refused_keeps_state}
use qiven_context_draft.Service.Returns.{write_to_cognition-returns}
use qiven_context_draft.Examples.Port.{plain, plain_laws}
use qiven_context_draft.Examples.World.{
  world, moved, world-Fits, moved-Fits, first_store, first_store-IsLinear, first_revision,
  first_handle, leased, root_grant, leased-Reachable,
}

abbrev move : Operation
move = record {
  kind = OperationKind.update_state;
  record_id = pos 0;
  successor_record_id = pos 0;
  aux = 0;
  scope = [];
  title = [];
  payload = text "on";
  provenance_ref = [];
}

abbrev pub transaction : ContextTransaction
transaction = record {
  base = first_revision;
  operations = move ∷ [];
  handoff_evidence_ref = [];
  h2 = none;
  idempotency_key = text "k";
}

abbrev second_revision : RevisionId
second_revision = minted first_revision (serialize_snapshot moved)

abbrev second_handle : Handle
second_handle = record {
  address = 1;
  body = record {
    state = moved;
    digest = draft_snapshot_digest (serialize_snapshot moved);
    revision = second_revision;
    epoch = 1;
    quarantine = QuarantineState.promoted;
  };
}

abbrev pub applied : Verdict
applied = record {
  outcome = VerdictOutcome.applied;
  reason = RefusalReason.store_diverged;
  successor = some second_handle;
}

abbrev second_store : MemoryStore
second_store = record {
  revisions =
      (first_revision, serialize_snapshot world) ∷ (second_revision, serialize_snapshot moved) ∷ [];
  head = second_revision;
}

abbrev pub after : Service memory_store
after = record leased {
  store = some second_store;
  live = second_handle ∷ [];
  next_address = 2;
  receipts =
      (text "k", record { request_digest = request_digest_of transaction; outcome = applied }) ∷ [];
}

bytes_differ : list_beq (serialize_snapshot world) (serialize_snapshot moved) ≡ false
unfolding restored text
bytes_differ = beq_of_ne (serialize_snapshot world) (serialize_snapshot moved) λ e.
    cc
      (ap (λ s. s.state.current) (serialize_snapshot-injective world moved world-Fits moved-Fits e))

pub wrote :
    write_to_cognition (some first_handle) transaction root_grant leased ≡ some (applied, after)
unfolding write_to_cognition replayed find_receipt write_entry check_entry find_entry find_live
    write_governed canonical_head head_snapshot find_canonical check_request root_principal_verifier
    write_operations check_operations each check_policy check_row find_row op_class check_conflicts
    touches_conflicts is_blocked check_invariants check_kind check_boundary apply_all apply
    apply_kind names_open to_string commit compare_and_swap holds_last settle remember replace_live
    put_receipt list_beq text to_decimal
wrote = rw bytes_differ

pub first_time : replayed transaction leased ≡ none
unfolding replayed find_receipt text
first_time = refl

pub not_nothing : transaction.operations ≢ []
not_nothing e = cc

not_refused : VerdictOutcome.applied ≢ VerdictOutcome.refused
not_refused e = cc

pub found : find_entry leased.live (some first_handle) ≡ some first_handle
unfolding find_entry find_live
found = refl

not_taken :
    verify first_store
      (minted first_revision (serialize_snapshot (successor_state first_handle transaction)))
    ≡ false
unfolding verify has_revision minted list_beq text
not_taken = refl

write_to_cognition-Gated_example : Gated (some first_handle) transaction root_grant leased
write_to_cognition-Gated_example =
    write_to_cognition-Gated (some first_handle) transaction root_grant leased after applied wrote
      first_time not_nothing not_refused

write_to_cognition-Published_example :
    Published memory_laws first_handle transaction first_store leased applied after
write_to_cognition-Published_example =
    write_to_cognition-Published memory_laws (some first_handle) transaction root_grant first_handle
      first_store leased after applied wrote first_time not_nothing refl found refl
      (first_store-IsLinear, not_taken)

successor-Fits : Fits (successor_state first_handle transaction)
unfolding apply_all apply apply_kind
successor-Fits = moved-Fits

write_to_cognition-restorable_example :
    (successor : Handle) × (m' : MemoryStore) × (applied.successor ≡ some successor)
    × (after.store ≡ some m')
    × (successor.body.revision ≡ m'.head)
    × (deserialize (materialize m' m'.head) ≡ ok (restored successor.body.state))
write_to_cognition-restorable_example =
    write_to_cognition-restorable memory_laws (some first_handle) transaction root_grant
      first_handle first_store leased after applied wrote first_time not_nothing refl found refl
      (first_store-IsLinear, not_taken) successor-Fits

write_to_cognition-Chained_example :
    Chained (some first_handle) first_handle transaction applied after
write_to_cognition-Chained_example =
    write_to_cognition-Chained (some first_handle) transaction root_grant first_handle leased after
      applied leased-Reachable wrote first_time not_nothing refl found

keyed : transaction.idempotency_key ≢ []
unfolding text
keyed e = cc

-- The same key without the operation.
abbrev later : ContextTransaction
later = record transaction { operations = [] }

-- The successor's handle, under the lease that is still held.
governed : canonical_head after ≡ some moved
unfolding canonical_head head_snapshot find_canonical minted text
governed = rw (beq_refl second_revision)

passes : PassesFirstGates (some second_handle) root_grant after
unfolding find_entry find_live check_entry root_principal_verifier list_beq text to_decimal
passes = (second_handle, moved, refl, refl, governed, refl)

write_to_cognition-once_example :
    ((request_digest_of later ≡ request_digest_of transaction)
      → write_to_cognition (some second_handle) later root_grant after ≡ some (applied, after))
    × ((request_digest_of later ≢ request_digest_of transaction)
        → write_to_cognition (some second_handle) later root_grant after
          ≡ some (refuse RefusalReason.key_conflict, after))
write_to_cognition-once_example =
    write_to_cognition-once (some first_handle) (some second_handle) transaction later root_grant
      root_grant leased after applied wrote first_time not_nothing keyed not_refused refl passes

-- A handle to nothing is refused.
lost :
    write_to_cognition none transaction root_grant leased
    ≡ some (refuse RefusalReason.stale_base, leased)
unfolding write_to_cognition replayed find_receipt write_entry find_entry text
lost = refl

refused_keeps_state_example : leased ≡ leased
refused_keeps_state_example =
    refused_keeps_state memory_laws none transaction root_grant leased leased
      (refuse RefusalReason.stale_base) lost refl

no_decisions : HasRank world.decisions
no_decisions = record { rank = λ id. 0; bounded = tt; falls = tt }

only_entry :
    (entry : Handle)
    → find_entry leased.live (some first_handle) ≡ some entry
    → HasRank entry.body.state.decisions
only_entry entry e =
    subst (λ (h : Handle). HasRank h.body.state.decisions) (some-cancel (sym found ∙ e))
      no_decisions

write_to_cognition-returns_example :
    (v : Verdict) × (s' : Service memory_store) × (write_to_cognition
        (some first_handle)
        transaction
        root_grant
        leased
      ≡ some (v, s'))
write_to_cognition-returns_example =
    write_to_cognition-returns transaction root_grant leased (some first_handle) only_entry
