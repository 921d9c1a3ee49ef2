-- ===== src/Service/Write.antt =====
-- `QivenContext::write_to_cognition` (src/persistence.cpp): the gated write.
use qiven_context_draft.Prelude.{
  ◌+◌, Bool, true, not, ◌&&◌, ◌||◌, List, [], ◌∷◌, Option, none, some, Text, ◌==◌, nat_eq, list_eq,
  is_empty, if◌then◌else◌,
}
use qiven_context_draft.Foundation.{Foundation}
use qiven_context_draft.Cognition.Policy.{RefusalReason}
use qiven_context_draft.Cognition.Records.{RevisionId, Snapshot, revision_eq, grant_eq}
use qiven_context_draft.Codec.Encode.{serialize_snapshot}
use qiven_context_draft.Store.Contract.{CognitionStore, ReceiptKind, StoreReceipt}
use qiven_context_draft.Transaction.Types.{
  AuthenticatedActor, WorkMode, ContextTransaction, work_mode_eq,
}
use qiven_context_draft.Transaction.Digest.{draft_snapshot_digest, request_digest_of}
use qiven_context_draft.Transaction.Check.{
  Check, passed, refused, endless, ◌then_check◌, refuse_if, each,
}
use qiven_context_draft.Transaction.Handoff.{check_policy, check_conflicts}
use qiven_context_draft.Transaction.Invariants.{check_invariants}
use qiven_context_draft.Transaction.Apply.{apply_all, check_boundary}
use qiven_context_draft.Service.State.{
  QuarantineState, quarantine_state_eq, Handle, CognitionHandle, Verdict, VerdictOutcome, refuse,
  Receipt, Verifier, Service, ExecutionGrant, find_entry, replace_live, canonical_head,
}

unfoldable pub find_receipt : List (Text × Receipt) → Text → Option Receipt
find_receipt [] key = none
find_receipt ((k, r) ∷ rest) key = if k == key then some r else find_receipt rest key

-- `g_receipts[key] = receipt`
unfoldable pub put_receipt : List (Text × Receipt) → Text → Receipt → List (Text × Receipt)
put_receipt [] key receipt = (key, receipt) ∷ []
put_receipt ((k, r) ∷ rest) key receipt =
    if k == key then (key, receipt) ∷ rest else (k, r) ∷ put_receipt rest key receipt

abbrev pub Written : CognitionStore → Type 0
Written S = Option (Verdict × Service S)

abbrev pub answer : Receipt → Text → Verdict
answer receipt digest =
    if receipt.request_digest == digest then receipt.outcome else refuse RefusalReason.key_conflict

abbrev pub rejects : Option Verifier → AuthenticatedActor → Snapshot → Bool
rejects none actor governance = true
rejects (some verify) actor governance = not (verify actor governance)

module _ ⦃F : Foundation⦄ {S : CognitionStore} where
  -- A gate that refuses leaves the service as it is; `none` is a call that does not return.
  abbrev pub on_pass : Check → Service S → Written S → Written S
  on_pass passed s next = next
  on_pass (refused reason) s next = some (refuse reason, s)
  on_pass endless s next = none

  -- The idempotency gate: the verdict that a key with a receipt resolves to.
  unfoldable pub replayed : ContextTransaction → Service S → Option Verdict
  replayed transaction s =
      if is_empty transaction.idempotency_key
      then none
      else elim (find_receipt s.receipts transaction.idempotency_key) [
        | none ↦ none
        | some receipt ↦ some (answer receipt (request_digest_of transaction))
      ]

  unfoldable pub remember : ContextTransaction → Verdict → Service S → Service S
  remember transaction verdict s = if is_empty transaction.idempotency_key then s else record s {
    receipts =
        put_receipt s.receipts transaction.idempotency_key
          (record { request_digest = request_digest_of transaction; outcome = verdict });
  }

  unfoldable pub check_entry : Handle → ExecutionGrant → Service S → Check
  check_entry entry grant s =
      refuse_if (not (entry.body.quarantine == QuarantineState.promoted))
        RefusalReason.governance_denied
      then_check refuse_if (is_empty s.active_grant.value || not (s.active_grant == grant.id))
          RefusalReason.grant_refused

  unfoldable pub check_request :
      Handle → ContextTransaction → ExecutionGrant → Service S → Snapshot → Check
  check_request entry transaction grant s governance =
      refuse_if (rejects s.identity s.grant_actor governance) RefusalReason.unverified_actor
      then_check refuse_if
          (grant.mode == WorkMode.unattended && not (is_empty transaction.operations))
          RefusalReason.unattended_mutation
      then_check refuse_if (not (transaction.base == entry.body.revision)) RefusalReason.stale_base

  -- Gates 6 to 9, each over the whole transaction before anything is stored.
  unfoldable pub check_operations : Handle → ContextTransaction → Service S → Snapshot → Check
  check_operations entry transaction s governance =
      let current = entry.body.state in
      each
        (check_policy s.grant_actor.binding governance.governance.root_principal transaction
          current.policy.handoff)
        transaction.operations
      then_check each (check_conflicts current.conflicts) transaction.operations
      then_check each (check_invariants current) transaction.operations
      then_check check_boundary
          (apply_all transaction.handoff_evidence_ref transaction.operations current)

  -- The successor materialization, under a fresh address.
  abbrev pub successor_of : Handle → Snapshot → RevisionId → Service S → Handle
  successor_of entry next revision s = record {
    address = s.next_address;
    body = record {
      state = next;
      digest = draft_snapshot_digest (serialize_snapshot next);
      revision = revision;
      epoch = entry.body.epoch;
      quarantine = entry.body.quarantine;
    };
  }

  abbrev pub published : Handle → Handle → Service S → Service S
  published entry successor s = record s {
    live = replace_live s.live entry.address successor;
    next_address = s.next_address + 1;
  }

  unfoldable pub settle :
      Handle → ContextTransaction → Snapshot → StoreReceipt → Service S → Verdict × Service S
  settle entry transaction next receipt s = elim receipt.kind [
    | ReceiptKind.compare_failed ↦ (refuse RefusalReason.store_diverged, s)
    | ReceiptKind.outcome_unknown ↦
        let unknown : Verdict = record {
          outcome = VerdictOutcome.outcome_unknown;
          reason = RefusalReason.outcome_unresolved;
          successor = none;
        } in
        (unknown, remember transaction unknown s)
    | ReceiptKind.committed ↦
        let successor = successor_of entry next receipt.revision s in
        let applied : Verdict = record {
          outcome = VerdictOutcome.applied;
          reason = RefusalReason.store_diverged;
          successor = some successor;
        } in
        (applied, remember transaction applied (published entry successor s))
  ]

  unfoldable pub commit :
      Handle → ContextTransaction → Snapshot → S.State → Service S → Verdict × Service S
  commit entry transaction next store s =
      let (receipt, store') =
        S.compare_and_swap entry.body.revision (serialize_snapshot next) store in
      settle entry transaction next receipt (record s { store = some store' })

  abbrev pub commit_onto :
      Option S.State → Handle → ContextTransaction → Snapshot → Service S → Written S
  commit_onto none entry transaction next s = none
  commit_onto (some store) entry transaction next s = some (commit entry transaction next store s)

  -- An empty transaction is an ordinary turn: applied, and nothing stored. A service whose canonical
  -- head is readable has a store.
  unfoldable pub write_operations : Handle → ContextTransaction → Service S → Snapshot → Written S
  write_operations entry transaction s governance =
      if is_empty transaction.operations
      then some (
        record {
          outcome = VerdictOutcome.applied;
          reason = RefusalReason.store_diverged;
          successor = some entry;
        },
        s,
      )
      else on_pass (check_operations entry transaction s governance) s (
          commit_onto s.store entry transaction
            (apply_all transaction.handoff_evidence_ref transaction.operations entry.body.state) s)

  unfoldable pub write_governed :
      Handle → ContextTransaction → ExecutionGrant → Service S → Option Snapshot → Written S
  write_governed entry transaction grant s none = some (refuse RefusalReason.unverified_actor, s)
  write_governed entry transaction grant s (some governance) =
      on_pass (check_request entry transaction grant s governance) s
        (write_operations entry transaction s governance)

  unfoldable pub write_entry :
      Option Handle → ContextTransaction → ExecutionGrant → Service S → Written S
  write_entry none transaction grant s = some (refuse RefusalReason.stale_base, s)
  write_entry (some entry) transaction grant s =
      on_pass (check_entry entry grant s) s
        (write_governed entry transaction grant s (canonical_head s))

  unfoldable pub write_to_cognition :
      CognitionHandle → ContextTransaction → ExecutionGrant → Service S → Written S
  write_to_cognition handle transaction grant s = elim (replayed transaction s) [
    | some verdict ↦ some (verdict, s)
    | none ↦ write_entry (find_entry s.live handle) transaction grant s
  ]
