-- ===== src/Runtime/Session.antt =====
-- The session state of `LLM` (include/qiven/context/runtime.hpp).
use qiven_context_draft.Prelude.{ℕ, List, Option, Text, text}
use qiven_context_draft.Cognition.Policy.{RefusalReason}
use qiven_context_draft.Cognition.Records.{RevisionId, Snapshot}
use qiven_context_draft.Transaction.Types.{ContextTransaction}
use qiven_context_draft.Service.State.{CognitionHandle}

pub record EvidenceGap : Type 0 where
  pub what : Text
  pub why_unknown : Text

pub data CheckpointTrigger : Type 0 where
  turn_boundary material_transaction async_exit session_close : CheckpointTrigger

-- In seconds.
pub record TurnBudget : Type 0 where
  pub soft : ℕ
  pub hard : ℕ

pub record SessionCheckpoint : Type 0 where
  pub session_id : Text
  pub exact_task : Text
  pub accepted_refs : List RevisionId
  pub unaccepted_candidates : List RevisionId
  pub evidence_gaps : List EvidenceGap
  pub known_gaps : Text
  pub next_action : Text
  pub last_trigger : CheckpointTrigger
  pub serving_disclosure : Text

-- The query builder is left out: what it returns only goes to a read whose result is dropped.
pub record Llm : Type 0 where
  pub name : Text
  pub turn_budget : TurnBudget
  pub cognition : CognitionHandle
  pub delta_generator : Option (Text → Snapshot → ContextTransaction)
  pub checkpoint : SessionCheckpoint
  pub parked_deltas : List ContextTransaction

-- `refusalName`
unfoldable pub refusal_name : RefusalReason → Text
refusal_name RefusalReason.grant_refused = text "grant-refused"
refusal_name RefusalReason.unverified_actor = text "unverified-actor"
refusal_name RefusalReason.stale_base = text "stale-base"
refusal_name RefusalReason.handoff_missing = text "handoff-missing"
refusal_name RefusalReason.handoff_invalid = text "handoff-invalid"
refusal_name RefusalReason.unattended_mutation = text "unattended-mutation"
refusal_name RefusalReason.invariant_failed = text "invariant-failed"
refusal_name RefusalReason.governance_denied = text "governance-denied"
refusal_name RefusalReason.store_diverged = text "store-diverged"
refusal_name RefusalReason.outcome_unresolved = text "outcome-unresolved"
refusal_name RefusalReason.key_conflict = text "key-conflict"
refusal_name RefusalReason.conflict_unresolved = text "unknown"
