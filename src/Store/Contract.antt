-- ===== src/Store/Contract.antt =====
-- `StoreReceipt` and `ICognitionStore` of include/qiven/context/persistence.hpp.
use qiven_context_draft.Prelude.{Bool}
use qiven_context_draft.Foundation.{Bytes}
use qiven_context_draft.Cognition.Records.{RevisionId}

pub data ReceiptKind : Type 0 where
  committed compare_failed outcome_unknown : ReceiptKind

pub record StoreReceipt : Type 0 where
  pub kind : ReceiptKind
  pub revision : RevisionId

-- A store is its state and the four operations; `compare_and_swap` returns the state it leaves.
pub record CognitionStore : Type 1 where
  pub State : Type 0
  pub compare_and_swap : RevisionId → Bytes → State → StoreReceipt × State
  pub materialize : State → RevisionId → Bytes
  pub verify : State → RevisionId → Bool
  pub head : State → RevisionId
