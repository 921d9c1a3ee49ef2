-- ===== src/Transaction/Digest.antt =====
-- The content identities of src/persistence.cpp: of state bytes, of ordered operations, and of a
-- whole request.
use qiven_context_draft.Prelude.{List, ◌++◌, Option, none, some, Text, text}
use qiven_context_draft.Foundation.{Bytes, Foundation}
use qiven_context_draft.Cognition.Records.{SnapshotDigest}
use qiven_context_draft.Codec.Writer.{put_u8, put_i64, put_str, put_enum, put_each}
use qiven_context_draft.Transaction.Types.{
  Operation, H2Evidence, ContextTransaction, operation_kind_enum,
}

-- The ordered fields of the operations, with no count before them.
unfoldable pub put_operation : Operation → Bytes
put_operation operation =
    put_enum operation.kind
    ++ (put_i64 operation.record_id
        ++ (put_i64 operation.successor_record_id
            ++ (put_u8 operation.aux
                ++ (put_str operation.scope
                    ++ (put_str operation.title
                        ++ (put_str operation.payload ++ put_str operation.provenance_ref))))))

unfoldable pub put_h2 : Option H2Evidence → Bytes
put_h2 none = put_u8 0
put_h2 (some h2) =
    put_u8 1
    ++ (put_str h2.reviewed_delta_digest
        ++ (put_str h2.reviewer ++ (put_str h2.reviewer_binding ++ put_str h2.review_ref)))

module _ ⦃F : Foundation⦄ where
  unfoldable pub draft_content_id : Bytes → Text
  draft_content_id state_bytes = text "draft-" ++ F.to_hex_u64 (F.fnv1a64 state_bytes)

  unfoldable pub draft_snapshot_digest : Bytes → SnapshotDigest
  draft_snapshot_digest state_bytes = record {
    value = text "snap-" ++ F.to_hex_u64 (F.fnv1a64 state_bytes);
  }

  unfoldable pub digest_operations : List Operation → Text
  digest_operations operations = draft_content_id (put_each put_operation operations)

  unfoldable pub request_digest_of : ContextTransaction → Text
  request_digest_of transaction = draft_content_id (
      put_str transaction.base.value
      ++ (put_str (digest_operations transaction.operations)
          ++ (put_str transaction.handoff_evidence_ref ++ put_h2 transaction.h2)))
