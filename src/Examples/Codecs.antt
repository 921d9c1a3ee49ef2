-- ===== src/Examples/Codecs.antt =====
-- The codec theorems at the small cognition.
use qiven_context_draft.Prelude.{ℕ, zero, suc, ◌≡◌, ◌≢◌, [], ◌∷◌, ◌++◌, refl, arith}
use qiven_context_draft.Foundation.{Bytes}
use qiven_context_draft.Codec.Encode.{serialize_snapshot}
use qiven_context_draft.Cognition.Records.{Snapshot}
use qiven_context_draft.Codec.Decode.{
  deserialize, get_snapshot, unsupported, get_body, get_policy, get_state, get_invocation,
}
use qiven_context_draft.Codec.Reader.{
  ok, fault, ◌>>=◌, pure, take, front, value, u8, u32, str, many, string_vector, capped_count,
  at_most, times,
}
use qiven_context_draft.Codec.Fits.{restored}
use qiven_context_draft.Codec.RoundTrip.{deserialize-serialize_snapshot}
use qiven_context_draft.Codec.Acceptance.{deserialize-prefix_free}
use qiven_context_draft.Codec.Totality.{AreBytes}
use qiven_context_draft.Codec.Canonical.{deserialize-total, deserialize-rewritten}
use qiven_context_draft.Examples.Port.{plain, plain_laws}
use qiven_context_draft.Examples.World.{world, first_state, world-Fits, world_restored}

deserialize-serialize_snapshot_example :
    deserialize (serialize_snapshot world) ≡ ok (restored world)
deserialize-serialize_snapshot_example = deserialize-serialize_snapshot world world-Fits

deserialize-prefix_free_example : deserialize (serialize_snapshot world ++ 8 ∷ []) ≢ ok world
deserialize-prefix_free_example =
    deserialize-prefix_free (serialize_snapshot world) 8 [] world world world_restored

-- A version that is too new, with a byte behind it.
abbrev newer : Bytes
newer = 9 ∷ 0 ∷ []

newer-AreBytes : AreBytes newer
newer-AreBytes = (omega arith, (omega arith, tt))

deserialize-total_example : deserialize newer ≢ fault
deserialize-total_example = deserialize-total newer newer-AreBytes

abbrev zeros : ℕ → Bytes
zeros zero = []
zeros (suc n) = 0 ∷ zeros n

zeros-AreBytes : (n : ℕ) → AreBytes (zeros n)
zeros-AreBytes zero = tt
zeros-AreBytes (suc n) = (omega arith, zeros-AreBytes n)

-- Version 6 of a cognition with nothing in it.
abbrev old : Bytes
old = 6 ∷ zeros 76

old-AreBytes : AreBytes old
old-AreBytes = (omega arith, zeros-AreBytes 76)

abbrev nothing : Snapshot
nothing = record world {
  governance = record { root_principal = [] };
  policy = record { handoff = []; recovery = [] };
  state = record first_state { next_boundary_ref = [] };
  obligations = [];
}

old_read : deserialize old ≡ ok nothing
unfolding deserialize get_snapshot unsupported get_body get_policy get_state get_invocation ◌>>=◌
    pure take front value u8 u32 str many string_vector capped_count at_most times
old_read = refl

deserialize-rewritten_example : deserialize (serialize_snapshot nothing) ≡ ok nothing
deserialize-rewritten_example = deserialize-rewritten old nothing old-AreBytes old_read
