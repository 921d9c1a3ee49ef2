-- ===== src/Examples/Leases.antt =====
-- The lease and quarantine theorems at the small cognition.
use qiven_context_draft.Prelude.{◌≡◌, ◌≢◌, refl, none, some, text, list_beq, to_decimal, ne_of_beq}
use qiven_context_draft.Cognition.Policy.{RefusalReason}
use qiven_context_draft.Cognition.Records.{grant_eq}
use qiven_context_draft.Store.Memory.{memory_store}
use qiven_context_draft.Transaction.Types.{WorkMode}
use qiven_context_draft.Service.State.{
  Service, ExecutionGrant, refuse, root_principal_verifier, canonical_head, head_snapshot,
  find_canonical,
}
use qiven_context_draft.Service.Lifetime.{acquire_grant, release_grant, promote_authority, grant_of}
use qiven_context_draft.Service.Write.{replayed, find_receipt, write_to_cognition}
use qiven_context_draft.Service.Lease.{
  acquire_grant-exclusive, stale_grant-refused, write_to_cognition-foreign,
}
use qiven_context_draft.Service.Steps.{IsSound, Reachable, then_step, written}
use qiven_context_draft.Service.Answered.{AreAnswered}
use qiven_context_draft.Service.Recorded.{Reachable-AreAnswered}
use qiven_context_draft.Service.Reach.{Reachable-IsSound, promote_authority-never}
use qiven_context_draft.Examples.Port.{plain, plain_laws}
use qiven_context_draft.Examples.World.{
  first_handle, root, booted, leased, leased_by, root_grant, leased-Reachable,
}
use qiven_context_draft.Examples.Writes.{transaction, after, applied, wrote}

acquire_grant-exclusive_example : acquire_grant root WorkMode.unattended leased ≡ (none, leased)
acquire_grant-exclusive_example =
    acquire_grant-exclusive root root WorkMode.supervised_foreground WorkMode.unattended booted
      leased root_grant leased_by

abbrev next_grant : ExecutionGrant
next_grant = record root_grant { id = grant_of 2 }

abbrev leased_again : Service memory_store
leased_again = record leased { active_grant = grant_of 2; grant_generation = 2 }

leased_again_by :
    acquire_grant root WorkMode.supervised_foreground (release_grant root_grant leased)
    ≡ (some next_grant, leased_again)
unfolding acquire_grant release_grant canonical_head head_snapshot find_canonical
    root_principal_verifier text list_beq to_decimal
leased_again_by = refl

first_time : replayed transaction leased_again ≡ none
unfolding replayed find_receipt text
first_time = refl

stale_grant-refused_example :
    (reason : RefusalReason) × (write_to_cognition
        (some first_handle)
        transaction
        root_grant
        leased_again
      ≡ some (refuse reason, leased_again))
stale_grant-refused_example =
    stale_grant-refused root root WorkMode.supervised_foreground WorkMode.supervised_foreground
      booted leased leased_again root_grant next_grant (some first_handle) transaction leased_by
      leased_again_by first_time

foreign : leased_again.active_grant ≢ root_grant.id
unfolding text to_decimal list_beq
foreign = ne_of_beq leased_again.active_grant root_grant.id refl

write_to_cognition-foreign_example :
    (reason : RefusalReason) × (write_to_cognition
        (some first_handle)
        transaction
        root_grant
        leased_again
      ≡ some (refuse reason, leased_again))
write_to_cognition-foreign_example =
    write_to_cognition-foreign (some first_handle) transaction root_grant leased_again first_time
      foreign

Reachable-IsSound_example : IsSound leased
Reachable-IsSound_example = Reachable-IsSound leased leased-Reachable

-- The service after the first write, with one recorded verdict.
after-Reachable : Reachable after
after-Reachable =
    then_step leased-Reachable
      (written (some first_handle) transaction root_grant leased after applied wrote)

Reachable-AreAnswered_example : AreAnswered after.receipts
Reachable-AreAnswered_example = Reachable-AreAnswered after after-Reachable

promote_authority-never_example :
    let (handed_out, s') = promote_authority (some first_handle) root leased in
    (handed_out ≡ none)
    × (s'.live ≡ leased.live)
    × (s'.store ≡ leased.store)
    × (s'.active_grant ≡ leased.active_grant)
promote_authority-never_example =
    promote_authority-never (some first_handle) root leased leased-Reachable
