-- ===== src/Service/Reach.antt =====
-- What every service that the operations of src/persistence.cpp reach keeps.
use qiven_context_draft.Prelude.{
  ◌≡◌, inl, inr, refl, not, Bool-cases, Option, none, some, nat_eq, list_eq, beq_of_ne,
}
use qiven_context_draft.Foundation.{Foundation}
use qiven_context_draft.Cognition.Records.{grant_eq}
use qiven_context_draft.Store.Contract.{CognitionStore}
use qiven_context_draft.Transaction.Types.{AuthenticatedActor}
use qiven_context_draft.Service.State.{
  QuarantineState, quarantine_state_eq, Handle, CognitionHandle, Service, find_entry,
  or_root_verifier, accepts, canonical_head,
}
use qiven_context_draft.Service.Lifetime.{requarantine, governed_step, promote_authority}
use qiven_context_draft.Service.Live.{IsSettled, Change-AreSound, find_live-All}
use qiven_context_draft.Service.Steps.{Reachable, fresh, then_step, IsSound}
use qiven_context_draft.Service.Changes.{Step-Changes}

module _ ⦃F : Foundation⦄ {S : CognitionStore} where
  -- In every service that its operations reach, the live handles have different addresses, all below
  -- the next one, and none of them awaits authority.
  pub Reachable-IsSound : (s : Service S) → Reachable s → IsSound s
  Reachable-IsSound _ fresh = record { below = tt; apart = tt; settled = tt }
  Reachable-IsSound _ (then_step {s} {s'} r step) =
      Change-AreSound s.live s'.live s.next_address s'.next_address (Step-Changes s s' step)
        (Reachable-IsSound s r)

  find_entry-IsSettled :
      (handle : CognitionHandle) (s : Service S) (entry : Handle)
      → IsSound s
      → find_entry s.live handle ≡ some entry
      → IsSettled entry
  unfolding find_entry
  find_entry-IsSettled none s entry sound e = absurd (cc)
  find_entry-IsSettled (some handle) s entry sound e =
      find_live-All IsSettled s.live handle.address entry sound.settled e

  not_due :
      (o : Option Handle) (s : Service S)
      → ((entry : Handle) → o ≡ some entry → IsSettled entry)
      → requarantine QuarantineState.authority_pending QuarantineState.promoted o s ≡ (none, s)
  not_due none s h = refl
  not_due (some entry) s h =
      rw (beq_of_ne entry.body.quarantine QuarantineState.authority_pending (h entry refl))

  -- No operation brings a handle to `AuthorityPending`, so that in every reachable service a
  -- promotion hands out no handle, and leaves the live handles, the store and the lease as they are.
  pub promote_authority-never :
      (handle : CognitionHandle) (actor : AuthenticatedActor) (s : Service S)
      → Reachable s
      → let (handed_out, s') = promote_authority handle actor s in
        (handed_out ≡ none)
        × (s'.live ≡ s.live)
        × (s'.store ≡ s.store)
        × (s'.active_grant ≡ s.active_grant)
  unfolding promote_authority governed_step
  promote_authority-never handle actor s r =
      elim (Bool-cases (not (accepts (or_root_verifier s.identity) actor (canonical_head s)))) [
        | inl refused ↦ rw refused (refl, refl, refl, refl)
        | inr accepted ↦
            rw
              (
                accepted,
                not_due (find_entry s.live handle)
                    (record s { identity = some (or_root_verifier s.identity) })
                    (λ entry e. find_entry-IsSettled handle s entry (Reachable-IsSound s r) e),
              )
              (refl, refl, refl, refl)
      ]
