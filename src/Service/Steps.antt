-- ===== src/Service/Steps.antt =====
-- The operations of `QivenContext` (src/persistence.cpp) as steps between services.
use qiven_context_draft.Prelude.{◌≡◌, [], Option, none, some, nat_eq, list_eq}
use qiven_context_draft.Foundation.{Foundation}
use qiven_context_draft.Cognition.Records.{grant_eq}
use qiven_context_draft.Store.Contract.{CognitionStore}
use qiven_context_draft.Transaction.Types.{ContextTransaction, AuthenticatedActor, WorkMode}
use qiven_context_draft.Service.State.{
  quarantine_state_eq, CognitionHandle, Verdict, Verifier, Service, ExecutionGrant, no_grant,
  no_actor,
}
use qiven_context_draft.Service.Lifetime.{
  CognitionSource, attach_store, attach_identity_verifier, create_cognition, acquire_grant,
  release_grant, retire_cognition, verify_restored, promote_authority,
}
use qiven_context_draft.Service.Write.{write_to_cognition}
use qiven_context_draft.Service.Live.{AreSound, Change}

-- A service as `QivenContext` is constructed.
abbrev pub new_service : (S : CognitionStore) → Service S
new_service S = record {
  epoch = 0;
  store = none;
  identity = none;
  live = [];
  active_grant = no_grant;
  grant_actor = no_actor;
  receipts = [];
  grant_generation = 0;
  next_address = 0;
}

module _ {S : CognitionStore} where
  abbrev pub Changes : Service S → Service S → Type 0
  Changes s s' = Change s.live s.next_address s'.live s'.next_address

  abbrev pub IsSound : Service S → Type 0
  IsSound s = AreSound s.live s.next_address

module _ ⦃F : Foundation⦄ {S : CognitionStore} where
  pub data Step : Service S → Service S → Type 0 where
    attached : (store : Option S.State) (s : Service S) → Step s (attach_store store s)
    identified :
        (verifier : Option Verifier) (s : Service S) → Step s (attach_identity_verifier verifier s)
    started : (source : CognitionSource) (s : Service S) → Step s (create_cognition source s).1
    acquired :
        (actor : AuthenticatedActor) (mode : WorkMode) (s : Service S)
        → Step s (acquire_grant actor mode s).1
    released : (grant : ExecutionGrant) (s : Service S) → Step s (release_grant grant s)
    verified :
        (handle : CognitionHandle) (actor : AuthenticatedActor) (s : Service S)
        → Step s (verify_restored handle actor s).1
    promoted :
        (handle : CognitionHandle) (actor : AuthenticatedActor) (s : Service S)
        → Step s (promote_authority handle actor s).1
    written :
        (handle : CognitionHandle) (transaction : ContextTransaction) (grant : ExecutionGrant)
        (s s' : Service S) (v : Verdict)
        → write_to_cognition handle transaction grant s ≡ some (v, s')
        → Step s s'
    retired : (handle : CognitionHandle) (s : Service S) → Step s (retire_cognition handle s).1

  pub data Reachable : Service S → Type 0 where
    fresh : Reachable (new_service S)
    then_step : {s s' : Service S} → Reachable s → Step s s' → Reachable s'
