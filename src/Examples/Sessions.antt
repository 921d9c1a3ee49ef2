-- ===== src/Examples/Sessions.antt =====
-- A session of two work cycles over the small cognition, each of which proposes a memory record.
use qiven_context_draft.Prelude.{◌≡◌, [], ◌∷◌, some, text, arith}
use qiven_context_draft.Store.Memory.{memory_store}
use qiven_context_draft.Transaction.Types.{WorkMode}
use qiven_context_draft.Transaction.Supersession.{retired_count}
use qiven_context_draft.Transaction.Successions.{supersessions}
use qiven_context_draft.Service.State.{Service}
use qiven_context_draft.Runtime.Session.{Llm}
use qiven_context_draft.Runtime.Cycle.{proposed}
use qiven_context_draft.Runtime.Generator.{IsModest}
use qiven_context_draft.Runtime.Cycles.{Request, cycles, IsRunning, cycles-return}
use qiven_context_draft.Examples.Port.{plain}
use qiven_context_draft.Examples.World.{root, booted, booted-Reachable}
use qiven_context_draft.Examples.Cycles.{mover}

abbrev request : Request
request = record {
  elapsed = 1;
  prompt = text "go";
  actor = root;
  mode = WorkMode.supervised_foreground;
}

booted-IsRunning : IsRunning booted
unfolding retired_count
booted-IsRunning = record {
  reachable = booted-Reachable;
  orderly = (record { rank = λ id. 0; low = λ id. omega arith; chained = tt }, tt);
}

mover-IsModest : IsModest mover
unfolding proposed supersessions
mover-IsModest prompt handle = omega arith

cycles-return_example :
    (llm' : Llm) × (s' : Service memory_store) × (cycles (request ∷ request ∷ []) mover booted
      ≡ some (llm', s'))
    × IsRunning s'
cycles-return_example =
    cycles-return (request ∷ request ∷ []) mover booted booted-IsRunning mover-IsModest
