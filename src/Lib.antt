-- ===== src/Lib.antt =====
-- A model of qiven-context-draft: a cognition (a snapshot of decisions, memory, obligations and the
-- rules that govern them) that is kept in a store of revisions and changed only through one gated write.
--
-- Parts, and the files that model them:
-- Cognition: the value tree of include/qiven/context/cognition.hpp (`Snapshot` and all that it
-- holds), `makeConstitution`, `makeDefaultPolicy`, `makeGenesis` and the role and invocation
-- defaults. An `enum class` is a data type with its underlying value (`Prelude.Tests.Enum`).
-- Codec: `serializeImpl`, `deserializeImpl` and `Reader` of src/persistence.cpp. Bytes are natural
-- numbers; a writer returns the bytes that it appends, a reader takes a cursor and returns a value
-- and a cursor, an error, or `fault` where the source would take the value of an empty optional.
-- `Codec.Fits` says which snapshots the format holds, and what it drops.
-- Store: `ICognitionStore` as a record of operations (Store.Contract) with the laws that its clients
-- rely on (Laws), and `MemoryStore` (Memory, History), which fills them.
-- Transaction: operations, digests, gates 6 to 9 of `write_to_cognition` (Handoff, Invariants,
-- ViewRefs, Apply), and what the operations keep of a snapshot (Ledger, KeptViews) and of its supersession
-- chains (Supersession, Orderly, Successions). The recursion of
-- `reachesDecision` has no bound in the source. The model gives it one more step than there are
-- decisions and has a third outcome, `endless`, beyond that; that much fuel is enough on every
-- snapshot whose supersession chains are ranked (Transaction.Chains).
-- Service: `QivenContext`. `Service.State.Service` is its static state, a handle is an address and
-- the materialization behind it, Service.Write is `write_to_cognition`, Service.Lifetime every other
-- operation that changes state, Service.Steps the relation that they make. The service is a section
-- parameter away from its store: it calls the operations of a `CognitionStore`, of which
-- `memory_store` is one. `none` as the result of a write is a call that does not return.
-- Read: the read side of `QivenContext`: `resolve_view` (Views), `build_bundle` (Bundle),
-- `RenderBundle` (Render) and `read_from_cognition` (Artifact). An exception of `std::stoll` is
-- `none`. The sum of a bundle's costs wraps at 2 ^ 64.
-- Runtime: `LLM::work` and `LLM::work_impl` of src/runtime.cpp over the service (Session, Cycle),
-- one cycle after another (Generator, Cycles), and
-- the requirements, readiness and tool contracts (Invocation), the preparation packet (Packet), the
-- texts of failures and the rule on retries (Failures) and the participants down to the work cycle
-- (Participants) of include/qiven/context/runtime.hpp, with `is_continueable` of
-- src/persistence.cpp. A pointer is an address and what stands behind it.
-- The clock is an argument, the seconds that a turn took; the delta generator is a function.
-- Trial: the artifact file of apps/artifact_trial.cpp and its mode `verify` (Artifact), with the
-- members of `std::string` and `std::istream` that this uses (Strings). A file is its text.
-- Foundation: the cursor, the little-endian decoders and the hash functions of qiven-foundation,
-- which is not part of the repository, as parameters, with the laws that the code relies on.
-- Examples: each theorem at a concrete input.
--
-- 64-bit epochs and grant generations wrap at 2 ^ 64, lengths are cast to 32 bits where the source
-- does, and an id is a signed 64-bit integer over `Prelude.Int.ℤ`. The admission mutex makes every
-- operation one step. An address is never used twice, as a handle keeps what it points to.
--
-- Not modelled: `GitStore`, of which the repository has a sketch, what is reported to the allocation
-- observer, the run of the producer in apps/artifact_trial.cpp, the program
-- apps/cognition_loop.cpp, printing and file streams, and the tests.
pub mod Prelude
pub mod Foundation
pub mod Cognition
pub mod Codec
pub mod Store
pub mod Transaction
pub mod Service
pub mod Read
pub mod Runtime
pub mod Trial
pub mod Examples
