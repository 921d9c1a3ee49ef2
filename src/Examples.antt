-- ===== src/Examples.antt =====
-- The theorems at concrete inputs, with a small port of qiven-foundation.
pub mod Port
pub mod World
pub mod Codecs
pub mod Stores
pub mod Transactions
pub mod Writes
pub mod Leases
pub mod Cycles
pub mod Retries
pub mod Reads
pub mod Participants
pub mod Sessions
pub mod Trials
