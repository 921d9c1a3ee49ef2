-- ===== src/Transaction.antt =====
-- Transactions: what a write proposes, the gates that it passes, and the snapshot that it yields
-- (include/qiven/context/persistence.hpp, src/persistence.cpp).
pub mod Types
pub mod Digest
pub mod Find
pub mod Check
pub mod Handoff
pub mod ViewRefs
pub mod Invariants
pub mod Apply
pub mod Chains
pub mod KeptViews
pub mod Ledger
pub mod Supersession
pub mod Orderly
pub mod Successions
