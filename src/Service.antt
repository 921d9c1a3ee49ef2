-- ===== src/Service.antt =====
-- `QivenContext` of include/qiven/context/persistence.hpp and src/persistence.cpp: the gated service.
pub mod State
pub mod Lifetime
pub mod Write
pub mod Inversion
pub mod Outcomes
pub mod Permits
pub mod Gates
pub mod Receipts
pub mod Publication
pub mod Live
pub mod Steps
pub mod Changes
pub mod Reach
pub mod Lease
pub mod Chain
pub mod Returns
pub mod Answered
pub mod Recorded
pub mod Orderly
