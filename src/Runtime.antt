-- ===== src/Runtime.antt =====
-- The cognitive runtime (include/qiven/context/runtime.hpp, src/runtime.cpp): the work cycle of a
-- participant, and the invocation of tools.
pub mod Session
pub mod Cycle
pub mod Lease
pub mod Returns
pub mod Parking
pub mod Invocation
pub mod Tools
pub mod Failures
pub mod Retries
pub mod Packet
pub mod Evidence
pub mod Recall
pub mod Participants
pub mod Continuity
pub mod Generator
pub mod Cycles
