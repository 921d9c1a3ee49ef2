-- ===== src/Store.antt =====
-- The store contract of include/qiven/context/persistence.hpp.
pub mod Contract
pub mod Memory
pub mod History
pub mod Laws
