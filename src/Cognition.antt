-- ===== src/Cognition.antt =====
-- include/qiven/context/cognition.hpp: the snapshot value tree and the policy data.
pub mod Policy
pub mod Lifecycles
pub mod Control
pub mod Records
pub mod Defaults
