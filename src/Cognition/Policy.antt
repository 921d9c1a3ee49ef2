-- ===== src/Cognition/Policy.antt =====
-- The enumerations of the authority policy (include/qiven/context/cognition.hpp): roles, handoffs,
-- refusal reasons and recovery actions.
pub mod Roles
pub mod Refusals
pub use Roles.*
pub use Refusals.*
