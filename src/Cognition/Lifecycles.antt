-- ===== src/Cognition/Lifecycles.antt =====
-- The enumerations of the records (include/qiven/context/cognition.hpp): lifecycles, epistemic
-- types, statuses and triggers. Nested enumerations carry the name of their struct.
pub mod Sources
pub mod Memories
pub use Sources.*
pub use Memories.*
