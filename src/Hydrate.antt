-- ===== src/Hydrate.antt =====
-- Package `hydrate` (pkg/distribution/hydrate): from a bill of materials to the plan of its components.
pub mod Steps
pub mod Order
pub mod Dependencies
pub mod Plan
pub mod PolicySelection
