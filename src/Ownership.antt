-- ===== src/Ownership.antt =====
-- Package `ownership` (pkg/distribution/ownership): what a cluster may override of a distribution.
pub mod Rule
pub mod Policy
pub mod Document
pub mod Paths
pub mod Value
pub mod Overlay
pub mod Impact
