-- ===== src/State.antt =====
-- Package `state` (pkg/distribution/state): the applied revision of a cluster, its checks, and the
-- operations on the file that holds it.
pub mod Types
pub mod Validate
pub mod History
pub mod Conditions
pub mod Host
pub mod Document
pub mod Store
pub mod Lifecycle
