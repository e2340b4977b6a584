-- ===== src/Bom.antt =====
-- Package `bom` (pkg/distribution/bom): bills of materials and their release channels.
pub mod Channel
pub mod Types
pub mod Validate
pub mod Laws
pub mod Resolve
pub mod Derive
