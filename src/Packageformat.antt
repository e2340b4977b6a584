-- ===== src/Packageformat.antt =====
-- Package `packageformat` (pkg/distribution/packageformat): the manifest of a component package.
pub mod Types
pub mod Validate
pub mod Laws
