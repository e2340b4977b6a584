-- ===== src/Localrepo.antt =====
-- Package `localrepo` (pkg/distribution/localrepo): the local patches of a cluster.
pub mod Compatibility
