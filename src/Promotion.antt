-- ===== src/Promotion.antt =====
-- Package `promotion` (pkg/distribution/promotion/policy.go): whether a candidate revision may move
-- to a release channel.
pub mod Types
pub mod Policy
pub mod Evaluate
