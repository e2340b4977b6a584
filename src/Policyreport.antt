-- ===== src/Policyreport.antt =====
-- Package `policyreport` (pkg/distribution/policyreport): the report on a new local patch policy, and
-- the gate that it has to pass.
pub mod Types
pub mod Approval
pub mod Impacts
pub mod Gate
pub mod Build
