-- ===== src/Tests.antt =====
-- The theorems at concrete inputs, and runs of the definitions.
mod StateRuns
mod StateDocuments
mod PromotionRuns
mod OwnershipRuns
mod Memory
mod BomRuns
mod CompatibilityRuns
mod PlanRuns
mod GateRuns
mod PackageRuns
mod DeriveRuns
mod SelectionRuns
mod ReportRuns
