-- ===== src/Tests/SelectionRuns.antt =====
-- The selection of the policy that a bill of materials declares.
use sealos_lifecycle.Base.{String, ◌<>◌, some, Result, ok}
use sealos_lifecycle.Ownership.Document
use sealos_lifecycle.Ownership.Document.{LocalPatchPolicyDocument, effective_name}
use sealos_lifecycle.Hydrate.Plan.{Plan}
use sealos_lifecycle.Packageformat.Types
use sealos_lifecycle.Hydrate.PolicySelection.{
  Selection, bom, select_document, add_candidates, bom_candidates, built_in_selection,
}
use sealos_lifecycle.Tests.BomRuns.{clean}
use sealos_lifecycle.Tests.OwnershipRuns.{wide}
use sealos_lifecycle.Tests.ReportRuns.{document_of}
use sealos_lifecycle.Tests.PlanRuns

abbrev plan : Plan
plan = record (PlanRuns.plan) { bom_local_patch_policy = "policy.yaml" }

abbrev join_path : String → String → String
join_path root path = root <> ("/" <> path)

abbrev read : String → Result LocalPatchPolicyDocument
read path = ok (document_of wide)

abbrev decode : LocalPatchPolicyDocument → Result LocalPatchPolicyDocument
decode document = ok document

abbrev selection : Selection
selection =
    select_document (document_of wide) bom "policy.yaml" ""
      (add_candidates (bom_candidates clean (some "policy.yaml")) built_in_selection)
