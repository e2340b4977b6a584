-- ===== src/Tests/ReportRuns.antt =====
-- The gate on the report that is built for two policies of OwnershipRuns.
use sealos_lifecycle.Base.{String, int_eq, nat_eq, true, false, [], ◌∷◌, Result, ok}
use sealos_lifecycle.Ownership.Value.{Fields}
use sealos_lifecycle.Ownership.Document.{
  LocalPatchPolicyDocument, local_patch_policy_api_version, local_patch_policy_kind,
}
use sealos_lifecycle.Ownership.Document
use sealos_lifecycle.Policyreport.Types.{Report, default_gate_config, GateResult}
use sealos_lifecycle.Policyreport.Gate.{initial_result}
use sealos_lifecycle.Ownership.Policy.{LocalPatchPolicy}
use sealos_lifecycle.Ownership.Impact.{diff_local_patch_policy}
use sealos_lifecycle.Tests.CompatibilityRuns.{report}
use sealos_lifecycle.Tests.OwnershipRuns.{wide, narrow, config}

abbrev pub document_of : LocalPatchPolicy → LocalPatchPolicyDocument
document_of policy = record {
  api_version = local_patch_policy_api_version;
  kind = local_patch_policy_kind;
  metadata_name = "policy";
  spec = policy;
}

abbrev marshal : LocalPatchPolicyDocument → Result Fields
marshal document = ok config

abbrev digest : Fields → String
digest bytes = "sha256:1"

abbrev narrowing_report : Report
narrowing_report = record {
  old = record { name = "policy"; scope = "clusterLocal"; digest = "sha256:1" };
  new = record { name = "policy"; scope = "clusterLocal"; digest = "sha256:1" };
  has_widening_changes = false;
  has_narrowing_changes = true;
  impact = diff_local_patch_policy wide narrow;
  compatibility = report;
}

abbrev narrowing_result : GateResult
narrowing_result = record (initial_result default_gate_config false) {
  warnings =
      "candidate LocalPatchPolicy narrows previously allowed surface; review operator continuity impact"
      ∷ [];
}
