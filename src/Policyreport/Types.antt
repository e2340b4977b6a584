-- ===== src/Policyreport/Types.antt =====
-- The types of pkg/distribution/policyreport/gate.go, approval.go and report.go.
use sealos_lifecycle.Base.{String, Bool, true, false, List, ℤ, pos, Result}
use sealos_lifecycle.Ownership.Policy.{LocalPatchPolicyScope}
use sealos_lifecycle.Ownership.Impact.{KindPath, PolicyImpact}
use sealos_lifecycle.Localrepo.Compatibility.{PolicyCompatibilityReport}

-- What the gate uses of Go's `time` and `fmt`: `time.Parse` and `Format` for RFC 3339, `After`, and
-- `Sub` in nanoseconds. `quote` is the verb `%q`.
pub record Clock : Type 1 where
  pub Time : Type 0
  pub parse : String → Result Time
  pub format : Time → String
  pub after : Time → Time → Bool
  pub sub : Time → Time → ℤ
  pub quote : String → String

pub record PolicyRef : Type 0 where
  pub name : String
  pub scope : LocalPatchPolicyScope
  pub digest : String

pub record Report : Type 0 where
  pub old : PolicyRef
  pub new : PolicyRef
  pub has_widening_changes : Bool
  pub has_narrowing_changes : Bool
  pub impact : PolicyImpact
  pub compatibility : PolicyCompatibilityReport

pub record GateConfig : Type 0 where
  pub fail_on_widening : Bool
  pub fail_on_incompatible_patches : Bool
  pub approval_expiry_warning_days : ℤ
  pub fail_on_approval_expires_soon : Bool

unfoldable pub default_gate_config : GateConfig
default_gate_config = record {
  fail_on_widening = true;
  fail_on_incompatible_patches = true;
  approval_expiry_warning_days = pos 30;
  fail_on_approval_expires_soon = false;
}

abbrev pub GateViolationCode : Type 0
GateViolationCode = String

abbrev pub widening : GateViolationCode
widening = "wideningChange"

abbrev pub incompatible_patches : GateViolationCode
incompatible_patches = "incompatiblePatches"

abbrev pub approval_expires_soon : GateViolationCode
approval_expires_soon = "approvalExpiresSoon"

pub record GateViolation : Type 0 where
  pub code : GateViolationCode
  pub message : String
  pub count : ℤ

pub record GateApprovalPatchRef : Type 0 where
  pub component : String
  pub relative_path : String

pub record GateApprovalImpact : Type 0 where
  pub added_allowed_prefixes : List KindPath
  pub removed_forbidden_exact_paths : List String
  pub removed_forbidden_metadata_keys : List String
  pub removed_forbidden_container_fields : List String
  pub incompatible_patches : List GateApprovalPatchRef

pub record GateApprovalEntry : Type 0 where
  pub code : GateViolationCode
  pub expected_count : ℤ
  pub expected_impact : GateApprovalImpact
  pub reason : String

pub record GateApprovalSpec : Type 0 where
  pub owner : String
  pub approved_by : String
  pub change_ref : String
  pub expires_at : String
  pub old_policy : PolicyRef
  pub new_policy : PolicyRef
  pub approvals : List GateApprovalEntry

pub record GateApprovalDocument : Type 0 where
  pub api_version : String
  pub kind : String
  pub metadata_name : String
  pub spec : GateApprovalSpec

pub record ApprovedGateViolation : Type 0 where
  pub code : GateViolationCode
  pub message : String
  pub reason : String
  pub count : ℤ
  pub impact : GateApprovalImpact

pub record GateApprovalSummary : Type 0 where
  pub approval_provided : Bool
  pub approval_applied : Bool
  pub approved_violation_codes : List GateViolationCode
  pub owner : String
  pub approved_by : String
  pub change_ref : String
  pub expires_at : String
  pub expires_soon : Bool
  pub days_until_expiry : ℤ
  pub follow_up_action : String

pub record GateResult : Type 0 where
  pub passed : Bool
  pub config : GateConfig
  pub approval_summary : GateApprovalSummary
  pub violations : List GateViolation
  pub approved_violations : List ApprovedGateViolation
  pub warnings : List String

abbrev pub follow_up_remove_after_change_ref_resolved : String
follow_up_remove_after_change_ref_resolved = "removeApprovalAfterChangeRefResolved"

abbrev pub follow_up_renew_or_remove_before_expiry : String
follow_up_renew_or_remove_before_expiry = "renewOrRemoveApprovalBeforeExpiry"
