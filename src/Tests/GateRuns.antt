-- ===== src/Tests/GateRuns.antt =====
-- The gate on a report with one widening change and an approval of it.

use sealos_lifecycle.Base.{
  ℕ, ◌+◌, ◌-◌, ◌*◌, ◌≤◌, ◌<◌, ◌≡◌, ◌↔◌, refl, inl, string_eq, int_eq, nat_eq, if◌then◌else◌, true,
  false, not, ◌||◌, some, [], ◌∷◌, is_empty, pos, negsuc, ltb, less, sort_by, trim_space, is_blank,
  ok, arith,
}
use sealos_lifecycle.Policyreport.Types.{
  Clock, PolicyRef, Report, GateConfig, widening, GateApprovalEntry, GateApprovalDocument,
  GateResult,
}
use sealos_lifecycle.Localrepo.Compatibility.{has_incompatible_patches}
use sealos_lifecycle.Policyreport.Approval
use sealos_lifecycle.Policyreport.Impacts
use sealos_lifecycle.Policyreport.Approval.{
  validate_approval_policy_ref, validate_approvals, validate_widening, widening_count,
  incompatible_patch_count, expiration_time, gate_approval_api_version, gate_approval_kind,
}
use sealos_lifecycle.Policyreport.Impacts.{
  widening_impact_from_report, incompatible_patch_impact_from_report,
  normalized_gate_approval_impact, same_elements,
}
use sealos_lifecycle.Policyreport.Gate.{
  policy_refs_equal, wrap_int64, settle_all, settle_widening, settle, find_approval, add_warning,
  settle_incompatible_patches, check_consumed, admit, approval_expiry_warning_window,
  initial_result, warn_of_expiry, widening_violation, incompatible_violation, day, finish,
  evaluate_gate_with_approval, evaluate_gate,
}
use sealos_lifecycle.Policyreport.Gate.Laws.{
  widens, rejects, IsApproved, evaluate_gate_with_approval-IsApproved,
}
use sealos_lifecycle.Policyreport.Gate.Verdict.{
  IsCalledFor, evaluate_gate_lem, evaluate_gate_with_approval-IsCalledFor,
}
use sealos_lifecycle.Policyreport.Gate.Expiry.{warn_of_expiry_bounds}

-- Times are nanoseconds since some moment.
abbrev pub clock : Clock
clock = record {
  Time = ℕ;
  parse = λ value. ok 5;
  format = λ time. "2027-01-01T00:00:00Z";
  after = λ a b. ltb b a;
  sub = λ a b. if ltb a b then negsuc (b - a - 1) else pos (a - b);
  quote = λ value. value;
}

abbrev old_ref : PolicyRef
old_ref = record { name = "old"; scope = "clusterLocal"; digest = "sha256:1" }

abbrev new_ref : PolicyRef
new_ref = record { name = "new"; scope = "clusterLocal"; digest = "sha256:2" }

abbrev widening_report : Report
widening_report = record {
  old = old_ref;
  new = new_ref;
  has_widening_changes = true;
  has_narrowing_changes = false;
  impact = record {
    added_allowed_prefixes = [];
    removed_allowed_prefixes = [];
    added_forbidden_exact_paths = [];
    removed_forbidden_exact_paths = "spec.b" ∷ "spec.a" ∷ [];
    added_forbidden_metadata_keys = [];
    removed_forbidden_metadata_keys = [];
    added_forbidden_container_fields = [];
    removed_forbidden_container_fields = [];
  };
  compatibility = record { valid_patch_count = 0; invalid_patches = [] };
}

abbrev entry : GateApprovalEntry
entry = record {
  code = widening;
  expected_count = pos 2;
  expected_impact = record {
    added_allowed_prefixes = [];
    removed_forbidden_exact_paths = "spec.a" ∷ "spec.b" ∷ [];
    removed_forbidden_metadata_keys = [];
    removed_forbidden_container_fields = [];
    incompatible_patches = [];
  };
  reason = "migration";
}

abbrev approval : GateApprovalDocument
approval = record {
  api_version = gate_approval_api_version;
  kind = gate_approval_kind;
  metadata_name = "";
  spec = record {
    owner = "team";
    approved_by = "lead";
    change_ref = "CHG-1";
    expires_at = "2027-01-01T00:00:00Z";
    old_policy = old_ref;
    new_policy = new_ref;
    approvals = entry ∷ [];
  };
}

abbrev approved_result : GateResult
approved_result = record {
  passed = true;
  config = record {
    fail_on_widening = true;
    fail_on_incompatible_patches = true;
    approval_expiry_warning_days = pos 0;
    fail_on_approval_expires_soon = false;
  };
  approval_summary = record {
    approval_provided = true;
    approval_applied = true;
    approved_violation_codes = widening ∷ [];
    owner = "team";
    approved_by = "lead";
    change_ref = "CHG-1";
    expires_at = "2027-01-01T00:00:00Z";
    expires_soon = false;
    days_until_expiry = pos 0;
    follow_up_action = "removeApprovalAfterChangeRefResolved";
  };
  violations = [];
  approved_violations =
      record {
        code = widening;
        message = "candidate LocalPatchPolicy widens cluster-local override surface";
        reason = "migration";
        count = pos 2;
        impact = widening_impact_from_report widening_report;
      }
      ∷ [];
  warnings =
      "widening change was explicitly approved: migration"
      ∷ "approval file was used to pass the gate; remove it after changeRef CHG-1 is resolved" ∷ [];
}

gate_passes :
    evaluate_gate_with_approval clock 3 widening_report approved_result.config (some approval)
    ≡ ok approved_result
unfolding evaluate_gate_with_approval admit Approval.validate expiration_time
    validate_approval_policy_ref validate_approvals validate_widening widening_count
    incompatible_patch_count policy_refs_equal warn_of_expiry approval_expiry_warning_window
    wrap_int64 settle_all settle_widening widening_violation settle find_approval
    Impacts.gate_approval_impact_equal normalized_gate_approval_impact same_elements
    widening_impact_from_report add_warning settle_incompatible_patches has_incompatible_patches
    check_consumed finish initial_result trim_space is_blank sort_by less string_eq int_eq nat_eq
gate_passes = refl

abbrev monthly : GateConfig
monthly = record {
  fail_on_widening = true;
  fail_on_incompatible_patches = true;
  approval_expiry_warning_days = pos 30;
  fail_on_approval_expires_soon = false;
}

abbrev centuries : GateConfig
centuries = record monthly { approval_expiry_warning_days = pos 106752 }

abbrev plain : GateResult
plain = record approved_result { warnings = [] }

abbrev strict_config : GateConfig
strict_config = approved_result.config

evaluate_gate_with_approval-IsApproved_example :
    (widens strict_config widening_report ≡ true
      → IsApproved clock 3 widening_report
          (some approval)
          (widening_violation widening_report)
          (widening_impact_from_report widening_report))
    × (rejects strict_config widening_report ≡ true
        → IsApproved clock 3 widening_report
            (some approval)
            (incompatible_violation widening_report)
            (incompatible_patch_impact_from_report widening_report.compatibility.invalid_patches))
evaluate_gate_with_approval-IsApproved_example =
    evaluate_gate_with_approval-IsApproved clock 3 widening_report strict_config (some approval)
      approved_result gate_passes refl

evaluate_gate_with_approval-IsCalledFor_example : IsCalledFor strict_config widening_report widening
evaluate_gate_with_approval-IsCalledFor_example =
    evaluate_gate_with_approval-IsCalledFor clock 3 widening_report strict_config approval
      approved_result entry gate_passes (inl refl)

evaluate_gate_lem_example :
    (result : GateResult) × (evaluate_gate clock 3 widening_report strict_config ≡ ok result)
    × (result.passed
        ≡ not (widens strict_config widening_report || rejects strict_config widening_report))
    × (result.passed ≡ is_empty result.violations)
evaluate_gate_lem_example = evaluate_gate_lem clock 3 widening_report strict_config

-- The approval expires at the time 5, two nanoseconds later.
warn_of_expiry_bounds_example :
    (((warn_of_expiry clock 3 5 monthly plain).approval_summary.expires_soon ≡ true)
      ↔ (2 ≤ 30 * day))
    × (2 ≤ 30 * day
        → (d : ℕ) × ((warn_of_expiry clock 3 5 monthly plain).approval_summary.days_until_expiry
            ≡ pos d)
          × (d ≤ 30)
          × (2 ≤ d * day)
          × (d * day < 2 + day))
warn_of_expiry_bounds_example =
    warn_of_expiry_bounds clock 3 5 monthly plain 1 30 refl refl refl (omega arith) refl

-- A window of more days than an `int64` of nanoseconds holds is below zero.
window_overflows : approval_expiry_warning_window centuries ≡ negsuc 9223371273709551615
unfolding approval_expiry_warning_window wrap_int64
window_overflows = refl
