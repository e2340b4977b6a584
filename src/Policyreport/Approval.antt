-- ===== src/Policyreport/Approval.antt =====
-- `GateApprovalDocument.Validate` of pkg/distribution/policyreport/approval.go. Reading the file is
-- left to the caller.
use sealos_lifecycle.Base.{
  ℕ, ◌+◌, String, ◌==◌, contains, string_eq, int_eq, nat_eq, if◌then◌else◌, not, List, [], ◌∷◌,
  length, pos, is_positive, is_blank, trim_space, text, num, errorf, Result, ok, ◌>>=◌, ◌>>◌,
  fail_if, wrap,
}
use sealos_lifecycle.Policyreport.Types.{
  Clock, PolicyRef, GateViolationCode, widening, incompatible_patches, GateApprovalImpact,
  GateApprovalEntry, GateApprovalDocument,
}

abbrev pub gate_approval_api_version : String
gate_approval_api_version = "distribution.sealos.io/v1alpha1"

abbrev pub gate_approval_kind : String
gate_approval_kind = "LocalPatchPolicyGateApproval"

unfoldable pub widening_count : GateApprovalImpact → ℕ
widening_count i =
    length i.added_allowed_prefixes
    + length i.removed_forbidden_exact_paths
    + length i.removed_forbidden_metadata_keys
    + length i.removed_forbidden_container_fields

unfoldable pub incompatible_patch_count : GateApprovalImpact → ℕ
incompatible_patch_count i = length i.incompatible_patches

unfoldable pub validate_approval_policy_ref : String → PolicyRef → Result (Unit {0})
validate_approval_policy_ref field ref = do
  fail_if (is_blank ref.name) (errorf "%s.name must be set" (text field ∷ []))
  fail_if (is_blank ref.scope) (errorf "%s.scope must be set" (text field ∷ []))
  fail_if (is_blank ref.digest) (errorf "%s.digest must be set" (text field ∷ []))

-- The case of a widening change in the second switch.
unfoldable pub validate_widening : ℕ → GateApprovalEntry → Result (Unit {0})
validate_widening i a =
    let got = widening_count a.expected_impact in
    do
      fail_if (got == 0) (
          errorf "spec.approvals[%d].expectedImpact must describe at least one widening item"
            (num i ∷ []))
      fail_if (not (pos got == a.expected_count)) (
          errorf "spec.approvals[%d].expectedCount must match widening impact count %d"
            (num i ∷ num got ∷ []))
      fail_if (not (incompatible_patch_count a.expected_impact == 0)) (
          errorf "spec.approvals[%d].expectedImpact.incompatiblePatches must be empty for %q"
            (num i ∷ text a.code ∷ []))

-- The case of incompatible patches.
unfoldable pub validate_incompatible_patches : ℕ → GateApprovalEntry → Result (Unit {0})
validate_incompatible_patches i a =
    let got = incompatible_patch_count a.expected_impact in
    do
      fail_if (got == 0) (
          errorf "spec.approvals[%d].expectedImpact must describe at least one incompatible patch"
            (num i ∷ []))
      fail_if (not (pos got == a.expected_count)) (
          errorf "spec.approvals[%d].expectedCount must match incompatible patch count %d"
            (num i ∷ num got ∷ []))
      fail_if (not (widening_count a.expected_impact == 0)) (
          errorf "spec.approvals[%d].expectedImpact widening fields must be empty for %q"
            (num i ∷ text a.code ∷ []))

-- The loop over the approvals, from the index `i`, with the codes that it has seen.
unfoldable pub validate_approvals :
    ℕ → List GateViolationCode → List GateApprovalEntry → Result (Unit {0})
validate_approvals i seen [] = ok tt
validate_approvals i seen (a ∷ rest) = do
  fail_if (not (contains a.code (widening ∷ incompatible_patches ∷ []))) (
      errorf "spec.approvals[%d].code must be one of %q or %q"
        (num i ∷ text widening ∷ text incompatible_patches ∷ []))
  fail_if (is_blank a.reason) (errorf "spec.approvals[%d].reason must be set" (num i ∷ []))
  fail_if (not (is_positive a.expected_count))
      (errorf "spec.approvals[%d].expectedCount must be greater than zero" (num i ∷ []))
  (if a.code == widening then validate_widening i a else validate_incompatible_patches i a)
  fail_if (contains a.code seen)
      (errorf "spec.approvals contains duplicate code %q" (text a.code ∷ []))
  validate_approvals (i + 1) (a.code ∷ seen) rest

module _ (K : Clock) where
  unfoldable pub expiration_time : GateApprovalDocument → Result K.Time
  expiration_time d =
      wrap "spec.expiresAt must be a valid RFC3339 timestamp: %w" []
        (K.parse (trim_space d.spec.expires_at))

  unfoldable pub validate : GateApprovalDocument → Result (Unit {0})
  validate d = do
    fail_if (not (trim_space d.api_version == gate_approval_api_version))
        (errorf "apiVersion must be %q" (text gate_approval_api_version ∷ []))
    fail_if (not (trim_space d.kind == gate_approval_kind))
        (errorf "kind must be %q" (text gate_approval_kind ∷ []))
    fail_if (is_blank d.spec.owner) (errorf "spec.owner must be set" [])
    fail_if (is_blank d.spec.approved_by) (errorf "spec.approvedBy must be set" [])
    fail_if (is_blank d.spec.change_ref) (errorf "spec.changeRef must be set" [])
    fail_if (is_blank d.spec.expires_at) (errorf "spec.expiresAt must be set" [])
    expires_at ← expiration_time d
    validate_approval_policy_ref "spec.oldPolicy" d.spec.old_policy
    validate_approval_policy_ref "spec.newPolicy" d.spec.new_policy
    validate_approvals 0 [] d.spec.approvals
