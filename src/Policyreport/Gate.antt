-- ===== src/Policyreport/Gate.antt =====
-- `EvaluateGate` and `EvaluateGateWithApproval` of pkg/distribution/policyreport/gate.go. `now` is the
-- time of the call. The report is not nil; no approval is `none`.
pub mod Laws
pub mod Verdict
pub mod Expiry
use Prim.Native.Nat.{◌/◌, ◌%◌}
use sealos_lifecycle.Base.{
  ℕ, zero, suc, ◌+◌, ◌-◌, ◌*◌, String, ◌<>◌, ◌==◌, contains, string_eq, int_eq, nat_eq,
  if◌then◌else◌, Bool, true, false, ◌&&◌, not, Option, none, some, List, [], ◌∷◌, ◌++◌, map, length,
  ℤ, pos, negsuc, ltb, increment, is_positive, less_ℤ, show_ℤ, trim_space, less, sort_by, is_empty,
  text, errorf, Result, ok, err, ◌>>=◌, ◌>>◌, fail_if,
}
use sealos_lifecycle.Localrepo.Compatibility.{has_incompatible_patches}
use sealos_lifecycle.Policyreport.Types.{
  Clock, PolicyRef, Report, GateConfig, GateViolationCode, widening, incompatible_patches,
  approval_expires_soon, GateViolation, GateApprovalImpact, GateApprovalEntry, GateApprovalDocument,
  ApprovedGateViolation, GateApprovalSummary, GateResult,
  follow_up_remove_after_change_ref_resolved, follow_up_renew_or_remove_before_expiry,
}
use sealos_lifecycle.Policyreport.Approval.{expiration_time, validate}
use sealos_lifecycle.Policyreport.Impacts.{
  widening_impact_from_report, incompatible_patch_impact_from_report, gate_approval_impact_equal,
}

-- `24 * time.Hour` in nanoseconds.
abbrev pub day : ℕ
day = 86400000000000

-- An `int64` of the bits of `n`.
unfoldable pub wrap_int64 : ℕ → ℤ
wrap_int64 n =
    let m = n % 18446744073709551616 in
    if ltb m 9223372036854775808 then pos m else negsuc (18446744073709551615 - m)

unfoldable pub approval_expiry_warning_window : GateConfig → ℤ
approval_expiry_warning_window c = elim c.approval_expiry_warning_days [
  | pos n ↦ wrap_int64 (n * day)
  | negsuc n ↦ pos 0
]

-- `duration / day` toward zero, and one more if there is a remainder.
unfoldable pub days_of : ℤ → ℤ
days_of (pos n) = if n % day == 0 then pos (n / day) else pos (suc (n / day))
days_of (negsuc n) =
    let days = suc n / day in
    let negated = if days == 0 then pos 0 else negsuc (days - 1) in
    if suc n % day == 0 then negated else increment negated

unfoldable pub policy_refs_equal : PolicyRef → PolicyRef → Bool
policy_refs_equal left right =
    trim_space left.name == trim_space right.name
    && trim_space left.scope == trim_space right.scope
    && trim_space left.digest == trim_space right.digest

-- The map `approved`: the last entry of a code.
unfoldable pub find_approval : GateViolationCode → List GateApprovalEntry → Option GateApprovalEntry
find_approval code [] = none
find_approval code (a ∷ rest) =
    let later = find_approval code rest in
    elim later [ some b ↦ some b | none ↦ if a.code == code then some a else none ]

pub record State : Type 0 where
  pub result : GateResult
  pub consumed : List GateViolationCode

abbrev no_impact : GateApprovalImpact
no_impact = record {
  added_allowed_prefixes = [];
  removed_forbidden_exact_paths = [];
  removed_forbidden_metadata_keys = [];
  removed_forbidden_container_fields = [];
  incompatible_patches = [];
}

unfoldable pub initial_result : GateConfig → Bool → GateResult
initial_result config provided = record {
  passed = true;
  config = config;
  approval_summary = record {
    approval_provided = provided;
    approval_applied = false;
    approved_violation_codes = [];
    owner = "";
    approved_by = "";
    change_ref = "";
    expires_at = "";
    expires_soon = false;
    days_until_expiry = pos 0;
    follow_up_action = "";
  };
  violations = [];
  approved_violations = [];
  warnings = [];
}

unfoldable pub add_violation : GateViolation → GateResult → GateResult
add_violation v r = record r { passed = false; violations = r.violations ++ (v ∷ []) }

unfoldable pub add_warning : String → GateResult → GateResult
add_warning message r = record r { warnings = r.warnings ++ (message ∷ []) }

-- What is done with a violation: an approval of its code must expect it exactly, and without one the
-- gate does not pass. `approved` is the text of the warning.
unfoldable pub settle :
    GateViolation → GateApprovalImpact → String → List GateApprovalEntry → State → Result State
settle v impact approved approvals s = elim (find_approval v.code approvals) [
  | none ↦ ok (record s { result = add_violation v s.result })
  | some entry ↦ do
    fail_if (not (entry.expected_count == v.count)) (
        errorf "approval for %q expected count %d, got %d"
          (text v.code ∷ text (show_ℤ entry.expected_count) ∷ text (show_ℤ v.count) ∷ []))
    fail_if (not (gate_approval_impact_equal entry.expected_impact impact))
        (errorf "approval for %q impact set does not match actual gate impact" (text v.code ∷ []))
    ok (record {
      result = add_warning (approved <> entry.reason) (record (s.result) {
        approved_violations =
            s.result.approved_violations
            ++ (record {
              code = v.code;
              message = v.message;
              reason = entry.reason;
              count = v.count;
              impact = impact;
            }
                ∷ []);
      });
      consumed = v.code ∷ s.consumed;
    })
]

unfoldable pub widening_violation : Report → GateViolation
widening_violation r = record {
  code = widening;
  message = "candidate LocalPatchPolicy widens cluster-local override surface";
  count = pos (
      length r.impact.added_allowed_prefixes
      + length r.impact.removed_forbidden_exact_paths
      + length r.impact.removed_forbidden_metadata_keys
      + length r.impact.removed_forbidden_container_fields);
}

unfoldable pub settle_widening : GateConfig → Report → List GateApprovalEntry → State → Result State
settle_widening config r approvals s =
    if config.fail_on_widening && r.has_widening_changes
    then settle (widening_violation r) (widening_impact_from_report r)
        "widening change was explicitly approved: " approvals s
    else ok s

unfoldable pub incompatible_violation : Report → GateViolation
incompatible_violation r = record {
  code = incompatible_patches;
  message = "candidate LocalPatchPolicy would reject existing local patches";
  count = pos (length r.compatibility.invalid_patches);
}

unfoldable pub settle_incompatible_patches :
    GateConfig → Report → List GateApprovalEntry → State → Result State
settle_incompatible_patches config r approvals s =
    if config.fail_on_incompatible_patches && has_incompatible_patches r.compatibility
    then settle (incompatible_violation r)
        (incompatible_patch_impact_from_report r.compatibility.invalid_patches)
        "incompatible existing patches were explicitly approved: " approvals s
    else ok s

-- The loop over the approvals that looks for one that was not needed.
unfoldable pub check_consumed : List GateViolationCode → List GateApprovalEntry → Result (Unit {0})
check_consumed consumed [] = ok tt
check_consumed consumed (a ∷ rest) = do
  fail_if (not (contains a.code consumed))
      (errorf "approval for %q did not match any actual gate violation" (text a.code ∷ []))
  check_consumed consumed rest

module _ (K : Clock) where
  unfoldable pub gate_approval_days_until_expiry : K.Time → K.Time → ℤ
  gate_approval_days_until_expiry now expires_at =
      if not (K.after expires_at now) then pos 0 else days_of (K.sub expires_at now)

  -- The body of the block on an approval that expires soon, which is left in `days`.
  unfoldable pub expire_soon : K.Time → ℤ → GateConfig → GateResult → GateResult
  expire_soon expires_at days config r =
      let message =
        "approval file expires in "
        <> (show_ℤ days <> (" day(s); renew or remove it before " <> K.format expires_at)) in
      let r = record r {
        approval_summary = record (r.approval_summary) {
          expires_soon = true;
          days_until_expiry = days;
          follow_up_action = follow_up_renew_or_remove_before_expiry;
        };
      } in
      if config.fail_on_approval_expires_soon
      then add_violation (record { code = approval_expires_soon; message = message; count = days })
          r
      else add_warning message r

  unfoldable pub warn_of_expiry : K.Time → K.Time → GateConfig → GateResult → GateResult
  warn_of_expiry now expires_at config r =
      let window = approval_expiry_warning_window config in
      if is_positive window && not (less_ℤ window (K.sub expires_at now))
      then expire_soon expires_at (gate_approval_days_until_expiry now expires_at) config r
      else r

  -- The block on an approval that is given.
  unfoldable pub admit :
      K.Time → GateConfig → Report → GateApprovalDocument → GateResult → Result GateResult
  admit now config report d r = do
    validate K d
    expires_at ← expiration_time K d
    fail_if (not (K.after expires_at now))
        (errorf "approval file expired at %s" (text (K.format expires_at) ∷ []))
    fail_if (not (policy_refs_equal d.spec.old_policy report.old))
        (errorf "approval old policy identity does not match compared old policy" [])
    fail_if (not (policy_refs_equal d.spec.new_policy report.new))
        (errorf "approval new policy identity does not match compared new policy" [])
    ok (
        warn_of_expiry now expires_at config (record r {
          approval_summary = record (r.approval_summary) {
            owner = d.spec.owner;
            approved_by = d.spec.approved_by;
            change_ref = d.spec.change_ref;
            expires_at = K.format expires_at;
          };
        }))

  -- What follows the checks: the last warnings and the summary.
  unfoldable pub finish : Report → GateResult → GateResult
  finish report r =
      let r =
        if report.has_narrowing_changes
        then add_warning
            "candidate LocalPatchPolicy narrows previously allowed surface; review operator continuity impact"
            r
        else r in
      if is_empty r.approved_violations
      then r
      else let summary = record (r.approval_summary) {
        approval_applied = true;
        approved_violation_codes = sort_by less (map (λ v. v.code) r.approved_violations);
        follow_up_action =
            if r.approval_summary.follow_up_action == ""
            then follow_up_remove_after_change_ref_resolved
            else r.approval_summary.follow_up_action;
      } in
        add_warning
          ("approval file was used to pass the gate; remove it after changeRef "
            <> (K.quote summary.change_ref <> " is resolved"))
          (record r { approval_summary = summary })

  -- The gate once the approval is admitted.
  unfoldable pub settle_all :
      GateConfig → Report → List GateApprovalEntry → GateResult → Result GateResult
  settle_all config report approvals r = do
    s ← settle_widening config report approvals (record { result = r; consumed = [] })
    s ← settle_incompatible_patches config report approvals s
    check_consumed s.consumed approvals
    ok (finish report s.result)

  unfoldable pub evaluate_gate_with_approval :
      K.Time → Report → GateConfig → Option GateApprovalDocument → Result GateResult
  evaluate_gate_with_approval now report config none =
      settle_all config report [] (initial_result config false)
  evaluate_gate_with_approval now report config (some d) = do
    r ← admit now config report d (initial_result config true)
    settle_all config report d.spec.approvals r

  unfoldable pub evaluate_gate : K.Time → Report → GateConfig → Result GateResult
  evaluate_gate now report config = evaluate_gate_with_approval now report config none
