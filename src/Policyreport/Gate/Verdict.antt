-- ===== src/Policyreport/Gate/Verdict.antt =====
-- The gate without an approval, and approvals that nothing calls for.
use sealos_lifecycle.Base.{
  ◌≡◌, ◌⊎◌, inl, inr, String, contains, string_eq, int_eq, if◌then◌else◌, true, false, ◌||◌, not,
  some, List, [], ◌∷◌, Listed, ok, Result-cases, Option-cases, Bool-cases, is_empty, arith,
}
use sealos_lifecycle.Policyreport.Types.{
  Clock, Report, GateConfig, GateViolationCode, widening, incompatible_patches, GateViolation,
  GateApprovalImpact, GateApprovalEntry, GateApprovalDocument, GateResult,
}
use sealos_lifecycle.Policyreport.Impacts.{
  widening_impact_from_report, incompatible_patch_impact_from_report,
}
use sealos_lifecycle.Policyreport.Gate.{
  State, find_approval, initial_result, add_violation, add_warning, settle, widening_violation,
  settle_widening, incompatible_violation, settle_incompatible_patches, check_consumed, finish,
  admit, settle_all, evaluate_gate_with_approval, evaluate_gate,
}
use sealos_lifecycle.Policyreport.Gate.Laws.{widens, rejects, settle_all-inv}

module _ (K : Clock) where
  -- Without an approval the gate always gives a result. It passes exactly if the configuration
  -- looks for no violation that the report has, and it lists the violations exactly if it does not pass.
  pub evaluate_gate_lem :
      (now : K.Time) (report : Report) (config : GateConfig)
      → (result : GateResult) × (evaluate_gate K now report config ≡ ok result)
        × (result.passed ≡ not (widens config report || rejects config report))
        × (result.passed ≡ is_empty result.violations)
  unfolding evaluate_gate evaluate_gate_with_approval settle_all settle_widening
      settle_incompatible_patches settle find_approval check_consumed finish add_violation
      add_warning initial_result
  evaluate_gate_lem now report config =
      let start = initial_result config false in
      let first =
        if widens config report then add_violation (widening_violation report) start else start in
      let second =
        if rejects config report
        then add_violation (incompatible_violation report) first
        else first in
      (finish K report second, ground arith, ground arith, ground arith)

-- The violation of a code that the gate looks for is in the report.
abbrev pub IsCalledFor : GateConfig → Report → GateViolationCode → Type 0
IsCalledFor config report code =
    ((code ≡ widening) × (widens config report ≡ true))
    ⊎ ((code ≡ incompatible_patches) × (rejects config report ≡ true))

settle-consumed :
    (v : GateViolation) (impact : GateApprovalImpact) (message : String)
    (approvals : List GateApprovalEntry) (s s' : State) (code : GateViolationCode)
    → settle v impact message approvals s ≡ ok s'
    → contains code s'.consumed ≡ true
    → (code ≡ v.code) ⊎ (contains code s.consumed ≡ true)
unfolding settle
settle-consumed v impact message approvals s s' code h m =
    elim (Option-cases (find_approval v.code approvals)) [
      | inl missing ↦ inr (ground arith)
      | inr (entry, found) ↦ elim (string_eq.dec code v.code) [
        | yes p ↦ inl p
        | no n ↦ inr (ground arith)
      ]
    ]

check_consumed-Listed :
    (consumed : List GateViolationCode) (approvals : List GateApprovalEntry) (a : GateApprovalEntry)
    → check_consumed consumed approvals ≡ ok tt
    → Listed a approvals
    → contains a.code consumed ≡ true
unfolding check_consumed
check_consumed-Listed consumed [] a h m = elim m [ ]
check_consumed-Listed consumed (b ∷ rest) a h (inl e) = ground arith
check_consumed-Listed consumed (b ∷ rest) a h (inr m) =
    ground (arith, check_consumed-Listed consumed rest a)

settle_widening-consumed :
    (config : GateConfig) (report : Report) (approvals : List GateApprovalEntry) (s s' : State)
    (code : GateViolationCode)
    → settle_widening config report approvals s ≡ ok s'
    → contains code s'.consumed ≡ true
    → ((code ≡ widening) × (widens config report ≡ true)) ⊎ (contains code s.consumed ≡ true)
unfolding settle_widening widening_violation
settle_widening-consumed config report approvals s s' code h m =
    elim (Bool-cases (widens config report)) [
      | inl e ↦
          elim (settle-consumed (widening_violation report) (widening_impact_from_report report)
            "widening change was explicitly approved: " approvals s s' code (ground arith) m) [
              | inl p ↦ inl (p, e)
              | inr old ↦ inr old
            ]
      | inr e ↦ inr (ground arith)
    ]

settle_incompatible_patches-consumed :
    (config : GateConfig) (report : Report) (approvals : List GateApprovalEntry) (s s' : State)
    (code : GateViolationCode)
    → settle_incompatible_patches config report approvals s ≡ ok s'
    → contains code s'.consumed ≡ true
    → ((code ≡ incompatible_patches) × (rejects config report ≡ true))
      ⊎ (contains code s.consumed ≡ true)
unfolding settle_incompatible_patches incompatible_violation
settle_incompatible_patches-consumed config report approvals s s' code h m =
    elim (Bool-cases (rejects config report)) [
      | inl e ↦
          elim (settle-consumed (incompatible_violation report)
            (incompatible_patch_impact_from_report report.compatibility.invalid_patches)
            "incompatible existing patches were explicitly approved: " approvals s s' code
            (ground arith) m) [ inl p ↦ inl (p, e) | inr old ↦ inr old ]
      | inr e ↦ inr (ground arith)
    ]

module _ (K : Clock) where
  settle_all-IsCalledFor :
      (config : GateConfig) (report : Report) (approvals : List GateApprovalEntry)
      (r result : GateResult) (a : GateApprovalEntry)
      → settle_all K config report approvals r ≡ ok result
      → Listed a approvals
      → IsCalledFor config report a.code
  settle_all-IsCalledFor config report approvals r result a h m =
      let (s, s', e, e', checked, _) = settle_all-inv K config report approvals r result h in
      let used = check_consumed-Listed s'.consumed approvals a checked m in
      elim (settle_incompatible_patches-consumed config report approvals s s' a.code e' used) [
        | inl second ↦ inr second
        | inr before ↦
            elim (settle_widening-consumed config report approvals
              (record { result = r; consumed = [] }) s a.code e before) [
                | inl first ↦ inl first
                | inr none_before ↦ absurd (ground arith)
              ]
      ]

  -- When the gate gives a result with an approval, every entry of the approval is for a violation
  -- that the gate looks for and that the report has: no approval is kept in reserve.
  pub evaluate_gate_with_approval-IsCalledFor :
      (now : K.Time) (report : Report) (config : GateConfig) (d : GateApprovalDocument)
      (result : GateResult) (a : GateApprovalEntry)
      → evaluate_gate_with_approval K now report config (some d) ≡ ok result
      → Listed a d.spec.approvals
      → IsCalledFor config report a.code
  unfolding evaluate_gate_with_approval
  evaluate_gate_with_approval-IsCalledFor now report config d result a h m =
      elim (Result-cases (admit K now config report d (initial_result config true))) [
        | inl (r, e) ↦
            settle_all-IsCalledFor config report d.spec.approvals r result a (rw e at h) m
        | inr (failure, e) ↦ absurd (ground arith)
      ]
