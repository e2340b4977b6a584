-- ===== src/Policyreport/Gate/Laws.antt =====
-- What it takes to pass the gate.
use sealos_lifecycle.Base.{
  ◌≡◌, refl, inl, inr, String, string_eq, int_eq, Bool, true, false, ◌&&◌, Option, none, some, List,
  [], ◌∷◌, Listed, ok, Result-cases, Option-cases, Bool-cases, arith,
}
use sealos_lifecycle.Localrepo.Compatibility.{has_incompatible_patches}
use sealos_lifecycle.Policyreport.Types.{
  Clock, Report, GateConfig, GateViolationCode, GateViolation, GateApprovalImpact,
  GateApprovalEntry, GateApprovalDocument, GateResult,
}
use sealos_lifecycle.Policyreport.Approval.{expiration_time, validate}
use sealos_lifecycle.Policyreport.Impacts.{
  widening_impact_from_report, incompatible_patch_impact_from_report,
}
use sealos_lifecycle.Policyreport.Impacts.Laws.{
  IsSameImpact, gate_approval_impact_equal-IsSameImpact,
}
use sealos_lifecycle.Policyreport.Gate.{
  State, policy_refs_equal, find_approval, initial_result, add_violation, add_warning, settle,
  widening_violation, settle_widening, incompatible_violation, settle_incompatible_patches,
  check_consumed, admit, finish, settle_all, evaluate_gate_with_approval,
}

-- The entry of an approval for the violation `v` with the impact `impact`.
pub record IsApprovedBy (v : GateViolation) (actual : GateApprovalImpact)
    (entry : GateApprovalEntry) : Type 0 where
  pub code : entry.code ≡ v.code
  pub count : entry.expected_count ≡ v.count
  pub impact : IsSameImpact entry.expected_impact actual

find_approval-inv :
    (code : GateViolationCode) (approvals : List GateApprovalEntry) (entry : GateApprovalEntry)
    → find_approval code approvals ≡ some entry
    → (entry.code ≡ code) × Listed entry approvals
unfolding find_approval
find_approval-inv code [] entry h = cc
find_approval-inv code (a ∷ rest) entry h = elim (Option-cases (find_approval code rest)) [
  | inl missing ↦ (ground arith, inl (ground arith))
  | inr (b, found) ↦
      let (same, m) = find_approval-inv code rest entry (ground arith) in (same, inr m)
]

settle-passed :
    (v : GateViolation) (impact : GateApprovalImpact) (message : String)
    (approvals : List GateApprovalEntry) (s s' : State)
    → settle v impact message approvals s ≡ ok s'
    → s'.result.passed ≡ true
    → (s.result.passed ≡ true)
      × (entry : GateApprovalEntry) × Listed entry approvals
      × IsApprovedBy v impact entry
unfolding settle add_violation add_warning
settle-passed v impact message approvals s s' h p =
    elim (Option-cases (find_approval v.code approvals)) [
      | inl missing ↦ absurd (ground arith)
      | inr (entry, found) ↦
          let (same, m) = find_approval-inv v.code approvals entry found in
          (
            ground arith,
            entry,
            m,
            record {
              code = same;
              count = ground arith;
              impact =
                  gate_approval_impact_equal-IsSameImpact entry.expected_impact impact
                    (ground arith);
            },
          )
    ]

abbrev pub widens : GateConfig → Report → Bool
widens config report = config.fail_on_widening && report.has_widening_changes

abbrev pub rejects : GateConfig → Report → Bool
rejects config report =
    config.fail_on_incompatible_patches && has_incompatible_patches report.compatibility

-- An entry of the approvals that expects the violation.
abbrev pub HasEntry : List GateApprovalEntry → GateViolation → GateApprovalImpact → Type 0
HasEntry approvals v impact =
    (entry : GateApprovalEntry) × Listed entry approvals × IsApprovedBy v impact entry

settle_widening-passed :
    (config : GateConfig) (report : Report) (approvals : List GateApprovalEntry) (s s' : State)
    → settle_widening config report approvals s ≡ ok s'
    → s'.result.passed ≡ true
    → (s.result.passed ≡ true)
      × (widens config report ≡ true
          → HasEntry approvals (widening_violation report) (widening_impact_from_report report))
unfolding settle_widening
settle_widening-passed config report approvals s s' h p = elim (Bool-cases (widens config report)) [
  | inl e ↦
      let (before, entry, m, fits) =
        settle-passed (widening_violation report) (widening_impact_from_report report)
          "widening change was explicitly approved: " approvals s s' (ground arith) p in
      (before, λ x. (entry, m, fits))
  | inr e ↦ (ground arith, λ x. absurd (ground arith))
]

settle_incompatible_patches-passed :
    (config : GateConfig) (report : Report) (approvals : List GateApprovalEntry) (s s' : State)
    → settle_incompatible_patches config report approvals s ≡ ok s'
    → s'.result.passed ≡ true
    → (s.result.passed ≡ true)
      × (rejects config report ≡ true
          → HasEntry approvals
              (incompatible_violation report)
              (incompatible_patch_impact_from_report report.compatibility.invalid_patches))
unfolding settle_incompatible_patches
settle_incompatible_patches-passed config report approvals s s' h p =
    elim (Bool-cases (rejects config report)) [
      | inl e ↦
          let (before, entry, m, fits) =
            settle-passed (incompatible_violation report)
              (incompatible_patch_impact_from_report report.compatibility.invalid_patches)
              "incompatible existing patches were explicitly approved: " approvals s s'
              (ground arith) p in
          (before, λ x. (entry, m, fits))
      | inr e ↦ (ground arith, λ x. absurd (ground arith))
    ]

module _ (K : Clock) where
  finish-passed : (report : Report) (r : GateResult) → (finish K report r).passed ≡ r.passed
  unfolding finish add_warning
  finish-passed report r = ground arith

  pub settle_all-inv :
      (config : GateConfig) (report : Report) (approvals : List GateApprovalEntry)
      (r result : GateResult)
      → settle_all K config report approvals r ≡ ok result
      → (s : State) × (s' : State) × (settle_widening config report approvals
            (record { result = r; consumed = [] })
          ≡ ok s)
        × (settle_incompatible_patches config report approvals s ≡ ok s')
        × (check_consumed s'.consumed approvals ≡ ok tt)
        × (result ≡ finish K report s'.result)
  unfolding settle_all
  settle_all-inv config report approvals r result h =
      elim (Result-cases
        (settle_widening config report approvals (record { result = r; consumed = [] }))) [
          | inl (s, e) ↦
              elim (Result-cases (settle_incompatible_patches config report approvals s)) [
                | inl (s', e') ↦ (s, s', e, e', ground arith, ground arith)
                | inr (failure, e') ↦ absurd (ground arith)
              ]
          | inr (failure, e) ↦ absurd (ground arith)
        ]

  settle_all-passed :
      (config : GateConfig) (report : Report) (approvals : List GateApprovalEntry)
      (r result : GateResult)
      → settle_all K config report approvals r ≡ ok result
      → result.passed ≡ true
      → (widens config report ≡ true
          → HasEntry approvals (widening_violation report) (widening_impact_from_report report))
        × (rejects config report ≡ true
            → HasEntry approvals
                (incompatible_violation report)
                (incompatible_patch_impact_from_report report.compatibility.invalid_patches))
  settle_all-passed config report approvals r result h p =
      let (s, s', e, e', _, same) = settle_all-inv config report approvals r result h in
      let passed : s'.result.passed ≡ true = ground (arith, finish-passed report s'.result) in
      let (before, second) =
        settle_incompatible_patches-passed config report approvals s s' e' passed in
      let (start, first) =
        settle_widening-passed config report approvals (record { result = r; consumed = [] }) s e
          before in
      (first, second)

  -- What is known of an approval document that the gate admits.
  pub record IsAdmitted (now : K.Time) (report : Report) (d : GateApprovalDocument) : Type 0 where
    pub valid : validate K d ≡ ok tt
    pub not_expired :
        (expires_at : K.Time) × (expiration_time K d ≡ ok expires_at)
        × (K.after expires_at now ≡ true)
    pub old_policy : policy_refs_equal d.spec.old_policy report.old ≡ true
    pub new_policy : policy_refs_equal d.spec.new_policy report.new ≡ true

  admit-IsAdmitted :
      (now : K.Time) (config : GateConfig) (report : Report) (d : GateApprovalDocument)
      (r r' : GateResult)
      → admit K now config report d r ≡ ok r'
      → IsAdmitted now report d
  unfolding admit
  admit-IsAdmitted now config report d r r' h = elim (Result-cases (validate K d)) [
    | inl (u, valid) ↦ elim (Result-cases (expiration_time K d)) [
      | inl (expires_at, e) ↦ record {
        valid = valid;
        not_expired = (expires_at, e, ground arith);
        old_policy = ground arith;
        new_policy = ground arith;
      }
      | inr (failure, e) ↦ absurd (ground arith)
    ]
    | inr (failure, e) ↦ absurd (ground arith)
  ]

  -- An approval that is admitted for the report and has an entry for the violation.
  abbrev pub IsApproved :
      K.Time → Report → Option GateApprovalDocument → GateViolation → GateApprovalImpact → Type 0
  IsApproved now report approval v impact =
      (d : GateApprovalDocument) × (approval ≡ some d)
      × IsAdmitted now report d
      × HasEntry d.spec.approvals v impact

  nothing_listed : (v : GateViolation) (impact : GateApprovalImpact) → ¬ HasEntry [] v impact
  nothing_listed v impact (entry, m, fits) = elim m [ ]

  -- When the gate passes, then each violation that the configuration fails on was approved: if
  -- `fail_on_widening` is set and the new policy widens what may be changed, or if
  -- `fail_on_incompatible_patches` is set and it rejects patches that exist, then there is a valid
  -- approval, not expired, of the two policies that were compared, with an entry that expects the very
  -- number and the very set of the changes.
  pub evaluate_gate_with_approval-IsApproved :
      (now : K.Time) (report : Report) (config : GateConfig)
      (approval : Option GateApprovalDocument) (result : GateResult)
      → evaluate_gate_with_approval K now report config approval ≡ ok result
      → result.passed ≡ true
      → (widens config report ≡ true
          → IsApproved now report approval
              (widening_violation report)
              (widening_impact_from_report report))
        × (rejects config report ≡ true
            → IsApproved now report approval
                (incompatible_violation report)
                (incompatible_patch_impact_from_report report.compatibility.invalid_patches))
  unfolding evaluate_gate_with_approval
  evaluate_gate_with_approval-IsApproved now report config none result h p =
      let (first, second) =
        settle_all-passed config report [] (initial_result config false) result h p in
      (
        λ w. absurd (
            nothing_listed (widening_violation report) (widening_impact_from_report report)
              (first w)),
        λ w. absurd (
            nothing_listed (incompatible_violation report)
              (incompatible_patch_impact_from_report report.compatibility.invalid_patches)
              (second w)),
      )
  evaluate_gate_with_approval-IsApproved now report config (some d) result h p =
      elim (Result-cases (admit K now config report d (initial_result config true))) [
        | inl (r, e) ↦
            let fits = admit-IsAdmitted now config report d (initial_result config true) r e in
            let (first, second) =
              settle_all-passed config report d.spec.approvals r result (rw e at h) p in
            (λ w. (d, refl, fits, first w), λ w. (d, refl, fits, second w))
        | inr (failure, e) ↦ absurd (ground arith)
      ]
