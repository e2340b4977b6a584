-- ===== src/Promotion/Evaluate/Laws.antt =====
-- When a promotion is allowed, and what its decision lists.
use sealos_lifecycle.Base.{
  ◌≡◌, refl, ap, trim_space, Bool-cases, ◌≢◌, ◌↔◌, String, contains, string_eq, Bool, true, false,
  Option-cases, inl, inr, subst, ◌⊎◌, some, List, [], ◌∷◌, ◌++◌, ok, arith, is_positive, less_ℤ,
  not, ◌&&◌, sort_by, insert_by,
}
use sealos_lifecycle.Promotion.Types.{
  Channel, alpha, beta, stable, ChannelRule, Policy, Request, Decision, ViolationCode, Violation,
  HealthProofSummary, ChannelTransition,
}
use sealos_lifecycle.Promotion.Policy.{default_policy, rule_for, validate_channel, validate_request}
use sealos_lifecycle.Promotion.Policy.Laws.{default_policy-valid}
use sealos_lifecycle.Promotion.Evaluate.{
  add_violation, find_rule, initial_decision, add_warning_if, add_violation_if, violation_less,
  sort_violations, decide, evaluate, evaluate_default,
}

-- What a channel's rule asks of a request, read off the documentation of the fields.
pub record IsPromotable (req : Request) (rule : ChannelRule) : Type 0 where
  pub from_allowed : contains req.candidate.source_channel rule.allowed_source_channels ≡ true
  pub proven : rule.requires_health_proof ≡ true → req.health_proof.provided ≡ true
  pub passed : req.health_proof.provided ≡ true → req.health_proof.passed ≡ true
  pub none_failed : req.health_proof.failed_signals ≡ []
  pub no_required_failed : req.health_proof.failed_required_signals ≡ []
  pub none_missing : req.health_proof.missing_required_signals ≡ []
  pub enough :
      is_positive req.health_proof.min_passed_signals ≡ true
      → less_ℤ req.health_proof.passed_signals req.health_proof.min_passed_signals ≡ false

-- What a decision is about: the rule, the proof and the move that the request asks for.
pub record IsAbout (req : Request) (rule : ChannelRule) (d : Decision) : Type 0 where
  pub channel_rule : d.channel_rule ≡ rule
  pub health_proof : d.health_proof ≡ req.health_proof
  pub line : d.transition.line ≡ req.candidate.line
  pub from_revision : d.transition.from_revision ≡ trim_space req.candidate.replacing
  pub to_revision : d.transition.to_revision ≡ req.candidate.revision
  pub source_channel : d.transition.source_channel ≡ req.candidate.source_channel
  pub target_channel : d.transition.target_channel ≡ req.target_channel
  pub proof_required : d.transition.health_proof_required ≡ rule.requires_health_proof

-- The part of a decision that no violation and no warning changes.
abbrev subject : Decision → ChannelRule × HealthProofSummary × ChannelTransition
subject d = (d.channel_rule, d.health_proof, d.transition)

abbrev Agrees : Decision → Type 0
Agrees e = (e.allowed ≡ true) ↔ (e.violations ≡ [])

append-ne-nil : (vs : List Violation) (v : Violation) → vs ++ (v ∷ []) ≢ []
append-ne-nil [] v e = cc
append-ne-nil (x ∷ vs) v e = cc

module _ (test : Bool) (code : ViolationCode) (message : String) (d : Decision) where
  allowed-add_violation_if :
      (add_violation_if test code message d).allowed ≡ (not test && d.allowed)
  unfolding add_violation_if add_violation
  allowed-add_violation_if = ground arith

  subject-add_violation_if : subject (add_violation_if test code message d) ≡ subject d
  unfolding add_violation_if add_violation
  subject-add_violation_if = elim (Bool-cases test) [ inl e ↦ rw e refl | inr e ↦ rw e refl ]

  add_violation_if-Agrees : Agrees d → Agrees (add_violation_if test code message d)
  unfolding add_violation_if add_violation
  add_violation_if-Agrees h =
      ground (arith, append-ne-nil d.violations (record { code = code; message = message }))

module _ (test : Bool) (message : String) (d : Decision) where
  allowed-add_warning_if : (add_warning_if test message d).allowed ≡ d.allowed
  unfolding add_warning_if
  allowed-add_warning_if = ground arith

  subject-add_warning_if : subject (add_warning_if test message d) ≡ subject d
  unfolding add_warning_if
  subject-add_warning_if = elim (Bool-cases test) [ inl e ↦ rw e refl | inr e ↦ rw e refl ]

  add_warning_if-Agrees : Agrees d → Agrees (add_warning_if test message d)
  unfolding add_warning_if
  add_warning_if-Agrees h = ground arith

subject-decide :
    (req : Request) (rule : ChannelRule)
    → subject (decide req rule) ≡ subject (initial_decision req rule)
unfolding decide
subject-decide req rule = simp (subject-add_warning_if, subject-add_violation_if) refl

decision-IsAbout :
    (req : Request) (rule : ChannelRule) → IsAbout req rule (sort_violations (decide req rule))
unfolding sort_violations initial_decision
decision-IsAbout req rule =
    let same = subject-decide req rule in
    let transition = ap (λ (x : ChannelRule × HealthProofSummary × ChannelTransition). x.2) same in
    record {
      channel_rule = ap (λ (x : ChannelRule × HealthProofSummary × ChannelTransition). x.0) same;
      health_proof = ap (λ (x : ChannelRule × HealthProofSummary × ChannelTransition). x.1) same;
      line = ap (λ (t : ChannelTransition). t.line) transition;
      from_revision = ap (λ (t : ChannelTransition). t.from_revision) transition;
      to_revision = ap (λ (t : ChannelTransition). t.to_revision) transition;
      source_channel = ap (λ (t : ChannelTransition). t.source_channel) transition;
      target_channel = ap (λ (t : ChannelTransition). t.target_channel) transition;
      proof_required = ap (λ (t : ChannelTransition). t.health_proof_required) transition;
    }

initial-Agrees : (req : Request) (rule : ChannelRule) → Agrees (initial_decision req rule)
unfolding initial_decision
initial-Agrees req rule = (λ h. refl, λ h. refl)

decide-Agrees : (req : Request) (rule : ChannelRule) → Agrees (decide req rule)
unfolding decide
decide-Agrees req rule =
    search (add_warning_if-Agrees, add_violation_if-Agrees, initial-Agrees) depth 10

allowed-decide :
    (req : Request) (rule : ChannelRule)
    → ((decide req rule).allowed ≡ true) ↔ IsPromotable req rule
unfolding decide
allowed-decide req rule = simp (allowed-add_warning_if, allowed-add_violation_if) (ground arith)

insert_by-ne-nil {ℓ} :
    {A : Type ℓ} (lt : A → A → Bool) (x : A) (xs : List A) → insert_by lt x xs ≢ []
unfolding insert_by
insert_by-ne-nil lt x [] e = cc
insert_by-ne-nil lt x (y ∷ xs) e = ground arith

sort_by-nil_iff {ℓ} :
    {A : Type ℓ} (lt : A → A → Bool) (xs : List A) → (sort_by lt xs ≡ []) ↔ (xs ≡ [])
unfolding sort_by
sort_by-nil_iff lt [] = (λ h. h, λ h. h)
sort_by-nil_iff lt (x ∷ xs) = (λ h. absurd (insert_by-ne-nil lt x (sort_by lt xs) h), λ h. cc)

abbrev IsDecisionFor : Request → ChannelRule → Decision → Type 0
IsDecisionFor req rule d =
    ((d.allowed ≡ true) ↔ IsPromotable req rule) × ((d.allowed ≡ true) ↔ (d.violations ≡ []))

sorted-IsDecisionFor :
    (req : Request) (rule : ChannelRule)
    → IsDecisionFor req rule (sort_violations (decide req rule))
unfolding sort_violations
sorted-IsDecisionFor req rule =
    let agrees = decide-Agrees req rule in
    let sorted = sort_by-nil_iff violation_less (decide req rule).violations in
    (allowed-decide req rule, (λ h. sorted.1 (agrees.0 h), λ h. agrees.1 (sorted.0 h)))

pub evaluate-inv :
    (p : Policy) (req : Request) (d : Decision)
    → evaluate p req ≡ ok d
    → (rule : ChannelRule) × (rule_for p.channel_rules req.target_channel ≡ some rule)
      × (sort_violations (decide req rule) ≡ d)
unfolding evaluate find_rule
evaluate-inv p req d h = elim (Option-cases (rule_for p.channel_rules req.target_channel)) [
  | inl missing ↦ absurd (ground arith)
  | inr (rule, found) ↦ (rule, found, ground arith)
]

-- What `evaluate` returns without an error: a rule of the policy is found for the target channel, and
-- the decision is about it: it holds this rule and the request's health proof, and its transition has the
-- line, the revisions and the channels of the request. It is allowed exactly if the request meets
-- what the rule asks, and exactly if it lists no violation.
pub evaluate_lem :
    (p : Policy) (req : Request) (d : Decision)
    → evaluate p req ≡ ok d
    → (rule : ChannelRule) × (rule_for p.channel_rules req.target_channel ≡ some rule)
      × IsAbout req rule d
      × ((d.allowed ≡ true) ↔ IsPromotable req rule)
      × ((d.allowed ≡ true) ↔ (d.violations ≡ []))
evaluate_lem p req d h =
    let (rule, found, same) = evaluate-inv p req d h in
    let (iff, agrees) = subst (IsDecisionFor req rule) same (sorted-IsDecisionFor req rule) in
    (rule, found, subst (IsAbout req rule) same (decision-IsAbout req rule), iff, agrees)

default_rule :
    (req : Request)
    → validate_request req ≡ ok tt
    → (rule : ChannelRule) × (rule_for default_policy.channel_rules req.target_channel ≡ some rule)
unfolding default_policy rule_for validate_request validate_channel
default_rule req h =
    elim (Option-cases (rule_for default_policy.channel_rules req.target_channel)) [
      | inl missing ↦ absurd (ground arith)
      | inr found ↦ found
    ]

-- Under the default policy every valid request is decided.
pub evaluate_default_total :
    (req : Request) → validate_request req ≡ ok tt → (d : Decision) × (evaluate_default req ≡ ok d)
unfolding evaluate_default evaluate find_rule
evaluate_default_total req h =
    let (rule, found) = default_rule req h in
    (sort_violations (decide req rule), rw (default_policy-valid, h, find_rule, found))

-- The moves between channels that need no skipped stage.
abbrev pub IsNextStage : Channel → Channel → Type 0
IsNextStage source target =
    ((target ≡ alpha) × (source ≡ alpha))
    ⊎ ((target ≡ beta) × ((source ≡ alpha) ⊎ (source ≡ beta)))
    ⊎ ((target ≡ stable) × ((source ≡ beta) ⊎ (source ≡ stable)))

stages :
    (req : Request) (rule : ChannelRule)
    → rule_for default_policy.channel_rules req.target_channel ≡ some rule
    → IsPromotable req rule
    → IsNextStage req.candidate.source_channel req.target_channel
      × (req.target_channel ≢ alpha
          → (req.health_proof.provided ≡ true) × (req.health_proof.passed ≡ true))
unfolding default_policy rule_for
stages req rule found p = ground (arith, p.from_allowed, p.proven, p.passed)

-- Under the default policy an allowed promotion skips no channel: alpha is reached from alpha, beta
-- from alpha or beta, and stable from beta or stable. To beta and to stable it has a health proof
-- that passed.
pub evaluate_default_stages :
    (req : Request) (d : Decision)
    → evaluate_default req ≡ ok d
    → d.allowed ≡ true
    → IsNextStage req.candidate.source_channel req.target_channel
      × (req.target_channel ≢ alpha
          → (req.health_proof.provided ≡ true) × (req.health_proof.passed ≡ true))
unfolding evaluate_default
evaluate_default_stages req d h a =
    let (rule, found, _, iff, _) = evaluate_lem default_policy req d h in
    stages req rule found (iff.0 a)
