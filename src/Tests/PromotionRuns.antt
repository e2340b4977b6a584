-- ===== src/Tests/PromotionRuns.antt =====
-- Requests under the default policy.
use sealos_lifecycle.Base.{
  Listed, ◌≡◌, refl, ◌≢◌, ◌↔◌, inl, inr, String, string_eq, Bool, true, false, some, [], ◌∷◌, ok,
  pos, is_blank,
}
use sealos_lifecycle.Promotion.Types.{Channel, alpha, beta, stable, ChannelRule, Request, Decision}
use sealos_lifecycle.Promotion.Policy.{
  default_policy, rule_for, validate_channel, validate_candidate, validate_request,
  validate_sources, validate_rule, validate_rules, validate_policy,
}
use sealos_lifecycle.Promotion.Policy.Laws.{rule_for_valid, default_policy-valid}
use sealos_lifecycle.Promotion.Evaluate.{
  sort_violations, decide, evaluate, evaluate_default, find_rule, add_violation_if, add_warning_if,
  add_violation,
}
use sealos_lifecycle.Promotion.Evaluate.Laws.{
  IsPromotable, IsAbout, IsNextStage, evaluate_lem, evaluate_default_total, evaluate_default_stages,
}

abbrev request : Channel → Channel → Request
request source target = record {
  target_channel = target;
  candidate = record {
    line = "base";
    revision = "r2";
    source_channel = source;
    replacing = "r1";
    component_digest = "";
  };
  health_proof = record {
    provided = true;
    passed = true;
    total_signals = pos 2;
    passed_signals = pos 2;
    failed_signals = [];
    optional_failed_signals = [];
    required_signals = [];
    failed_required_signals = [];
    missing_required_signals = [];
    min_passed_signals = pos 1;
  };
}

abbrev stable_rule : ChannelRule
stable_rule = record {
  channel = stable;
  intent = "general-use production baseline";
  rank = pos 30;
  allowed_source_channels = beta ∷ stable ∷ [];
  requires_health_proof = true;
}

abbrev decision : Decision
decision = sort_violations (decide (request beta stable) stable_rule)

request_is_valid : validate_request (request beta stable) ≡ ok tt
unfolding validate_request validate_candidate validate_channel string_eq is_blank
request_is_valid = refl

decided : evaluate default_policy (request beta stable) ≡ ok decision
unfolding evaluate find_rule rule_for default_policy validate_policy validate_rules validate_rule
    validate_sources validate_request validate_candidate validate_channel string_eq is_blank
decided = refl

evaluate_lem_example :
    (rule : ChannelRule) × (rule_for default_policy.channel_rules stable ≡ some rule)
    × IsAbout (request beta stable) rule decision
    × ((decision.allowed ≡ true) ↔ IsPromotable (request beta stable) rule)
    × ((decision.allowed ≡ true) ↔ (decision.violations ≡ []))
evaluate_lem_example = evaluate_lem default_policy (request beta stable) decision decided

evaluate_default_total_example : (d : Decision) × (evaluate_default (request beta stable) ≡ ok d)
evaluate_default_total_example = evaluate_default_total (request beta stable) request_is_valid

decided_by_default : evaluate_default (request beta stable) ≡ ok decision
unfolding evaluate_default
decided_by_default = decided

is_allowed : decision.allowed ≡ true
unfolding sort_violations decide add_violation_if add_warning_if string_eq
is_allowed = refl

evaluate_default_stages_example :
    IsNextStage beta stable
    × (◌≢◌ {A = String} stable alpha → (◌≡◌ {A = Bool} true true) × (◌≡◌ {A = Bool} true true))
evaluate_default_stages_example =
    evaluate_default_stages (request beta stable) decision decided_by_default is_allowed

-- A candidate of the alpha channel is not promoted to stable.
skips_a_stage : (sort_violations (decide (request alpha stable) stable_rule)).allowed ≡ false
unfolding sort_violations decide add_violation_if add_violation add_warning_if string_eq
skips_a_stage = refl

stable_is_Listed : Listed stable_rule default_policy.channel_rules
unfolding default_policy
stable_is_Listed = inr (inr (inl refl))

rule_for_valid_example : rule_for default_policy.channel_rules stable ≡ some stable_rule
rule_for_valid_example =
    rule_for_valid default_policy stable_rule default_policy-valid stable_is_Listed
