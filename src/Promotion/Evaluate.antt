-- ===== src/Promotion/Evaluate.antt =====
-- `Policy.Evaluate`, which decides a request and lists what speaks against it.
pub mod Laws
use sealos_lifecycle.Base.{
  ◌<>◌, String, ◌==◌, contains, string_eq, if◌then◌else◌, Bool, true, false, ◌&&◌, not, Option,
  none, some, List, [], ◌∷◌, ◌++◌, text, errorf, Result, ok, err, ◌>>=◌, ◌>>◌, is_positive, less_ℤ,
  show_ℤ, trim_space, join, less, is_empty, sort_by,
}
use sealos_lifecycle.Promotion.Types.{
  ChannelRule, Policy, Request, ViolationCode, source_channel_blocked, health_proof_required,
  health_proof_failed, Violation, Decision,
}
use sealos_lifecycle.Promotion.Policy.{default_policy, rule_for, validate_request, validate_policy}

-- `%q` of a channel. A request that is not valid is refused before, so that the channel has nothing
-- to escape.
abbrev quote : String → String
quote s = "\"" <> (s <> "\"")

unfoldable pub add_violation : ViolationCode → String → Decision → Decision
add_violation code message d = record d {
  allowed = false;
  violations = d.violations ++ (record { code = code; message = message } ∷ []);
}

-- `if test { decision.addViolation(code, message) }`
unfoldable pub add_violation_if : Bool → ViolationCode → String → Decision → Decision
add_violation_if test code message d = if test then add_violation code message d else d

unfoldable pub add_warning_if : Bool → String → Decision → Decision
add_warning_if test message d =
    if test then record d { warnings = d.warnings ++ (message ∷ []) } else d

unfoldable pub violation_less : Violation → Violation → Bool
unfolding less
violation_less a b = if not (a.code == b.code) then less a.code b.code else less a.message b.message

unfoldable pub sort_violations : Decision → Decision
unfolding violation_less sort_by
sort_violations d = record d { violations = sort_by violation_less d.violations }

unfoldable pub initial_decision : Request → ChannelRule → Decision
unfolding trim_space
initial_decision req rule = record {
  allowed = true;
  transition = record {
    line = req.candidate.line;
    from_revision = trim_space req.candidate.replacing;
    to_revision = req.candidate.revision;
    source_channel = req.candidate.source_channel;
    target_channel = req.target_channel;
    health_proof_required = rule.requires_health_proof;
  };
  violations = [];
  warnings = [];
  channel_rule = rule;
  health_proof = req.health_proof;
}

-- The part of `Evaluate` after the rule is found.
unfoldable pub decide : Request → ChannelRule → Decision
unfolding initial_decision
decide req rule =
    let proof = req.health_proof in
    let d = initial_decision req rule in
    let d =
      add_violation_if (not (contains req.candidate.source_channel rule.allowed_source_channels))
        source_channel_blocked
        ("candidate source channel "
          <> (quote req.candidate.source_channel
              <> (" cannot promote to target channel " <> quote req.target_channel)))
        d in
    let d =
      add_violation_if (rule.requires_health_proof && not proof.provided) health_proof_required
        ("target channel " <> (quote req.target_channel <> " requires passed health proof")) d in
    let d =
      add_violation_if (proof.provided && not proof.passed) health_proof_failed
        "health proof did not pass" d in
    let d =
      add_violation_if (not (is_empty proof.failed_signals)) health_proof_failed
        ("health proof has failed signal(s): " <> join proof.failed_signals ", ") d in
    let d =
      add_violation_if (not (is_empty proof.failed_required_signals)) health_proof_failed
        ("health proof has failed required signal(s): " <> join proof.failed_required_signals ", ")
        d in
    let d =
      add_violation_if (not (is_empty proof.missing_required_signals)) health_proof_failed
        ("health proof is missing required signal(s): " <> join proof.missing_required_signals ", ")
        d in
    let d =
      add_violation_if
        (is_positive proof.min_passed_signals
          && less_ℤ proof.passed_signals proof.min_passed_signals)
        health_proof_failed
        ("health proof passed "
          <> (show_ℤ proof.passed_signals
              <> ("/"
                  <> (show_ℤ proof.min_passed_signals
                      <> " required evidence threshold signal(s)"))))
        d in
    add_warning_if (not (is_empty proof.optional_failed_signals))
      ("health proof has non-blocking failed optional signal(s): "
        <> join proof.optional_failed_signals ", ")
      d

unfoldable pub find_rule : Policy → Request → Result ChannelRule
find_rule p req = elim (rule_for p.channel_rules req.target_channel) [
  | none ↦ err (errorf "no promotion rule for target channel %q" (text req.target_channel ∷ []))
  | some rule ↦ ok rule
]

unfoldable pub evaluate : Policy → Request → Result Decision
unfolding find_rule
evaluate p req = do
  validate_policy p
  validate_request req
  rule ← find_rule p req
  ok (sort_violations (decide req rule))

unfoldable pub evaluate_default : Request → Result Decision
evaluate_default req = evaluate default_policy req
