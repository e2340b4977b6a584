-- ===== src/Promotion/Policy.antt =====
-- The default policy, the lookup of a rule, and the `Validate` methods.
pub mod Laws
use sealos_lifecycle.Base.{
  ℕ, ◌+◌, String, ◌==◌, contains, string_eq, if◌then◌else◌, Bool, true, false, not, Option, none,
  some, List, [], ◌∷◌, text, num, errorf, Result, ok, err, ◌>>◌, fail_if, wrap, pos, is_positive,
  is_blank, is_empty,
}
use sealos_lifecycle.Promotion.Types.{
  Channel, alpha, beta, stable, CandidateRevision, ChannelRule, Policy, Request,
}

unfoldable pub default_policy : Policy
default_policy = record {
  channel_rules =
      record {
        channel = alpha;
        intent = "early validation with limited blast radius";
        rank = pos 10;
        allowed_source_channels = alpha ∷ [];
        requires_health_proof = false;
      }
      ∷ record {
        channel = beta;
        intent = "controlled canary validation before production rollout";
        rank = pos 20;
        allowed_source_channels = alpha ∷ beta ∷ [];
        requires_health_proof = true;
      }
      ∷ record {
        channel = stable;
        intent = "general-use production baseline";
        rank = pos 30;
        allowed_source_channels = beta ∷ stable ∷ [];
        requires_health_proof = true;
      }
      ∷ [];
}

unfoldable pub rule_for : List ChannelRule → Channel → Option ChannelRule
rule_for [] channel = none
rule_for (rule ∷ rules) channel =
    if rule.channel == channel then some rule else rule_for rules channel

unfoldable pub validate_channel : Channel → Result (Unit {0})
validate_channel c =
    if contains c (alpha ∷ beta ∷ stable ∷ [])
    then ok tt
    else err (errorf "invalid channel %q" (text c ∷ []))

unfoldable pub validate_candidate : CandidateRevision → Result (Unit {0})
validate_candidate c = do
  fail_if (is_blank c.line) (errorf "line cannot be empty" [])
  fail_if (is_blank c.revision) (errorf "revision cannot be empty" [])
  wrap "sourceChannel: %w" [] (validate_channel c.source_channel)

unfoldable pub validate_request : Request → Result (Unit {0})
validate_request r = do
  wrap "targetChannel: %w" [] (validate_channel r.target_channel)
  wrap "candidate: %w" [] (validate_candidate r.candidate)

-- The loop over the source channels, from the index `i`, with those that it has seen.
unfoldable pub validate_sources : ℕ → List Channel → List Channel → Result (Unit {0})
validate_sources i seen [] = ok tt
validate_sources i seen (c ∷ cs) = do
  wrap "allowedSourceChannels[%d]: %w" (num i ∷ []) (validate_channel c)
  fail_if (contains c seen)
      (errorf "allowedSourceChannels[%d]: duplicate channel %q" (num i ∷ text c ∷ []))
  validate_sources (i + 1) (c ∷ seen) cs

unfoldable pub validate_rule : ChannelRule → Result (Unit {0})
validate_rule r = do
  wrap "channel: %w" [] (validate_channel r.channel)
  fail_if (is_blank r.intent) (errorf "intent cannot be empty" [])
  fail_if (not (is_positive r.rank)) (errorf "rank must be positive" [])
  fail_if (is_empty r.allowed_source_channels) (errorf "allowedSourceChannels cannot be empty" [])
  validate_sources 0 [] r.allowed_source_channels

-- The loop over the rules, from the index `i`, with the channels that it has seen.
unfoldable pub validate_rules : ℕ → List Channel → List ChannelRule → Result (Unit {0})
validate_rules i seen [] = ok tt
validate_rules i seen (r ∷ rs) = do
  wrap "channelRules[%d]: %w" (num i ∷ []) (validate_rule r)
  fail_if (contains r.channel seen)
      (errorf "channelRules[%d]: duplicate channel %q" (num i ∷ text r.channel ∷ []))
  validate_rules (i + 1) (r.channel ∷ seen) rs

unfoldable pub validate_policy : Policy → Result (Unit {0})
validate_policy p = do
  fail_if (is_empty p.channel_rules) (errorf "channelRules cannot be empty" [])
  validate_rules 0 [] p.channel_rules
