-- ===== src/Promotion/Policy/Laws.antt =====
-- A valid policy has one rule for a channel, and the default policy is valid.
use sealos_lifecycle.Base.{
  ℕ, ◌+◌, ◌≡◌, refl, contains, string_eq, true, inl, inr, none, some, List, [], ◌∷◌, ok, arith,
  is_blank, Listed,
}
use sealos_lifecycle.Promotion.Types.{Channel, ChannelRule, Policy}
use sealos_lifecycle.Promotion.Policy.{
  default_policy, rule_for, validate_channel, validate_rule, validate_rules, validate_policy,
  validate_sources,
}

-- No rule of the list is for a channel that was seen.
rules_fresh :
    (i : ℕ) (seen : List Channel) (rs : List ChannelRule) (c : Channel)
    → validate_rules i seen rs ≡ ok tt
    → contains c seen ≡ true
    → rule_for rs c ≡ none
unfolding validate_rules rule_for
rules_fresh i seen [] c h m = refl
rules_fresh i seen (q ∷ rs) c h m = ground (arith, rules_fresh (i + 1) (q.channel ∷ seen) rs c)

rule_for-Listed :
    (i : ℕ) (seen : List Channel) (rs : List ChannelRule) (r : ChannelRule)
    → validate_rules i seen rs ≡ ok tt
    → Listed r rs
    → rule_for rs r.channel ≡ some r
unfolding validate_rules rule_for
rule_for-Listed i seen [] r h m = elim m [ ]
rule_for-Listed i seen (q ∷ rs) r h (inl e) = ground arith
rule_for-Listed i seen (q ∷ rs) r h (inr m) = ground (
  arith,
  rule_for-Listed (i + 1) (q.channel ∷ seen) rs r,
  rules_fresh (i + 1) (q.channel ∷ seen) rs q.channel,
)

-- In a valid policy every rule is the one that is found for its channel, so that the order of the
-- rules does not matter.
pub rule_for_valid :
    (p : Policy) (r : ChannelRule)
    → validate_policy p ≡ ok tt
    → Listed r p.channel_rules
    → rule_for p.channel_rules r.channel ≡ some r
unfolding validate_policy
rule_for_valid p r h m = rule_for-Listed 0 [] p.channel_rules r (ground arith) m

pub default_policy-valid : validate_policy default_policy ≡ ok tt
unfolding validate_policy validate_rules validate_rule validate_sources validate_channel
    default_policy string_eq is_blank
default_policy-valid = refl
