-- ===== src/Promotion/Types.antt =====
-- The types of pkg/distribution/promotion/policy.go. A Go string type is a text, since a value of
-- it can be any text until it is validated.
use sealos_lifecycle.Base.{String, Bool, List, ℤ}

abbrev pub Channel : Type 0
Channel = String

abbrev pub alpha : Channel
alpha = "alpha"

abbrev pub beta : Channel
beta = "beta"

abbrev pub stable : Channel
stable = "stable"

pub record CandidateRevision : Type 0 where
  pub line : String
  pub revision : String
  pub source_channel : Channel
  pub replacing : String
  pub component_digest : String

pub record HealthProofSummary : Type 0 where
  pub provided : Bool
  pub passed : Bool
  pub total_signals : ℤ
  pub passed_signals : ℤ
  pub failed_signals : List String
  pub optional_failed_signals : List String
  pub required_signals : List String
  pub failed_required_signals : List String
  pub missing_required_signals : List String
  pub min_passed_signals : ℤ

pub record ChannelRule : Type 0 where
  pub channel : Channel
  pub intent : String
  pub rank : ℤ
  pub allowed_source_channels : List Channel
  pub requires_health_proof : Bool

pub record Policy : Type 0 where
  pub channel_rules : List ChannelRule

pub record Request : Type 0 where
  pub target_channel : Channel
  pub candidate : CandidateRevision
  pub health_proof : HealthProofSummary

abbrev pub ViolationCode : Type 0
ViolationCode = String

abbrev pub source_channel_blocked : ViolationCode
source_channel_blocked = "sourceChannelBlocked"

abbrev pub health_proof_required : ViolationCode
health_proof_required = "healthProofRequired"

abbrev pub health_proof_failed : ViolationCode
health_proof_failed = "healthProofFailed"

pub record Violation : Type 0 where
  pub code : ViolationCode
  pub message : String

pub record ChannelTransition : Type 0 where
  pub line : String
  pub from_revision : String
  pub to_revision : String
  pub source_channel : Channel
  pub target_channel : Channel
  pub health_proof_required : Bool

pub record Decision : Type 0 where
  pub allowed : Bool
  pub transition : ChannelTransition
  pub violations : List Violation
  pub warnings : List String
  pub channel_rule : ChannelRule
  pub health_proof : HealthProofSummary
