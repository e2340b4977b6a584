-- ===== src/State/Types.antt =====
-- The types of pkg/distribution/state/types.go. A pointer that may be nil is an `Option`, a slice
-- or a map that may be nil is a list. A `metav1.Time` is the whole second that it is written as.
use sealos_lifecycle.Base.{ℕ, String, Option, none, List, [], ℤ}
use sealos_lifecycle.Bom.Channel.{ReleaseChannel}
pub use sealos_lifecycle.Kinds.{api_version, kind_applied_revision}

abbrev pub Time : Type 0
Time = ℕ

abbrev pub ClusterState : Type 0
ClusterState = String

abbrev pub clean : ClusterState
clean = "Clean"

abbrev pub dirty : ClusterState
dirty = "Dirty"

abbrev pub orphan : ClusterState
orphan = "Orphan"

abbrev pub degraded : ClusterState
degraded = "Degraded"

pub record Metadata : Type 0 where
  pub name : String
  pub labels : List (String × String)

pub record BomReference : Type 0 where
  pub name : String
  pub revision : String
  pub channel : ReleaseChannel
  pub digest : String

abbrev pub TargetKind : Type 0
TargetKind = String

abbrev pub target_bom : TargetKind
target_bom = "bom"

abbrev pub target_channel_file : TargetKind
target_channel_file = "releaseChannelFile"

abbrev pub target_channel_lookup : TargetKind
target_channel_lookup = "releaseChannelLookup"

pub record RequestedTarget : Type 0 where
  pub kind : TargetKind
  pub bom_path : String
  pub bom_digest : String
  pub release_channel_path : String
  pub release_channel_digest : String
  pub release_source : String
  pub distribution_line : String
  pub channel : ReleaseChannel

pub record ReleaseChannelReference : Type 0 where
  pub name : String
  pub distribution_line : String
  pub channel : ReleaseChannel
  pub target_revision : String
  pub source : String
  pub digest : String

pub record ResolvedTarget : Type 0 where
  pub bom : BomReference
  pub release_channel : Option ReleaseChannelReference

pub record RevisionSnapshot : Type 0 where
  pub bom : BomReference
  pub requested_target : Option RequestedTarget
  pub resolved_target : Option ResolvedTarget
  pub local_repo_revision : String
  pub local_patch_revision : String
  pub desired_state_digest : String

-- `corev1.ConditionStatus`
abbrev pub ConditionStatus : Type 0
ConditionStatus = String

pub record Condition : Type 0 where
  pub condition_type : String
  pub status : ConditionStatus
  pub last_transition_time : Time
  pub reason : String
  pub message : String

pub record AppliedRevisionSpec : Type 0 where
  pub cluster_name : String
  pub bom : BomReference
  pub requested_target : Option RequestedTarget
  pub resolved_target : Option ResolvedTarget
  pub local_repo_revision : String
  pub local_patch_revision : String
  pub desired_state_digest : String

pub record ObservedSummary : Type 0 where
  pub last_observed_time : Option Time
  pub total : ℤ
  pub present : ℤ
  pub missing : ℤ
  pub matched : ℤ
  pub drifted : ℤ
  pub clean_count : ℤ
  pub dirty_count : ℤ
  pub orphan_count : ℤ
  pub mixed_ownership_object : ℤ
  pub direct_commit_eligible : ℤ
  pub direct_revert_eligible : ℤ
  pub bundle_match_required : ℤ

pub record AppliedRevisionStatus : Type 0 where
  pub state : ClusterState
  pub last_applied_time : Option Time
  pub last_successful_revision : Option RevisionSnapshot
  pub successful_revisions : List RevisionSnapshot
  pub observed_summary : Option ObservedSummary
  pub conditions : List Condition

pub record AppliedRevision : Type 0 where
  pub api_version : String
  pub kind : String
  pub metadata : Metadata
  pub spec : AppliedRevisionSpec
  pub status : AppliedRevisionStatus

unfoldable pub new_applied_revision : String → String → BomReference → String → AppliedRevision
new_applied_revision name cluster_name ref desired_state_digest = record {
  api_version = api_version;
  kind = kind_applied_revision;
  metadata = record { name = name; labels = [] };
  spec = record {
    cluster_name = cluster_name;
    bom = ref;
    requested_target = none;
    resolved_target = none;
    local_repo_revision = "";
    local_patch_revision = "";
    desired_state_digest = desired_state_digest;
  };
  status = record {
    state = degraded;
    last_applied_time = none;
    last_successful_revision = none;
    successful_revisions = [];
    observed_summary = none;
    conditions = [];
  };
}

-- The first argument is what `metav1.Now()` returns.
unfoldable pub new_condition : Time → String → ConditionStatus → String → String → Condition
new_condition now condition_type status reason message = record {
  condition_type = condition_type;
  status = status;
  last_transition_time = now;
  reason = reason;
  message = message;
}
