-- ===== src/State/Document.antt =====
-- The documents that the operations of pkg/distribution/state/store.go make. The readings of the
-- clock (`metav1.Now`) are arguments, in the order of the calls. Values are immutable, so the
-- `clone…` functions of the source have no counterpart.
pub mod Laws
pub mod Validity
use sealos_lifecycle.Base.{
  String, ◌<>◌, ◌==◌, string_eq, if◌then◌else◌, Bool, false, ◌&&◌, Option, none, some, [], ◌∷◌,
}
use sealos_lifecycle.State.Types.{
  Time, ClusterState, clean, dirty, orphan, degraded, BomReference, RequestedTarget, ResolvedTarget,
  RevisionSnapshot, Condition, AppliedRevisionSpec, ObservedSummary, AppliedRevisionStatus,
  AppliedRevision, new_applied_revision, new_condition,
}
use sealos_lifecycle.State.History.{prepend_history}
use sealos_lifecycle.State.Conditions.{upsert_condition}

abbrev pub condition_type_applied : String
condition_type_applied = "Applied"

abbrev pub condition_type_observed : String
condition_type_observed = "Observed"

unfoldable pub current_applied_revision_name : String → String
current_applied_revision_name cluster_name =
    if cluster_name == "" then "" else cluster_name <> "-current"

pub record PersistOptions : Type 0 where
  pub requested_target : Option RequestedTarget
  pub resolved_target : Option ResolvedTarget

-- What both persist operations are given: the arguments after the cluster's name.
pub record Revision : Type 0 where
  pub ref : BomReference
  pub desired_state_digest : String
  pub local_repo_revision : String
  pub local_patch_revision : String
  pub opts : PersistOptions

unfoldable pub apply_snapshot_to_spec : AppliedRevisionSpec → RevisionSnapshot → AppliedRevisionSpec
apply_snapshot_to_spec spec snapshot = record {
  cluster_name = spec.cluster_name;
  bom = snapshot.bom;
  requested_target = snapshot.requested_target;
  resolved_target = snapshot.resolved_target;
  local_repo_revision = snapshot.local_repo_revision;
  local_patch_revision = snapshot.local_patch_revision;
  desired_state_digest = snapshot.desired_state_digest;
}

-- The document that both persist operations start from.
unfoldable pub new_document : String → Revision → AppliedRevision
unfolding new_applied_revision current_applied_revision_name
new_document cluster_name r =
    let doc =
      new_applied_revision (current_applied_revision_name cluster_name) cluster_name r.ref
        r.desired_state_digest in
    record doc {
      spec = record (doc.spec) {
        local_repo_revision = r.local_repo_revision;
        local_patch_revision = r.local_patch_revision;
        requested_target = r.opts.requested_target;
        resolved_target = r.opts.resolved_target;
      };
    }

abbrev pub has_digest : String → Option RevisionSnapshot → Bool
has_digest digest none = false
has_digest digest (some r) = r.desired_state_digest == digest

pending : Time → Condition
unfolding new_condition
pending now =
    new_condition now condition_type_applied "False" "DesiredStateRendered"
      "desired revision rendered but not yet applied"

-- The status that a render gives the new document.
unfoldable pub rendered_status :
    Time → String → AppliedRevisionStatus → Option AppliedRevision → AppliedRevisionStatus
unfolding pending
rendered_status now digest fresh none = record fresh {
  state = dirty;
  observed_summary = none;
  conditions = pending now ∷ [];
}
rendered_status now digest fresh (some existing) =
    let old = existing.status in
    if old.state == clean && has_digest digest old.last_successful_revision
    then old
    else record fresh {
      last_applied_time = old.last_applied_time;
      last_successful_revision = old.last_successful_revision;
      successful_revisions = old.successful_revisions;
      state = dirty;
      observed_summary = none;
      conditions = pending now ∷ [];
    }

unfoldable pub rendered : Time → String → Revision → Option AppliedRevision → AppliedRevision
unfolding new_document rendered_status
rendered now cluster_name r existing =
    let doc = new_document cluster_name r in
    record doc { status = rendered_status now r.desired_state_digest doc.status existing }

-- The snapshot of what a document describes.
unfoldable pub snapshot_of : AppliedRevisionSpec → RevisionSnapshot
snapshot_of spec = record {
  bom = spec.bom;
  requested_target = spec.requested_target;
  resolved_target = spec.resolved_target;
  local_repo_revision = spec.local_repo_revision;
  local_patch_revision = spec.local_patch_revision;
  desired_state_digest = spec.desired_state_digest;
}

-- A document marked as applied at `now`. `later` is the reading in the condition.
unfoldable pub applied : Time → Time → AppliedRevision → Option AppliedRevision → AppliedRevision
unfolding snapshot_of new_condition
applied now later doc existing = record doc {
  status = record {
    state = clean;
    last_applied_time = some now;
    observed_summary = none;
    last_successful_revision = some (snapshot_of doc.spec);
    successful_revisions = prepend_history (snapshot_of doc.spec) existing;
    conditions =
        new_condition later condition_type_applied "True" "ReconcileSucceeded"
          "desired revision applied"
        ∷ [];
  };
}

unfoldable pub degraded_document : Time → String → String → AppliedRevision → AppliedRevision
unfolding new_condition
degraded_document now reason message doc = record doc {
  status = record (doc.status) {
    state = degraded;
    conditions =
        upsert_condition doc.status.conditions
          (new_condition now condition_type_applied "False" reason message);
  };
}

abbrev observed_message : String → String → String
observed_message message fallback = if message == "" then fallback else message

unfoldable pub observed_state_condition : Time → ClusterState → String → Condition
unfolding new_condition
observed_state_condition now state message =
    if state == clean
    then new_condition now condition_type_observed "False" "LiveStateMatchesDesired"
        (observed_message message "live tracked state matches desired ownership state")
    else if state == dirty
    then new_condition now condition_type_observed "True" "LocalOwnershipDriftDetected"
        (observed_message message "local-owned drift detected")
    else if state == orphan
    then new_condition now condition_type_observed "True" "GlobalOwnershipDriftDetected"
        (observed_message message "global-owned drift detected")
    else new_condition now condition_type_observed "Unknown" "ObservationIncomplete"
        (observed_message message "live ownership state could not be fully determined")

abbrev time_or : Time → Option Time → Time
time_or now none = now
time_or now (some t) = t

-- The summary with its time, which is `now` if it has none.
abbrev pub stamped_summary : Time → Option ObservedSummary → Option ObservedSummary
stamped_summary now none = none
stamped_summary now (some s) =
    some (record s { last_observed_time = some (time_or now s.last_observed_time) })

unfoldable pub observed_document :
    Time → Time → ClusterState → Option ObservedSummary → String → AppliedRevision → AppliedRevision
observed_document now later state summary message doc = record doc {
  status = record (doc.status) {
    state = state;
    observed_summary = stamped_summary now summary;
    conditions =
        upsert_condition doc.status.conditions (observed_state_condition later state message);
  };
}
