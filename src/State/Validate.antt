-- ===== src/State/Validate.antt =====
-- The `Validate` methods of pkg/distribution/state/types.go. `parse_digest` is `digest.Parse` of
-- github.com/opencontainers/go-digest: the error that it returns, if any.
use sealos_lifecycle.Base.{
  ℕ, ◌+◌, String, ◌==◌, contains, string_eq, if◌then◌else◌, Bool, false, ◌&&◌, not, Option, none,
  some, List, [], ◌∷◌, text, num, Error, errorf, wrapf, Result, ok, err, ◌>>◌, fail_if, wrap,
  check_some, ℤ, is_negative,
}
use sealos_lifecycle.Bom.Channel
use sealos_lifecycle.State.Types.{
  ClusterState, clean, dirty, orphan, degraded, BomReference, TargetKind, target_bom,
  target_channel_file, target_channel_lookup, RequestedTarget, ReleaseChannelReference,
  ResolvedTarget, RevisionSnapshot, Condition, AppliedRevisionSpec, ObservedSummary,
  AppliedRevisionStatus, AppliedRevision, api_version, kind_applied_revision,
}

abbrev pub Check : Type 0 → Type 0
Check A = A → Result (Unit {0})

unfoldable pub validate_cluster_state : Check ClusterState
validate_cluster_state s =
    if contains s (clean ∷ dirty ∷ orphan ∷ degraded ∷ [])
    then ok tt
    else err (errorf "invalid cluster state %q" (text s ∷ []))

unfoldable pub validate_target_kind : Check TargetKind
validate_target_kind k =
    if contains k (target_bom ∷ target_channel_file ∷ target_channel_lookup ∷ [])
    then ok tt
    else err (errorf "invalid target kind %q" (text k ∷ []))

unfoldable pub same_bom_reference : BomReference → BomReference → Bool
same_bom_reference left right =
    left.name == right.name
    && left.revision == right.revision
    && left.channel == right.channel
    && left.digest == right.digest

-- The switch accepts "True", "False" and "Unknown", the constants of k8s.io/api/core/v1.
unfoldable pub validate_condition : Check Condition
validate_condition c = do
  fail_if (c.condition_type == "") (errorf "type cannot be empty" [])
  if contains c.status ("True" ∷ "False" ∷ "Unknown" ∷ [])
      then ok tt
      else err (errorf "invalid condition status %q" (text c.status ∷ []))

check_counts : Check (List (String × ℤ))
check_counts [] = ok tt
check_counts ((name, value) ∷ fields) = do
  fail_if (is_negative value) (errorf "%s cannot be negative" (text name ∷ []))
  check_counts fields

unfoldable pub validate_observed_summary : Check ObservedSummary
unfolding check_counts
validate_observed_summary s = check_counts (
    ("total", s.total)
    ∷ ("present", s.present)
    ∷ ("missing", s.missing)
    ∷ ("matched", s.matched)
    ∷ ("drifted", s.drifted)
    ∷ ("clean", s.clean_count)
    ∷ ("dirty", s.dirty_count)
    ∷ ("orphan", s.orphan_count)
    ∷ ("mixedOwnershipObject", s.mixed_ownership_object)
    ∷ ("directCommitEligible", s.direct_commit_eligible)
    ∷ ("directRevertEligible", s.direct_revert_eligible)
    ∷ ("bundleMatchRequired", s.bundle_match_required)
    ∷ [])

-- The loop over the conditions, from the index `i`, with the types that it has seen.
unfoldable pub validate_conditions : ℕ → List String → Check (List Condition)
validate_conditions i seen [] = ok tt
validate_conditions i seen (c ∷ cs) = do
  wrap "conditions[%d]: %w" (num i ∷ []) (validate_condition c)
  fail_if (contains c.condition_type seen)
      (errorf "conditions[%d]: duplicate condition type %q" (num i ∷ text c.condition_type ∷ []))
  validate_conditions (i + 1) (c.condition_type ∷ seen) cs

module _ (parse_digest : String → Option Error) where
  unfoldable pub validate_digest : String → Check String
  validate_digest field value = do
    fail_if (value == "") (errorf "%s cannot be empty" (text field ∷ []))
    elim (parse_digest value) [
      | none ↦ ok tt
      | some e ↦ err (wrapf "invalid %s %q: %w" (text field ∷ text value ∷ []) e)
    ]

  -- `if value != "" { validateDigest(field, value) }`
  abbrev pub validate_digest_if_set : String → Check String
  validate_digest_if_set field value = if value == "" then ok tt else validate_digest field value

  unfoldable pub validate_bom_reference : Check BomReference
  unfolding validate_digest
  validate_bom_reference r = do
    fail_if (r.name == "") (errorf "name cannot be empty" [])
    fail_if (r.revision == "") (errorf "revision cannot be empty" [])
    wrap "channel: %w" [] (Channel.validate r.channel)
    validate_digest_if_set "digest" r.digest

  channel_fields : String → String → Error → Error → Check RequestedTarget
  channel_fields source line no_source no_line t = do
    fail_if (source == "") no_source
    fail_if (line == "") no_line
    wrap "channel: %w" [] (Channel.validate_required t.channel)

  -- The switch over the kind.
  unfoldable pub validate_target_fields : Check RequestedTarget
  unfolding channel_fields
  validate_target_fields t =
      if t.kind == target_bom
      then fail_if (t.bom_path == "" && t.bom_digest == "")
          (errorf "bomPath or bomDigest is required for bom target" [])
      else if t.kind == target_channel_file
      then channel_fields t.release_channel_path t.distribution_line
          (errorf "releaseChannelPath is required for releaseChannelFile target" [])
          (errorf "distributionLine is required for releaseChannelFile target" []) t
      else if t.kind == target_channel_lookup
      then channel_fields t.release_source t.distribution_line
          (errorf "releaseSource is required for releaseChannelLookup target" [])
          (errorf "distributionLine is required for releaseChannelLookup target" []) t
      else ok tt

  unfoldable pub validate_requested_target : Check RequestedTarget
  unfolding validate_target_kind validate_target_fields validate_digest
  validate_requested_target t = do
    validate_target_kind t.kind
    validate_target_fields t
    validate_digest_if_set "bomDigest" t.bom_digest
    validate_digest_if_set "releaseChannelDigest" t.release_channel_digest

  unfoldable pub validate_channel_reference : Check ReleaseChannelReference
  unfolding validate_digest
  validate_channel_reference r = do
    fail_if (r.distribution_line == "") (errorf "distributionLine cannot be empty" [])
    wrap "channel: %w" [] (Channel.validate_required r.channel)
    fail_if (r.target_revision == "") (errorf "targetRevision cannot be empty" [])
    validate_digest_if_set "digest" r.digest

  -- The body of `if r.ReleaseChannel != nil`.
  unfoldable pub validate_channel_matches : BomReference → Check ReleaseChannelReference
  unfolding validate_channel_reference
  validate_channel_matches bom c = do
    wrap "releaseChannel: %w" [] (validate_channel_reference c)
    fail_if (not (c.distribution_line == bom.name))
        (errorf "releaseChannel.distributionLine must match bom.name" [])
    fail_if (not (c.target_revision == bom.revision))
        (errorf "releaseChannel.targetRevision must match bom.revision" [])
    fail_if (not (c.channel == bom.channel))
        (errorf "releaseChannel.channel must match bom.channel" [])

  unfoldable pub validate_resolved_target : Check ResolvedTarget
  unfolding validate_bom_reference validate_channel_matches
  validate_resolved_target r = do
    wrap "bom: %w" [] (validate_bom_reference r.bom)
    check_some (validate_channel_matches r.bom) r.release_channel

  unfoldable pub validate_target_pair :
      Option RequestedTarget → Option ResolvedTarget → Result (Unit {0})
  unfolding validate_requested_target validate_resolved_target
  validate_target_pair none none = ok tt
  validate_target_pair (some requested) (some resolved) = do
    wrap "requestedTarget: %w" [] (validate_requested_target requested)
    wrap "resolvedTarget: %w" [] (validate_resolved_target resolved)
  validate_target_pair _ _ =
      err (errorf "requestedTarget and resolvedTarget must be recorded together" [])

  -- `r.ResolvedTarget != nil && !sameBOMReference(bom, r.ResolvedTarget.BOM)`
  abbrev pub resolves_other : BomReference → Option ResolvedTarget → Bool
  resolves_other bom none = false
  resolves_other bom (some resolved) = not (same_bom_reference bom resolved.bom)

  unfoldable pub validate_snapshot : Check RevisionSnapshot
  unfolding validate_bom_reference validate_target_pair same_bom_reference validate_digest
  validate_snapshot r = do
    wrap "bom: %w" [] (validate_bom_reference r.bom)
    validate_target_pair r.requested_target r.resolved_target
    fail_if (resolves_other r.bom r.resolved_target) (errorf "resolvedTarget.bom must match bom" [])
    validate_digest "desiredStateDigest" r.desired_state_digest

  unfoldable pub validate_spec : Check AppliedRevisionSpec
  unfolding validate_bom_reference validate_target_pair same_bom_reference validate_digest
  validate_spec s = do
    fail_if (s.cluster_name == "") (errorf "clusterName cannot be empty" [])
    wrap "bom: %w" [] (validate_bom_reference s.bom)
    validate_target_pair s.requested_target s.resolved_target
    fail_if (resolves_other s.bom s.resolved_target) (errorf "resolvedTarget.bom must match bom" [])
    validate_digest "desiredStateDigest" s.desired_state_digest

  -- The loop over `SuccessfulRevisions`, from the index `i`.
  unfoldable pub validate_revisions : ℕ → Check (List RevisionSnapshot)
  validate_revisions i [] = ok tt
  validate_revisions i (r ∷ rs) = do
    wrap "successfulRevisions[%d]: %w" (num i ∷ []) (validate_snapshot r)
    validate_revisions (i + 1) rs

  unfoldable pub validate_status : Check AppliedRevisionStatus
  validate_status s = do
    wrap "state: %w" [] (validate_cluster_state s.state)
    check_some (λ r. wrap "lastSuccessfulRevision: %w" [] (validate_snapshot r))
        s.last_successful_revision
    validate_revisions 0 s.successful_revisions
    check_some (λ o. wrap "observedSummary: %w" [] (validate_observed_summary o)) s.observed_summary
    validate_conditions 0 [] s.conditions

  unfoldable pub validate : Check AppliedRevision
  validate a = do
    fail_if (not (a.api_version == api_version))
        (errorf "unsupported apiVersion %q" (text a.api_version ∷ []))
    fail_if (not (a.kind == kind_applied_revision))
        (errorf "unsupported kind %q" (text a.kind ∷ []))
    fail_if (a.metadata.name == "") (errorf "metadata.name cannot be empty" [])
    wrap "spec: %w" [] (validate_spec a.spec)
    wrap "status: %w" [] (validate_status a.status)
