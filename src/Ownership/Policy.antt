-- ===== src/Ownership/Policy.antt =====
-- pkg/distribution/ownership/policy.go: the policy for local patches, its default and its checks.
use sealos_lifecycle.Base.{
  ℕ, ◌+◌, String, ◌<>◌, ◌==◌, contains, string_eq, if◌then◌else◌, not, Option, none, some, List, [],
  ◌∷◌, ◌++◌, map, text, num, errorf, Result, ok, err, ◌>>◌, fail_if, wrap, trim_space, is_blank,
  is_empty,
}

abbrev pub LocalPatchPolicyScope : Type 0
LocalPatchPolicyScope = String

abbrev pub cluster_local : LocalPatchPolicyScope
cluster_local = "clusterLocal"

pub record LocalPatchKindRule : Type 0 where
  pub kind : String
  pub allowed_prefixes : List String

pub record LocalPatchPolicy : Type 0 where
  pub scope : LocalPatchPolicyScope
  pub forbidden_exact_paths : List String
  pub forbidden_metadata_keys : List String
  pub forbidden_container_fields : List String
  pub kind_rules : List LocalPatchKindRule

-- Of localpatch.go.
unfoldable pub template_placement_patch_prefixes : String → List String
template_placement_patch_prefixes root =
    (root <> ".spec.nodeSelector")
    ∷ (root <> ".spec.tolerations")
    ∷ (root <> ".spec.affinity")
    ∷ (root <> ".spec.topologySpreadConstraints")
    ∷ (root <> ".spec.imagePullSecrets")
    ∷ (root <> ".spec.volumes.name")
    ∷ (root <> ".spec.volumes.secret.secretName")
    ∷ (root <> ".spec.containers.env.name")
    ∷ (root <> ".spec.containers.env.valueFrom.secretKeyRef.name")
    ∷ (root <> ".spec.containers.envFrom.secretRef.name")
    ∷ (root <> ".spec.initContainers.env.name")
    ∷ (root <> ".spec.initContainers.env.valueFrom.secretKeyRef.name")
    ∷ (root <> ".spec.initContainers.envFrom.secretRef.name")
    ∷ []

abbrev kind_rule : String → List String → LocalPatchKindRule
kind_rule kind prefixes = record { kind = kind; allowed_prefixes = prefixes }

unfoldable pub default_local_patch_policy : LocalPatchPolicy
unfolding template_placement_patch_prefixes
default_local_patch_policy = record {
  scope = cluster_local;
  forbidden_exact_paths = "status" ∷ "spec.selector" ∷ [];
  forbidden_metadata_keys =
      "uid" ∷ "resourceVersion" ∷ "generation" ∷ "creationTimestamp" ∷ "managedFields"
      ∷ "ownerReferences" ∷ "finalizers" ∷ "generateName" ∷ "selfLink" ∷ "deletionTimestamp"
      ∷ "deletionGracePeriodSeconds" ∷ [];
  forbidden_container_fields = "image" ∷ [];
  kind_rules =
      kind_rule "ConfigMap" ("data" ∷ "binaryData" ∷ [])
      ∷ kind_rule "Deployment" (template_placement_patch_prefixes "spec.template")
      ∷ kind_rule "DaemonSet" (template_placement_patch_prefixes "spec.template")
      ∷ kind_rule "StatefulSet"
          (template_placement_patch_prefixes "spec.template" ++ ("spec.volumeClaimTemplates" ∷ []))
      ∷ kind_rule "Job" (template_placement_patch_prefixes "spec.template")
      ∷ kind_rule "CronJob" (template_placement_patch_prefixes "spec.jobTemplate.spec.template")
      ∷ kind_rule "Ingress" (
          "metadata.annotations" ∷ "metadata.labels" ∷ "spec.ingressClassName" ∷ "spec.rules"
          ∷ "spec.tls" ∷ [])
      ∷ kind_rule "Service" (
          "metadata.annotations" ∷ "metadata.labels" ∷ "spec.type" ∷ "spec.ports"
          ∷ "spec.loadBalancerClass" ∷ "spec.loadBalancerSourceRanges"
          ∷ "spec.externalTrafficPolicy" ∷ "spec.internalTrafficPolicy" ∷ "spec.sessionAffinity"
          ∷ [])
      ∷ [];
}

unfoldable pub effective_scope : LocalPatchPolicy → LocalPatchPolicyScope
unfolding is_blank trim_space
effective_scope p = if is_blank p.scope then cluster_local else trim_space p.scope

unfoldable pub validate_scope : LocalPatchPolicyScope → Result (Unit {0})
validate_scope s =
    if s == cluster_local
    then ok tt
    else if s == ""
    then err (errorf "local patch policy scope cannot be empty" [])
    else err (
        errorf
          "unsupported local patch policy scope %q: only %q is supported; package/BOM-scoped local patch policy is not supported"
          (text s ∷ text cluster_local ∷ []))

-- A loop that refuses a blank entry, from the index `i`; `message` has a verb for the index.
unfoldable pub refuse_blank : String → ℕ → List String → Result (Unit {0})
refuse_blank message i [] = ok tt
refuse_blank message i (entry ∷ entries) = do
  fail_if (is_blank entry) (errorf message (num i ∷ []))
  refuse_blank message (i + 1) entries

require_each : String → String → List String → List String → Result (Unit {0})
require_each field label seen [] = ok tt
require_each field label seen (entry ∷ required) = do
  fail_if (not (contains (trim_space entry) seen)) (
      errorf "%s must include required %s %q"
        (text field ∷ text label ∷ text (trim_space entry) ∷ []))
  require_each field label seen required

unfoldable pub require_forbidden_entries :
    String → String → List String → List String → Result (Unit {0})
unfolding require_each
require_forbidden_entries field label got required =
    require_each field label (map trim_space got) required

refuse_blank_prefix : String → ℕ → List String → Result (Unit {0})
refuse_blank_prefix kind i [] = ok tt
refuse_blank_prefix kind i (prefix ∷ prefixes) = do
  fail_if (is_blank prefix)
      (errorf "allowedPrefixes[%d] cannot be empty for kind %q" (num i ∷ text kind ∷ []))
  refuse_blank_prefix kind (i + 1) prefixes

unfoldable pub validate_kind_rule : LocalPatchKindRule → Result (Unit {0})
unfolding refuse_blank_prefix
validate_kind_rule r = do
  fail_if (is_blank r.kind) (errorf "kind cannot be empty" [])
  fail_if (is_empty r.allowed_prefixes)
      (errorf "allowedPrefixes cannot be empty for kind %q" (text r.kind ∷ []))
  refuse_blank_prefix r.kind 0 r.allowed_prefixes

validate_kind_rules : ℕ → List LocalPatchKindRule → Result (Unit {0})
unfolding validate_kind_rule
validate_kind_rules i [] = ok tt
validate_kind_rules i (r ∷ rs) = do
  wrap "kindRules[%d]: %w" (num i ∷ []) (validate_kind_rule r)
  validate_kind_rules (i + 1) rs

unfoldable pub validate : LocalPatchPolicy → Result (Unit {0})
unfolding effective_scope validate_scope refuse_blank require_forbidden_entries validate_kind_rules
validate p =
    let required = default_local_patch_policy in
    do
      validate_scope (effective_scope p)
      refuse_blank "forbiddenExactPaths[%d] cannot be empty" 0 p.forbidden_exact_paths
      refuse_blank "forbiddenMetadataKeys[%d] cannot be empty" 0 p.forbidden_metadata_keys
      refuse_blank "forbiddenContainerFields[%d] cannot be empty" 0 p.forbidden_container_fields
      require_forbidden_entries "forbiddenExactPaths" "path" p.forbidden_exact_paths
          required.forbidden_exact_paths
      require_forbidden_entries "forbiddenMetadataKeys" "metadata key" p.forbidden_metadata_keys
          required.forbidden_metadata_keys
      require_forbidden_entries "forbiddenContainerFields" "container field"
          p.forbidden_container_fields required.forbidden_container_fields
      fail_if (is_empty p.kind_rules) (errorf "kindRules cannot be empty" [])
      validate_kind_rules 0 p.kind_rules

unfoldable pub rule_for_kind : List LocalPatchKindRule → String → Option LocalPatchKindRule
rule_for_kind [] kind = none
rule_for_kind (rule ∷ rules) kind =
    if rule.kind == kind then some rule else rule_for_kind rules kind
