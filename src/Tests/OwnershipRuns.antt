-- ===== src/Tests/OwnershipRuns.antt =====
-- Policies and overlays.
use text.Mathlib.TextEquality.{eq_iff}
use sealos_lifecycle.Base.{
  ℕ, suc, ◌≡◌, refl, ◌≢◌, inl, inr, String, string_eq, Bool, true, false, List, [], ◌∷◌, ok, arith,
  is_blank, trim_space, less, join, sort_by,
}
use sealos_lifecycle.Ownership.Policy
use sealos_lifecycle.Ownership.Policy.{
  LocalPatchPolicy, LocalPatchKindRule, default_local_patch_policy, rule_for_kind,
}
use sealos_lifecycle.Ownership.Paths.{
  FieldPath, path_string, append_path, is_identity_path, is_identity_string_path,
  is_metadata_string_map_value, contains_container_path, is_forbidden, is_allowed, matches_any,
  matches_prefix,
}
use sealos_lifecycle.Ownership.Value.{null, str, object, list, Items, nil, item, Fields, end, field}
use sealos_lifecycle.Ownership.Overlay.{
  validate_scalar, validate_path, validate_value, kind_of, has_non_identity_mutation,
  validate_overlay, extract_overlay, filter_value, validate_default_overlay,
}
use sealos_lifecycle.Ownership.Impact.{
  diff_local_patch_policy, has_widening_changes, has_narrowing_changes, flatten_allowed_prefixes,
  diff_kind_paths, missing_kind_paths, diff_strings, missing_strings, kind_path_key,
}
use sealos_lifecycle.Ownership.Impact.Members.{NulFree}
use sealos_lifecycle.Ownership.Overlay.Touches.{
  MapTouches, HasFlatLists, IsPermitted, validate_overlay-IsPermitted,
}
use sealos_lifecycle.Ownership.Overlay.Monotone.{
  IsClearPolicy, no_widening-validate_overlay, no_narrowing-validate_overlay,
}
use sealos_lifecycle.Ownership.Overlay.Extract.{extract_overlay-id}
use sealos_lifecycle.Ownership.Overlay.Sound.{extract_overlay_sound}

abbrev rule : String → List String → LocalPatchKindRule
rule kind prefixes = record { kind = kind; allowed_prefixes = prefixes }

abbrev with_rules : List LocalPatchKindRule → LocalPatchPolicy
with_rules rules = record default_local_patch_policy { kind_rules = rules }

abbrev pub wide : LocalPatchPolicy
wide =
    with_rules
      (rule "ConfigMap" ("data" ∷ "binaryData" ∷ []) ∷ rule "Service" ("spec.type" ∷ []) ∷ [])

abbrev pub narrow : LocalPatchPolicy
narrow = with_rules (rule "Service" ("spec.type" ∷ []) ∷ rule "ConfigMap" ("data" ∷ []) ∷ [])

abbrev pub config : Fields
config =
    field "kind" (str "ConfigMap") (field "data" (object (field "level" (str "debug") end)) end)

-- All that the checks call.
unfoldable pub accepts : LocalPatchPolicy → Fields → Bool
unfolding validate_overlay validate_value validate_path validate_scalar kind_of
    has_non_identity_mutation Policy.validate default_local_patch_policy is_forbidden is_allowed
    rule_for_kind matches_any matches_prefix path_string append_path is_identity_path
    is_identity_string_path is_metadata_string_map_value contains_container_path string_eq is_blank
    trim_space join filter_value extract_overlay
accepts policy document = elim (validate_overlay policy document) [ ok u ↦ true | _ ↦ false ]

pub narrow_accepts : validate_overlay narrow config ≡ ok tt
unfolding accepts
narrow_accepts = refl

pub wide_accepts : validate_overlay wide config ≡ ok tt
unfolding accepts
wide_accepts = refl

service_is_another : ◌≢◌ {A = String} "Service" "ConfigMap"
service_is_another = ground (arith, eq_iff "Service" "ConfigMap")

config_is_another : ◌≢◌ {A = String} "ConfigMap" "Service"
config_is_another = ground (arith, eq_iff "ConfigMap" "Service")

nz : (n : ℕ) → suc n ≢ 0
nz n = omega arith

pub config_is_NulFree : NulFree "ConfigMap"
config_is_NulFree = (nz _, (nz _, (nz _, (nz _, (nz _, (nz _, (nz _, (nz _, (nz _, tt)))))))))

service_is_NulFree : NulFree "Service"
service_is_NulFree = (nz _, (nz _, (nz _, (nz _, (nz _, (nz _, (nz _, tt)))))))

pub wide_is_clear : IsClearPolicy wide
unfolding accepts
wide_is_clear = record {
  valid = refl;
  unique = ((service_is_another, tt), (tt, tt));
  nul_free = (config_is_NulFree, (service_is_NulFree, tt));
}

unfoldable pub impact_is : (old new : LocalPatchPolicy) → Bool × Bool
unfolding diff_local_patch_policy has_widening_changes has_narrowing_changes
    flatten_allowed_prefixes diff_kind_paths missing_kind_paths diff_strings missing_strings
    kind_path_key less sort_by string_eq default_local_patch_policy
impact_is old new =
    let impact = diff_local_patch_policy old new in
    (has_widening_changes impact, has_narrowing_changes impact)

narrow_narrows : impact_is wide narrow ≡ (false, true)
unfolding impact_is
narrow_narrows = refl

wide_widens : impact_is narrow wide ≡ (true, false)
unfolding impact_is
wide_widens = refl

no_widening-validate_overlay_example : validate_overlay wide config ≡ ok tt
unfolding impact_is kind_of
no_widening-validate_overlay_example =
    no_widening-validate_overlay wide narrow config wide_is_clear config_is_NulFree refl
      narrow_accepts

no_narrowing-validate_overlay_example : validate_overlay wide config ≡ ok tt
unfolding impact_is kind_of
no_narrowing-validate_overlay_example =
    no_narrowing-validate_overlay narrow wide config wide_is_clear config_is_NulFree refl
      narrow_accepts

abbrev level : FieldPath
level = "data" ∷ "level" ∷ []

config_touches : MapTouches level [] config
unfolding append_path
config_touches = inr (inr (inr (inl (inl refl))))

config_is_flat : HasFlatLists config
config_is_flat = (tt, ((tt, tt), tt))

-- The document as it stands in a cluster, with fields that no overlay may set.
abbrev live : Fields
live = field "kind" (str "ConfigMap") (
    field "metadata" (object (field "uid" (str "u1") end)) (
      field "data" (object (field "level" (str "debug") end))
        (field "status" (object (field "phase" null end)) end)))

config_extracted : extract_overlay narrow live ≡ ok config
unfolding accepts
config_extracted = refl

extract_overlay_sound_example : MapTouches level [] live × IsPermitted narrow (kind_of config) level
extract_overlay_sound_example =
    extract_overlay_sound narrow live config level config_extracted config_is_flat config_touches

validate_overlay-IsPermitted_example : IsPermitted narrow (kind_of config) level
validate_overlay-IsPermitted_example =
    validate_overlay-IsPermitted narrow config level narrow_accepts config_is_flat config_touches

extract_overlay-id_example : extract_overlay narrow config ≡ ok config
extract_overlay-id_example = extract_overlay-id narrow config narrow_accepts (tt, ((tt, tt), tt))

-- Of two rules for one kind the first counts, and the difference of two policies does not see which
-- one is the first.
abbrev first_data : LocalPatchPolicy
first_data = with_rules (rule "ConfigMap" ("data" ∷ []) ∷ rule "ConfigMap" ("binaryData" ∷ []) ∷ [])

abbrev first_binary : LocalPatchPolicy
first_binary =
    with_rules (rule "ConfigMap" ("binaryData" ∷ []) ∷ rule "ConfigMap" ("data" ∷ []) ∷ [])

swap_is_unseen : impact_is first_binary first_data ≡ (false, false)
unfolding impact_is
swap_is_unseen = refl

swap_counts : (accepts first_binary config ≡ false) × (accepts first_data config ≡ true)
unfolding accepts
swap_counts = (refl, refl)

-- A field above the allowed ones may be replaced by null.
null_spec_is_accepted :
    validate_default_overlay (field "kind" (str "Deployment") (field "spec" null end)) ≡ ok tt
unfolding accepts validate_default_overlay
null_spec_is_accepted = refl

-- An identity field may be a list.
list_version_is_accepted : validate_overlay narrow (field "apiVersion" (list nil) config) ≡ ok tt
unfolding accepts
list_version_is_accepted = refl

-- The image of a container is forbidden, but a map in a list within a list is not looked into.
abbrev container : Fields
container = field "image" (str "other") end

abbrev deployment : Items → Fields
deployment containers = field "kind" (str "Deployment") (
    field "spec"
      (object (
        field "template"
          (object (field "spec" (object (field "containers" (list containers) end)) end)) end))
      end)

nested_list_is_accepted :
    (validate_default_overlay (deployment (item (list (item (object container) nil)) nil)) ≡ ok tt)
    × (accepts default_local_patch_policy (deployment (item (object container) nil)) ≡ false)
unfolding accepts validate_default_overlay
nested_list_is_accepted = (refl, refl)
