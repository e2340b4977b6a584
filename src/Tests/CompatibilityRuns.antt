-- ===== src/Tests/CompatibilityRuns.antt =====
-- The report on one local patch, under the policies of OwnershipRuns.
use sealos_lifecycle.Base.{
  ◌≡◌, refl, String, ◌==◌, string_eq, if◌then◌else◌, some, [], ◌∷◌, Result, ok, err, not_exist,
  arith, subst, less, sort_by,
}
use sealos_lifecycle.Ownership.Value.{Fields}
use sealos_lifecycle.Ownership.Overlay.{kind_of}
use sealos_lifecycle.Ownership.Impact.Members.{NulFree}
use sealos_lifecycle.Localrepo.Compatibility.{
  Patch, Repo, PolicyCompatibilityReport, has_incompatible_patches, record_patch, sorted_components,
  load_patch, evaluate_patches, evaluate_components, evaluate_patch_compatibility,
}
use sealos_lifecycle.Localrepo.Compatibility.Laws.{
  patch_count, evaluate_patch_compatibility-patch_count, no_narrowing-evaluate_patch_compatibility,
}
use sealos_lifecycle.Tests.OwnershipRuns.{
  wide, narrow, config, config_is_NulFree, wide_is_clear, accepts, impact_is,
}

abbrev pub read : String → Result Fields
read path = if path == "patches/level.yaml" then ok config else err not_exist

abbrev pub decode : Fields → Result Fields
decode document = ok document

abbrev patch : Patch
patch = record { component = "core"; path = "patches/level.yaml"; relative_path = "level.yaml" }

abbrev pub repo : Repo
repo = record { patches_by_component = ("core", patch ∷ []) ∷ [] }

abbrev pub report : PolicyCompatibilityReport
report = record { valid_patch_count = 1; invalid_patches = [] }

pub narrow_is_compatible : evaluate_patch_compatibility read decode narrow (some repo) ≡ ok report
unfolding evaluate_patch_compatibility evaluate_components evaluate_patches load_patch record_patch
    sorted_components sort_by less accepts
narrow_is_compatible = refl

read_is_NulFree :
    (p : Patch) (document : Fields)
    → load_patch read decode p ≡ ok document
    → NulFree (kind_of document)
unfolding load_patch kind_of string_eq
read_is_NulFree p document h =
    let same : config ≡ document = ground arith in
    subst (λ (x : Fields). NulFree (kind_of x)) same config_is_NulFree

evaluate_patch_compatibility-patch_count_example : 1 ≡ patch_count repo.patches_by_component
evaluate_patch_compatibility-patch_count_example =
    evaluate_patch_compatibility-patch_count read decode narrow repo report narrow_is_compatible

no_narrowing-evaluate_patch_compatibility_example :
    evaluate_patch_compatibility read decode wide (some repo) ≡ ok report
unfolding impact_is has_incompatible_patches
no_narrowing-evaluate_patch_compatibility_example =
    no_narrowing-evaluate_patch_compatibility read decode narrow wide (some repo) report
      wide_is_clear read_is_NulFree refl narrow_is_compatible refl
