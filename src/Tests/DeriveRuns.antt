-- ===== src/Tests/DeriveRuns.antt =====
-- A bill of materials that is derived from the one of BomRuns with a newer version of one package.
use sealos_lifecycle.Base.{
  ◌≡◌, refl, ◌==◌, string_eq, if◌then◌else◌, some, List, [], ◌∷◌, map, count-all_distinct,
  all_distinct, trim_space, ok,
}
use sealos_lifecycle.Bom.Types.{Bom, new}
use sealos_lifecycle.Bom.Validate.{validate_artifact}
use sealos_lifecycle.Bom.Derive.{
  Labels, merge_derived_labels, line_label, revision_label, ArtifactReplacement,
  ArtifactReplacementResult, set_text, replaced_artifact, replaced_package, replace_package,
  replace_packages, apply_artifact_replacements,
}
use sealos_lifecycle.Bom.Derive.Laws.{
  lookup, overridden, lookup-merge_derived_labels, apply_artifact_replacements-eq-map,
}
use sealos_lifecycle.Bom.Derive.Replacements.{replace_by, AreReported}
use sealos_lifecycle.Tests.BomRuns.{clean, parse_digest, cni, ingress, bom, bom_is_valid}

abbrev newer : ArtifactReplacement
newer = record {
  package_name = "cni";
  artifact_name = "";
  image = "registry/cni-next";
  digest = "sha256:2";
  version = " v2 ";
  source_path = "";
  source_digest = "";
}

abbrev derived : Bom
derived = record bom {
  spec = record (bom.spec) {
    packages =
        ingress
        ∷ record cni {
          version = "v2";
          artifact = record (cni.artifact) { image = "registry/cni-next"; digest = "sha256:2" };
        }
        ∷ [];
  };
}

abbrev results : List ArtifactReplacementResult
results =
    record {
      package_name = "cni";
      before = cni.artifact;
      after = record (cni.artifact) { image = "registry/cni-next"; digest = "sha256:2" };
      version_from = "v1";
      version_to = "v2";
    }
    ∷ []

bom_is_derived :
    apply_artifact_replacements clean parse_digest bom (newer ∷ []) ≡ ok (derived, results)
unfolding apply_artifact_replacements replace_packages replace_package replaced_package
    replaced_artifact set_text new validate_artifact string_eq trim_space
bom_is_derived = refl

apply_artifact_replacements-eq-map_example :
    (derived ≡ record bom {
      spec = record (bom.spec) {
        packages = map (λ p. replace_by (newer ∷ []) p) bom.spec.packages;
      };
    })
    × AreReported bom.spec.packages (newer ∷ []) results
apply_artifact_replacements-eq-map_example =
    apply_artifact_replacements-eq-map clean parse_digest bom derived (newer ∷ []) results
      bom_is_valid bom_is_derived

abbrev override : Labels
override = ("tier", " gold ") ∷ ("owner", " ") ∷ []

lookup-merge_derived_labels_example :
    lookup "owner" (merge_derived_labels (("owner", "team") ∷ []) override "base" "r1")
    ≡ overridden (lookup "owner" override) (
        if "owner" == revision_label
        then some "r1"
        else if "owner" == line_label
        then some "base"
        else lookup "owner" (("owner", "team") ∷ []))
unfolding string_eq all_distinct
lookup-merge_derived_labels_example =
    lookup-merge_derived_labels (("owner", "team") ∷ []) override "base" "r1" "owner"
      (count-all_distinct (map (λ e. e.0) override) refl)
