-- ===== src/Tests/BomRuns.antt =====
-- A bill of materials of two packages.
use sealos_lifecycle.Base.{
  ◌≡◌, refl, ◌<>◌, ◌==◌, if◌then◌else◌, Result, ◌≢◌, inl, inr, String, string_eq, nat_eq, true,
  Option, none, some, List, [], ◌∷◌, Error, ok, Listed,
}
use sealos_lifecycle.Packageformat.Types.{ComponentPackage, class_application}
use sealos_lifecycle.Packageformat.Types
use sealos_lifecycle.Bom.Types.{Package, Bom, new, identity, package_index}
use sealos_lifecycle.Bom.Validate.{
  validate_dependencies, known_dependencies, known_packages, validate_relative_path,
  validate_artifact, validate_package, validate_artifacts, validate_packages, validate,
}
use sealos_lifecycle.Bom.Resolve.{
  Resolved, before_at, reference, put, resolve_packages, resolve_component_packages,
}
use sealos_lifecycle.Bom.Resolve.Laws.{IsResolved, resolve_component_packages-IsResolved}
use sealos_lifecycle.Bom.Laws.{package_index_valid, package_index-dependencies}

abbrev pub clean : String → String
clean path = path

abbrev pub parse_digest : String → Option Error
parse_digest value = none

abbrev make_package : String → List String → Package
make_package name dependencies = record {
  category = "core";
  name = name;
  version = "v1";
  source = record { path = "packages"; digest = "" };
  build = record { build_class = ""; profile = "" };
  artifact = record {
    name = name;
    image = "registry/" <> name;
    digest = "sha256:1";
    platform = "";
    source = "";
  };
  dependencies = dependencies;
  required = true;
}

abbrev pub cni : Package
cni = make_package "cni" []

abbrev pub ingress : Package
ingress = make_package "ingress" ("cni" ∷ [])

abbrev pub bom : Bom
bom =
    let empty = new "base" "r1" "alpha" in
    record empty { spec = record (empty.spec) { packages = ingress ∷ cni ∷ [] } }

pub bom_is_valid : validate clean parse_digest bom ≡ ok tt
unfolding new validate validate_artifacts validate_packages validate_package validate_artifact
    validate_relative_path validate_dependencies known_packages known_dependencies identity
    string_eq
bom_is_valid = refl

package_index_valid_example : package_index bom "cni" ≡ some cni
package_index_valid_example =
    package_index_valid clean parse_digest bom cni bom_is_valid (inr (inl refl))

package_index-dependencies_example :
    (q : Package) × (package_index bom "cni" ≡ some q)
    × Listed q (bom.spec.packages)
    × (q.name ≡ "cni")
    × ◌≢◌ {A = String} "cni" "ingress"
unfolding string_eq
package_index-dependencies_example =
    package_index-dependencies clean parse_digest bom ingress "cni" bom_is_valid (inl refl) refl

abbrev pub component : String → ComponentPackage
component name = Types.new name name "v1" class_application

abbrev pub load : String → Result ComponentPackage
load image =
    if image == "registry/cni@sha256:1" then ok (component "cni") else ok (component "ingress")

abbrev pub resolved : Resolved
resolved = put "cni" (component "cni") (put "ingress" (component "ingress") (λ name. none))

pub bom_is_resolved : resolve_component_packages load clean parse_digest bom ≡ ok resolved
unfolding Types.new resolve_component_packages resolve_packages reference before_at new validate
    validate_artifacts validate_packages validate_package validate_artifact validate_relative_path
    validate_dependencies known_packages known_dependencies identity string_eq nat_eq
bom_is_resolved = refl

resolve_component_packages-IsResolved_example : IsResolved load cni (resolved "cni")
resolve_component_packages-IsResolved_example =
    resolve_component_packages-IsResolved load clean parse_digest bom resolved cni bom_is_resolved
      (inr (inl refl))
