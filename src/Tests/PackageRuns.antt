-- ===== src/Tests/PackageRuns.antt =====
-- A valid component package of class rootfs.
use sealos_lifecycle.Base.{◌≡◌, refl, String, string_eq, true, List, [], ◌∷◌, pos, ok}
use sealos_lifecycle.Packageformat.Types
use sealos_lifecycle.Packageformat.Types.{
  Content, Hook, ComponentPackage, class_rootfs, content_rootfs,
}
use sealos_lifecycle.Packageformat.Validate.{
  validate, validate_spec, validate_class, validate_dependencies, validate_inputs,
  validate_contents, validate_content, validate_content_type, validate_relative_path,
  validate_hooks, validate_hook, validate_phase, validate_target, validate_host_paths,
  validate_rootfs, has_rootfs_content,
}
use sealos_lifecycle.Packageformat.Laws.{IsWellFormed, validate-IsWellFormed}
use sealos_lifecycle.Hydrate.Steps.{Step, step_content, build_steps}
use sealos_lifecycle.Hydrate.Steps.Laws.{build_steps-rootfs_first}
use sealos_lifecycle.Tests.BomRuns.{clean}

abbrev rootfs_package : ComponentPackage
rootfs_package =
    let empty = Types.new "kubernetes" "kubernetes" "v1" class_rootfs in
    let content : String → String → Content = λ name content_type. record {
      name = name;
      content_type = content_type;
      path = name;
      media_type = "";
      required = true;
    } in
    let hook : Hook = record {
      name = "init";
      phase = "bootstrap";
      target = "firstMaster";
      path = "init.sh";
      args = [];
      timeout_seconds = pos 60;
    } in
    record empty {
      spec = record (empty.spec) {
        contents = content "app" "manifest" ∷ content "root" "rootfs" ∷ [];
        hooks = hook ∷ [];
      };
    }

rootfs_package_is_valid : validate clean rootfs_package ≡ ok tt
unfolding Types.new validate validate_spec validate_class validate_dependencies validate_inputs
    validate_contents validate_content validate_content_type validate_relative_path validate_hooks
    validate_hook validate_phase validate_target validate_host_paths validate_rootfs
    has_rootfs_content string_eq
rootfs_package_is_valid = refl

validate-IsWellFormed_example : IsWellFormed clean rootfs_package.spec
validate-IsWellFormed_example = validate-IsWellFormed clean rootfs_package rootfs_package_is_valid

build_steps-rootfs_first_example :
    (s : Step) × (rest : List Step) × (build_steps rootfs_package ≡ s ∷ rest)
    × (s.kind ≡ step_content)
    × (s.content_type ≡ content_rootfs)
unfolding Types.new
build_steps-rootfs_first_example =
    build_steps-rootfs_first clean rootfs_package rootfs_package_is_valid refl
