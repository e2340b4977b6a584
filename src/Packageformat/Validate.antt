-- ===== src/Packageformat/Validate.antt =====
-- The `Validate` methods of pkg/distribution/packageformat/types.go. `clean` is `path.Clean` of Go's
-- library.
use sealos_lifecycle.Base.{
  ℕ, ◌+◌, String, ◌==◌, contains, string_eq, if◌then◌else◌, Bool, false, ◌||◌, not, List, [], ◌∷◌,
  text, num, errorf, Result, ok, err, ◌>>◌, fail_if, if_set, wrap, has_prefix, is_empty, is_blank,
  is_negative,
}
use sealos_lifecycle.Kinds.{api_version, kind_component_package}
use sealos_lifecycle.Packageformat.Types.{
  PackageClass, class_rootfs, class_patch, class_application, ContentType, content_rootfs,
  content_manifest, content_chart, content_patch, content_file, content_values, content_hook,
  HookPhase, phase_bootstrap, phase_configure, phase_install, phase_upgrade, phase_remove,
  phase_health, ExecutionTarget, target_all_nodes, target_first_master, target_cluster, InputType,
  input_config_file, input_values_file, input_env, Platform, Dependency, Compatibility, Input,
  Content, Hook, GeneratedHostPathOutput, Spec, ComponentPackage,
}

unfoldable pub validate_class : PackageClass → Result (Unit {0})
validate_class value =
    if contains value (class_rootfs ∷ class_patch ∷ class_application ∷ [])
    then ok tt
    else err (errorf "invalid package class %q" (text value ∷ []))

unfoldable pub validate_content_type : ContentType → Result (Unit {0})
validate_content_type value =
    if contains value (
      content_rootfs ∷ content_manifest ∷ content_chart ∷ content_patch ∷ content_file
      ∷ content_values ∷ content_hook ∷ [])
    then ok tt
    else err (errorf "invalid content type %q" (text value ∷ []))

unfoldable pub validate_input_type : InputType → Result (Unit {0})
validate_input_type value =
    if contains value (input_config_file ∷ input_values_file ∷ input_env ∷ [])
    then ok tt
    else err (errorf "invalid input type %q" (text value ∷ []))

unfoldable pub validate_phase : HookPhase → Result (Unit {0})
validate_phase value =
    if contains value (
      phase_bootstrap ∷ phase_configure ∷ phase_install ∷ phase_upgrade ∷ phase_remove
      ∷ phase_health ∷ [])
    then ok tt
    else err (errorf "invalid hook phase %q" (text value ∷ []))

unfoldable pub validate_target : ExecutionTarget → Result (Unit {0})
validate_target value =
    if contains value (target_all_nodes ∷ target_first_master ∷ target_cluster ∷ [])
    then ok tt
    else err (errorf "invalid execution target %q" (text value ∷ []))

unfoldable pub validate_dependency : Dependency → Result (Unit {0})
validate_dependency d = fail_if (d.name == "") (errorf "name cannot be empty" [])

unfoldable pub validate_platform : Platform → Result (Unit {0})
validate_platform p = do
  fail_if (p.os == "") (errorf "os cannot be empty" [])
  fail_if (p.arch == "") (errorf "arch cannot be empty" [])

-- The loop over the platforms, from the index `i`.
validate_platforms : ℕ → List Platform → Result (Unit {0})
unfolding validate_platform
validate_platforms i [] = ok tt
validate_platforms i (p ∷ ps) = do
  wrap "platforms[%d]: %w" (num i ∷ []) (validate_platform p)
  validate_platforms (i + 1) ps

unfoldable pub validate_compatibility : Compatibility → Result (Unit {0})
unfolding validate_platforms
validate_compatibility c = validate_platforms 0 c.platforms

-- The loop over the dependencies, from the index `i`, with the names that it has seen.
unfoldable pub validate_dependencies : ℕ → List String → List Dependency → Result (Unit {0})
validate_dependencies i seen [] = ok tt
validate_dependencies i seen (d ∷ ds) = do
  wrap "dependencies[%d]: %w" (num i ∷ []) (validate_dependency d)
  fail_if (contains d.name seen)
      (errorf "dependencies[%d]: duplicate dependency %q" (num i ∷ text d.name ∷ []))
  validate_dependencies (i + 1) (d.name ∷ seen) ds

-- `hasRootfsContent` after the loop.
unfoldable pub has_rootfs_content : List Content → Bool
has_rootfs_content [] = false
has_rootfs_content (c ∷ cs) = c.content_type == content_rootfs || has_rootfs_content cs

-- The last switch of `Spec.Validate`. Another class is refused before.
unfoldable pub validate_rootfs : PackageClass → Bool → Result (Unit {0})
validate_rootfs package_class has_rootfs =
    if package_class == class_rootfs
    then fail_if (not has_rootfs)
        (errorf "rootfs packages must include at least one rootfs content entry" [])
    else if package_class == class_patch || package_class == class_application
    then fail_if has_rootfs
        (errorf "%s packages cannot include rootfs content entries" (text package_class ∷ []))
    else ok tt

module _ (clean : String → String) where
  unfoldable pub validate_relative_path : String → String → Result (Unit {0})
  validate_relative_path field value = do
    fail_if (value == "") (errorf "%s cannot be empty" (text field ∷ []))
    fail_if (has_prefix value "/")
        (errorf "%s must be relative, got %q" (text field ∷ text value ∷ []))
    fail_if (clean value == "." || clean value == "")
        (errorf "%s cannot be empty" (text field ∷ []))
    fail_if (has_prefix (clean value) "../" || clean value == "..")
        (errorf "%s cannot escape the package root, got %q" (text field ∷ text value ∷ []))

  unfoldable pub validate_input : Input → Result (Unit {0})
  validate_input i = do
    fail_if (i.name == "") (errorf "name cannot be empty" [])
    wrap "type: %w" [] (validate_input_type i.input_type)
    validate_relative_path "path" i.path

  unfoldable pub validate_content : Content → Result (Unit {0})
  validate_content c = do
    fail_if (c.name == "") (errorf "name cannot be empty" [])
    wrap "type: %w" [] (validate_content_type c.content_type)
    validate_relative_path "path" c.path

  unfoldable pub validate_hook : Hook → Result (Unit {0})
  validate_hook h = do
    fail_if (h.name == "") (errorf "name cannot be empty" [])
    wrap "phase: %w" [] (validate_phase h.phase)
    wrap "target: %w" [] (validate_target h.target)
    validate_relative_path "path" h.path
    fail_if (is_negative h.timeout_seconds) (errorf "timeoutSeconds cannot be negative" [])

  unfoldable pub validate_host_path : GeneratedHostPathOutput → Result (Unit {0})
  validate_host_path o = do
    fail_if (is_blank o.host_path) (errorf "hostPath cannot be empty" [])
    fail_if (not (has_prefix o.host_path "/"))
        (errorf "hostPath must be absolute, got %q" (text o.host_path ∷ []))
    fail_if (clean o.host_path == "." || clean o.host_path == "/")
        (errorf "hostPath must name a file, got %q" (text o.host_path ∷ []))
    fail_if (not (clean o.host_path == o.host_path))
        (errorf "hostPath must be clean, got %q" (text o.host_path ∷ []))
    fail_if (is_blank o.tool) (errorf "tool cannot be empty" [])
    fail_if (is_blank o.api_version) (errorf "apiVersion cannot be empty" [])
    fail_if (is_blank o.kind) (errorf "kind cannot be empty" [])
    fail_if (is_blank o.object_name) (errorf "objectName cannot be empty" [])

  -- The loops of `Spec.Validate`, from the index `i`, with what they have seen.
  unfoldable pub validate_inputs : ℕ → List String → List String → List Input → Result (Unit {0})
  validate_inputs i names paths [] = ok tt
  validate_inputs i names paths (x ∷ xs) = do
    wrap "inputs[%d]: %w" (num i ∷ []) (validate_input x)
    fail_if (contains x.name names)
        (errorf "inputs[%d]: duplicate input name %q" (num i ∷ text x.name ∷ []))
    fail_if (contains x.path paths)
        (errorf "inputs[%d]: duplicate input path %q" (num i ∷ text x.path ∷ []))
    validate_inputs (i + 1) (x.name ∷ names) (x.path ∷ paths) xs

  unfoldable pub validate_contents :
      ℕ → List String → List String → List Content → Result (Unit {0})
  validate_contents i names paths [] = ok tt
  validate_contents i names paths (c ∷ cs) = do
    wrap "contents[%d]: %w" (num i ∷ []) (validate_content c)
    fail_if (contains c.name names)
        (errorf "contents[%d]: duplicate content name %q" (num i ∷ text c.name ∷ []))
    fail_if (contains c.path paths)
        (errorf "contents[%d]: duplicate content path %q" (num i ∷ text c.path ∷ []))
    validate_contents (i + 1) (c.name ∷ names) (c.path ∷ paths) cs

  unfoldable pub validate_hooks : ℕ → List String → List Hook → Result (Unit {0})
  validate_hooks i names [] = ok tt
  validate_hooks i names (h ∷ hs) = do
    wrap "hooks[%d]: %w" (num i ∷ []) (validate_hook h)
    fail_if (contains h.name names)
        (errorf "hooks[%d]: duplicate hook name %q" (num i ∷ text h.name ∷ []))
    validate_hooks (i + 1) (h.name ∷ names) hs

  unfoldable pub validate_host_paths :
      ℕ → List String → List GeneratedHostPathOutput → Result (Unit {0})
  validate_host_paths i seen [] = ok tt
  validate_host_paths i seen (o ∷ os) = do
    wrap "generatedOutputs.hostPaths[%d]: %w" (num i ∷ []) (validate_host_path o)
    fail_if (contains o.host_path seen) (
        errorf "generatedOutputs.hostPaths[%d]: duplicate hostPath %q"
          (num i ∷ text o.host_path ∷ []))
    validate_host_paths (i + 1) (o.host_path ∷ seen) os

  unfoldable pub validate_spec : Spec → Result (Unit {0})
  validate_spec s = do
    fail_if (s.component == "") (errorf "component cannot be empty" [])
    fail_if (s.version == "") (errorf "version cannot be empty" [])
    wrap "class: %w" [] (validate_class s.package_class)
    fail_if (is_empty s.contents) (errorf "contents cannot be empty" [])
    if_set s.local_patch_policy (validate_relative_path "localPatchPolicy" s.local_patch_policy)
    validate_dependencies 0 [] s.dependencies
    validate_inputs 0 [] [] s.inputs
    validate_contents 0 [] [] s.contents
    validate_hooks 0 [] s.hooks
    validate_host_paths 0 [] s.generated_outputs.host_paths
    validate_rootfs s.package_class (has_rootfs_content s.contents)

  unfoldable pub validate : ComponentPackage → Result (Unit {0})
  validate p = do
    fail_if (not (p.api_version == api_version))
        (errorf "unsupported apiVersion %q" (text p.api_version ∷ []))
    fail_if (not (p.kind == kind_component_package))
        (errorf "unsupported kind %q" (text p.kind ∷ []))
    fail_if (p.metadata.name == "") (errorf "metadata.name cannot be empty" [])
    wrap "spec: %w" [] (validate_spec p.spec)
