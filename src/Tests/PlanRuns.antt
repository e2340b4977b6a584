-- ===== src/Tests/PlanRuns.antt =====
-- The order of the components on three entries, as in a map of the plan.
use sealos_lifecycle.Base.{
  ◌++◌, ◌≡◌, refl, inl, true, none, map, pos, IsAscending, Listed, String, string_eq, List, [], ◌∷◌,
  ok, count-all_distinct, all_distinct, nat_eq, sort_by, increment, decrement, less,
}
use sealos_lifecycle.Hydrate.Order.{
  Entries, Links, no_links, names, topo_sort_dependencies, link_entries, link_all, drain_all, drain,
  initially_ready, link, release, release_one,
}
use sealos_lifecycle.Packageformat.Types.{Content, Hook, ComponentPackage}
use sealos_lifecycle.Packageformat.Types
use sealos_lifecycle.Bom.Types.{Package, new, identity, package_index, index_of}
use sealos_lifecycle.Bom.Validate.{
  validate, validate_artifacts, validate_packages, validate_package, validate_artifact,
  validate_relative_path, validate_dependencies, known_packages, known_dependencies,
}
use sealos_lifecycle.Hydrate.Dependencies.{
  build_dependency_set, dependencies_of, insert_package_dependencies, insert, insert_all, delete,
}
use sealos_lifecycle.Tests.BomRuns.{
  clean, parse_digest, cni, ingress, bom, component, load, resolved, bom_is_resolved,
}
use sealos_lifecycle.Hydrate.Steps.{
  build_steps, compare_contents, compare_hooks, compare_int, content_rank, hook_phase_rank,
  content_step, hook_step,
}
use mathlib.Core.List.{Permᴰ}
use sealos_lifecycle.Hydrate.Steps.Laws.{due, step_of_content, step_of_hook, build_steps_lem}
use sealos_lifecycle.Hydrate.Plan.{
  ComponentPlan, Plan, component_plan, component_plans, package_at, build_plan_from_resolved,
  build_plan,
}
use sealos_lifecycle.Hydrate.Plan.Components.{IsMadeOf}
use sealos_lifecycle.Hydrate.Plan.Laws.{
  IsPlanOf, build_plan_from_resolved-IsPlanOf, build_plan-IsMadeOf,
}
use sealos_lifecycle.Hydrate.Order.Linking.{deps_of, HasUniqueNames}
use sealos_lifecycle.Hydrate.Order.Laws.{
  IsPlan, drain_all_ends, topo_sort_dependencies-IsPlan, topo_sort_dependencies-ok,
}

abbrev three_components : Entries
three_components =
    ("cilium", "kubernetes" ∷ []) ∷ ("app", "cilium" ∷ "kubernetes" ∷ []) ∷ ("kubernetes", []) ∷ []

abbrev three_in_order : List String
three_in_order = "kubernetes" ∷ "cilium" ∷ "app" ∷ []

three_components-HasUniqueNames : HasUniqueNames three_components
unfolding all_distinct string_eq
three_components-HasUniqueNames = count-all_distinct (names three_components) refl

topo_sort_dependencies_example : topo_sort_dependencies three_components ≡ ok three_in_order
unfolding topo_sort_dependencies link_entries link_all string_eq nat_eq drain_all drain sort_by
    initially_ready link increment release less release_one decrement
topo_sort_dependencies_example = refl

abbrev three_links : Links
three_links = link "app" "kubernetes" (link "app" "cilium" (link "cilium" "kubernetes" no_links))

three_linked : link_entries (names three_components) three_components no_links ≡ ok three_links
unfolding link_entries link_all string_eq
three_linked = refl

drain_all_ends_example : (drain_all three_components three_links).left ≡ []
drain_all_ends_example =
    drain_all_ends three_components three_links three_components-HasUniqueNames three_linked

topo_sort_dependencies-IsPlan_example : IsPlan three_components three_in_order
topo_sort_dependencies-IsPlan_example =
    topo_sort_dependencies-IsPlan three_components three_in_order three_components-HasUniqueNames
      topo_sort_dependencies_example

topo_sort_dependencies-ok_example :
    (order : List String) × (topo_sort_dependencies three_components ≡ ok order)
topo_sort_dependencies-ok_example =
    topo_sort_dependencies-ok three_components three_in_order three_components-HasUniqueNames
      topo_sort_dependencies-IsPlan_example

abbrev pub plan : Plan
plan = record {
  bom_name = "base";
  revision = "r1";
  channel = "alpha";
  bom_local_patch_policy = "";
  local_patch_policy = none;
  local_patch_policy_source = "";
  local_resources = [];
  components =
      component_plan cni (component "cni") []
      ∷ component_plan ingress (component "ingress") ("cni" ∷ [])
      ∷ [];
}

plan_is_built : build_plan_from_resolved clean parse_digest bom resolved ≡ ok plan
unfolding build_plan_from_resolved validate validate_artifacts validate_packages validate_package
    validate_artifact validate_relative_path validate_dependencies known_packages known_dependencies
    new identity string_eq build_dependency_set dependencies_of insert_package_dependencies insert
    insert_all delete Types.new package_index index_of topo_sort_dependencies link_entries link_all
    nat_eq drain_all drain sort_by initially_ready link increment release less release_one decrement
    component_plans package_at deps_of
plan_is_built = refl

build_plan_from_resolved-IsPlanOf_example : IsPlanOf bom resolved plan
build_plan_from_resolved-IsPlanOf_example =
    build_plan_from_resolved-IsPlanOf clean parse_digest bom resolved plan plan_is_built

plan_is_built_from_bom : build_plan clean parse_digest load bom ≡ ok plan
unfolding build_plan
plan_is_built_from_bom = rw bom_is_resolved plan_is_built

abbrev cni_plan : ComponentPlan
cni_plan = component_plan cni (component "cni") []

build_plan-IsMadeOf_example :
    (p : Package) × (pkg : ComponentPackage) × Listed p bom.spec.packages
    × IsMadeOf p pkg cni_plan
    × (load cni_plan.artifact ≡ ok pkg)
    × (pkg.spec.component ≡ cni_plan.name)
    × (pkg.spec.version ≡ cni_plan.version)
build_plan-IsMadeOf_example =
    build_plan-IsMadeOf clean parse_digest load bom plan cni_plan plan_is_built_from_bom (inl refl)

-- A package of which the entries stand in another order than the steps.
abbrev mixed_package : ComponentPackage
mixed_package =
    let empty = component "cni" in
    let content : String → String → Content = λ name content_type. record {
      name = name;
      content_type = content_type;
      path = name;
      media_type = "";
      required = true;
    } in
    let hook : String → String → Hook = λ name phase. record {
      name = name;
      phase = phase;
      target = "cluster";
      path = name;
      args = [];
      timeout_seconds = pos 0;
    } in
    record empty {
      spec = record (empty.spec) {
        contents = content "app" "manifest" ∷ content "defaults" "values" ∷ [];
        hooks = hook "check" "healthcheck" ∷ hook "prepare" "bootstrap" ∷ [];
      };
    }

mixed_steps :
    map (λ s. s.name) (build_steps mixed_package) ≡ "defaults" ∷ "app" ∷ "prepare" ∷ "check" ∷ []
unfolding build_steps sort_by compare_contents compare_hooks compare_int content_rank
    hook_phase_rank content_step hook_step Types.new string_eq
mixed_steps = refl

build_steps_lem_example :
    IsAscending (map due (build_steps mixed_package))
    × Permᴰ (build_steps mixed_package) (
        map step_of_content mixed_package.spec.contents
        ++ map step_of_hook mixed_package.spec.hooks)
build_steps_lem_example = build_steps_lem mixed_package
