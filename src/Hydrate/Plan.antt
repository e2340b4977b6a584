-- ===== src/Hydrate/Plan.antt =====
-- The plan of pkg/distribution/hydrate/plan.go: `Plan`, `ComponentPlan` and what builds them. Copies of
-- slices and maps are the values that they copy, and the documents are not nil.
pub mod Components
pub mod Laws
use sealos_lifecycle.Base.{
  String, false, Option, none, some, List, [], ◌∷◌, Error, text, errorf, Result, ok, err, ◌>>=◌,
  ◌>>◌,
}
use sealos_lifecycle.Packageformat.Types.{PackageClass, Input, GeneratedOutputs, ComponentPackage}
use sealos_lifecycle.Ownership.Document.{LocalPatchPolicyDocument, LocalPatchPolicySource}
use sealos_lifecycle.Bom.Channel.{ReleaseChannel}
use sealos_lifecycle.Bom.Types.{Package, Bom, package_index}
use sealos_lifecycle.Bom.Validate.{validate}
use sealos_lifecycle.Bom.Resolve.{Resolved, reference, resolve_component_packages}
use sealos_lifecycle.Hydrate.Steps.{Step, build_steps, compare_inputs, sort_func}
use sealos_lifecycle.Hydrate.Order.{Entries, topo_sort_dependencies}
use sealos_lifecycle.Hydrate.Order.Linking.{deps_of}
use sealos_lifecycle.Hydrate.Dependencies.{Index, build_dependency_set}

pub record LocalPatch : Type 0 where
  pub path : String
  pub relative_path : String

pub record LocalResource : Type 0 where
  pub path : String
  pub relative_path : String

pub record ComponentPlan : Type 0 where
  pub name : String
  pub package_name : String
  pub version : String
  pub package_class : PackageClass
  pub artifact : String
  pub dependencies : List String
  pub inputs : List Input
  pub generated_outputs : GeneratedOutputs
  pub local_patch_policy : String
  pub input_bindings : List (String × String)
  pub host_input_bindings : List (String × List (String × String))
  pub local_patches : List LocalPatch
  pub steps : List Step

pub record Plan : Type 0 where
  pub bom_name : String
  pub revision : String
  pub channel : ReleaseChannel
  pub bom_local_patch_policy : String
  pub local_patch_policy : Option LocalPatchPolicyDocument
  pub local_patch_policy_source : LocalPatchPolicySource
  pub local_resources : List LocalResource
  pub components : List ComponentPlan

-- What Go reads at a key that a map of packages lacks.
abbrev pub zero_package : Package
zero_package = record {
  category = "";
  name = "";
  version = "";
  source = record { path = ""; digest = "" };
  build = record { build_class = ""; profile = "" };
  artifact = record { name = ""; image = ""; digest = ""; platform = ""; source = "" };
  dependencies = [];
  required = false;
}

-- `componentIndex[name]`
unfoldable pub package_at : Index → String → Package
package_at index name = elim (index name) [ some p ↦ p | none ↦ zero_package ]

unfoldable pub component_plan : Package → ComponentPackage → List String → ComponentPlan
component_plan component pkg dependencies = record {
  name = component.name;
  package_name = pkg.metadata.name;
  version = component.version;
  package_class = pkg.spec.package_class;
  artifact = reference component.artifact;
  dependencies = dependencies;
  inputs = sort_func compare_inputs pkg.spec.inputs;
  generated_outputs = pkg.spec.generated_outputs;
  local_patch_policy = pkg.spec.local_patch_policy;
  input_bindings = [];
  host_input_bindings = [];
  local_patches = [];
  steps = build_steps pkg;
}

-- The loop over the order of the components.
unfoldable pub component_plans :
    Index → Resolved → Entries → List String → Result (List ComponentPlan)
component_plans index resolved entries [] = ok []
component_plans index resolved entries (name ∷ order) = elim (resolved name) [
  | none ↦ err (errorf "resolved package missing for component %q" (text name ∷ []))
  | some pkg ↦ do
    rest ← component_plans index resolved entries order
    ok (component_plan (package_at index name) pkg (deps_of entries name) ∷ rest)
]

module _ (clean : String → String) (parse_digest : String → Option Error) where
  unfoldable pub build_plan_from_resolved : Bom → Resolved → Result Plan
  build_plan_from_resolved b resolved = do
    validate clean parse_digest b
    entries ← build_dependency_set (package_index b) resolved b.spec.packages
    order ← topo_sort_dependencies entries
    components ← component_plans (package_index b) resolved entries order
    ok (record {
      bom_name = b.metadata.name;
      revision = b.spec.revision;
      channel = b.runtime_channel;
      bom_local_patch_policy = b.spec.local_patch_policy;
      local_patch_policy = none;
      local_patch_policy_source = "";
      local_resources = [];
      components = components;
    })

  unfoldable pub build_plan : (String → Result ComponentPackage) → Bom → Result Plan
  build_plan load b = do
    resolved ← resolve_component_packages load clean parse_digest b
    build_plan_from_resolved b resolved
