-- ===== src/Hydrate/PolicySelection.antt =====
-- `SelectLocalPatchPolicy` of pkg/distribution/hydrate/policy.go, with `cleanRelative` of render.go: which
-- policy governs the local patches of a plan. `clean` is `path.Clean`, `join` is `filepath.Join` of a root
-- and a path with slashes, and `read` and `decode` are `os.ReadFile` and the YAML decoder of
-- `LoadLocalPatchPolicyFile`. A repository with a policy is the policy with its path. The plan is not nil.
pub mod Candidates
pub mod Laws
use sealos_lifecycle.Base.{
  String, ◌<>◌, ◌==◌, string_eq, if◌then◌else◌, Bool, true, false, ◌&&◌, Option, none, some, List,
  [], ◌∷◌, ◌++◌, map, less, sort_by, join, has_prefix, is_blank, trim_space, text, errorf, Result,
  ok, err, ◌>>=◌, ◌>>◌, fail_if, wrap,
}
use sealos_lifecycle.Ownership.Policy.{LocalPatchPolicyScope, effective_scope}
use sealos_lifecycle.Ownership.Document.{
  LocalPatchPolicyDocument, LocalPatchPolicySource, default_local_patch_policy_document,
  effective_name,
}
use sealos_lifecycle.Ownership.Document
use sealos_lifecycle.Hydrate.Plan.{ComponentPlan, Plan}

abbrev pub built_in_default : LocalPatchPolicySource
built_in_default = "builtInDefault"

abbrev pub local_repo : LocalPatchPolicySource
local_repo = "localRepo"

abbrev pub bom : LocalPatchPolicySource
bom = "bom"

abbrev pub component_package : LocalPatchPolicySource
component_package = "package"

abbrev pub built_in_path : String
built_in_path = "builtInDefault"

pub record Candidate : Type 0 where
  pub source : LocalPatchPolicySource
  pub path : String
  pub component : String
  pub selected : Bool

pub record Selection : Type 0 where
  pub document : LocalPatchPolicyDocument
  pub source : LocalPatchPolicySource
  pub path : String
  pub name : String
  pub scope : LocalPatchPolicyScope
  pub candidates : List Candidate

-- The loop of `markOnlySelected`.
unfoldable pub mark_only_selected :
    LocalPatchPolicySource → String → String → List Candidate → List Candidate
mark_only_selected source path component [] = []
mark_only_selected source path component (c ∷ cs) =
    record c {
      selected =
          c.source == source
          && trim_space c.path == trim_space path
          && trim_space c.component == trim_space component;
    }
    ∷ mark_only_selected source path component cs

unfoldable pub select_document :
    LocalPatchPolicyDocument → LocalPatchPolicySource → String → String → Selection → Selection
select_document document source path component s = record {
  document = document;
  source = source;
  path = path;
  name = effective_name document;
  scope = effective_scope document.spec;
  candidates = mark_only_selected source path component s.candidates;
}

unfoldable pub built_in_selection : Selection
built_in_selection = record {
  document = default_local_patch_policy_document;
  source = built_in_default;
  path = built_in_path;
  name = effective_name default_local_patch_policy_document;
  scope = effective_scope default_local_patch_policy_document.spec;
  candidates =
      record { source = built_in_default; path = built_in_path; component = ""; selected = true }
      ∷ [];
}

-- `append(selection.Candidates, candidates...)`
unfoldable pub add_candidates : List Candidate → Selection → Selection
add_candidates cs s = record s { candidates = s.candidates ++ cs }

-- A repository's policy as a candidate, if it has one.
unfoldable pub repo_candidates : Option (LocalPatchPolicyDocument × String) → List Candidate
repo_candidates none = []
repo_candidates (some (document, path)) =
    record { source = local_repo; path = path; component = ""; selected = false } ∷ []

unfoldable pub select_single_package_candidate : List Candidate → Result (Option Candidate)
select_single_package_candidate [] = ok none
select_single_package_candidate (c ∷ []) = ok (some c)
select_single_package_candidate (c ∷ d ∷ cs) = err (
    errorf
      "multiple component packages declare local patch policies: %s; exactly one package policy is supported"
      (text (join (sort_by less (map (λ x. x.component <> (":" <> x.path)) (c ∷ d ∷ cs))) ", ")
        ∷ []))

unfoldable pub plan_component_by_name : List ComponentPlan → String → Option ComponentPlan
plan_component_by_name [] name = none
plan_component_by_name (c ∷ cs) name =
    let later = plan_component_by_name cs name in if c.name == name then some c else later

module _ (clean : String → String) where
  unfoldable pub clean_relative : String → Result String
  clean_relative value = do
    fail_if (is_blank value) (errorf "path cannot be empty" [])
    fail_if (has_prefix value "/") (errorf "path %q must be relative" (text value ∷ []))
    fail_if (clean value == ".")
        (errorf "path %q must reference a file or directory" (text value ∷ []))
    fail_if (clean value == "..") (errorf "path %q escapes the package root" (text value ∷ []))
    fail_if (has_prefix (clean value) "../")
        (errorf "path %q escapes the package root" (text value ∷ []))
    ok (clean value)

  unfoldable pub package_candidates : List ComponentPlan → Result (List Candidate)
  package_candidates [] = ok []
  package_candidates (c ∷ cs) =
      let rest = package_candidates cs in
      if is_blank c.local_patch_policy
      then rest
      else (wrap "component %q local patch policy: %w" (text c.name ∷ [])
            (clean_relative (trim_space c.local_patch_policy))
          >>= (λ path. rest >>= (λ more. ok (
              record {
                source = component_package;
                path = path;
                component = c.name;
                selected = false;
              }
              ∷ more))))

  -- The path of the policy that the bill of materials declares.
  unfoldable pub bom_path : Plan → Result (Option String)
  bom_path plan =
      if is_blank plan.bom_local_patch_policy
      then ok none
      else (wrap "BOM local patch policy: %w" []
            (clean_relative (trim_space plan.bom_local_patch_policy))
          >>= (λ path. ok (some path)))

  unfoldable pub bom_candidates : Option String → List Candidate
  bom_candidates none = []
  bom_candidates (some path) =
      record { source = bom; path = path; component = ""; selected = false } ∷ []

  module _ {Bytes : Type 0} (join_path : String → String → String) (read : String → Result Bytes)
      (decode : Bytes → Result LocalPatchPolicyDocument) where
    unfoldable pub load_local_patch_policy_file : String → Result LocalPatchPolicyDocument
    load_local_patch_policy_file path = do
      bytes ← wrap "read local patch policy file %q: %w" (text path ∷ []) (read path)
      document ← wrap "decode local patch policy file %q: %w" (text path ∷ []) (decode bytes)
      wrap "validate local patch policy file %q: %w" (text path ∷ []) (Document.validate document)
      ok document

    unfoldable pub load_bom_local_patch_policy : Plan → String → Result LocalPatchPolicyDocument
    load_bom_local_patch_policy plan bom_root = do
      fail_if (is_blank bom_root) (
          errorf "BOM root cannot be empty when BOM declares local patch policy %q"
            (text (trim_space plan.bom_local_patch_policy) ∷ []))
      path ←
          wrap "BOM local patch policy: %w" []
            (clean_relative (trim_space plan.bom_local_patch_policy))
      wrap "load BOM local patch policy %q: %w" (text path ∷ [])
          (load_local_patch_policy_file (join_path bom_root path))

    -- The end of `LoadPackageLocalPatchPolicy`, for the candidate that is found. `sources` gives the root of a
    -- component's files.
    unfoldable pub load_package_local_patch_policy :
        Plan → Option (ComponentPlan → Result String) → Candidate → Result LocalPatchPolicyDocument
    load_package_local_patch_policy plan none c = err (errorf "source provider cannot be nil" [])
    load_package_local_patch_policy plan (some sources) c =
        elim (plan_component_by_name plan.components c.component) [
          | none ↦ err (errorf "component %q not found in plan" (text c.component ∷ []))
          | some component ↦ do
            root ← sources component
            fail_if (is_blank root)
                (errorf "source root for component %q cannot be empty" (text component.name ∷ []))
            wrap "load component %q local patch policy %q: %w"
                (text component.name ∷ text c.path ∷ [])
                (load_local_patch_policy_file (join_path root c.path))
        ]

    -- What follows once the candidates are known.
    unfoldable pub choose :
        Plan
        → String
        → Option (ComponentPlan → Result String)
        → Option (LocalPatchPolicyDocument × String)
        → Option String
        → List Candidate
        → Selection
        → Result Selection
    choose plan bom_root sources (some (document, path)) declared packages s =
        ok (select_document document local_repo path "" s)
    choose plan bom_root sources none (some path) packages s = do
      document ← load_bom_local_patch_policy plan bom_root
      ok (select_document document bom path "" s)
    choose plan bom_root sources none none packages s =
        select_single_package_candidate packages >>= (λ found. elim found [
          | none ↦ ok s
          | some c ↦ do
            document ← load_package_local_patch_policy plan sources c
            ok (select_document document component_package c.path c.component s)
        ])

    unfoldable pub select_local_patch_policy :
        Plan
        → String
        → Option (ComponentPlan → Result String)
        → Option (LocalPatchPolicyDocument × String)
        → Result Selection
    select_local_patch_policy plan bom_root sources repo = do
      declared ← bom_path plan
      packages ← package_candidates plan.components
      choose plan bom_root sources repo declared packages (
          add_candidates (repo_candidates repo ++ (bom_candidates declared ++ packages))
            built_in_selection)
