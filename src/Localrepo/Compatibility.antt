-- ===== src/Localrepo/Compatibility.antt =====
-- pkg/distribution/localrepo/policy_compatibility.go: which local patches a policy rejects. `read` is
-- `os.ReadFile` and `decode` is `yaml.Unmarshal` of sigs.k8s.io/yaml into a map.
pub mod Laws
use sealos_lifecycle.Base.{
  ℕ, ◌+◌, String, ◌<>◌, Bool, not, Option, none, some, List, [], ◌∷◌, ◌++◌, text, Error, Result, ok,
  err, ◌>>=◌, ◌>>◌, wrap, is_empty, less, sort_by,
}
use sealos_lifecycle.Ownership.Policy
use sealos_lifecycle.Ownership.Policy.{LocalPatchPolicy}
use sealos_lifecycle.Ownership.Value.{Fields}
use sealos_lifecycle.Ownership.Overlay.{validate_overlay}

-- Of localrepo.go.
pub record Patch : Type 0 where
  pub component : String
  pub path : String
  pub relative_path : String

-- What the report needs of a `Repo`: the map of the patches by the component, as its entries in any
-- order.
pub record Repo : Type 0 where
  pub patches_by_component : List (String × List Patch)

pub record PolicyCompatibilityIssue : Type 0 where
  pub component : String
  pub relative_path : String
  -- The error, of which the source keeps the text.
  pub reason : Error

pub record PolicyCompatibilityReport : Type 0 where
  pub valid_patch_count : ℕ
  pub invalid_patches : List PolicyCompatibilityIssue

unfoldable pub has_incompatible_patches : PolicyCompatibilityReport → Bool
has_incompatible_patches r = not (is_empty r.invalid_patches)

abbrev pub empty_report : PolicyCompatibilityReport
empty_report = record { valid_patch_count = 0; invalid_patches = [] }

-- The end of the loop's body: counting a patch that the policy accepts, listing one that it rejects.
unfoldable pub record_patch :
    String → Patch → Result (Unit {0}) → PolicyCompatibilityReport → PolicyCompatibilityReport
record_patch component patch (ok u) r = record r { valid_patch_count = r.valid_patch_count + 1 }
record_patch component patch (err e) r = record r {
  invalid_patches =
      r.invalid_patches
      ++ (record { component = component; relative_path = patch.relative_path; reason = e } ∷ []);
}

-- `sort.Strings` of the names and the lookup of each.
unfoldable pub sorted_components : List (String × List Patch) → List (String × List Patch)
sorted_components entries = sort_by (λ a b. less a.0 b.0) entries

module _ {Bytes : Type 0} (read : String → Result Bytes) (decode : Bytes → Result Fields) where
  unfoldable pub load_patch : Patch → Result Fields
  load_patch patch = do
    bytes ← wrap "read local patch %q: %w" (text patch.path ∷ []) (read patch.path)
    wrap "decode local patch %q: %w" (text patch.path ∷ []) (decode bytes)

  module _ (policy : LocalPatchPolicy) where
    unfoldable pub evaluate_patches :
        String → List Patch → PolicyCompatibilityReport → Result PolicyCompatibilityReport
    evaluate_patches component [] r = ok r
    evaluate_patches component (patch ∷ patches) r = do
      document ← load_patch patch
      evaluate_patches component patches
          (record_patch component patch (validate_overlay policy document) r)

    unfoldable pub evaluate_components :
        List (String × List Patch) → PolicyCompatibilityReport → Result PolicyCompatibilityReport
    evaluate_components [] r = ok r
    evaluate_components ((component, patches) ∷ entries) r =
        evaluate_patches component patches r >>= evaluate_components entries

    abbrev evaluate_repo : Option Repo → Result PolicyCompatibilityReport
    evaluate_repo none = ok empty_report
    evaluate_repo (some repo) =
        evaluate_components (sorted_components repo.patches_by_component) empty_report

    unfoldable pub evaluate_patch_compatibility : Option Repo → Result PolicyCompatibilityReport
    evaluate_patch_compatibility repo = do
      wrap "validate local patch policy: %w" [] (Policy.validate policy)
      evaluate_repo repo
