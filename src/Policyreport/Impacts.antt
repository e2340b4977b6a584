-- ===== src/Policyreport/Impacts.antt =====
-- The impact of a report and the impact that an approval expects: `wideningImpactFromReport`,
-- `incompatiblePatchImpactFromReport` and `gateApprovalImpactEqual` of
-- pkg/distribution/policyreport/gate.go. The copies are the values that they copy.
pub mod Laws
use sealos_lifecycle.Base.{
  String, ◌==◌, string_eq, if◌then◌else◌, Bool, true, false, ◌&&◌, not, List, [], ◌∷◌, map, less,
  sort_by,
}
use sealos_lifecycle.Ownership.Impact.{KindPath, kind_path_less}
use sealos_lifecycle.Localrepo.Compatibility.{PolicyCompatibilityIssue}
use sealos_lifecycle.Policyreport.Types.{Report, GateApprovalImpact, GateApprovalPatchRef}

unfoldable pub widening_impact_from_report : Report → GateApprovalImpact
widening_impact_from_report r = record {
  added_allowed_prefixes = r.impact.added_allowed_prefixes;
  removed_forbidden_exact_paths = r.impact.removed_forbidden_exact_paths;
  removed_forbidden_metadata_keys = r.impact.removed_forbidden_metadata_keys;
  removed_forbidden_container_fields = r.impact.removed_forbidden_container_fields;
  incompatible_patches = [];
}

unfoldable pub incompatible_patch_impact_from_report :
    List PolicyCompatibilityIssue → GateApprovalImpact
incompatible_patch_impact_from_report issues = record {
  added_allowed_prefixes = [];
  removed_forbidden_exact_paths = [];
  removed_forbidden_metadata_keys = [];
  removed_forbidden_container_fields = [];
  incompatible_patches =
      map (λ issue. record { component = issue.component; relative_path = issue.relative_path })
        issues;
}

-- The order of the patches in `normalizedGateApprovalImpact`.
unfoldable pub patch_ref_less : GateApprovalPatchRef → GateApprovalPatchRef → Bool
patch_ref_less a b =
    if not (a.component == b.component)
    then less a.component b.component
    else less a.relative_path b.relative_path

-- The order of the prefixes is that of `kind_path_less`.
unfoldable pub normalized_gate_approval_impact : GateApprovalImpact → GateApprovalImpact
normalized_gate_approval_impact i = record {
  added_allowed_prefixes = sort_by kind_path_less i.added_allowed_prefixes;
  removed_forbidden_exact_paths = sort_by less i.removed_forbidden_exact_paths;
  removed_forbidden_metadata_keys = sort_by less i.removed_forbidden_metadata_keys;
  removed_forbidden_container_fields = sort_by less i.removed_forbidden_container_fields;
  incompatible_patches = sort_by patch_ref_less i.incompatible_patches;
}

-- `!=` of the structs, negated.
abbrev pub same_kind_path : KindPath → KindPath → Bool
same_kind_path a b = a.kind == b.kind && a.path == b.path

abbrev pub same_patch_ref : GateApprovalPatchRef → GateApprovalPatchRef → Bool
same_patch_ref a b = a.component == b.component && a.relative_path == b.relative_path

-- The test of the lengths and the loop over the elements, of one pair of lists.
unfoldable pub same_elements {ℓ} : {A : Type ℓ} → (A → A → Bool) → List A → List A → Bool
same_elements eq [] [] = true
same_elements eq [] (y ∷ ys) = false
same_elements eq (x ∷ xs) [] = false
same_elements eq (x ∷ xs) (y ∷ ys) = eq x y && same_elements eq xs ys

abbrev pub same_strings : List String → List String → Bool
same_strings xs ys = same_elements (λ a b. a == b) xs ys

unfoldable pub gate_approval_impact_equal : GateApprovalImpact → GateApprovalImpact → Bool
gate_approval_impact_equal left right =
    let left = normalized_gate_approval_impact left in
    let right = normalized_gate_approval_impact right in
    same_elements same_kind_path left.added_allowed_prefixes right.added_allowed_prefixes
    && same_strings left.removed_forbidden_exact_paths right.removed_forbidden_exact_paths
    && same_strings left.removed_forbidden_metadata_keys right.removed_forbidden_metadata_keys
    && same_strings left.removed_forbidden_container_fields right.removed_forbidden_container_fields
    && same_elements same_patch_ref left.incompatible_patches right.incompatible_patches
