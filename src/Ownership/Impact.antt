-- ===== src/Ownership/Impact.antt =====
-- pkg/distribution/ownership/impact.go: how one policy differs from another.
pub mod Members
pub mod Widening
use sealos_lifecycle.Base.{
  String, ◌<>◌, ◌==◌, contains, string_eq, if◌then◌else◌, Bool, ◌||◌, not, List, [], ◌∷◌, ◌++◌, map,
  less, is_empty, sort_by,
}
use sealos_lifecycle.Ownership.Policy.{LocalPatchPolicy, LocalPatchKindRule}

pub record KindPath : Type 0 where
  pub kind : String
  pub path : String

pub record PolicyImpact : Type 0 where
  pub added_allowed_prefixes : List KindPath
  pub removed_allowed_prefixes : List KindPath
  pub added_forbidden_exact_paths : List String
  pub removed_forbidden_exact_paths : List String
  pub added_forbidden_metadata_keys : List String
  pub removed_forbidden_metadata_keys : List String
  pub added_forbidden_container_fields : List String
  pub removed_forbidden_container_fields : List String

unfoldable pub has_widening_changes : PolicyImpact → Bool
has_widening_changes r =
    not (is_empty r.added_allowed_prefixes)
    || not (is_empty r.removed_forbidden_exact_paths)
    || not (is_empty r.removed_forbidden_metadata_keys)
    || not (is_empty r.removed_forbidden_container_fields)

unfoldable pub has_narrowing_changes : PolicyImpact → Bool
has_narrowing_changes r =
    not (is_empty r.removed_allowed_prefixes)
    || not (is_empty r.added_forbidden_exact_paths)
    || not (is_empty r.added_forbidden_metadata_keys)
    || not (is_empty r.added_forbidden_container_fields)

unfoldable pub kind_path_less : KindPath → KindPath → Bool
kind_path_less a b = if not (a.kind == b.kind) then less a.kind b.kind else less a.path b.path

abbrev pub rule_items : LocalPatchKindRule → List KindPath
rule_items rule = map (λ prefix. record { kind = rule.kind; path = prefix }) rule.allowed_prefixes

-- The two loops of `flattenAllowedPrefixes`, before the sort.
unfoldable pub allowed_items : List LocalPatchKindRule → List KindPath
allowed_items [] = []
allowed_items (rule ∷ rules) = rule_items rule ++ allowed_items rules

unfoldable pub flatten_allowed_prefixes : LocalPatchPolicy → List KindPath
unfolding allowed_items kind_path_less
flatten_allowed_prefixes p = sort_by kind_path_less (allowed_items p.kind_rules)

-- The key of the set.
unfoldable pub kind_path_key : KindPath → String
kind_path_key item = item.kind <> ("\0" <> item.path)

unfoldable pub missing_kind_paths : List String → List KindPath → List KindPath
missing_kind_paths right_set [] = []
missing_kind_paths right_set (item ∷ left) =
    let rest = missing_kind_paths right_set left in
    if contains (kind_path_key item) right_set then rest else item ∷ rest

unfoldable pub diff_kind_paths : List KindPath → List KindPath → List KindPath
diff_kind_paths left right = missing_kind_paths (map kind_path_key right) left

unfoldable pub missing_strings : List String → List String → List String
missing_strings right_set [] = []
missing_strings right_set (item ∷ left) =
    let rest = missing_strings right_set left in
    if contains item right_set then rest else item ∷ rest

unfoldable pub diff_strings : List String → List String → List String
diff_strings left right = sort_by less (missing_strings right left)

unfoldable pub diff_local_patch_policy : LocalPatchPolicy → LocalPatchPolicy → PolicyImpact
diff_local_patch_policy old new =
    let old_allowed = flatten_allowed_prefixes old in
    let new_allowed = flatten_allowed_prefixes new in
    record {
      added_allowed_prefixes = diff_kind_paths new_allowed old_allowed;
      removed_allowed_prefixes = diff_kind_paths old_allowed new_allowed;
      added_forbidden_exact_paths =
          diff_strings new.forbidden_exact_paths old.forbidden_exact_paths;
      removed_forbidden_exact_paths =
          diff_strings old.forbidden_exact_paths new.forbidden_exact_paths;
      added_forbidden_metadata_keys =
          diff_strings new.forbidden_metadata_keys old.forbidden_metadata_keys;
      removed_forbidden_metadata_keys =
          diff_strings old.forbidden_metadata_keys new.forbidden_metadata_keys;
      added_forbidden_container_fields =
          diff_strings new.forbidden_container_fields old.forbidden_container_fields;
      removed_forbidden_container_fields =
          diff_strings old.forbidden_container_fields new.forbidden_container_fields;
    }
