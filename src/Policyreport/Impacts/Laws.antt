-- ===== src/Policyreport/Impacts/Laws.antt =====
-- When two impacts are found equal they hold the same elements, in whatever order.
use mathlib.Core.List.{Permᴰ}
use mathlib.Core.List.Permᴰ
use sealos_lifecycle.Base.{
  ◌≡◌, refl, ap₂, subst, String, ◌==◌, string_eq, Bool, true, List, [], ◌∷◌, sort_by, sort_by-Perm,
  less, arith,
}
use sealos_lifecycle.Ownership.Impact.{KindPath, kind_path_less}
use sealos_lifecycle.Policyreport.Types.{GateApprovalImpact, GateApprovalPatchRef}
use sealos_lifecycle.Policyreport.Impacts.{
  patch_ref_less, normalized_gate_approval_impact, same_kind_path, same_patch_ref, same_elements,
  gate_approval_impact_equal,
}

module _ {A : Type 0} where
  same_elements-eq :
      (eq : A → A → Bool)
      → ((x y : A) → eq x y ≡ true → x ≡ y)
      → (xs ys : List A) → same_elements eq xs ys ≡ true
      → xs ≡ ys
  unfolding same_elements
  same_elements-eq eq sound [] [] h = refl
  same_elements-eq eq sound [] (y ∷ ys) h = cc
  same_elements-eq eq sound (x ∷ xs) [] h = cc
  same_elements-eq eq sound (x ∷ xs) (y ∷ ys) h =
      ap₂ (λ z zs. z ∷ zs) (sound x y (ground arith))
        (same_elements-eq eq sound xs ys (ground arith))

  perm_of_sorted :
      (lt eq : A → A → Bool)
      → ((x y : A) → eq x y ≡ true → x ≡ y)
      → (xs ys : List A) → same_elements eq (sort_by lt xs) (sort_by lt ys) ≡ true
      → Permᴰ xs ys
  perm_of_sorted lt eq sound xs ys h =
      Permᴰ.trans
        (subst (λ zs. Permᴰ xs zs) (same_elements-eq eq sound (sort_by lt xs) (sort_by lt ys) h)
          (sort_by-Perm lt xs))
        (Permᴰ.symm (sort_by-Perm lt ys))

-- Two impacts with the same elements.
pub record IsSameImpact (a b : GateApprovalImpact) : Type 0 where
  pub prefixes : Permᴰ a.added_allowed_prefixes b.added_allowed_prefixes
  pub exact_paths : Permᴰ a.removed_forbidden_exact_paths b.removed_forbidden_exact_paths
  pub metadata_keys : Permᴰ a.removed_forbidden_metadata_keys b.removed_forbidden_metadata_keys
  pub container_fields :
      Permᴰ a.removed_forbidden_container_fields b.removed_forbidden_container_fields
  pub patches : Permᴰ a.incompatible_patches b.incompatible_patches

string_sound : (x y : String) → x == y ≡ true → x ≡ y
string_sound x y h = ground arith

kind_path_sound : (x y : KindPath) → same_kind_path x y ≡ true → x ≡ y
kind_path_sound x y h =
    let kind : x.kind ≡ y.kind = ground arith in
    let path : x.path ≡ y.path = ground arith in
    ap₂ (λ k p. record { kind = k; path = p }) kind path

patch_ref_sound : (x y : GateApprovalPatchRef) → same_patch_ref x y ≡ true → x ≡ y
patch_ref_sound x y h =
    let component : x.component ≡ y.component = ground arith in
    let path : x.relative_path ≡ y.relative_path = ground arith in
    ap₂ (λ c p. record { component = c; relative_path = p }) component path

pub gate_approval_impact_equal-IsSameImpact :
    (a b : GateApprovalImpact) → gate_approval_impact_equal a b ≡ true → IsSameImpact a b
unfolding gate_approval_impact_equal normalized_gate_approval_impact
gate_approval_impact_equal-IsSameImpact a b h =
    let eq_string : String → String → Bool = λ s t. s == t in
    record {
      prefixes =
          perm_of_sorted kind_path_less same_kind_path kind_path_sound a.added_allowed_prefixes
            b.added_allowed_prefixes (ground arith);
      exact_paths =
          perm_of_sorted less eq_string string_sound a.removed_forbidden_exact_paths
            b.removed_forbidden_exact_paths (ground arith);
      metadata_keys =
          perm_of_sorted less eq_string string_sound a.removed_forbidden_metadata_keys
            b.removed_forbidden_metadata_keys (ground arith);
      container_fields =
          perm_of_sorted less eq_string string_sound a.removed_forbidden_container_fields
            b.removed_forbidden_container_fields (ground arith);
      patches =
          perm_of_sorted patch_ref_less same_patch_ref patch_ref_sound a.incompatible_patches
            b.incompatible_patches (ground arith);
    }
