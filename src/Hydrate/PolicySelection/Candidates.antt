-- ===== src/Hydrate/PolicySelection/Candidates.antt =====
-- The candidates of a selection.
use sealos_lifecycle.Base.{
  ℕ, ◌+◌, ◌≡◌, ◌⊎◌, refl, inl, inr, String, ◌==◌, string_eq, if◌then◌else◌, Bool, true, false,
  Option, none, some, List, [], ◌∷◌, All, is_blank, trim_space, is_empty, ok, Result-cases,
  Bool-cases, arith,
}
use sealos_lifecycle.Ownership.Document.{LocalPatchPolicyDocument, LocalPatchPolicySource}
use sealos_lifecycle.Hydrate.Plan.{ComponentPlan, Plan}
use sealos_lifecycle.Hydrate.PolicySelection.{
  built_in_default, local_repo, bom, component_package, Candidate, mark_only_selected,
  clean_relative, package_candidates, bom_path,
}

-- How many candidates are selected.
unfoldable pub selected_count : List Candidate → ℕ
selected_count [] = 0
selected_count (c ∷ cs) = (if c.selected then 1 else 0) + selected_count cs

abbrev pub declares : List ComponentPlan → Bool
declares [] = false
declares (c ∷ cs) = if is_blank c.local_patch_policy then declares cs else true

-- The source that comes first among those that there are.
abbrev pub first_source : Plan → Option (LocalPatchPolicyDocument × String) → LocalPatchPolicySource
first_source plan (some repo) = local_repo
first_source plan none =
    if is_blank plan.bom_local_patch_policy
    then (if declares plan.components then component_package else built_in_default)
    else bom

-- No candidate of a package is marked for another source.
unfoldable pub IsOfPackage : Candidate → Type 0
IsOfPackage c = (c.source ≡ component_package) × (c.selected ≡ false)

pub packages_unmarked :
    (source : LocalPatchPolicySource) (path component : String) (cs : List Candidate)
    → (component_package == source) ≡ false
    → All IsOfPackage cs
    → selected_count (mark_only_selected source path component cs) ≡ 0
unfolding selected_count mark_only_selected IsOfPackage
packages_unmarked source path component [] n h = refl
packages_unmarked source path component (c ∷ cs) n h =
    let same = h.0.0 in
    let other : (c.source == source) ≡ false = rw same n in
    ground (arith, packages_unmarked source path component cs n h.1)

packages_unselected : (cs : List Candidate) → All IsOfPackage cs → selected_count cs ≡ 0
unfolding selected_count IsOfPackage
packages_unselected [] h = refl
packages_unselected (c ∷ cs) h = ground (arith, packages_unselected cs h.1, h.0)

pub other_sources :
    ((built_in_default == local_repo) ≡ false)
    × ((built_in_default == bom) ≡ false)
    × ((built_in_default == component_package) ≡ false)
    × ((bom == local_repo) ≡ false)
    × ((component_package == local_repo) ≡ false)
    × ((component_package == bom) ≡ false)
unfolding string_eq
other_sources = (refl, refl, refl, refl, refl, refl)

module _ (clean : String → String) where
  pub package_candidates-inv :
      (cs : List ComponentPlan) (found : List Candidate)
      → package_candidates clean cs ≡ ok found
      → All IsOfPackage found × (is_empty found ≡ (if declares cs then false else true))
  unfolding package_candidates IsOfPackage
  package_candidates-inv [] found h = let e : found ≡ [] = ground arith in rw e (tt, refl)
  package_candidates-inv (c ∷ cs) found h = elim (Bool-cases (is_blank c.local_patch_policy)) [
    | inl blank ↦
        let (below, some_left) = package_candidates-inv cs found (ground arith) in
        (below, ground arith)
    | inr set ↦ elim (Result-cases (clean_relative clean (trim_space c.local_patch_policy))) [
      | inl (path, e) ↦ elim (Result-cases (package_candidates clean cs)) [
        | inl (more, e') ↦
            let (below, _) = package_candidates-inv cs more e' in
            let here : found
                ≡ record {
                  source = component_package;
                  path = path;
                  component = c.name;
                  selected = false;
                }
                  ∷ more =
              ground arith in
            rw here (((refl, refl), below), ground arith)
        | inr (failure, e') ↦ absurd (ground arith)
      ]
      | inr (failure, e) ↦ absurd (ground arith)
    ]
  ]

  pub bom_path-inv :
      (plan : Plan) (declared : Option String)
      → bom_path clean plan ≡ ok declared
      → (declared ≡ none) × (is_blank plan.bom_local_patch_policy ≡ true)
        ⊎ ((path : String) × (declared ≡ some path)
            × (is_blank plan.bom_local_patch_policy ≡ false))
  unfolding bom_path
  bom_path-inv plan declared h = elim (Bool-cases (is_blank plan.bom_local_patch_policy)) [
    | inl blank ↦ inl (ground arith, blank)
    | inr set ↦
        elim (Result-cases (clean_relative clean (trim_space plan.bom_local_patch_policy))) [
          | inl (path, e) ↦ inr (path, ground arith, set)
          | inr (failure, e) ↦ absurd (ground arith)
        ]
  ]
