-- ===== src/Localrepo/Compatibility/Laws.antt =====
-- What a report on the compatibility of local patches says.
use sealos_lifecycle.Base.{
  less, ℕ, ◌+◌, ◌≡◌, refl, inl, inr, String, Bool, false, Option, none, some, List, [], ◌∷◌, ◌++◌,
  Result, ok, err, arith, length, length-append, is_empty, insert_by, sort_by, Result-cases,
}
use sealos_lifecycle.Ownership.Policy.{LocalPatchPolicy}
use sealos_lifecycle.Ownership.Value.{Fields}
use sealos_lifecycle.Ownership.Overlay.{validate_overlay, kind_of}
use sealos_lifecycle.Ownership.Impact.{diff_local_patch_policy, has_narrowing_changes}
use sealos_lifecycle.Ownership.Impact.Members.{NulFree}
use sealos_lifecycle.Ownership.Overlay.Monotone.{IsClearPolicy, no_narrowing-validate_overlay}
use sealos_lifecycle.Localrepo.Compatibility.{
  Patch, Repo, PolicyCompatibilityIssue, PolicyCompatibilityReport, has_incompatible_patches,
  empty_report, record_patch, sorted_components, load_patch, evaluate_patches, evaluate_components,
  evaluate_patch_compatibility,
}

append-is_empty :
    (xs : List PolicyCompatibilityIssue) (x : PolicyCompatibilityIssue)
    → is_empty (xs ++ (x ∷ [])) ≡ false
append-is_empty [] x = refl
append-is_empty (y ∷ xs) x = refl

-- A patch that leaves a report without incompatible patches was accepted, and there were none before.
record_patch-clean :
    (component : String) (patch : Patch) (verdict : Result (Unit {0}))
    (r : PolicyCompatibilityReport)
    → has_incompatible_patches (record_patch component patch verdict r) ≡ false
    → (verdict ≡ ok tt) × (has_incompatible_patches r ≡ false)
unfolding record_patch has_incompatible_patches
record_patch-clean component patch (ok u) r h = (refl, h)
record_patch-clean component patch (err e) r h = let full = rw append-is_empty at h in absurd cc

reported : PolicyCompatibilityReport → ℕ
reported r = r.valid_patch_count + length r.invalid_patches

reported-record_patch :
    (component : String) (patch : Patch) (verdict : Result (Unit {0}))
    (r : PolicyCompatibilityReport)
    → reported (record_patch component patch verdict r) ≡ reported r + 1
unfolding record_patch reported
reported-record_patch component patch (ok u) r = omega arith
reported-record_patch component patch (err e) r = rw length-append (omega arith)

-- The number of the patches of all components.
abbrev pub patch_count : List (String × List Patch) → ℕ
patch_count [] = 0
patch_count ((component, patches) ∷ entries) = length patches + patch_count entries

module _ (lt : String × List Patch → String × List Patch → Bool) where
  patch_count-insert_by :
      (e : String × List Patch) (entries : List (String × List Patch))
      → patch_count (insert_by lt e entries) ≡ length e.1 + patch_count entries
  unfolding insert_by
  patch_count-insert_by e [] = refl
  patch_count-insert_by e (f ∷ entries) = ground (arith, patch_count-insert_by e entries)

  patch_count-sort_by :
      (entries : List (String × List Patch))
      → patch_count (sort_by lt entries) ≡ patch_count entries
  unfolding sort_by
  patch_count-sort_by [] = refl
  patch_count-sort_by (e ∷ entries) =
      ground (arith, patch_count-insert_by e (sort_by lt entries), patch_count-sort_by entries)

module _ {Bytes : Type 0} (read : String → Result Bytes) (decode : Bytes → Result Fields) where
  evaluate_patches-clean :
      (policy : LocalPatchPolicy) (component : String) (patches : List Patch)
      (r r' : PolicyCompatibilityReport)
      → evaluate_patches read decode policy component patches r ≡ ok r'
      → has_incompatible_patches r' ≡ false
      → has_incompatible_patches r ≡ false
  unfolding evaluate_patches
  evaluate_patches-clean policy component [] r r' h c = ground arith
  evaluate_patches-clean policy component (patch ∷ patches) r r' h c =
      elim (Result-cases (load_patch read decode patch)) [
        | inl (document, e) ↦
            (record_patch-clean component patch (validate_overlay policy document) r
              (evaluate_patches-clean policy component patches _ r' (rw e at h) c)).1
        | inr (e, failed) ↦ absurd (ground arith)
      ]

  evaluate_patches-reported :
      (policy : LocalPatchPolicy) (component : String) (patches : List Patch)
      (r r' : PolicyCompatibilityReport)
      → evaluate_patches read decode policy component patches r ≡ ok r'
      → reported r' ≡ reported r + length patches
  unfolding evaluate_patches
  evaluate_patches-reported policy component [] r r' h = ground arith
  evaluate_patches-reported policy component (patch ∷ patches) r r' h =
      elim (Result-cases (load_patch read decode patch)) [
        | inl (document, e) ↦
            let verdict = validate_overlay policy document in
            omega (
              arith,
              evaluate_patches-reported policy component patches _ r' (rw e at h),
              reported-record_patch component patch verdict r,
            )
        | inr (e, failed) ↦ absurd (ground arith)
      ]

  evaluate_components-reported :
      (policy : LocalPatchPolicy) (entries : List (String × List Patch))
      (r r' : PolicyCompatibilityReport)
      → evaluate_components read decode policy entries r ≡ ok r'
      → reported r' ≡ reported r + patch_count entries
  unfolding evaluate_components
  evaluate_components-reported policy [] r r' h = ground arith
  evaluate_components-reported policy ((component, patches) ∷ entries) r r' h =
      elim (Result-cases (evaluate_patches read decode policy component patches r)) [
        | inl (mid, e) ↦ omega (
          arith,
          evaluate_components-reported policy entries mid r' (rw e at h),
          evaluate_patches-reported policy component patches r mid e,
        )
        | inr (e, failed) ↦ absurd (ground arith)
      ]

  -- A report accounts for every patch of the repository: those that it counts as valid and those
  -- that it lists as invalid are together as many as there are patches, in whatever order the map of
  -- the components is met.
  pub evaluate_patch_compatibility-patch_count :
      (policy : LocalPatchPolicy) (repo : Repo) (r : PolicyCompatibilityReport)
      → evaluate_patch_compatibility read decode policy (some repo) ≡ ok r
      → r.valid_patch_count + length r.invalid_patches ≡ patch_count repo.patches_by_component
  unfolding evaluate_patch_compatibility sorted_components reported
  evaluate_patch_compatibility-patch_count policy repo r h =
      let entries = repo.patches_by_component in
      let all : evaluate_components read decode policy (sorted_components entries) empty_report
          ≡ ok r =
        ground arith in
      omega (
        arith,
        evaluate_components-reported policy (sorted_components entries) empty_report r all,
        patch_count-sort_by (λ a b. less a.0 b.0) entries,
      )

  module _ (old new : LocalPatchPolicy)
      (accepts : (patch : Patch) (document : Fields)
        → load_patch read decode patch ≡ ok document
        → validate_overlay old document ≡ ok tt
        → validate_overlay new document ≡ ok tt) where
    patches_kept :
        (component : String) (patches : List Patch) (r r' : PolicyCompatibilityReport)
        → evaluate_patches read decode old component patches r ≡ ok r'
        → has_incompatible_patches r' ≡ false
        → evaluate_patches read decode new component patches r ≡ ok r'
    unfolding evaluate_patches
    patches_kept component [] r r' h c = h
    patches_kept component (patch ∷ patches) r r' h c =
        elim (Result-cases (load_patch read decode patch)) [
          | inl (document, e) ↦
              let rest = rw e at h in
              let before = evaluate_patches-clean old component patches _ r' rest c in
              let here =
                (record_patch-clean component patch (validate_overlay old document) r before).0 in
              rw (e, accepts patch document e here)
                (patches_kept component patches _ r' (rw here at rest) c)
          | inr (e, failed) ↦ absurd (ground arith)
        ]

    components_clean :
        (entries : List (String × List Patch)) (r r' : PolicyCompatibilityReport)
        → evaluate_components read decode old entries r ≡ ok r'
        → has_incompatible_patches r' ≡ false
        → has_incompatible_patches r ≡ false
    unfolding evaluate_components
    components_clean [] r r' h c = ground arith
    components_clean ((component, patches) ∷ entries) r r' h c =
        elim (Result-cases (evaluate_patches read decode old component patches r)) [
          | inl (mid, e) ↦
              evaluate_patches-clean old component patches r mid e
                (components_clean entries mid r' (rw e at h) c)
          | inr (e, failed) ↦ absurd (ground arith)
        ]

    components_kept :
        (entries : List (String × List Patch)) (r r' : PolicyCompatibilityReport)
        → evaluate_components read decode old entries r ≡ ok r'
        → has_incompatible_patches r' ≡ false
        → evaluate_components read decode new entries r ≡ ok r'
    unfolding evaluate_components
    components_kept [] r r' h c = h
    components_kept ((component, patches) ∷ entries) r r' h c =
        elim (Result-cases (evaluate_patches read decode old component patches r)) [
          | inl (mid, e) ↦
              let rest = rw e at h in
              rw (patches_kept component patches r mid e (components_clean entries mid r' rest c))
                (components_kept entries mid r' rest c)
          | inr (e, failed) ↦ absurd (ground arith)
        ]

  -- An upgrade of the policy without narrowing changes breaks no cluster: if the report on the local
  -- patches under the old policy finds no incompatible one, the report under the new policy is made
  -- without an error and is the same. The new policy passes its checks and has one rule for a kind,
  -- and its kinds and those of the patches hold no NUL.
  pub no_narrowing-evaluate_patch_compatibility :
      (old new : LocalPatchPolicy) (repo : Option Repo) (r : PolicyCompatibilityReport)
      → IsClearPolicy new
      → ((patch : Patch) (document : Fields)
          → load_patch read decode patch ≡ ok document
          → NulFree (kind_of document))
      → has_narrowing_changes (diff_local_patch_policy old new) ≡ false
      → evaluate_patch_compatibility read decode old repo ≡ ok r
      → has_incompatible_patches r ≡ false
      → evaluate_patch_compatibility read decode new repo ≡ ok r
  unfolding evaluate_patch_compatibility
  no_narrowing-evaluate_patch_compatibility old new none r clear nul kept h c =
      rw clear.valid (ground arith)
  no_narrowing-evaluate_patch_compatibility old new (some repo) r clear nul kept h c =
      rw clear.valid (
        components_kept old new
          (λ patch document e.
            no_narrowing-validate_overlay old new document clear (nul patch document e) kept)
          (sorted_components repo.patches_by_component) empty_report r (ground arith) c)
