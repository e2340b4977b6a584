-- ===== src/Hydrate/Plan/Laws.antt =====
-- The plan of a bill of materials: its components, their order and what each is made of.
use sealos_lifecycle.Base.{
  ◌<◌, ◌≡◌, inl, inr, sym, subst, String, contains, string_eq, true, Option, some, List, [], ◌∷◌,
  ◌++◌, map, Error, Listed, count, count-append, contains-of_count, Result, ok, Result-cases, arith,
}
use sealos_lifecycle.Packageformat.Types.{ComponentPackage}
use sealos_lifecycle.Bom.Types.{Package, Bom, package_index}
use sealos_lifecycle.Bom.Validate.{validate}
use sealos_lifecycle.Bom.Laws.{index_of_inv, index_of-contains, names_once}
use sealos_lifecycle.Bom.Resolve.{Resolved, resolve_component_packages}
use sealos_lifecycle.Bom.Resolve.Laws.{resolve_component_packages-IsResolved}
use sealos_lifecycle.Hydrate.Order.{Entries, topo_sort_dependencies}
use sealos_lifecycle.Hydrate.Order.Linking.{deps_of, HasUniqueNames}
use sealos_lifecycle.Hydrate.Order.Invariant.{IsOrdered}
use sealos_lifecycle.Hydrate.Order.Laws.{topo_sort_dependencies-IsPlan}
use sealos_lifecycle.Hydrate.Dependencies.{build_dependency_set}
use sealos_lifecycle.Hydrate.Dependencies.Laws.{
  Needs, dependencies_of-Needs, build_dependency_set-names, build_dependency_set-deps_of,
}
use sealos_lifecycle.Hydrate.Plan.Components.{
  IsMadeOf, component_plans-names, component_plans-IsMadeOf,
}
use sealos_lifecycle.Hydrate.Plan.{
  ComponentPlan, Plan, component_plans, build_plan_from_resolved, build_plan,
}

-- Whatever a component needs stands in front of it, or among those that were seen before.
abbrev pub IsBehind : (String → String → Type 0) → List String → List String → Type 0
IsBehind needs seen [] = Unit
IsBehind needs seen (x ∷ xs) =
    ((d : String) → needs x d → contains d seen ≡ true) × IsBehind needs (x ∷ seen) xs

-- A plan has each package of the bill of materials once, behind the components that it needs.
pub record IsPlanOf (b : Bom) (resolved : Resolved) (plan : Plan) : Type 0 where
  pub complete :
      (x : String)
      → count x (map (λ c. c.name) plan.components) ≡ count x (map (λ p. p.name) b.spec.packages)
  pub ordered : IsBehind (Needs (package_index b) resolved) [] (map (λ c. c.name) plan.components)

IsBehind-of_IsOrdered :
    (deps : String → List String) (needs : String → String → Type 0) (seen seen' xs : List String)
    → ((x d : String) → needs x d → 0 < count d (deps x))
    → ((d : String) → 0 < count d seen → 0 < count d seen')
    → IsOrdered deps seen xs
    → IsBehind needs seen' xs
IsBehind-of_IsOrdered deps needs seen seen' [] n s h = tt
IsBehind-of_IsOrdered deps needs seen seen' (x ∷ xs) n s h = (
  λ d m. contains-of_count d seen' (s d (h.0 d (n x d m))),
  IsBehind-of_IsOrdered deps needs (seen ++ (x ∷ [])) (x ∷ seen') xs n
      (λ d m. ground (arith, s d, count-append d seen (x ∷ []))) h.1,
)

module _ (clean : String → String) (parse_digest : String → Option Error) where
  module _ (b : Bom) (resolved : Resolved) (plan : Plan)
      (h : build_plan_from_resolved clean parse_digest b resolved ≡ ok plan) where
    valid : validate clean parse_digest b ≡ ok tt
    unfolding build_plan_from_resolved
    valid = elim (Result-cases (validate clean parse_digest b)) [
      | inl (done, e) ↦ e
      | inr (failure, e) ↦ absurd (ground arith)
    ]

    stages :
        (entries : Entries) × (order : List String) × (build_dependency_set
            (package_index b)
            resolved
            b.spec.packages
          ≡ ok entries)
        × (topo_sort_dependencies entries ≡ ok order)
        × (component_plans (package_index b) resolved entries order ≡ ok plan.components)
    unfolding build_plan_from_resolved
    stages = elim (Result-cases (build_dependency_set (package_index b) resolved b.spec.packages)) [
      | inl (entries, e) ↦ elim (Result-cases (topo_sort_dependencies entries)) [
        | inl (order, e') ↦
            elim (Result-cases (component_plans (package_index b) resolved entries order)) [
              | inl (cs, e'') ↦ (entries, order, e, e', ground (arith, valid))
              | inr (failure, e'') ↦ absurd (ground (arith, valid))
            ]
        | inr (failure, e') ↦ absurd (ground (arith, valid))
      ]
      | inr (failure, e) ↦ absurd (ground (arith, valid))
    ]

    indexed :
        (x : String)
        → 0 < count x (map (λ p. p.name) b.spec.packages)
        → (q : Package) × (package_index b x ≡ some q) × (q.name ≡ x)
    unfolding package_index
    indexed x m =
        let (q, found) =
          index_of-contains b.spec.packages x
            (contains-of_count x (map (λ p. p.name) b.spec.packages) m) in
        (q, found, (index_of_inv b.spec.packages x q found).0)

    listed :
        (x : String) (p : Package)
        → package_index b x ≡ some p
        → (p.name ≡ x) × Listed p b.spec.packages
    unfolding package_index
    listed x p found = index_of_inv b.spec.packages x p found

    made :
        (order : List String) (entries : Entries)
        → HasUniqueNames entries
        → build_dependency_set (package_index b) resolved b.spec.packages ≡ ok entries
        → topo_sort_dependencies entries ≡ ok order
        → (x : String) → 0 < count x order
        → (q : Package) × (package_index b x ≡ some q) × (q.name ≡ x)
    made order entries u e e' x m =
        let same =
          build_dependency_set-names (package_index b) resolved b.spec.packages entries e in
        let p = topo_sort_dependencies-IsPlan entries order u e' in
        let total : count x order ≡ count x (map (λ p. p.name) b.spec.packages) =
          rw (sym same) (p.complete x) in
        indexed x (ground arith)

    unique :
        (entries : Entries)
        → build_dependency_set (package_index b) resolved b.spec.packages ≡ ok entries
        → HasUniqueNames entries
    unique entries e x =
        rw (build_dependency_set-names (package_index b) resolved b.spec.packages entries e)
          (names_once clean parse_digest b x valid)

    Needs-placed :
        (entries : Entries)
        → build_dependency_set (package_index b) resolved b.spec.packages ≡ ok entries
        → (x d : String) → Needs (package_index b) resolved x d
        → 0 < count d (deps_of entries x)
    Needs-placed entries e x d (other, p, found, reason) =
        let (named, member) = listed x p found in
        let once = names_once clean parse_digest b p.name valid in
        let list =
          build_dependency_set-deps_of (package_index b) resolved b.spec.packages entries p e member
            once in
        let here : package_index b p.name ≡ some p = ground arith in
        let need : Needs (package_index b) resolved p.name d =
          subst (λ n. Needs (package_index b) resolved n d) (sym named) (other, p, found, reason) in
        rw named at (
          dependencies_of-Needs (package_index b) resolved p (deps_of entries p.name) d list here
            need)

  -- A plan that is built without an error has every package of the bill of materials once, and nothing
  -- else. Each stands behind all other packages that it needs: those that the bill of materials lists as its
  -- dependencies, those that its component package requires, and the optional ones that are among the packages.
  pub build_plan_from_resolved-IsPlanOf :
      (b : Bom) (resolved : Resolved) (plan : Plan)
      → build_plan_from_resolved clean parse_digest b resolved ≡ ok plan
      → IsPlanOf b resolved plan
  build_plan_from_resolved-IsPlanOf b resolved plan h =
      let (entries, order, e, e', e'') = stages b resolved plan h in
      let u = unique b resolved plan h entries e in
      let p = topo_sort_dependencies-IsPlan entries order u e' in
      let same =
        component_plans-names (package_index b) resolved entries order plan.components e''
          (made b resolved plan h order entries u e e') in
      let keys = build_dependency_set-names (package_index b) resolved b.spec.packages entries e in
      record {
        complete = λ x. rw same (rw (sym keys) (p.complete x));
        ordered = rw same (
            IsBehind-of_IsOrdered (deps_of entries) (Needs (package_index b) resolved) [] [] order
              (Needs-placed b resolved plan h entries e) (λ d m. m) p.ordered);
      }

  -- Every component of a plan that is built without an error is made of a package of the bill of materials,
  -- and of the component package that the loader returned for the artifact of that package, which
  -- is the artifact that the plan names. The component package is of the component and the version of the plan.
  pub build_plan-IsMadeOf :
      (load : String → Result ComponentPackage) (b : Bom) (plan : Plan) (c : ComponentPlan)
      → build_plan clean parse_digest load b ≡ ok plan
      → Listed c plan.components
      → (p : Package) × (pkg : ComponentPackage) × Listed p b.spec.packages
        × IsMadeOf p pkg c
        × (load c.artifact ≡ ok pkg)
        × (pkg.spec.component ≡ c.name)
        × (pkg.spec.version ≡ c.version)
  unfolding build_plan
  build_plan-IsMadeOf load b plan c h m =
      elim (Result-cases (resolve_component_packages load clean parse_digest b)) [
        | inl (resolved, r) ↦
            let built : build_plan_from_resolved clean parse_digest b resolved ≡ ok plan =
              ground arith in
            let (entries, order, e, e', e'') = stages b resolved plan built in
            let u = unique b resolved plan built entries e in
            let (p, pkg, found, have, of) =
              component_plans-IsMadeOf (package_index b) resolved entries order plan.components c
                e'' (made b resolved plan built order entries u e e') m in
            let (named, member) = listed b resolved plan built p.name p found in
            let (pkg', have', loaded, component, version) =
              resolve_component_packages-IsResolved load clean parse_digest b resolved p r member in
            (p, pkg, member, of, ground arith, ground arith, ground arith)
        | inr (failure, r) ↦ absurd (ground arith)
      ]
