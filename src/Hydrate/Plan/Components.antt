-- ===== src/Hydrate/Plan/Components.antt =====
-- What the components of a plan are made of.
use sealos_lifecycle.Base.{
  ◌<◌, ◌≡◌, inl, inr, refl, ap, String, string_eq, some, List, [], ◌∷◌, map, Listed, count, ok,
  Result-cases, Option-cases, arith,
}
use sealos_lifecycle.Packageformat.Types.{ComponentPackage}
use sealos_lifecycle.Bom.Types.{Package}
use sealos_lifecycle.Bom.Resolve.{Resolved, reference}
use sealos_lifecycle.Hydrate.Steps.{build_steps}
use sealos_lifecycle.Hydrate.Order.{Entries}
use sealos_lifecycle.Hydrate.Order.Linking.{deps_of}
use sealos_lifecycle.Hydrate.Dependencies.{Index}
use sealos_lifecycle.Hydrate.Plan.{ComponentPlan, package_at, component_plan, component_plans}

-- The component plan `c` is made of the package `p` and of its component package `pkg`.
abbrev pub IsMadeOf : Package → ComponentPackage → ComponentPlan → Type 0
IsMadeOf p pkg c =
    (c.name ≡ p.name)
    × (c.version ≡ p.version)
    × (c.artifact ≡ reference p.artifact)
    × (c.package_name ≡ pkg.metadata.name)
    × (c.package_class ≡ pkg.spec.package_class)
    × (c.steps ≡ build_steps pkg)

module _ (index : Index) (resolved : Resolved) (entries : Entries) where
  component_plans-inv :
      (name : String) (order : List String) (cs : List ComponentPlan)
      → component_plans index resolved entries (name ∷ order) ≡ ok cs
      → (pkg : ComponentPackage) × (rest : List ComponentPlan) × (resolved name ≡ some pkg)
        × (component_plans index resolved entries order ≡ ok rest)
        × (cs ≡ component_plan (package_at index name) pkg (deps_of entries name) ∷ rest)
  unfolding component_plans
  component_plans-inv name order cs h = elim (Option-cases (resolved name)) [
    | inl missing ↦ absurd (ground arith)
    | inr (pkg, found) ↦ elim (Result-cases (component_plans index resolved entries order)) [
      | inl (rest, e) ↦ (pkg, rest, found, e, ground arith)
      | inr (failure, e) ↦ absurd (ground arith)
    ]
  ]

  nil-inv : (cs : List ComponentPlan) → component_plans index resolved entries [] ≡ ok cs → cs ≡ []
  unfolding component_plans
  nil-inv cs h = cc

  package_at-found : (x : String) (q : Package) → index x ≡ some q → package_at index x ≡ q
  unfolding package_at
  package_at-found x q h = ground arith

  pub component_plans-names :
      (order : List String) (cs : List ComponentPlan)
      → component_plans index resolved entries order ≡ ok cs
      → ((x : String) → 0 < count x order → (q : Package) × (index x ≡ some q) × (q.name ≡ x))
      → map (λ c. c.name) cs ≡ order
  unfolding component_plan
  component_plans-names [] cs h k = rw (nil-inv cs h) refl
  component_plans-names (x ∷ order) cs h k =
      let (pkg, rest, found, e, same) = component_plans-inv x order cs h in
      let (q, have, named) = k x (ground arith) in
      let below = component_plans-names order rest e (λ y m. k y (ground arith)) in
      rw same (rw (package_at-found x q have) (rw named (ap (λ xs. x ∷ xs) below)))

  pub component_plans-IsMadeOf :
      (order : List String) (cs : List ComponentPlan) (c : ComponentPlan)
      → component_plans index resolved entries order ≡ ok cs
      → ((x : String) → 0 < count x order → (q : Package) × (index x ≡ some q) × (q.name ≡ x))
      → Listed c cs
      → (p : Package) × (pkg : ComponentPackage) × (index p.name ≡ some p)
        × (resolved p.name ≡ some pkg)
        × IsMadeOf p pkg c
  unfolding component_plan
  component_plans-IsMadeOf [] cs c h k m = elim (rw (nil-inv cs h) at m) [ ]
  component_plans-IsMadeOf (x ∷ order) cs c h k m =
      let (pkg, rest, found, e, same) = component_plans-inv x order cs h in
      elim (rw same at m) [
        | inl here ↦
            let (q, have, named) = k x (ground arith) in
            let at = package_at-found x q have in
            (
              q,
              pkg,
              ground arith,
              ground arith,
              rw here (rw at (refl, refl, refl, refl, refl, refl)),
            )
        | inr below ↦ component_plans-IsMadeOf order rest c e (λ y m. k y (ground arith)) below
      ]
