-- ===== src/Hydrate/Dependencies/Laws.antt =====
-- What the dependencies of a component hold.
use sealos_lifecycle.Base.{
  ◌≤◌, ◌<◌, ◌≡◌, ◌≢◌, ◌⊎◌, inl, inr, refl, ap, String, ◌==◌, contains, string_eq, if◌then◌else◌,
  true, false, some, List, [], ◌∷◌, map, Listed, less, sort_by, count, count-append, count-sort_by,
  count-of_contains, ok, Result-cases, Option-cases, count-map-Listed, arith,
}
use sealos_lifecycle.Packageformat.Types.{Dependency, ComponentPackage}
use sealos_lifecycle.Bom.Types.{Package}
use sealos_lifecycle.Bom.Resolve.{Resolved}
use sealos_lifecycle.Hydrate.Order.{Entries, names}
use sealos_lifecycle.Hydrate.Order.Linking.{deps_of}
use sealos_lifecycle.Hydrate.Dependencies.{
  Index, insert, insert_all, delete, insert_package_dependencies, dependencies_of,
  build_dependency_set,
}

-- The component `name` needs the component `d`: the package in the bill of materials lists it, or the component package
-- does, where an optional dependency counts only if it is among the packages.
abbrev pub Needs : Index → Resolved → String → String → Type 0
Needs index resolved name d =
    (d ≢ name)
    × (p : Package) × (index name ≡ some p)
    × ((contains d p.dependencies ≡ true)
        ⊎ ((pkg : ComponentPackage) × (resolved name ≡ some pkg)
            × (dependency : Dependency) × Listed dependency pkg.spec.dependencies
            × (dependency.name ≡ d)
            × ((dependency.optional ≡ false) ⊎ ((q : Package) × (index d ≡ some q)))))

insert_self : (d : String) (set : List String) → 0 < count d (insert d set)
unfolding insert
insert_self d set = ground (arith, count-append d set (d ∷ []), count-of_contains d set)

insert_other : (x d : String) (set : List String) → 0 < count x set → 0 < count x (insert d set)
unfolding insert
insert_other x d set h = ground (arith, count-append x set (d ∷ []))

insert_all-old :
    (x : String) (ds set : List String) → 0 < count x set → 0 < count x (insert_all ds set)
unfolding insert_all
insert_all-old x [] set h = h
insert_all-old x (d ∷ ds) set h = insert_all-old x ds (insert d set) (insert_other x d set h)

insert_all-new :
    (x : String) (ds set : List String) → contains x ds ≡ true → 0 < count x (insert_all ds set)
unfolding insert_all
insert_all-new x [] set h = cc
insert_all-new x (d ∷ ds) set h = elim (string_eq.dec x d) [
  | yes p ↦ insert_all-old x ds (insert d set) (rw p (insert_self d set))
  | no n ↦ insert_all-new x ds (insert d set) (ground arith)
]

pub count-delete :
    (x name : String) (ds : List String)
    → count x (delete name ds) ≡ (if x == name then 0 else count x ds)
unfolding delete
count-delete x name [] = ground arith
count-delete x name (d ∷ ds) = ground (arith, count-delete x name ds)

module _ (index : Index) where
  package_dependencies-old :
      (name : String) (ds : List Dependency) (set set' : List String) (x : String)
      → insert_package_dependencies index name ds set ≡ ok set'
      → 0 < count x set
      → 0 < count x set'
  unfolding insert_package_dependencies
  package_dependencies-old name [] set set' x e h = ground arith
  package_dependencies-old name (d ∷ ds) set set' x e h = elim (Option-cases (index d.name)) [
    | inl missing ↦ ground (arith, package_dependencies-old name ds set set' x)
    | inr (q, found) ↦ ground (
      arith,
      package_dependencies-old name ds (insert d.name set) set' x,
      insert_other x d.name set h,
    )
  ]

  package_dependencies-new :
      (name : String) (ds : List Dependency) (set set' : List String) (dependency : Dependency)
      → insert_package_dependencies index name ds set ≡ ok set'
      → Listed dependency ds
      → (dependency.optional ≡ false) ⊎ ((q : Package) × (index dependency.name ≡ some q))
      → 0 < count dependency.name set'
  unfolding insert_package_dependencies
  package_dependencies-new name [] set set' dependency e m r = elim m [ ]
  package_dependencies-new name (d ∷ ds) set set' dependency e (inl p) r =
      elim (Option-cases (index d.name)) [
        | inl missing ↦ elim r [
          | inl required ↦ absurd (ground arith)
          | inr (q, found) ↦ absurd (ground arith)
        ]
        | inr (q, found) ↦
            let rest : insert_package_dependencies index name ds (insert d.name set) ≡ ok set' =
              ground arith in
            rw p (
              package_dependencies-old name ds (insert d.name set) set' d.name rest
                (insert_self d.name set))
      ]
  package_dependencies-new name (d ∷ ds) set set' dependency e (inr m) r =
      elim (Option-cases (index d.name)) [
        | inl missing ↦
            let rest : insert_package_dependencies index name ds set ≡ ok set' = ground arith in
            package_dependencies-new name ds set set' dependency rest m r
        | inr (q, found) ↦
            let rest : insert_package_dependencies index name ds (insert d.name set) ≡ ok set' =
              ground arith in
            package_dependencies-new name ds (insert d.name set) set' dependency rest m r
      ]

  module _ (resolved : Resolved) where
    dependencies_of-inv :
        (p : Package) (list : List String)
        → dependencies_of index resolved p ≡ ok list
        → (pkg : ComponentPackage) × (resolved p.name ≡ some pkg)
          × (set : List String) × (insert_package_dependencies index p.name pkg.spec.dependencies
                (insert_all p.dependencies [])
              ≡ ok set)
          × (list ≡ sort_by less (delete p.name set))
    unfolding dependencies_of
    dependencies_of-inv p list h = elim (Option-cases (resolved p.name)) [
      | inl missing ↦ absurd (ground arith)
      | inr (pkg, found) ↦
          elim (Result-cases (
            insert_package_dependencies index p.name pkg.spec.dependencies
              (insert_all p.dependencies []))) [
                | inl (set, e) ↦ (pkg, found, set, e, ground arith)
                | inr (failure, e) ↦ absurd (ground arith)
              ]
    ]

    pub dependencies_of-Needs :
        (p : Package) (list : List String) (d : String)
        → dependencies_of index resolved p ≡ ok list
        → index p.name ≡ some p
        → Needs index resolved p.name d
        → 0 < count d list
    dependencies_of-Needs p list d h i (other, q, found, reason) =
        let (pkg, have, set, e, l) = dependencies_of-inv p list h in
        let kept : 0 < count d set → 0 < count d list = λ m.
          rw l
            (ground (arith, count-sort_by less d (delete p.name set), count-delete d p.name set)) in
        elim reason [
          | inl direct ↦ kept (
              package_dependencies-old p.name pkg.spec.dependencies (insert_all p.dependencies [])
                set d e (insert_all-new d p.dependencies [] (ground arith)))
          | inr (pkg', have', dependency, m, named, r) ↦
              let same : pkg' ≡ pkg = ground arith in
              let at =
                package_dependencies-new p.name pkg.spec.dependencies (insert_all p.dependencies [])
                  set dependency e (rw same at m) (rw named r) in
              kept (rw named at at)
        ]

    build_dependency_set-inv :
        (p : Package) (ps : List Package) (entries : Entries)
        → build_dependency_set index resolved (p ∷ ps) ≡ ok entries
        → (list : List String) × (rest : Entries) × (dependencies_of index resolved p ≡ ok list)
          × (build_dependency_set index resolved ps ≡ ok rest)
          × (entries ≡ (p.name, list) ∷ rest)
    unfolding build_dependency_set
    build_dependency_set-inv p ps entries h =
        elim (Result-cases (dependencies_of index resolved p)) [
          | inl (list, e) ↦ elim (Result-cases (build_dependency_set index resolved ps)) [
            | inl (rest, e') ↦ (list, rest, e, e', ground arith)
            | inr (failure, e') ↦ absurd (ground arith)
          ]
          | inr (failure, e) ↦ absurd (ground arith)
        ]

    nil-inv :
        (entries : Entries) → build_dependency_set index resolved [] ≡ ok entries → entries ≡ []
    unfolding build_dependency_set
    nil-inv entries h = cc

    pub build_dependency_set-names :
        (ps : List Package) (entries : Entries)
        → build_dependency_set index resolved ps ≡ ok entries
        → names entries ≡ map (λ p. p.name) ps
    build_dependency_set-names [] entries h = rw (nil-inv entries h) refl
    build_dependency_set-names (p ∷ ps) entries h =
        let (list, rest, e, e', same) = build_dependency_set-inv p ps entries h in
        rw same (ap (λ xs. p.name ∷ xs) (build_dependency_set-names ps rest e'))

    pub build_dependency_set-deps_of :
        (ps : List Package) (entries : Entries) (p : Package)
        → build_dependency_set index resolved ps ≡ ok entries
        → Listed p ps
        → count p.name (map (λ q. q.name) ps) ≤ 1
        → dependencies_of index resolved p ≡ ok (deps_of entries p.name)
    unfolding deps_of
    build_dependency_set-deps_of [] entries p h m u = elim m [ ]
    build_dependency_set-deps_of (q ∷ ps) entries p h (inl here) u =
        let (list, rest, e, e', same) = build_dependency_set-inv q ps entries h in
        rw same (ground (arith))
    build_dependency_set-deps_of (q ∷ ps) entries p h (inr below) u =
        let (list, rest, e, e', same) = build_dependency_set-inv q ps entries h in
        let other : 0 < count p.name (map (λ q. q.name) ps) =
          count-map-Listed (λ q. q.name) ps p below in
        rw same (ground (arith, build_dependency_set-deps_of ps rest p))
