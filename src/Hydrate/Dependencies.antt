-- ===== src/Hydrate/Dependencies.antt =====
-- `buildDependencySet` of pkg/distribution/hydrate/plan.go. `index` is the map of the packages by
-- their names, and the packages are met in some order. A set of names is a list without repetition.
pub mod Laws
use sealos_lifecycle.Base.{
  String, ◌==◌, contains, string_eq, if◌then◌else◌, not, ◌&&◌, Option, none, some, List, [], ◌∷◌,
  ◌++◌, less, sort_by, text, errorf, Result, ok, err, ◌>>=◌, ◌>>◌, fail_if,
}
use sealos_lifecycle.Packageformat.Types.{Dependency, ComponentPackage}
use sealos_lifecycle.Bom.Types.{Package}
use sealos_lifecycle.Bom.Resolve.{Resolved}
use sealos_lifecycle.Hydrate.Order.{Entries}

abbrev pub Index : Type 0
Index = String → Option Package

-- `dependencies[d] = struct{}{}`
unfoldable pub insert : String → List String → List String
insert d set = if contains d set then set else set ++ (d ∷ [])

unfoldable pub insert_all : List String → List String → List String
insert_all [] set = set
insert_all (d ∷ ds) set = insert_all ds (insert d set)

-- `delete(dependencies, name)`
unfoldable pub delete : String → List String → List String
delete name [] = []
delete name (d ∷ ds) = let rest = delete name ds in if d == name then rest else d ∷ rest

-- The loop over the dependencies of the package of the component `name`.
unfoldable pub insert_package_dependencies :
    Index → String → List Dependency → List String → Result (List String)
insert_package_dependencies index name [] set = ok set
insert_package_dependencies index name (d ∷ ds) set = elim (index d.name) [
  | none ↦ do
    fail_if (not d.optional)
        (errorf "component %q requires missing dependency %q" (text name ∷ text d.name ∷ []))
    insert_package_dependencies index name ds set
  | some target ↦ do
    fail_if (not (d.version == "") && not (target.version == d.version)) (
        errorf "component %q dependency %q version mismatch, got %q want %q"
          (text name ∷ text d.name ∷ text target.version ∷ text d.version ∷ []))
    insert_package_dependencies index name ds (insert d.name set)
]

-- One round of the loop over the components.
unfoldable pub dependencies_of : Index → Resolved → Package → Result (List String)
dependencies_of index resolved p = elim (resolved p.name) [
  | none ↦ err (errorf "resolved package missing for component %q" (text p.name ∷ []))
  | some pkg ↦ do
    set ←
        insert_package_dependencies index p.name pkg.spec.dependencies
          (insert_all p.dependencies [])
    ok (sort_by less (delete p.name set))
]

unfoldable pub build_dependency_set : Index → Resolved → List Package → Result Entries
build_dependency_set index resolved [] = ok []
build_dependency_set index resolved (p ∷ ps) = do
  list ← dependencies_of index resolved p
  rest ← build_dependency_set index resolved ps
  ok ((p.name, list) ∷ rest)
