-- ===== src/Hydrate/Order.antt =====
-- `topoSortDependencies` of pkg/distribution/hydrate/plan.go: the order of the components. The map of
-- the dependencies is the list of its entries, in the order in which a loop meets them. The maps of
-- the function are functions, of which the keys are the names of the entries.
pub mod Linking
pub mod Draining
pub mod Invariant
pub mod Laws
use sealos_lifecycle.Base.{
  ℕ, suc, zero, String, ◌==◌, contains, string_eq, if◌then◌else◌, not, List, [], ◌∷◌, ◌++◌, map, ℤ,
  pos, is_zero, increment, decrement, length, nat_eq, less, sort_by, text, errorf, Result, ok, err,
  ◌>>=◌, ◌>>◌, fail_if,
}

abbrev pub Entries : Type 0
Entries = List (String × List String)

abbrev pub names : Entries → List String
names entries = map (λ e. e.0) entries

abbrev pub Indegree : Type 0
Indegree = String → ℤ

-- `reverse`: the names that depend on a name.
abbrev pub Dependents : Type 0
Dependents = String → List String

pub record Links : Type 0 where
  pub indegree : Indegree
  pub reverse : Dependents

-- One round of the loop over the dependencies of `name`, for a dependency that is known.
unfoldable pub link : String → String → Links → Links
link name dependency s = record {
  indegree = λ x. if x == name then increment (s.indegree x) else s.indegree x;
  reverse = λ d. if d == dependency then s.reverse d ++ (name ∷ []) else s.reverse d;
}

-- The loop over the dependencies of `name`, where `known` are the keys.
unfoldable pub link_all : List String → String → List String → Links → Result Links
link_all known name [] s = ok s
link_all known name (d ∷ ds) s = do
  fail_if (not (contains d known))
      (errorf "component %q depends on unknown component %q" (text name ∷ text d ∷ []))
  link_all known name ds (link name d s)

unfoldable pub link_entries : List String → Entries → Links → Result Links
link_entries known [] s = ok s
link_entries known ((name, ds) ∷ entries) s = do
  s' ← link_all known name ds s
  link_entries known entries s'

-- The names with no dependency, before they are sorted.
unfoldable pub initially_ready : Indegree → List String → List String
initially_ready indegree [] = []
initially_ready indegree (x ∷ xs) =
    let rest = initially_ready indegree xs in if is_zero (indegree x) then x ∷ rest else rest

pub record Queue : Type 0 where
  pub indegree : Indegree
  pub ready : List String

-- One round of the loop over the dependents of a component that is placed.
unfoldable pub release_one : String → Queue → Queue
release_one dependent q =
    let indegree : Indegree =
      λ x. if x == dependent then decrement (q.indegree x) else q.indegree x in
    record {
      indegree = indegree;
      ready =
          if is_zero (indegree dependent)
          then sort_by less (q.ready ++ (dependent ∷ []))
          else q.ready;
    }

unfoldable pub release : List String → Queue → Queue
release [] q = q
release (dependent ∷ next) q = release next (release_one dependent q)

pub record Drained : Type 0 where
  pub order : List String
  pub left : List String

-- The loop over the ready components. Each round places one, so that the number of the components is
-- enough fuel (`drain_all_ends` of Order/Laws.antt); `left` are those that are still ready when the
-- fuel is used up.
unfoldable pub drain : ℕ → Dependents → List String → Indegree → List String → Drained
drain fuel reverse [] indegree order = record { order = order; left = [] }
drain zero reverse (name ∷ ready) indegree order = record { order = order; left = name ∷ ready }
drain (suc fuel) reverse (name ∷ ready) indegree order =
    let q = release (sort_by less (reverse name)) (record { indegree = indegree; ready = ready }) in
    drain fuel reverse q.ready q.indegree (order ++ (name ∷ []))

abbrev pub no_links : Links
no_links = record { indegree = λ x. pos 0; reverse = λ d. [] }

unfoldable pub drain_all : Entries → Links → Drained
drain_all entries s =
    drain (length entries) s.reverse (sort_by less (initially_ready s.indegree (names entries)))
      s.indegree []

unfoldable pub topo_sort_dependencies : Entries → Result (List String)
topo_sort_dependencies entries = do
  s ← link_entries (names entries) entries no_links
  let order = (drain_all entries s).order
  fail_if (not (length order == length entries)) (errorf "component dependency cycle detected" [])
  ok order
