-- ===== src/Hydrate/Order/Laws.antt =====
-- What the order of the components is for: every component once, behind its dependencies. The
-- entries are those of a map, of which no two have one name.
use sealos_lifecycle.Base.{
  ◌+◌, ◌≤◌, ◌<◌, ◌≡◌, refl, sym, inl, inr, String, string_eq, contains, true, List, [], ◌∷◌, ◌++◌,
  pos, less, sort_by, count, count-append, count-sort_by, contains-of_count, length, nat_eq,
  length-map, length-le_of_count, count-eq_of_length, arith, ok, Result-cases,
}
use sealos_lifecycle.Hydrate.Order.{
  Entries, names, Links, link_entries, no_links, initially_ready, drain_all, topo_sort_dependencies,
}
use sealos_lifecycle.Hydrate.Order.Linking.{
  deps_of, deps_of-absent, HasUniqueNames, edges, degree-eq-length, edges-eq-count,
  link_entries-indegree, link_entries-reverse, link_entries-ok, count-initially_ready,
}
use sealos_lifecycle.Hydrate.Order.Invariant.{
  remaining, remaining-nothing, remaining-all, IsOrdered, IsDraining, IsDrained, drain-IsDraining,
}

-- An order of the components: each component once, and none before a dependency of it.
pub record IsPlan (entries : Entries) (order : List String) : Type 0 where
  pub complete : (x : String) → count x order ≡ count x (names entries)
  pub ordered : IsOrdered (deps_of entries) [] order

module _ (entries : Entries) (u : HasUniqueNames entries) (s : Links)
    (linked : link_entries (names entries) entries no_links ≡ ok s) where
  initial-IsDraining :
      IsDraining entries s.indegree (sort_by less (initially_ready s.indegree (names entries))) []
  initial-IsDraining =
      let degrees : (x : String) → s.indegree x ≡ pos (remaining [] (deps_of entries x)) = λ x.
        ground (
          arith,
          link_entries-indegree (names entries) entries no_links s x 0 linked refl,
          degree-eq-length entries x (u x),
          remaining-nothing (deps_of entries x),
        ) in
      record {
        degrees = degrees;
        placed = λ x. ground (
          arith,
          degrees x,
          u x,
          count-sort_by less x (initially_ready s.indegree (names entries)),
          count-initially_ready s.indegree (names entries) x,
        );
        ordered = tt;
      }

  drain_all-IsDrained :
      ((drain_all entries s).left ≡ []) × IsDrained entries (drain_all entries s).order
  unfolding drain_all
  drain_all-IsDrained =
      drain-IsDraining entries s.reverse
        (λ x d. omega (
          arith,
          link_entries-reverse (names entries) entries no_links s x d linked,
          edges-eq-count entries x d (u x),
        ))
        (length entries) (sort_by less (initially_ready s.indegree (names entries))) [] s.indegree
        initial-IsDraining (omega (arith, length-map (λ e. e.0) entries))

  -- The drained order has no more than the names, each once.
  within : (x : String) → count x (drain_all entries s).order ≤ count x (names entries)
  within x = let (finished, drained) = drain_all-IsDrained in ground (arith, drained.placed x)

-- The loop over the ready components ends within one round for each component: none is still ready
-- after as many rounds as there are entries, where no two entries have one name and the entries
-- depend on known components only.
pub drain_all_ends :
    (entries : Entries) (s : Links)
    → HasUniqueNames entries
    → link_entries (names entries) entries no_links ≡ ok s
    → (drain_all entries s).left ≡ []
drain_all_ends entries s u linked = (drain_all-IsDrained entries u s linked).0

-- The order of the components has each component once, and each behind all its dependencies, where no
-- two entries have one name.
pub topo_sort_dependencies-IsPlan :
    (entries : Entries) (order : List String)
    → HasUniqueNames entries
    → topo_sort_dependencies entries ≡ ok order
    → IsPlan entries order
unfolding topo_sort_dependencies
topo_sort_dependencies-IsPlan entries order u h =
    elim (Result-cases (link_entries (names entries) entries no_links)) [
      | inl (s, linked) ↦
          let (finished, drained) = drain_all-IsDrained entries u s linked in
          let same : (drain_all entries s).order ≡ order = ground (arith) in
          let long : length (drain_all entries s).order ≡ length (names entries) =
            ground (arith, length-map (λ e. e.0) entries) in
          rw (sym same) (record {
            complete =
                count-eq_of_length (drain_all entries s).order (names entries)
                  (within entries u s linked) long;
            ordered = drained.ordered;
          })
      | inr (failure, e) ↦ absurd (ground arith)
    ]

dependency_placed :
    (deps : String → List String) (seen xs : List String) (x d : String)
    → IsOrdered deps seen xs
    → 0 < count x xs
    → 0 < count d (deps x)
    → 0 < count d seen + count d xs
dependency_placed deps seen [] x d h p m = absurd (omega arith)
dependency_placed deps seen (y ∷ ys) x d h p m = elim (string_eq.dec x y) [
  | yes e ↦ let here = h.0 d (rw e at m) in omega arith
  | no n ↦ omega (
    arith,
    dependency_placed deps (seen ++ (y ∷ [])) ys x d h.1 (ground arith) m,
    count-append d seen (y ∷ []),
  )
]

-- Whatever a plan has is placed in an order that has all that can be placed.
plan_placed :
    (entries : Entries) (order seen xs : List String)
    → IsDrained entries order
    → IsOrdered (deps_of entries) seen xs
    → ((d : String) → 0 < count d seen → 0 < count d order)
    → ((x : String) → count x xs ≤ count x (names entries))
    → (x : String) → 0 < count x xs
    → 0 < count x order
plan_placed entries order seen [] dr h k b x p = absurd (omega arith)
plan_placed entries order seen (y ∷ ys) dr h k b x p =
    let free : remaining order (deps_of entries y) ≡ 0 =
      remaining-all order (deps_of entries y) (λ d m. k d (h.0 d m)) in
    let here : 0 < count y order = ground (arith, dr.placed y, b y) in
    elim (string_eq.dec x y) [
      | yes e ↦ rw e here
      | no n ↦
          plan_placed entries order (seen ++ (y ∷ [])) ys dr h.1
            (λ d m. elim (string_eq.dec d y) [
              | yes e ↦ rw e here
              | no n' ↦ k d (ground (arith, count-append d seen (y ∷ [])))
            ])
            (λ z. ground (arith, b z)) x (ground arith)
    ]

-- When the components have some order with each component once and behind its dependencies, then an
-- order of them is found, where no two entries have one name: only a cycle, or a dependency that is
-- no component, makes the function fail.
pub topo_sort_dependencies-ok :
    (entries : Entries) (plan : List String)
    → HasUniqueNames entries
    → IsPlan entries plan
    → (order : List String) × (topo_sort_dependencies entries ≡ ok order)
unfolding topo_sort_dependencies
topo_sort_dependencies-ok entries plan u p =
    let known : (x d : String) → 0 < edges entries x d → contains d (names entries) ≡ true =
      λ x d m. contains-of_count d (names entries) (
        ground (
          arith,
          edges-eq-count entries x d (u x),
          deps_of-absent entries x,
          dependency_placed (deps_of entries) [] plan x d p.ordered,
          p.complete x,
          p.complete d,
        )) in
    let (s, linked) = link_entries-ok (names entries) entries no_links known in
    let (finished, drained) = drain_all-IsDrained entries u s linked in
    let all =
      plan_placed entries (drain_all entries s).order [] plan drained p.ordered
        (λ d m. absurd (omega arith)) (λ x. ground (arith, p.complete x)) in
    let long : length (drain_all entries s).order ≡ length entries = omega (
      arith,
      length-map (λ e. e.0) entries,
      length-le_of_count (drain_all entries s).order (names entries) (within entries u s linked),
      length-le_of_count (names entries) (drain_all entries s).order
          (λ x. ground (arith, u x, p.complete x, all x)),
    ) in
    ((drain_all entries s).order, ground arith)
