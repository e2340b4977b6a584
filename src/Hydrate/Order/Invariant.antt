-- ===== src/Hydrate/Order/Invariant.antt =====
-- What holds whenever the loop starts a round: the degrees count the dependencies that are not placed
-- yet, and the components placed or ready are those with none left.
use sealos_lifecycle.Base.{
  ℕ, zero, suc, ◌+◌, ◌-◌, ◌≤◌, ◌<◌, ◌≡◌, refl, String, string_eq, if◌then◌else◌, List, [], ◌∷◌,
  ◌++◌, pos, ltb, less, sort_by, count, count-append, count-sort_by, length, length-append,
  length-le_of_count, arith,
}
use sealos_lifecycle.Hydrate.Order.{Entries, names, Indegree, Dependents, Queue, release, drain}
use sealos_lifecycle.Hydrate.Order.Linking.{deps_of, deps_of-absent}
use sealos_lifecycle.Hydrate.Order.Draining.{release_lem, woken}

-- How many of the dependencies `ds` are not placed in `order`.
pub remaining : List String → List String → ℕ
remaining order [] = 0
remaining order (d ∷ ds) = (if ltb 0 (count d order) then 0 else 1) + remaining order ds

remaining-append :
    (order ds : List String) (n : String)
    → count n order ≡ 0
    → remaining (order ++ (n ∷ [])) ds + count n ds ≡ remaining order ds
unfolding remaining
remaining-append order [] n h = refl
remaining-append order (d ∷ ds) n h =
    ground (arith, remaining-append order ds n h, count-append d order (n ∷ []))

pub placed_of_remaining :
    (order ds : List String) (d : String)
    → remaining order ds ≡ 0
    → 0 < count d ds
    → 0 < count d order
unfolding remaining
placed_of_remaining order [] d h m = absurd (omega arith)
placed_of_remaining order (e ∷ ds) d h m = elim (string_eq.dec d e) [
  | yes p ↦ let here : 0 < count e order = ground arith in rw p here
  | no n ↦ placed_of_remaining order ds d (ground arith) (ground arith)
]

pub remaining-nothing : (ds : List String) → remaining [] ds ≡ length ds
unfolding remaining
remaining-nothing [] = refl
remaining-nothing (d ∷ ds) = ground (arith, remaining-nothing ds)

pub remaining-all :
    (order ds : List String)
    → ((d : String) → 0 < count d ds → 0 < count d order)
    → remaining order ds ≡ 0
unfolding remaining
remaining-all order [] h = refl
remaining-all order (d ∷ ds) h =
    let here : 0 < count d order = h d (ground arith) in
    ground (arith, remaining-all order ds (λ e m. h e (ground arith)))

-- Every component stands behind its dependencies, where those in `seen` stand before all.
abbrev pub IsOrdered : (String → List String) → List String → List String → Type 0
IsOrdered deps seen [] = Unit
IsOrdered deps seen (x ∷ xs) =
    ((d : String) → 0 < count d (deps x) → 0 < count d seen) × IsOrdered deps (seen ++ (x ∷ [])) xs

IsOrdered-append :
    (deps : String → List String) (seen xs : List String) (n : String)
    → IsOrdered deps seen xs
    → ((d : String) → 0 < count d (deps n) → 0 < count d seen + count d xs)
    → IsOrdered deps seen (xs ++ (n ∷ []))
IsOrdered-append deps seen [] n h k = (λ d m. omega (arith, k d m), tt)
IsOrdered-append deps seen (x ∷ xs) n h k = (
  h.0,
  IsOrdered-append deps (seen ++ (x ∷ [])) xs n h.1
      (λ d m. omega (arith, k d m, count-append d seen (x ∷ []))),
)

module _ (entries : Entries) where
  -- One for a component of which all dependencies are placed in `order`, and nothing for another.
  abbrev pub is_free : List String → String → ℕ
  is_free order x =
      if ltb 0 (count x (names entries))
      then (if ltb 0 (remaining order (deps_of entries x)) then 0 else 1)
      else 0

  no_deps : (d x : String) → count x (names entries) ≡ 0 → count d (deps_of entries x) ≡ 0
  no_deps d x h = rw (deps_of-absent entries x h) refl

  pub record IsDraining (indegree : Indegree) (ready order : List String) : Type 0 where
    pub degrees : (x : String) → indegree x ≡ pos (remaining order (deps_of entries x))
    pub placed : (x : String) → count x order + count x ready ≡ is_free order x
    pub ordered : IsOrdered (deps_of entries) [] order

  -- The same when no component is ready.
  pub record IsDrained (order : List String) : Type 0 where
    pub placed : (x : String) → count x order ≡ is_free order x
    pub ordered : IsOrdered (deps_of entries) [] order

  module _ (reverse : Dependents)
      (linked : (x d : String) → count x (reverse d) ≡ count d (deps_of entries x)) where
    module _ (n : String) (ready order : List String) (indegree : Indegree)
        (h : IsDraining indegree (n ∷ ready) order) where
      q : Queue
      q = release (sort_by less (reverse n)) (record { indegree = indegree; ready = ready })

      fresh : count n order ≡ 0
      fresh = ground (arith, h.placed n)

      released :
          (x : String)
          → (q.indegree x ≡ pos (remaining (order ++ (n ∷ [])) (deps_of entries x)))
            × (count x q.ready
                ≡ count x ready
                  + woken (count n (deps_of entries x)) (remaining order (deps_of entries x)))
      unfolding q
      released x =
          let deps = deps_of entries x in
          let woke : count x (sort_by less (reverse n)) ≡ count n deps =
            omega (arith, count-sort_by less x (reverse n), linked x n) in
          let less_left = remaining-append order deps n fresh in
          let (degree, more) =
            release_lem (sort_by less (reverse n)) (record { indegree = indegree; ready = ready }) x
              (remaining order deps) (h.degrees x) (omega arith) in
          let left : remaining order deps - count x (sort_by less (reverse n))
              ≡ remaining (order ++ (n ∷ [])) deps =
            omega arith in
          (rw left at degree, rw woke at more)

      round-IsDraining : IsDraining q.indegree q.ready (order ++ (n ∷ []))
      round-IsDraining = record {
        degrees = λ x. (released x).0;
        placed = λ x.
            let deps = deps_of entries x in
            ground (
              arith,
              h.placed x,
              released x,
              remaining-append order deps n fresh,
              count-append x order (n ∷ []),
              no_deps n x,
            );
        ordered = IsOrdered-append (deps_of entries) [] order n h.ordered (λ d m. omega (
          arith,
          placed_of_remaining order (deps_of entries n) d (ground (arith, h.placed n)) m,
        ));
      }

    pub drain-IsDraining :
        (fuel : ℕ) (ready order : List String) (indegree : Indegree)
        → IsDraining indegree ready order
        → length (names entries) ≤ fuel + length order
        → ((drain fuel reverse ready indegree order).left ≡ [])
          × IsDrained (drain fuel reverse ready indegree order).order
    unfolding drain q
    drain-IsDraining fuel [] order indegree h f =
        (refl, record { placed = λ x. ground (arith, h.placed x); ordered = h.ordered })
    drain-IsDraining zero (n ∷ ready) order indegree h f =
        let long =
          length-le_of_count (order ++ (n ∷ ready)) (names entries)
            (λ x. ground (arith, h.placed x, count-append x order (n ∷ ready))) in
        absurd (omega (arith, length-append order (n ∷ ready)))
    drain-IsDraining (suc fuel) (n ∷ ready) order indegree h f =
        let next = round-IsDraining n ready order indegree h in
        drain-IsDraining fuel (q n ready order indegree h).ready (order ++ (n ∷ []))
          (q n ready order indegree h).indegree next (omega (arith, length-append order (n ∷ [])))
