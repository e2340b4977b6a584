-- ===== src/Hydrate/Order/Draining.antt =====
-- What one round of the loop does to the degrees and to the ready components.
use sealos_lifecycle.Base.{
  ℕ, suc, ◌+◌, ◌-◌, ◌≤◌, ◌<◌, ◌≡◌, ◌≢◌, String, string_eq, if◌then◌else◌, List, [], ◌∷◌, ◌++◌, pos,
  decrement, ltb, less, count, count-append, count-sort_by, arith, ap,
}
use sealos_lifecycle.Hydrate.Order.{Queue, release_one, release}

-- A dependent of which the last dependency was placed becomes ready.
release_one_self :
    (x : String) (q : Queue) (m : ℕ)
    → q.indegree x ≡ pos (suc m)
    → ((release_one x q).indegree x ≡ pos m)
      × (count x (release_one x q).ready ≡ count x q.ready + (if ltb 0 m then 0 else 1))
unfolding release_one decrement
release_one_self x q m e =
    ground (arith, count-sort_by less x (q.ready ++ (x ∷ [])), count-append x q.ready (x ∷ []))

release_one_other :
    (x y : String) (q : Queue)
    → y ≢ x
    → ((release_one x q).indegree y ≡ q.indegree y)
      × (count y (release_one x q).ready ≡ count y q.ready)
unfolding release_one
release_one_other x y q n =
    ground (arith, count-sort_by less y (q.ready ++ (x ∷ [])), count-append y q.ready (x ∷ []))

-- One if all of `m`, and at least one, are counted.
abbrev pub woken : ℕ → ℕ → ℕ
woken c m = if ltb 0 c then (if ltb c m then 0 else 1) else 0

pub release_lem :
    (xs : List String) (q : Queue) (y : String) (m : ℕ)
    → q.indegree y ≡ pos m
    → count y xs ≤ m
    → ((release xs q).indegree y ≡ pos (m - count y xs))
      × (count y (release xs q).ready ≡ count y q.ready + woken (count y xs) m)
unfolding release
release_lem [] q y m e h = ground arith
release_lem (x ∷ xs) q y m e h = elim (string_eq.dec y x) [
  | yes p ↦
      let positive : 0 < m = ground arith in
      let size : suc (m - 1) ≡ m = omega arith in
      let same : q.indegree y ≡ q.indegree x = ap q.indegree p in
      let (degree, ready) = release_one_self x q (m - 1) (rw size (ground arith)) in
      let degree' : (release_one x q).indegree y ≡ pos (m - 1) = rw p degree in
      let ready' : count y (release_one x q).ready
          ≡ count y q.ready + (if ltb 0 (m - 1) then 0 else 1) =
        rw p ready in
      let rest = release_lem xs (release_one x q) y (m - 1) degree' (ground arith) in ground arith
  | no n ↦
      let (degree, ready) = release_one_other x y q n in
      let rest = release_lem xs (release_one x q) y m (ground arith) (ground arith) in
      ground (arith, rest)
]
