-- ===== src/Hydrate/Order/Linking.antt =====
-- What the links of the entries count.
use sealos_lifecycle.Base.{
  ℕ, ◌+◌, ◌≤◌, ◌<◌, ◌≡◌, refl, inl, inr, String, ◌==◌, contains, string_eq, ap, if◌then◌else◌, true,
  List, [], ◌∷◌, pos, increment, is_zero, length, count, count-append, ok, arith, Result-cases,
}
use sealos_lifecycle.Hydrate.Order.{
  Entries, names, Links, link, link_all, link_entries, initially_ready, Indegree,
}

-- The dependencies of a component.
unfoldable pub deps_of : Entries → String → List String
deps_of [] x = []
deps_of ((name, ds) ∷ entries) x = if x == name then ds else deps_of entries x

abbrev pub HasUniqueNames : Entries → Type 0
HasUniqueNames entries = (x : String) → count x (names entries) ≤ 1

pub deps_of-absent :
    (entries : Entries) (x : String) → count x (names entries) ≡ 0 → deps_of entries x ≡ []
unfolding deps_of
deps_of-absent [] x h = refl
deps_of-absent ((name, ds) ∷ entries) x h = ground (arith, deps_of-absent entries x)

link_all-indegree :
    (known : List String) (name : String) (ds : List String) (s s' : Links) (x : String) (n : ℕ)
    → link_all known name ds s ≡ ok s'
    → s.indegree x ≡ pos n
    → s'.indegree x ≡ pos (n + (if x == name then length ds else 0))
unfolding link_all link increment
link_all-indegree known name [] s s' x n h e = ground arith
link_all-indegree known name (d ∷ ds) s s' x n h e =
    ground (
      arith,
      link_all-indegree known name ds (link name d s) s' x (n + (if x == name then 1 else 0)),
    )

link_all-reverse :
    (known : List String) (name : String) (ds : List String) (s s' : Links) (x d : String)
    → link_all known name ds s ≡ ok s'
    → count x (s'.reverse d) ≡ count x (s.reverse d) + (if x == name then count d ds else 0)
unfolding link_all link
link_all-reverse known name [] s s' x d h = ground arith
link_all-reverse known name (e ∷ ds) s s' x d h = ground (
  arith,
  link_all-reverse known name ds (link name e s) s' x d,
  count-append x (s.reverse d) (name ∷ []),
)

-- In all entries: the length of the dependencies of `x`, and how often `d` is among them.
pub degree : Entries → String → ℕ
degree [] x = 0
degree ((name, ds) ∷ entries) x = (if x == name then length ds else 0) + degree entries x

pub edges : Entries → String → String → ℕ
edges [] x d = 0
edges ((name, ds) ∷ entries) x d = (if x == name then count d ds else 0) + edges entries x d

degree-absent :
    (entries : Entries) (x : String) → count x (names entries) ≡ 0 → degree entries x ≡ 0
unfolding degree
degree-absent [] x h = refl
degree-absent ((name, ds) ∷ entries) x h = ground (arith, degree-absent entries x)

edges-absent :
    (entries : Entries) (x d : String) → count x (names entries) ≡ 0 → edges entries x d ≡ 0
unfolding edges
edges-absent [] x d h = refl
edges-absent ((name, ds) ∷ entries) x d h = ground (arith, edges-absent entries x d)

pub degree-eq-length :
    (entries : Entries) (x : String)
    → count x (names entries) ≤ 1
    → degree entries x ≡ length (deps_of entries x)
unfolding degree deps_of
degree-eq-length [] x u = refl
degree-eq-length ((name, ds) ∷ entries) x u =
    ground (arith, degree-eq-length entries x, degree-absent entries x)

pub edges-eq-count :
    (entries : Entries) (x d : String)
    → count x (names entries) ≤ 1
    → edges entries x d ≡ count d (deps_of entries x)
unfolding edges deps_of
edges-eq-count [] x d u = refl
edges-eq-count ((name, ds) ∷ entries) x d u =
    ground (arith, edges-eq-count entries x d, edges-absent entries x d)

pub link_entries-indegree :
    (known : List String) (entries : Entries) (s s' : Links) (x : String) (n : ℕ)
    → link_entries known entries s ≡ ok s'
    → s.indegree x ≡ pos n
    → s'.indegree x ≡ pos (n + degree entries x)
unfolding link_entries degree
link_entries-indegree known [] s s' x n h e = ground arith
link_entries-indegree known ((name, ds) ∷ entries) s s' x n h e =
    elim (Result-cases (link_all known name ds s)) [
      | inl (mid, step) ↦
          let here = link_all-indegree known name ds s mid x n step e in
          let rest = link_entries-indegree known entries mid s' x _ (rw step at h) here in
          ground (arith, rest)
      | inr (failure, step) ↦ absurd (ground arith)
    ]

pub link_entries-reverse :
    (known : List String) (entries : Entries) (s s' : Links) (x d : String)
    → link_entries known entries s ≡ ok s'
    → count x (s'.reverse d) ≡ count x (s.reverse d) + edges entries x d
unfolding link_entries edges
link_entries-reverse known [] s s' x d h = ground arith
link_entries-reverse known ((name, ds) ∷ entries) s s' x d h =
    elim (Result-cases (link_all known name ds s)) [
      | inl (mid, step) ↦ omega (
        arith,
        link_all-reverse known name ds s mid x d step,
        link_entries-reverse known entries mid s' x d (rw step at h),
      )
      | inr (failure, step) ↦ absurd (ground arith)
    ]

-- Linking fails only at a dependency that is no name.
link_all-ok :
    (known : List String) (name : String) (ds : List String) (s : Links)
    → ((d : String) → 0 < count d ds → contains d known ≡ true)
    → (s' : Links) × (link_all known name ds s ≡ ok s')
unfolding link_all
link_all-ok known name [] s h = (s, refl)
link_all-ok known name (d ∷ ds) s h =
    let (s', e) = link_all-ok known name ds (link name d s) (λ x more. h x (ground arith)) in
    (s', ground (arith, h d))

pub link_entries-ok :
    (known : List String) (entries : Entries) (s : Links)
    → ((x d : String) → 0 < edges entries x d → contains d known ≡ true)
    → (s' : Links) × (link_entries known entries s ≡ ok s')
unfolding link_entries edges
link_entries-ok known [] s h = (s, refl)
link_entries-ok known ((name, ds) ∷ entries) s h =
    let (mid, step) = link_all-ok known name ds s (λ d more. h name d (ground arith)) in
    let (s', rest) = link_entries-ok known entries mid (λ x d more. h x d (ground arith)) in
    (s', rw step rest)

pub count-initially_ready :
    (indegree : Indegree) (xs : List String) (x : String)
    → count x (initially_ready indegree xs) ≡ (if is_zero (indegree x) then count x xs else 0)
unfolding initially_ready
count-initially_ready indegree [] x = ground arith
count-initially_ready indegree (y ∷ xs) x = elim (string_eq.dec x y) [
  | yes p ↦
      let same : indegree x ≡ indegree y = ap indegree p in
      ground (arith, count-initially_ready indegree xs x)
  | no n ↦ ground (arith, count-initially_ready indegree xs x)
]
