-- ===== src/Base/Count.antt =====
-- How often a text stands in a list, which neither sorting nor the order of appending changes.
use Prim.Native.Nat.{ℕ, ◌+◌, ◌≤◌, ◌<◌}
use mathlib.Core.Path.{◌≡◌, refl}
use mathlib.Core.Logic.{inl, inr}
use mathlib.Core.Bool.{Bool, true, false}
use mathlib.Core.List.{List, [], ◌∷◌, ◌++◌, map}
use Prim.Native.String.{String}
use native.Mathlib.Omega.{arith}
use sealos_lifecycle.Base.Equality.{if◌then◌else◌, ◌==◌, contains, string_eq}
use sealos_lifecycle.Base.Lists.{length, insert_by, sort_by, Listed}

abbrev pub count : String → List String → ℕ
count x [] = 0
count x (y ∷ ys) = (if x == y then 1 else 0) + count x ys

pub count-append : (x : String) (ys zs : List String) → count x (ys ++ zs) ≡ count x ys + count x zs
count-append x [] zs = omega arith
count-append x (y ∷ ys) zs = omega (arith, count-append x ys zs)

module _ (lt : String → String → Bool) (x : String) where
  pub count-insert_by :
      (y : String) (ys : List String)
      → count x (insert_by lt y ys) ≡ (if x == y then 1 else 0) + count x ys
  unfolding insert_by
  count-insert_by y [] = refl
  count-insert_by y (z ∷ ys) = ground (arith, count-insert_by y ys)

  pub count-sort_by : (ys : List String) → count x (sort_by lt ys) ≡ count x ys
  unfolding sort_by
  count-sort_by [] = refl
  count-sort_by (y ∷ ys) = omega (arith, count-insert_by y (sort_by lt ys), count-sort_by ys)

pub contains-of_count : (x : String) (ys : List String) → 0 < count x ys → contains x ys ≡ true
contains-of_count x [] h = absurd (omega arith)
contains-of_count x (y ∷ ys) h = ground (arith, contains-of_count x ys)

pub count-of_contains : (x : String) (ys : List String) → contains x ys ≡ true → 0 < count x ys
count-of_contains x [] h = cc
count-of_contains x (y ∷ ys) h = ground (arith, count-of_contains x ys)

-- One occurrence less.
unfoldable pub remove_one : String → List String → List String
remove_one x [] = []
remove_one x (y ∷ ys) = let rest = remove_one x ys in if x == y then ys else y ∷ rest

count-remove_one :
    (x y : String) (ys : List String)
    → 0 < count x ys
    → (if y == x then 1 else 0) + count y (remove_one x ys) ≡ count y ys
unfolding remove_one
count-remove_one x y [] h = absurd (omega arith)
count-remove_one x y (z ∷ ys) h = ground (arith, count-remove_one x y ys)

length-remove_one :
    (x : String) (ys : List String) → 0 < count x ys → length (remove_one x ys) + 1 ≡ length ys
unfolding remove_one
length-remove_one x [] h = absurd (omega arith)
length-remove_one x (z ∷ ys) h = ground (arith, length-remove_one x ys)

-- A list that has no text more often than another is not longer.
pub length-le_of_count :
    (xs ys : List String) → ((x : String) → count x xs ≤ count x ys) → length xs ≤ length ys
length-le_of_count [] ys h = omega arith
length-le_of_count (x ∷ xs) ys h =
    let here : 0 < count x ys = ground (arith, h x) in
    omega (
      arith,
      length-remove_one x ys here,
      length-le_of_count xs (remove_one x ys)
          (λ y. ground (arith, h y, count-remove_one x y ys here)),
    )

-- Nor is it shorter only if it has every text as often.
pub count-eq_of_length :
    (xs ys : List String)
    → ((x : String) → count x xs ≤ count x ys)
    → length xs ≡ length ys
    → (x : String) → count x xs ≡ count x ys
count-eq_of_length [] [] h e x = refl
count-eq_of_length [] (y ∷ ys) h e x = absurd (omega arith)
count-eq_of_length (x ∷ xs) ys h e y =
    let here : 0 < count x ys = ground (arith, h x) in
    let below =
      count-eq_of_length xs (remove_one x ys)
        (λ z. ground (arith, h z, count-remove_one x z ys here))
        (omega (arith, length-remove_one x ys here)) y in
    ground (arith, below, count-remove_one x y ys here)

unfoldable pub all_distinct : List String → Bool
all_distinct [] = true
all_distinct (x ∷ xs) = if contains x xs then false else all_distinct xs

-- No text stands twice in a list in which none stands again behind itself.
pub count-all_distinct : (xs : List String) → all_distinct xs ≡ true → (x : String) → count x xs ≤ 1
unfolding all_distinct
count-all_distinct [] h x = omega arith
count-all_distinct (y ∷ ys) h x = elim (string_eq.dec x y) [
  | yes p ↦
      let none_left : count y ys ≤ 0 = ground (arith, contains-of_count y ys) in
      let again : count x ys ≤ 0 = rw p none_left in ground arith
  | no n ↦ ground (arith, count-all_distinct ys (ground arith) x)
]

pub count-map-Listed :
    {A : Type 0} (name : A → String) (xs : List A) (x : A)
    → Listed x xs
    → 0 < count (name x) (map name xs)
count-map-Listed name [] x m = elim m [ ]
count-map-Listed name (y ∷ ys) x (inl e) = rw e (ground arith)
count-map-Listed name (y ∷ ys) x (inr m) = omega (arith, count-map-Listed name ys x m)
