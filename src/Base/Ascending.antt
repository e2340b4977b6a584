-- ===== src/Base/Ascending.antt =====
-- Lists with a rank that never falls, and what sorting does to ranks and to names.
use Prim.Native.Nat.{ℕ, ◌+◌, ◌≤◌}
use mathlib.Core.Path.{◌≡◌, refl}
use mathlib.Core.Logic.{inl, inr, ◌⊎◌}
use mathlib.Core.Bool.{Bool, true, false}
use mathlib.Core.List.{List, [], ◌∷◌, ◌++◌, map}
use Prim.Native.String.{String}
use native.Mathlib.Omega.{arith}
use sealos_lifecycle.Base.Equality.{if◌then◌else◌, ◌==◌, string_eq, Bool-cases}
use sealos_lifecycle.Base.Lists.{insert_by, sort_by, All, Listed}
use sealos_lifecycle.Base.Count.{count}

abbrev pub IsAscending : List ℕ → Type 0
IsAscending [] = Unit
IsAscending (x ∷ xs) = All (λ y. x ≤ y) xs × IsAscending xs

pub All-mono {ℓ κ} :
    {A : Type ℓ} {P Q : A → Type κ} (xs : List A) → ((x : A) → P x → Q x) → All P xs → All Q xs
All-mono [] f h = tt
All-mono (x ∷ xs) f h = (f x h.0, All-mono xs f h.1)

All-append {ℓ κ} :
    {A : Type ℓ} (P : A → Type κ) (xs ys : List A) → All P xs → All P ys → All P (xs ++ ys)
All-append P [] ys h k = k
All-append P (x ∷ xs) ys h k = (h.0, All-append P xs ys h.1 k)

pub IsAscending-append :
    (c : ℕ) (xs ys : List ℕ)
    → All (λ x. x ≤ c) xs
    → All (λ y. c ≤ y) ys
    → IsAscending xs
    → IsAscending ys
    → IsAscending (xs ++ ys)
IsAscending-append c [] ys h k a b = b
IsAscending-append c (x ∷ xs) ys h k a b = (
  All-append (λ y. x ≤ y) xs ys a.0 (All-mono ys (λ y r. omega (arith, h.0)) k),
  IsAscending-append c xs ys h.1 k a.1 b,
)

module _ {A : Type 0} (lt : A → A → Bool) where
  module _ (name : A → String) (x : String) where
    count-map-insert_by :
        (y : A) (ys : List A)
        → count x (map name (insert_by lt y ys))
          ≡ (if x == name y then 1 else 0) + count x (map name ys)
    unfolding insert_by
    count-map-insert_by y [] = refl
    count-map-insert_by y (z ∷ ys) = ground (arith, count-map-insert_by y ys)

    pub count-map-sort_by :
        (ys : List A) → count x (map name (sort_by lt ys)) ≡ count x (map name ys)
    unfolding sort_by
    count-map-sort_by [] = refl
    count-map-sort_by (y ∷ ys) =
        omega (arith, count-map-insert_by y (sort_by lt ys), count-map-sort_by ys)

  module _ (P : A → Type 0) where
    All-insert_by : (y : A) (ys : List A) → P y → All P ys → All P (insert_by lt y ys)
    unfolding insert_by
    All-insert_by y [] h k = (h, tt)
    All-insert_by y (z ∷ ys) h k = elim (Bool-cases (lt z y)) [
      | inl e ↦ rw e (k.0, All-insert_by y ys h k.1)
      | inr e ↦ rw e (h, k)
    ]

    pub All-sort_by : (ys : List A) → All P ys → All P (sort_by lt ys)
    unfolding sort_by
    All-sort_by [] h = tt
    All-sort_by (y ∷ ys) h = All-insert_by y (sort_by lt ys) h.0 (All-sort_by ys h.1)

  module _ (x : A) where
    Listed-insert_by : (y : A) (ys : List A) → (x ≡ y) ⊎ Listed x ys → Listed x (insert_by lt y ys)
    unfolding insert_by
    Listed-insert_by y [] m = m
    Listed-insert_by y (z ∷ ys) m = elim (Bool-cases (lt z y)) [
      | inl e ↦ rw e (elim m [
        | inl here ↦ inr (Listed-insert_by y ys (inl here))
        | inr (inl next) ↦ inl next
        | inr (inr later) ↦ inr (Listed-insert_by y ys (inr later))
      ])
      | inr e ↦ rw e m
    ]

    pub Listed-sort_by : (ys : List A) → Listed x ys → Listed x (sort_by lt ys)
    unfolding sort_by
    Listed-sort_by [] m = m
    Listed-sort_by (y ∷ ys) (inl e) = Listed-insert_by y (sort_by lt ys) (inl e)
    Listed-sort_by (y ∷ ys) (inr m) = Listed-insert_by y (sort_by lt ys) (inr (Listed-sort_by ys m))

  module _ (rank : A → ℕ) (below : (x y : A) → lt x y ≡ true → rank x ≤ rank y)
      (above : (x y : A) → lt x y ≡ false → rank y ≤ rank x) where
    -- No element of the list has a smaller rank than one in front of it.
    abbrev IsRanked : List A → Type 0
    IsRanked [] = Unit
    IsRanked (x ∷ xs) = All (λ y. rank x ≤ rank y) xs × IsRanked xs

    IsRanked-insert_by : (y : A) (ys : List A) → IsRanked ys → IsRanked (insert_by lt y ys)
    unfolding insert_by
    IsRanked-insert_by y [] h = (tt, tt)
    IsRanked-insert_by y (z ∷ ys) h = elim (Bool-cases (lt z y)) [
      | inl e ↦
          rw e (
            All-insert_by (λ w. rank z ≤ rank w) y ys (below z y e) h.0,
            IsRanked-insert_by y ys h.1,
          )
      | inr e ↦ rw e ((above z y e, All-mono ys (λ w l. omega (arith, above z y e)) h.0), h)
    ]

    IsRanked-sort_by : (ys : List A) → IsRanked (sort_by lt ys)
    unfolding sort_by
    IsRanked-sort_by [] = tt
    IsRanked-sort_by (y ∷ ys) = IsRanked-insert_by y (sort_by lt ys) (IsRanked-sort_by ys)

    All-map : (P : ℕ → Type 0) (ys : List A) → All (λ y. P (rank y)) ys → All P (map rank ys)
    All-map P [] h = tt
    All-map P (y ∷ ys) h = (h.0, All-map P ys h.1)

    IsAscending-of_IsRanked : (ys : List A) → IsRanked ys → IsAscending (map rank ys)
    IsAscending-of_IsRanked [] h = tt
    IsAscending-of_IsRanked (y ∷ ys) h =
        (All-map (λ n. rank y ≤ n) ys h.0, IsAscending-of_IsRanked ys h.1)

    -- Sorting by an order that keeps to the rank gives an ascending list of ranks.
    pub sort_by-IsAscending : (ys : List A) → IsAscending (map rank (sort_by lt ys))
    sort_by-IsAscending ys = IsAscending-of_IsRanked (sort_by lt ys) (IsRanked-sort_by ys)
