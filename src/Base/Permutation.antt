-- ===== src/Base/Permutation.antt =====
-- Sorting permutes.
use mathlib.Core.Path.{refl}
use mathlib.Core.Logic.{inl, inr}
use mathlib.Core.Bool.{Bool}
use mathlib.Core.List.{List, [], ◌∷◌, Permᴰ}
use mathlib.Core.List.Permᴰ
use sealos_lifecycle.Base.Equality.{Bool-cases}
use sealos_lifecycle.Base.Lists.{insert_by, sort_by}

module _ {A : Type 0} where
  insert_by-Perm : (lt : A → A → Bool) (x : A) (xs : List A) → Permᴰ (x ∷ xs) (insert_by lt x xs)
  unfolding insert_by
  insert_by-Perm lt x [] = Permᴰ.refl (x ∷ [])
  insert_by-Perm lt x (y ∷ ys) = elim (Bool-cases (lt y x)) [
    | inl e ↦ rw e (Permᴰ.trans (Permᴰ.swap refl refl) (Permᴰ.cons refl (insert_by-Perm lt x ys)))
    | inr e ↦ rw e (Permᴰ.refl (x ∷ y ∷ ys))
  ]

  pub sort_by-Perm : (lt : A → A → Bool) (xs : List A) → Permᴰ xs (sort_by lt xs)
  unfolding sort_by
  sort_by-Perm lt [] = Permᴰ.nil
  sort_by-Perm lt (x ∷ xs) =
      Permᴰ.trans (Permᴰ.cons refl (sort_by-Perm lt xs)) (insert_by-Perm lt x (sort_by lt xs))
