-- ===== src/Ownership/Impact/Members.antt =====
-- Which entries the differences of `DiffLocalPatchPolicy` leave out.
use Prim.Native.Char.{code}
use sealos_lifecycle.Base.{
  ◌≡◌, refl, sym, ◌∙◌, ◌≢◌, String, ◌==◌, contains, string_eq, Bool, true, false, ◌||◌, List, [],
  ◌∷◌, map, arith, less, is_empty, insert_by, sort_by,
}
use sealos_lifecycle.Ownership.Policy.{LocalPatchPolicy}
use sealos_lifecycle.Ownership.Impact.{
  KindPath, allowed_items, flatten_allowed_prefixes, kind_path_key, kind_path_less,
  missing_kind_paths, diff_kind_paths, missing_strings, diff_strings,
}

-- A sort keeps the members.
module _ {A : Type 0} (key : A → String) (lt : A → A → Bool) (k : String) where
  contains-insert_by :
      (x : A) (xs : List A)
      → contains k (map key (insert_by lt x xs)) ≡ (k == key x || contains k (map key xs))
  unfolding insert_by
  contains-insert_by x [] = refl
  contains-insert_by x (y ∷ ys) = ground (arith, contains-insert_by x ys)

  pub contains-sort_by :
      (xs : List A) → contains k (map key (sort_by lt xs)) ≡ contains k (map key xs)
  unfolding sort_by
  contains-sort_by [] = refl
  contains-sort_by (x ∷ xs) =
      ground (arith, contains-insert_by x (sort_by lt xs), contains-sort_by xs)

is_empty-sort_by :
    {A : Type 0} (lt : A → A → Bool) (xs : List A) → is_empty (sort_by lt xs) ≡ is_empty xs
unfolding sort_by
is_empty-sort_by lt [] = refl
is_empty-sort_by lt (x ∷ xs) = nonempty (sort_by lt xs)
  where
    nonempty : (ys : List _) → is_empty (insert_by lt x ys) ≡ false
    nonempty [] = refl
    nonempty (y ∷ ys) = ground arith

missing_strings-empty :
    (right left : List String) (s : String)
    → is_empty (missing_strings right left) ≡ true
    → contains s left ≡ true
    → contains s right ≡ true
unfolding missing_strings
missing_strings-empty right [] s h m = cc
missing_strings-empty right (x ∷ left) s h m = ground (arith, missing_strings-empty right left s)

-- Where the difference is empty, what is on the left is on the right.
pub diff_strings-empty :
    (left right : List String) (s : String)
    → is_empty (diff_strings left right) ≡ true
    → contains s left ≡ true
    → contains s right ≡ true
unfolding diff_strings
diff_strings-empty left right s h m =
    missing_strings-empty right left s
      (sym (is_empty-sort_by less (missing_strings right left)) ∙ h) m

missing_kind_paths-empty :
    (right : List String) (left : List KindPath) (k : String)
    → is_empty (missing_kind_paths right left) ≡ true
    → contains k (map kind_path_key left) ≡ true
    → contains k right ≡ true
unfolding missing_kind_paths
missing_kind_paths-empty right [] k h m = cc
missing_kind_paths-empty right (x ∷ left) k h m =
    ground (arith, missing_kind_paths-empty right left k)

pub diff_kind_paths-empty :
    (new old : LocalPatchPolicy) (k : String)
    → is_empty (diff_kind_paths (flatten_allowed_prefixes new) (flatten_allowed_prefixes old))
      ≡ true
    → contains k (map kind_path_key (allowed_items new.kind_rules)) ≡ true
    → contains k (map kind_path_key (allowed_items old.kind_rules)) ≡ true
unfolding diff_kind_paths flatten_allowed_prefixes
diff_kind_paths-empty new old k h m =
    sym (contains-sort_by kind_path_key kind_path_less k (allowed_items old.kind_rules))
    ∙ missing_kind_paths-empty _ (flatten_allowed_prefixes new) k h
        (contains-sort_by kind_path_key kind_path_less k (allowed_items new.kind_rules) ∙ m)

-- A text with no NUL in it.
abbrev pub NulFree : String → Type 0
NulFree String.[] = Unit
NulFree (String.◌∷◌ c s) = (code c ≢ 0) × NulFree s
