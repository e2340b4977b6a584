-- ===== src/Ownership/Overlay/Extract.antt =====
-- What extracting an overlay from a document keeps.

use sealos_lifecycle.Base.{◌≡◌, refl, String, true, false, not, ◌&&◌, some, [], ok, arith}
use sealos_lifecycle.Ownership.Policy
use sealos_lifecycle.Ownership.Policy.{LocalPatchPolicy}
use sealos_lifecycle.Ownership.Paths.{FieldPath, append_path, is_identity_path, is_forbidden}
use sealos_lifecycle.Ownership.Value.{
  Value, null, str, bool, number, list, object, Items, nil, item, Fields, end, field,
}
use sealos_lifecycle.Ownership.Overlay.{
  validate_path, validate_value, validate_items, validate_map, validate_overlay, kind_of,
  filter_value, filter_items, filter_map, extract_overlay, is_kept, keep_scalar, keep_list,
  put_field, put_item, keep_object, no_fields,
}
use sealos_lifecycle.Ownership.Overlay.Monotone.{parts-ok}

-- A document in which nothing is null, and no map and no list in it is empty.
abbrev mutual
  pub IsCompact : Value → Type 0
  IsCompact (object end) = ⊥
  IsCompact (object (field key child fields)) = IsCompact child × AreCompactFields fields
  IsCompact (list nil) = ⊥
  IsCompact (list (item v items)) = IsCompactItem v × AreCompactItems items
  IsCompact null = ⊥
  IsCompact (str s) = Unit
  IsCompact (bool b) = Unit
  IsCompact (number n) = Unit

  -- Of the items, the code looks into maps only.
  pub IsCompactItem : Value → Type 0
  IsCompactItem (object end) = ⊥
  IsCompactItem (object (field key child fields)) = IsCompact child × AreCompactFields fields
  IsCompactItem _ = Unit

  pub AreCompactItems : Items → Type 0
  AreCompactItems nil = Unit
  AreCompactItems (item v items) = IsCompactItem v × AreCompactItems items

  pub AreCompactFields : Fields → Type 0
  AreCompactFields end = Unit
  AreCompactFields (field key child fields) = IsCompact child × AreCompactFields fields

module _ (policy : LocalPatchPolicy) (kind : String) (path : FieldPath)
    (g : validate_path policy kind path ≡ ok tt) where
  is_kept-of_valid : is_kept policy kind path ≡ true
  unfolding validate_path is_kept
  is_kept-of_valid = ground arith

  not_skipped : (not (is_identity_path path) && is_forbidden policy path) ≡ false
  unfolding validate_path
  not_skipped = ground arith

  keep_scalar-of_valid : (v : Value) → keep_scalar policy kind path v ≡ some v
  unfolding keep_scalar
  keep_scalar-of_valid v = rw is_kept-of_valid

module _ (policy : LocalPatchPolicy) (kind : String) where
  mutual
    unfolding filter_value validate_value keep_list keep_object put_field put_item

    filter_value-id :
        (v : Value) (path : FieldPath)
        → validate_path policy kind path ≡ ok tt
        → validate_value policy kind path v ≡ ok tt
        → IsCompact v
        → filter_value policy kind path v ≡ some v
    filter_value-id (object end) path g h c = absurd c
    filter_value-id (object (field key child fields)) path g h c =
        rw (filter_map-id (field key child fields) path h c)
    filter_value-id (list nil) path g h c = absurd c
    filter_value-id (list (item v items)) path g h c =
        rw (filter_items-id (item v items) path h c) (rw (is_kept-of_valid policy kind path g))
    filter_value-id null path g h c = absurd c
    filter_value-id (str s) path g h c = keep_scalar-of_valid policy kind path g (str s)
    filter_value-id (bool b) path g h c = keep_scalar-of_valid policy kind path g (bool b)
    filter_value-id (number n) path g h c = keep_scalar-of_valid policy kind path g (number n)

    filter_items-id :
        (vs : Items) (path : FieldPath)
        → validate_items policy kind path vs ≡ ok tt
        → AreCompactItems vs
        → filter_items policy kind path vs ≡ vs
    filter_items-id nil path h c = refl
    filter_items-id (item (object end) items) path h c = absurd c.0
    filter_items-id (item (object (field key child fields)) items) path h c =
        let (here, rest) = parts-ok _ _ h in
        rw (
          filter_map-id (field key child fields) path here c.0,
          filter_items-id items path rest c.1,
        )
    filter_items-id (item _ items) path h c = rw (filter_items-id items path h c.1)

    filter_map-id :
        (fs : Fields) (path : FieldPath)
        → validate_map policy kind path fs ≡ ok tt
        → AreCompactFields fs
        → filter_map policy kind path fs ≡ fs
    filter_map-id end path h c = refl
    filter_map-id (field key child fields) path h c =
        let (entry, rest) = parts-ok _ _ h in
        let (guards, inside) = parts-ok _ _ entry in
        rw (
          filter_value-id child (append_path path key) guards inside c.0,
          filter_map-id fields path rest c.1,
          not_skipped policy kind (append_path path key) guards,
          is_kept-of_valid policy kind (append_path path key) guards,
        )

overlay-parts :
    (policy : LocalPatchPolicy) (document : Fields)
    → validate_overlay policy document ≡ ok tt
    → (Policy.validate policy ≡ ok tt)
      × (no_fields document ≡ false)
      × (validate_map policy (kind_of document) [] document ≡ ok tt)
unfolding validate_overlay
overlay-parts policy document h = ground arith

-- Extracting from a document that is a valid overlay already, with nothing null and no empty map or
-- list in it, gives back the same document.
pub extract_overlay-id :
    (policy : LocalPatchPolicy) (document : Fields)
    → validate_overlay policy document ≡ ok tt
    → AreCompactFields document
    → extract_overlay policy document ≡ ok document
unfolding extract_overlay
extract_overlay-id policy document h c =
    let (valid, filled, checked) = overlay-parts policy document h in
    rw (filter_map-id policy (kind_of document) document [] checked c, valid, filled, h)
