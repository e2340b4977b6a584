-- ===== src/Ownership/Overlay/Touches.antt =====
-- An overlay that passes the checks touches only what the policy permits.
use sealos_lifecycle.Base.{
  ◌≡◌, refl, ◌⊎◌, inl, inr, String, true, false, [], Result, ok, err, ◌>>◌, arith,
}
use sealos_lifecycle.Ownership.Policy.{LocalPatchPolicy}
use sealos_lifecycle.Ownership.Paths.{
  FieldPath, append_path, is_identity_path, is_forbidden, is_allowed,
}
use sealos_lifecycle.Ownership.Value.{
  Value, null, str, bool, number, list, object, Items, nil, item, Fields, end, field,
}
use sealos_lifecycle.Ownership.Overlay.{
  validate_path, validate_value, validate_items, validate_map, validate_overlay, kind_of,
}

-- The paths that an overlay sets something at, down through maps, and through the items of a list
-- without an index.
abbrev mutual
  pub ValueTouches : FieldPath → FieldPath → Value → Type 0
  ValueTouches p path (object fields) = MapTouches p path fields
  ValueTouches p path (list items) = ItemsTouch p path items
  ValueTouches p path null = ⊥
  ValueTouches p path (str s) = ⊥
  ValueTouches p path (bool b) = ⊥
  ValueTouches p path (number n) = ⊥

  pub ItemsTouch : FieldPath → FieldPath → Items → Type 0
  ItemsTouch p path nil = ⊥
  ItemsTouch p path (item (object fields) items) =
      MapTouches p path fields ⊎ ItemsTouch p path items
  ItemsTouch p path (item (list inner) items) = ItemsTouch p path inner ⊎ ItemsTouch p path items
  ItemsTouch p path (item _ items) = ItemsTouch p path items

  pub MapTouches : FieldPath → FieldPath → Fields → Type 0
  MapTouches p path end = ⊥
  MapTouches p path (field key child fields) =
      (p ≡ append_path path key)
      ⊎ ValueTouches p (append_path path key) child
      ⊎ MapTouches p path fields

-- No item of a list is itself a list.
abbrev mutual
  pub IsFlat : Value → Type 0
  IsFlat (object fields) = HasFlatLists fields
  IsFlat (list items) = IsFlatList items
  IsFlat _ = Unit

  pub IsFlatList : Items → Type 0
  IsFlatList nil = Unit
  IsFlatList (item (object fields) items) = HasFlatLists fields × IsFlatList items
  IsFlatList (item (list inner) items) = ⊥
  IsFlatList (item _ items) = IsFlatList items

  pub HasFlatLists : Fields → Type 0
  HasFlatLists end = Unit
  HasFlatLists (field key child fields) = IsFlat child × HasFlatLists fields

module _ (policy : LocalPatchPolicy) (kind : String) where
  abbrev pub IsPermitted : FieldPath → Type 0
  IsPermitted p =
      (is_forbidden policy p ≡ false)
      × ((is_identity_path p ≡ true) ⊎ (is_allowed policy kind p ≡ true))

  validate_path-IsPermitted : (p : FieldPath) → validate_path policy kind p ≡ ok tt → IsPermitted p
  unfolding validate_path
  validate_path-IsPermitted p h = ground arith

  then-ok : (m k : Result (Unit {0})) → (m >> k) ≡ ok tt → (m ≡ ok tt) × (k ≡ ok tt)
  then-ok (ok x) k h = (refl, h)
  then-ok (err e) k h = cc

  mutual
    unfolding validate_value

    ValueTouches-IsPermitted :
        (v : Value) (p path : FieldPath)
        → validate_value policy kind path v ≡ ok tt
        → IsFlat v
        → ValueTouches p path v
        → IsPermitted p
    ValueTouches-IsPermitted (object fields) p path h f t =
        MapTouches-IsPermitted fields p path h f t
    ValueTouches-IsPermitted (list items) p path h f t = ItemsTouch-IsPermitted items p path h f t
    ValueTouches-IsPermitted null p path h f t = absurd t
    ValueTouches-IsPermitted (str s) p path h f t = absurd t
    ValueTouches-IsPermitted (bool b) p path h f t = absurd t
    ValueTouches-IsPermitted (number n) p path h f t = absurd t

    ItemsTouch-IsPermitted :
        (vs : Items) (p path : FieldPath)
        → validate_items policy kind path vs ≡ ok tt
        → IsFlatList vs
        → ItemsTouch p path vs
        → IsPermitted p
    ItemsTouch-IsPermitted nil p path h f t = absurd t
    ItemsTouch-IsPermitted (item (object fields) items) p path h f (inl t) =
        MapTouches-IsPermitted fields p path (then-ok _ _ h).0 f.0 t
    ItemsTouch-IsPermitted (item (object fields) items) p path h f (inr t) =
        ItemsTouch-IsPermitted items p path (then-ok _ _ h).1 f.1 t
    ItemsTouch-IsPermitted (item (list inner) items) p path h f t = absurd f
    ItemsTouch-IsPermitted (item _ items) p path h f t = ItemsTouch-IsPermitted items p path h f t

    MapTouches-IsPermitted :
        (fs : Fields) (p path : FieldPath)
        → validate_map policy kind path fs ≡ ok tt
        → HasFlatLists fs
        → MapTouches p path fs
        → IsPermitted p
    MapTouches-IsPermitted end p path h f t = absurd t
    MapTouches-IsPermitted (field key child fields) p path h f (inl e) =
        rw e (validate_path-IsPermitted (append_path path key) (then-ok _ _ (then-ok _ _ h).0).0)
    MapTouches-IsPermitted (field key child fields) p path h f (inr (inl t)) =
        ValueTouches-IsPermitted child p (append_path path key) (then-ok _ _ (then-ok _ _ h).0).1
          f.0 t
    MapTouches-IsPermitted (field key child fields) p path h f (inr (inr t)) =
        MapTouches-IsPermitted fields p path (then-ok _ _ h).1 f.1 t

-- In a document in which no list is an item of a list, no path that a validated overlay touches, at
-- any depth, is forbidden by the policy, and each is an identity path or is allowed for the kind of
-- the document.
pub validate_overlay-IsPermitted :
    (policy : LocalPatchPolicy) (document : Fields) (p : FieldPath)
    → validate_overlay policy document ≡ ok tt
    → HasFlatLists document
    → MapTouches p [] document
    → IsPermitted policy (kind_of document) p
unfolding validate_overlay
validate_overlay-IsPermitted policy document p h f t =
    MapTouches-IsPermitted policy (kind_of document) document p [] (ground arith) f t
