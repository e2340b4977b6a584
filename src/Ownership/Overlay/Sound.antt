-- ===== src/Ownership/Overlay/Sound.antt =====
-- What is extracted was in the document, and is permitted.
use mathlib.Core.Option.{some-injective}
use sealos_lifecycle.Base.{
  ◌≡◌, refl, ◌⊎◌, inl, inr, String, if◌then◌else◌, Bool, true, false, Option, none, some, [], ok,
  arith, subst, sym,
}
use sealos_lifecycle.Ownership.Policy.{LocalPatchPolicy}
use sealos_lifecycle.Ownership.Paths.{FieldPath, append_path}
use sealos_lifecycle.Ownership.Value.{
  Value, null, str, bool, number, list, object, Items, nil, item, Fields, end, field,
}
use sealos_lifecycle.Ownership.Overlay.{
  kind_of, filter_value, filter_items, filter_map, extract_overlay, validate_overlay, keep_object,
  is_kept, keep_scalar, keep_list, put_field, put_item,
}
use sealos_lifecycle.Ownership.Overlay.Touches.{
  ValueTouches, ItemsTouch, MapTouches, HasFlatLists, IsPermitted, validate_overlay-IsPermitted,
}

module _ (policy : LocalPatchPolicy) (kind : String) (p : FieldPath) where
  object_touches :
      (fs : Fields) (path : FieldPath) (v : Value)
      → keep_object policy kind fs ≡ some v
      → ValueTouches p path v
      → MapTouches p path fs
  unfolding keep_object
  object_touches end path v e t = cc
  object_touches (field key child fields) path v e t =
      subst (ValueTouches p path) (sym (some-injective _ _ e)) t

  list_touches :
      (vs : Items) (path : FieldPath) (v : Value)
      → keep_list policy kind vs ≡ some v
      → ValueTouches p path v
      → ItemsTouch p path vs
  unfolding keep_list
  list_touches nil path v e t = cc
  list_touches (item x items) path v e t =
      subst (ValueTouches p path) (sym (some-injective _ _ e)) t

  put_field_touches :
      (key : String) (kept : Option Value) (fields : Fields) (path : FieldPath)
      → MapTouches p path (put_field policy kind key kept fields)
      → (p ≡ append_path path key)
        ⊎ ((v : Value) × (kept ≡ some v) × ValueTouches p (append_path path key) v)
        ⊎ MapTouches p path fields
  unfolding put_field
  put_field_touches key none fields path t = inr (inr t)
  put_field_touches key (some v) fields path (inl e) = inl e
  put_field_touches key (some v) fields path (inr (inl t)) = inr (inl (v, refl, t))
  put_field_touches key (some v) fields path (inr (inr t)) = inr (inr t)

  scalar_touches :
      (kept : Bool) (x v : Value) (path : FieldPath)
      → (ValueTouches p path x → ⊥)
      → (if kept then some x else none) ≡ some v
      → ValueTouches p path v
      → ⊥
  scalar_touches true x v path still e t =
      still (subst (ValueTouches p path) (sym (some-injective _ _ e)) t)
  scalar_touches false x v path still e t = cc

  item_object_touches :
      (fs : Fields) (items : Items) (path : FieldPath)
      → ItemsTouch p path (put_item policy kind (keep_object policy kind fs) items)
      → MapTouches p path fs ⊎ ItemsTouch p path items
  unfolding keep_object put_item
  item_object_touches end items path t = inr t
  item_object_touches (field key child fields) items path t = t

  branch_touches :
      (skip keep : Bool) (kept skipped : Fields) (path : FieldPath)
      → MapTouches p path (if skip then skipped else if keep then kept else skipped)
      → MapTouches p path kept ⊎ MapTouches p path skipped
  branch_touches true keep kept skipped path t = inr t
  branch_touches false true kept skipped path t = inl t
  branch_touches false false kept skipped path t = inr t

  mutual
    unfolding filter_value keep_scalar

    value_touched :
        (v : Value) (path : FieldPath) (w : Value)
        → filter_value policy kind path v ≡ some w
        → ValueTouches p path w
        → ValueTouches p path v
    value_touched (object fields) path w e t =
        map_touched fields path (object_touches (filter_map policy kind path fields) path w e t)
    value_touched (list items) path w e t =
        items_touched items path
          (list_touches (filter_items policy kind path items) path w (ground arith) t)
    value_touched null path w e t = cc
    value_touched (str s) path w e t =
        scalar_touches (is_kept policy kind path) (str s) w path (λ x. x) e t
    value_touched (bool b) path w e t =
        scalar_touches (is_kept policy kind path) (bool b) w path (λ x. x) e t
    value_touched (number n) path w e t =
        scalar_touches (is_kept policy kind path) (number n) w path (λ x. x) e t

    items_touched :
        (vs : Items) (path : FieldPath)
        → ItemsTouch p path (filter_items policy kind path vs)
        → ItemsTouch p path vs
    items_touched nil path t = t
    items_touched (item (object fields) items) path t =
        elim (item_object_touches (filter_map policy kind path fields)
          (filter_items policy kind path items) path t) [
            | inl here ↦ inl (map_touched fields path here)
            | inr there ↦ inr (items_touched items path there)
          ]
    items_touched (item null items) path t = items_touched items path t
    items_touched (item (str s) items) path t = items_touched items path t
    items_touched (item (bool b) items) path t = items_touched items path t
    items_touched (item (number n) items) path t = items_touched items path t
    items_touched (item (list vs) items) path (inl t) = inl t
    items_touched (item (list vs) items) path (inr t) = inr (items_touched items path t)

    map_touched :
        (fs : Fields) (path : FieldPath)
        → MapTouches p path (filter_map policy kind path fs)
        → MapTouches p path fs
    map_touched end path t = t
    map_touched (field key child fields) path t =
        elim (branch_touches _ _ _ (filter_map policy kind path fields) path t) [
          | inl kept ↦
              elim (put_field_touches key (filter_value policy kind (append_path path key) child)
                (filter_map policy kind path fields) path kept) [
                  | inl here ↦ inl here
                  | inr (inl (w, e, inside)) ↦
                      inr (inl (value_touched child (append_path path key) w e inside))
                  | inr (inr rest) ↦ inr (inr (map_touched fields path rest))
                ]
          | inr rest ↦ inr (inr (map_touched fields path rest))
        ]

extract_overlay-inv :
    (policy : LocalPatchPolicy) (document overlay : Fields)
    → extract_overlay policy document ≡ ok overlay
    → (filter_map policy (kind_of document) [] document ≡ overlay)
      × (validate_overlay policy overlay ≡ ok tt)
unfolding extract_overlay
extract_overlay-inv policy document overlay h = ground arith

-- An extracted overlay in which no list is an item of a list invents nothing and is safe: every path
-- that it touches, at any depth, was touched by the document, and the policy does not forbid the
-- path, which is an identity path or is allowed for the kind of the overlay.
pub extract_overlay_sound :
    (policy : LocalPatchPolicy) (document overlay : Fields) (p : FieldPath)
    → extract_overlay policy document ≡ ok overlay
    → HasFlatLists overlay
    → MapTouches p [] overlay
    → MapTouches p [] document × IsPermitted policy (kind_of overlay) p
extract_overlay_sound policy document overlay p h f t =
    let (filtered, valid) = extract_overlay-inv policy document overlay h in
    (
      map_touched policy (kind_of document) p document []
          (subst (λ (fs : Fields). MapTouches p [] fs) (sym filtered) t),
      validate_overlay-IsPermitted policy overlay p valid f t,
    )
