-- ===== src/Ownership/Overlay/Monotone.antt =====
-- Overlays under two policies, and what an impact without widening or narrowing changes promises.
use sealos_lifecycle.Base.{◌≡◌, refl, String, true, false, [], Result, ok, err, ◌>>◌, arith}
use sealos_lifecycle.Ownership.Policy
use sealos_lifecycle.Ownership.Policy.{LocalPatchPolicy}
use sealos_lifecycle.Ownership.Paths.{FieldPath, append_path, is_forbidden, is_allowed}
use sealos_lifecycle.Ownership.Value.{
  Value, null, str, bool, number, list, object, Items, nil, item, Fields, end, field,
}
use sealos_lifecycle.Ownership.Overlay.{
  validate_path, validate_value, validate_items, validate_map, validate_overlay, kind_of,
}
use sealos_lifecycle.Ownership.Impact.{
  diff_local_patch_policy, has_widening_changes, has_narrowing_changes,
}
use sealos_lifecycle.Ownership.Impact.Members.{NulFree}
use sealos_lifecycle.Ownership.Impact.Widening.{
  UniqueKinds, NulFreeKinds, is_forbidden_of_kept, is_allowed_of_kept,
}

pub both-ok : (m k : Result (Unit {0})) → m ≡ ok tt → k ≡ ok tt → (m >> k) ≡ ok tt
both-ok (ok x) k h e = e
both-ok (err x) k h e = cc

pub parts-ok : (m k : Result (Unit {0})) → (m >> k) ≡ ok tt → (m ≡ ok tt) × (k ≡ ok tt)
parts-ok (ok x) k h = (refl, h)
parts-ok (err e) k h = cc

-- Where `b` permits every path that `a` permits, `b` accepts what `a` accepts.
module _ (a b : LocalPatchPolicy) (kind : String)
    (forbidden : (p : FieldPath) → is_forbidden b p ≡ true → is_forbidden a p ≡ true)
    (allowed : (p : FieldPath) → is_allowed a kind p ≡ true → is_allowed b kind p ≡ true) where
  path_mono : (p : FieldPath) → validate_path a kind p ≡ ok tt → validate_path b kind p ≡ ok tt
  unfolding validate_path
  path_mono p h = ground (arith, forbidden p, allowed p)

  mutual
    unfolding validate_value

    value_mono :
        (v : Value) (path : FieldPath)
        → validate_value a kind path v ≡ ok tt
        → validate_value b kind path v ≡ ok tt
    value_mono (object fields) path h = map_mono fields path h
    value_mono (list items) path h = items_mono items path h
    value_mono null path h = h
    value_mono (str s) path h = h
    value_mono (bool x) path h = h
    value_mono (number n) path h = h

    items_mono :
        (vs : Items) (path : FieldPath)
        → validate_items a kind path vs ≡ ok tt
        → validate_items b kind path vs ≡ ok tt
    items_mono nil path h = refl
    items_mono (item (object fields) items) path h =
        let (here, rest) = parts-ok _ _ h in
        both-ok _ _ (map_mono fields path here) (items_mono items path rest)
    items_mono (item _ items) path h = items_mono items path h

    map_mono :
        (fs : Fields) (path : FieldPath)
        → validate_map a kind path fs ≡ ok tt
        → validate_map b kind path fs ≡ ok tt
    map_mono end path h = refl
    map_mono (field key child fields) path h =
        let (entry, rest) = parts-ok _ _ h in
        let (guards, inside) = parts-ok _ _ entry in
        both-ok _ _
          (both-ok _ _ (path_mono (append_path path key) guards)
            (value_mono child (append_path path key) inside))
          (map_mono fields path rest)

  document_mono :
      (document : Fields)
      → Policy.validate b ≡ ok tt
      → kind_of document ≡ kind
      → validate_overlay a document ≡ ok tt
      → validate_overlay b document ≡ ok tt
  unfolding validate_overlay
  document_mono document valid same h = ground (arith, map_mono document [])

-- A policy as a report needs it: it passes its checks, no kind has two rules, and no kind holds a
-- NUL, which separates the parts of the keys that are compared.
pub record IsClearPolicy (p : LocalPatchPolicy) : Type 0 where
  pub valid : Policy.validate p ≡ ok tt
  pub unique : UniqueKinds p.kind_rules
  pub nul_free : NulFreeKinds p.kind_rules

-- If the impact of a new policy has no widening changes, then every overlay that the new policy
-- accepts was accepted by the old one. The old policy passes its checks and has one rule for a kind,
-- and its kinds and the document's hold no NUL.
pub no_widening-validate_overlay :
    (old new : LocalPatchPolicy) (document : Fields)
    → IsClearPolicy old
    → NulFree (kind_of document)
    → has_widening_changes (diff_local_patch_policy old new) ≡ false
    → validate_overlay new document ≡ ok tt
    → validate_overlay old document ≡ ok tt
no_widening-validate_overlay old new document clear nul kept h =
    document_mono new old (kind_of document) (is_forbidden_of_kept old new kept)
      (λ p. is_allowed_of_kept old new kept (kind_of document) p nul clear.nul_free clear.unique)
      document clear.valid refl h

narrowing-eq-widening :
    (old new : LocalPatchPolicy)
    → has_narrowing_changes (diff_local_patch_policy old new)
      ≡ has_widening_changes (diff_local_patch_policy new old)
unfolding has_narrowing_changes has_widening_changes diff_local_patch_policy
narrowing-eq-widening old new = refl

-- If the impact of a new policy has no narrowing changes, then every overlay that the old policy
-- accepts is accepted by the new one, so that no local patch becomes incompatible. The new policy
-- passes its checks and has one rule for a kind, and its kinds and the document's hold no NUL.
pub no_narrowing-validate_overlay :
    (old new : LocalPatchPolicy) (document : Fields)
    → IsClearPolicy new
    → NulFree (kind_of document)
    → has_narrowing_changes (diff_local_patch_policy old new) ≡ false
    → validate_overlay old document ≡ ok tt
    → validate_overlay new document ≡ ok tt
no_narrowing-validate_overlay old new document clear nul kept h =
    no_widening-validate_overlay new old document clear nul
      (rw (← narrowing-eq-widening old new) kept) h
