-- ===== src/Ownership/Overlay.antt =====
-- pkg/distribution/ownership/localpatch.go: checking an overlay against a policy, and extracting the
-- part of a document that the policy allows.
pub mod Touches
pub mod Monotone
pub mod Extract
pub mod Sound
use sealos_lifecycle.Base.{
  String, ◌==◌, string_eq, if◌then◌else◌, Bool, true, false, ◌&&◌, ◌||◌, not, Option, none, some,
  [], ◌∷◌, text, errorf, Result, ok, err, ◌>>◌, ◌>>=◌, fail_if, wrap, is_blank,
}
use sealos_lifecycle.Ownership.Policy
use sealos_lifecycle.Ownership.Policy.{LocalPatchPolicy, default_local_patch_policy}
use sealos_lifecycle.Ownership.Paths.{
  FieldPath, path_string, append_path, is_identity_path, is_identity_string_path,
  is_metadata_string_map_value, is_forbidden, is_allowed,
}
use sealos_lifecycle.Ownership.Value.{
  Value, null, str, bool, number, list, object, Items, nil, item, Fields, end, field,
}

-- `text, ok := value.(string); ok && strings.TrimSpace(text) != ""`
is_filled_string : Value → Bool
is_filled_string (str s) = not (is_blank s)
is_filled_string _ = false

is_string : Value → Bool
is_string (str s) = true
is_string _ = false

-- The default case of the switch in `validateLocalPatchEntry`.
unfoldable pub validate_scalar : FieldPath → Value → Result (Unit {0})
unfolding is_filled_string is_string
validate_scalar path value =
    if is_identity_string_path path
    then fail_if (not (is_filled_string value))
        (errorf "%q must be a non-empty string" (text (path_string path) ∷ []))
    else fail_if (is_metadata_string_map_value path && not (is_string value))
        (errorf "%q must be a string map value" (text (path_string path) ∷ []))

module _ (policy : LocalPatchPolicy) (kind : String) where
  -- The two guards at the head of `validateLocalPatchEntry`.
  unfoldable pub validate_path : FieldPath → Result (Unit {0})
  validate_path path = do
    fail_if (is_forbidden policy path)
        (errorf "local patch cannot modify %q" (text (path_string path) ∷ []))
    fail_if (not (is_identity_path path) && not (is_allowed policy kind path)) (
        errorf "local patch path %q is not allowed for kind %q"
          (text (path_string path) ∷ text kind ∷ []))

  -- `validate_map` is `validateLocalPatchMap`, `validate_value` the switch of
  -- `validateLocalPatchEntry` and `validate_items` its loop over a list.
  unfoldable mutual
    pub validate_value : FieldPath → Value → Result (Unit {0})
    validate_value path (object fields) = validate_map path fields
    validate_value path (list items) = validate_items path items
    validate_value path null = validate_scalar path null
    validate_value path (str s) = validate_scalar path (str s)
    validate_value path (bool b) = validate_scalar path (bool b)
    validate_value path (number n) = validate_scalar path (number n)

    pub validate_items : FieldPath → Items → Result (Unit {0})
    validate_items path nil = ok tt
    validate_items path (item (object fields) items) =
        validate_map path fields >> validate_items path items
    validate_items path (item _ items) = validate_items path items

    pub validate_map : FieldPath → Fields → Result (Unit {0})
    validate_map path end = ok tt
    validate_map path (field key child fields) =
        (validate_path (append_path path key) >> validate_value (append_path path key) child)
        >> validate_map path fields

  unfoldable pub is_kept : FieldPath → Bool
  is_kept path = is_identity_path path || is_allowed policy kind path

  unfoldable pub keep_scalar : FieldPath → Value → Option Value
  keep_scalar path value = if is_kept path then some value else none

  unfoldable pub keep_object : Fields → Option Value
  keep_object end = none
  keep_object (field key child fields) = some (object (field key child fields))

  unfoldable pub keep_list : Items → Option Value
  keep_list nil = none
  keep_list (item v items) = some (list (item v items))

  unfoldable pub put_field : String → Option Value → Fields → Fields
  put_field key none fields = fields
  put_field key (some child) fields = field key child fields

  unfoldable pub put_item : Option Value → Items → Items
  put_item none items = items
  put_item (some v) items = item v items

  -- `filterAllowedLocalPatchValue`; `none` is nil, which is also what a kept null is.
  unfoldable mutual
    unfolding is_kept keep_scalar keep_object keep_list put_field put_item

    pub filter_value : FieldPath → Value → Option Value
    filter_value path (object fields) = keep_object (filter_map path fields)
    filter_value path (list items) =
        let kept = keep_list (filter_items path items) in if is_kept path then kept else none
    filter_value path null = none
    filter_value path (str s) = keep_scalar path (str s)
    filter_value path (bool b) = keep_scalar path (bool b)
    filter_value path (number n) = keep_scalar path (number n)

    pub filter_items : FieldPath → Items → Items
    filter_items path nil = nil
    filter_items path (item (object fields) items) =
        put_item (keep_object (filter_map path fields)) (filter_items path items)
    filter_items path (item v items) = item v (filter_items path items)

    pub filter_map : FieldPath → Fields → Fields
    filter_map path end = end
    filter_map path (field key child fields) =
        let next = append_path path key in
        let kept = put_field key (filter_value next child) (filter_map path fields) in
        let skipped = filter_map path fields in
        if not (is_identity_path next) && is_forbidden policy next
        then skipped
        else if is_kept next
        then kept
        else skipped

-- `kind, _ := document["kind"].(string)`
unfoldable pub kind_of : Fields → String
kind_of end = ""
kind_of (field key (str s) fields) = if key == "kind" then s else kind_of fields
kind_of (field key _ fields) = if key == "kind" then "" else kind_of fields

changes_metadata : Fields → Bool
changes_metadata end = false
changes_metadata (field key child fields) =
    not (key == "name") && not (key == "namespace") || changes_metadata fields

metadata_changes : Value → Bool
unfolding changes_metadata
metadata_changes (object fields) = changes_metadata fields
metadata_changes _ = true

unfoldable pub has_non_identity_mutation : Fields → Bool
unfolding metadata_changes
has_non_identity_mutation end = false
has_non_identity_mutation (field key value fields) =
    (if key == "apiVersion" || key == "kind"
      then false
      else if key == "metadata"
      then metadata_changes value
      else true)
    || has_non_identity_mutation fields

abbrev no_fields : Fields → Bool
no_fields end = true
no_fields (field key child fields) = false

unfoldable pub validate_overlay : LocalPatchPolicy → Fields → Result (Unit {0})
validate_overlay policy document = do
  wrap "local patch policy: %w" [] (Policy.validate policy)
  fail_if (no_fields document) (errorf "local patch document cannot be empty" [])
  validate_map policy (kind_of document) [] document
  fail_if (not (has_non_identity_mutation document))
      (errorf "local patch document must modify at least one non-identity field" [])

validate_extracted : LocalPatchPolicy → Fields → Result Fields
validate_extracted policy filtered = do
  fail_if (no_fields filtered)
      (errorf "local patch source document did not yield an allowed overlay" [])
  validate_overlay policy filtered
  ok filtered

unfoldable pub extract_overlay : LocalPatchPolicy → Fields → Result Fields
unfolding validate_extracted
extract_overlay policy document = do
  wrap "local patch policy: %w" [] (Policy.validate policy)
  fail_if (no_fields document) (errorf "local patch source document cannot be empty" [])
  validate_extracted policy (filter_map policy (kind_of document) [] document)

unfoldable pub validate_default_overlay : Fields → Result (Unit {0})
validate_default_overlay = validate_overlay default_local_patch_policy
