-- ===== src/Ownership/Paths.antt =====
-- Which paths of a document a policy forbids and allows: the queries of
-- pkg/distribution/ownership/policy.go and the path helpers of localpatch.go.
use sealos_lifecycle.Base.{
  String, ◌<>◌, ◌==◌, contains, string_eq, Bool, false, ◌&&◌, ◌||◌, Option, none, some, List, [],
  ◌∷◌, ◌++◌, has_prefix, join,
}
use sealos_lifecycle.Ownership.Policy.{LocalPatchPolicy, LocalPatchKindRule, rule_for_kind}

-- From the root down.
abbrev pub FieldPath : Type 0
FieldPath = List String

unfoldable pub path_string : FieldPath → String
unfolding join
path_string path = join path "."

unfoldable pub append_path : FieldPath → String → FieldPath
append_path path segment = path ++ (segment ∷ [])

unfoldable pub is_identity_path : FieldPath → Bool
is_identity_path path =
    contains (path_string path)
      ("apiVersion" ∷ "kind" ∷ "metadata" ∷ "metadata.name" ∷ "metadata.namespace" ∷ [])

unfoldable pub is_identity_string_path : FieldPath → Bool
is_identity_string_path path =
    contains (path_string path)
      ("apiVersion" ∷ "kind" ∷ "metadata.name" ∷ "metadata.namespace" ∷ [])

unfoldable pub is_metadata_string_map_value : FieldPath → Bool
is_metadata_string_map_value (a ∷ b ∷ c ∷ rest) =
    a == "metadata" && (b == "labels" || b == "annotations")
is_metadata_string_map_value _ = false

unfoldable pub contains_container_path : FieldPath → Bool
contains_container_path [] = false
contains_container_path (segment ∷ path) =
    contains segment ("containers" ∷ "initContainers" ∷ "ephemeralContainers" ∷ [])
    || contains_container_path path

unfoldable pub last_is_in : List String → FieldPath → Bool
last_is_in fields [] = false
last_is_in fields (s ∷ []) = contains s fields
last_is_in fields (s ∷ t ∷ path) = last_is_in fields (t ∷ path)

unfoldable pub is_metadata_key_in : List String → FieldPath → Bool
is_metadata_key_in keys (a ∷ b ∷ rest) = a == "metadata" && contains b keys
is_metadata_key_in keys _ = false

unfoldable pub is_forbidden : LocalPatchPolicy → FieldPath → Bool
unfolding last_is_in is_metadata_key_in
is_forbidden p path =
    contains (path_string path) p.forbidden_exact_paths
    || is_metadata_key_in p.forbidden_metadata_keys path
    || (contains_container_path path && last_is_in p.forbidden_container_fields path)

-- The body of the loop over the prefixes.
unfoldable pub matches_prefix : String → String → Bool
matches_prefix current prefix =
    current == prefix || has_prefix current (prefix <> ".") || has_prefix prefix (current <> ".")

unfoldable pub matches_any : String → List String → Bool
matches_any current [] = false
matches_any current (prefix ∷ prefixes) =
    matches_prefix current prefix || matches_any current prefixes

abbrev allowed_by : Option LocalPatchKindRule → FieldPath → Bool
allowed_by none path = false
allowed_by (some rule) path = matches_any (path_string path) rule.allowed_prefixes

unfoldable pub is_allowed : LocalPatchPolicy → String → FieldPath → Bool
is_allowed p kind path = allowed_by (rule_for_kind p.kind_rules kind) path
