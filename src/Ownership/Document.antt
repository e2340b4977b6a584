-- ===== src/Ownership/Document.antt =====
-- pkg/distribution/ownership/document.go: the file that holds a policy. Values are immutable, so
-- `Clone` has no counterpart; reading and decoding the file is left to the caller.
use sealos_lifecycle.Base.{
  String, ◌==◌, contains, string_eq, if◌then◌else◌, [], ◌∷◌, not, text, errorf, Result, ok, err,
  ◌>>◌, fail_if, wrap, is_blank,
}
use sealos_lifecycle.Ownership.Policy
use sealos_lifecycle.Ownership.Policy.{LocalPatchPolicy, default_local_patch_policy}

abbrev pub local_patch_policy_api_version : String
local_patch_policy_api_version = "distribution.sealos.io/v1alpha1"

abbrev pub local_patch_policy_kind : String
local_patch_policy_kind = "LocalPatchPolicy"

abbrev pub default_local_patch_policy_name : String
default_local_patch_policy_name = "defaultLocalPatchPolicy"

abbrev pub LocalPatchPolicySource : Type 0
LocalPatchPolicySource = String

pub record LocalPatchPolicyDocument : Type 0 where
  pub api_version : String
  pub kind : String
  pub metadata_name : String
  pub spec : LocalPatchPolicy

unfoldable pub default_local_patch_policy_document : LocalPatchPolicyDocument
unfolding default_local_patch_policy
default_local_patch_policy_document = record {
  api_version = local_patch_policy_api_version;
  kind = local_patch_policy_kind;
  metadata_name = default_local_patch_policy_name;
  spec = default_local_patch_policy;
}

unfoldable pub effective_name : LocalPatchPolicyDocument → String
unfolding is_blank
effective_name d =
    if is_blank d.metadata_name then default_local_patch_policy_name else d.metadata_name

unfoldable pub validate : LocalPatchPolicyDocument → Result (Unit {0})
unfolding is_blank
validate d = do
  fail_if (is_blank d.api_version) (errorf "apiVersion cannot be empty" [])
  fail_if (not (d.api_version == local_patch_policy_api_version))
      (errorf "apiVersion must be %q" (text local_patch_policy_api_version ∷ []))
  fail_if (is_blank d.kind) (errorf "kind cannot be empty" [])
  fail_if (not (d.kind == local_patch_policy_kind))
      (errorf "kind must be %q" (text local_patch_policy_kind ∷ []))
  fail_if (is_blank d.metadata_name) (errorf "metadata.name cannot be empty" [])
  wrap "spec: %w" [] (Policy.validate d.spec)

unfoldable pub validate_source : LocalPatchPolicySource → Result (Unit {0})
validate_source s =
    if contains s ("builtInDefault" ∷ "localRepo" ∷ "bom" ∷ "package" ∷ [])
    then ok tt
    else if s == ""
    then err (errorf "local patch policy source cannot be empty" [])
    else err (errorf "unsupported local patch policy source %q" (text s ∷ []))
