-- ===== src/Policyreport/Build.antt =====
-- `Build` of pkg/distribution/policyreport/report.go. `marshal` is `yaml.Marshal` of sigs.k8s.io/yaml and
-- `digest` is `digest.Canonical.FromBytes(…).String()` of github.com/opencontainers/go-digest; `read` and
-- `decode` are those of the local patches. The documents are not nil.
pub mod Laws
use sealos_lifecycle.Base.{String, Option, [], Result, ok, err, ◌>>=◌, ◌>>◌, wrap}
use sealos_lifecycle.Ownership.Policy.{effective_scope}
use sealos_lifecycle.Ownership.Value.{Fields}
use sealos_lifecycle.Ownership.Document.{LocalPatchPolicyDocument, validate, effective_name}
use sealos_lifecycle.Ownership.Impact.{
  diff_local_patch_policy, has_widening_changes, has_narrowing_changes,
}
use sealos_lifecycle.Localrepo.Compatibility.{Repo, evaluate_patch_compatibility}
use sealos_lifecycle.Policyreport.Types.{Report}

module _ {Bytes : Type 0} (read : String → Result Bytes) (decode : Bytes → Result Fields)
    (marshal : LocalPatchPolicyDocument → Result Bytes) (digest : Bytes → String) where
  unfoldable pub local_patch_policy_digest : LocalPatchPolicyDocument → Result String
  local_patch_policy_digest doc = do bytes ← marshal doc; ok (digest bytes)

  unfoldable pub build :
      LocalPatchPolicyDocument → LocalPatchPolicyDocument → Option Repo → Result Report
  build old new repo =
      let impact = diff_local_patch_policy old.spec new.spec in
      do
        wrap "validate old local patch policy: %w" [] (validate old)
        wrap "validate new local patch policy: %w" [] (validate new)
        compatibility ←
            wrap "evaluate local patch compatibility: %w" []
              (evaluate_patch_compatibility read decode new.spec repo)
        old_digest ← wrap "digest old local patch policy: %w" [] (local_patch_policy_digest old)
        new_digest ← wrap "digest new local patch policy: %w" [] (local_patch_policy_digest new)
        ok (record {
          old = record {
            name = effective_name old;
            scope = effective_scope old.spec;
            digest = old_digest;
          };
          new = record {
            name = effective_name new;
            scope = effective_scope new.spec;
            digest = new_digest;
          };
          has_widening_changes = has_widening_changes impact;
          has_narrowing_changes = has_narrowing_changes impact;
          impact = impact;
          compatibility = compatibility;
        })
