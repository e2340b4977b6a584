-- ===== src/Hydrate/PolicySelection/Laws.antt =====
-- Which policy is selected, and that the list of the candidates tells it.
use sealos_lifecycle.Base.{◌≡◌, String, string_eq, Option, Result}
use sealos_lifecycle.Ownership.Document.{LocalPatchPolicyDocument}
use sealos_lifecycle.Hydrate.Plan.{ComponentPlan, Plan}
use sealos_lifecycle.Hydrate.PolicySelection.{Selection}
use sealos_lifecycle.Hydrate.PolicySelection.Candidates.{selected_count, first_source}

module _ (clean : String → String) where
  module _ {Bytes : Type 0} (join_path : String → String → String) (read : String → Result Bytes)
      (decode : Bytes → Result LocalPatchPolicyDocument) where
    module _ (plan : Plan) (bom_root : String)
        (sources : Option (ComponentPlan → Result String)) where
      -- What is known of the candidates when one is chosen.
      Outcome : Option (LocalPatchPolicyDocument × String) → Selection → Type 0
      Outcome repo s = (s.source ≡ first_source plan repo) × (selected_count s.candidates ≡ 1)
