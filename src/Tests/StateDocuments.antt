-- ===== src/Tests/StateDocuments.antt =====
-- The history, the conditions and the checks at concrete documents.
use sealos_lifecycle.Base.{
  ◌≡◌, refl, String, ◌==◌, string_eq, if◌then◌else◌, none, some, List, [], ◌∷◌, ok,
}
use sealos_lifecycle.Bom.Channel
use sealos_lifecycle.State.Types.{RevisionSnapshot, Condition, dirty}
use sealos_lifecycle.State.Validate.{
  validate_cluster_state, validate_digest, validate_bom_reference, validate_target_pair,
  validate_snapshot, validate_spec, validate_revisions, validate_condition, validate_conditions,
  validate_status, validate,
}
use sealos_lifecycle.State.History.{prepend_history}
use sealos_lifecycle.State.History.Laws.{IsHistory, prepend_history-IsHistory}
use sealos_lifecycle.State.Conditions.{
  upsert_condition, find_condition, find_condition-upsert_condition,
}
use sealos_lifecycle.State.Document.{rendered, observed_document}
use sealos_lifecycle.State.Document.Validity.{validate-observed_document}
use sealos_lifecycle.Tests.Memory.{first}
use sealos_lifecycle.State.Types.{AppliedRevision}

abbrev snapshot : RevisionSnapshot
snapshot = record {
  bom = first.ref;
  requested_target = none;
  resolved_target = none;
  local_repo_revision = "";
  local_patch_revision = "";
  desired_state_digest = "d1";
}

abbrev doc : AppliedRevision
doc = rendered 1 "c" first none

prepend_history-IsHistory_example : IsHistory (prepend_history snapshot (some doc))
prepend_history-IsHistory_example = prepend_history-IsHistory snapshot (some doc)

abbrev condition : String → String → Condition
condition condition_type reason = record {
  condition_type = condition_type;
  status = "True";
  last_transition_time = 1;
  reason = reason;
  message = "";
}

abbrev conditions : List Condition
conditions = condition "Applied" "old" ∷ condition "Observed" "same" ∷ []

find_condition-upsert_condition_example :
    find_condition "Observed" (upsert_condition conditions (condition "Applied" "new")) ≡ (
      if ◌==◌ {A = String} "Applied" "Observed"
      then some (condition "Applied" "new")
      else find_condition "Observed" conditions)
find_condition-upsert_condition_example =
    find_condition-upsert_condition "Observed" conditions (condition "Applied" "new")

doc_is_valid : validate (λ s. none) doc ≡ ok tt
unfolding validate validate_spec validate_status validate_revisions validate_snapshot
    validate_digest validate_bom_reference validate_target_pair validate_cluster_state
    validate_conditions validate_condition Channel.validate rendered string_eq
doc_is_valid = refl

dirty_is_valid : validate_cluster_state dirty ≡ ok tt
unfolding validate_cluster_state string_eq
dirty_is_valid = refl

validate-observed_document_example :
    validate (λ s. none) (observed_document 3 4 dirty none "" doc) ≡ ok tt
validate-observed_document_example =
    validate-observed_document (λ s. none) 3 4 dirty none "" doc doc_is_valid dirty_is_valid refl
