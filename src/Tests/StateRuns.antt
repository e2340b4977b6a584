-- ===== src/Tests/StateRuns.antt =====
-- Runs of the store on the host in memory.
use sealos_lifecycle.Base.{
  ◌≡◌, refl, ◌==◌, if◌then◌else◌, string_eq, nat_eq, true, false, none, some, List, [], ◌∷◌, Result,
  ok, is_not_exist, join,
}
use sealos_lifecycle.Bom.Channel
use sealos_lifecycle.State.Types.{AppliedRevision}
use sealos_lifecycle.State.Validate.{
  validate_cluster_state, validate_digest, validate_bom_reference, validate_target_pair,
  validate_snapshot, validate_spec, validate_revisions, validate_condition, validate_conditions,
  validate_status, validate, validate_observed_summary,
}
use sealos_lifecycle.State.History.{prepend_history}
use sealos_lifecycle.State.Conditions.{upsert_condition}
use sealos_lifecycle.State.Document.{
  rendered, new_document, applied, degraded_document, observed_document, observed_state_condition,
}
use sealos_lifecycle.State.Store.{
  applied_revision_path, load, save, load_existing, existing_of, persist_rendered_state,
  persist_successful_apply, mark_successful_apply, mark_degraded, persist_observed_state,
}
use sealos_lifecycle.State.Store.Reports.{
  KeepsRecord, persist_rendered_state-load, mark_degraded-Tells, persist_observed_state-Tells,
  Tells,
}
use sealos_lifecycle.State.Lifecycle.{Command, render, apply, confirm, degrade, observe, run}
use sealos_lifecycle.State.Lifecycle.Coherence.{AllCoherent}
use sealos_lifecycle.State.Lifecycle.Runs.{run-AllCoherent}
use sealos_lifecycle.Tests.Memory.{Files, memory, memory-IsLawful, nothing, first, second}

-- The store with all that it calls unfolded.
open_run : List Command → Files → Result (Unit {0}) × Files
unfolding run persist_rendered_state persist_successful_apply mark_successful_apply mark_degraded
    persist_observed_state load save load_existing validate validate_spec validate_status
    validate_revisions validate_snapshot validate_digest validate_bom_reference validate_target_pair
    validate_cluster_state validate_conditions validate_condition validate_observed_summary
    Channel.validate rendered applied degraded_document observed_document observed_state_condition
    new_document prepend_history upsert_condition string_eq nat_eq is_not_exist join existing_of
    applied_revision_path
open_run = run memory

-- The same names, for the other tests.
abbrev doc : AppliedRevision
doc = applied 2 3 (new_document "c" first) none

stored : Files
unfolding applied new_document prepend_history open_run
stored path = if path == "sealos/c/distribution/applied-revision.yaml" then some doc else none

abbrev commands : List Command
commands =
    render 1 "c" first
    ∷ apply 2 3 "c" first
    ∷ degrade 4 "c" "ApplyFailed" "timeout"
    ∷ apply 5 6 "c" second
    ∷ observe 7 8 "c" "d2" "Dirty" none ""
    ∷ confirm 9 10 "c"
    ∷ []

run_succeeds : (run memory commands nothing).0 ≡ ok tt
unfolding open_run
run_succeeds = refl

run-AllCoherent_example : AllCoherent memory memory-IsLawful (run memory commands nothing).1
run-AllCoherent_example =
    run-AllCoherent memory memory-IsLawful commands nothing run_succeeds (λ path doc e. cc)

render_succeeds :
    (persist_rendered_state memory 9 "c" second stored).0 ≡ ok (rendered 9 "c" second (some doc))
unfolding open_run stored
render_succeeds = refl

persist_rendered_state-load_example :
    (load memory "c" (persist_rendered_state memory 9 "c" second stored).1 ≡ (
      ok (rendered 9 "c" second (some doc)),
      (persist_rendered_state memory 9 "c" second stored).1,
    ))
    × KeepsRecord memory memory-IsLawful "c" stored (rendered 9 "c" second (some doc))
persist_rendered_state-load_example =
    persist_rendered_state-load memory memory-IsLawful "c" stored 9 second
      (rendered 9 "c" second (some doc)) render_succeeds

degrade_succeeds :
    (mark_degraded memory 5 "c" "ApplyFailed" "timeout" stored).0
    ≡ ok (some (degraded_document 5 "ApplyFailed" "timeout" doc), true)
unfolding open_run stored
degrade_succeeds = refl

mark_degraded-Tells_example :
    Tells memory memory-IsLawful "c" stored
      (some (degraded_document 5 "ApplyFailed" "timeout" doc), true)
      (mark_degraded memory 5 "c" "ApplyFailed" "timeout" stored).1
mark_degraded-Tells_example =
    mark_degraded-Tells memory memory-IsLawful "c" stored 5 "ApplyFailed" "timeout"
      (some (degraded_document 5 "ApplyFailed" "timeout" doc), true) degrade_succeeds

stale : (persist_observed_state memory 7 8 "c" "d9" "Dirty" none "" stored).0 ≡ ok (some doc, false)
unfolding open_run stored
stale = refl

persist_observed_state-Tells_example :
    Tells memory memory-IsLawful "c" stored
      (some doc, false)
      (persist_observed_state memory 7 8 "c" "d9" "Dirty" none "" stored).1
persist_observed_state-Tells_example =
    persist_observed_state-Tells memory memory-IsLawful "c" stored 7 8 "d9" "Dirty" none ""
      (some doc, false) stale
