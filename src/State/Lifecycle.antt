-- ===== src/State/Lifecycle.antt =====
-- Sequences of the store's operations, and what every document on the disk satisfies after them.
pub mod Coherence
pub mod Runs
use sealos_lifecycle.Base.{String, Option, List, [], ◌∷◌, Result, ok}
use sealos_lifecycle.State.Types.{Time, ClusterState, ObservedSummary, AppliedRevision}
use sealos_lifecycle.State.Host.{Host}
use sealos_lifecycle.State.Document.{Revision}
use sealos_lifecycle.State.Store.{
  M, ◌>>=◌, ◌>>◌, return, persist_rendered_state, persist_successful_apply, mark_successful_apply,
  mark_degraded, persist_observed_state,
}

-- A call of an operation, with its arguments and its readings of the clock.
pub data Command : Type 0 where
  render : Time → String → Revision → Command
  apply : Time → Time → String → Revision → Command
  confirm : Time → Time → String → Command
  degrade : Time → String → String → String → Command
  observe : Time → Time → String → String → ClusterState → Option ObservedSummary → String → Command

module _ (H : Host) where
  abbrev pub forget : {A : Type 0} → M H A → M H (Unit {0})
  forget m = ◌>>=◌ H m (λ _. return H tt)

  unfoldable pub execute : Command → M H (Unit {0})
  execute (render now cluster_name r) = forget (persist_rendered_state H now cluster_name r)
  execute (apply now later cluster_name r) =
      forget (persist_successful_apply H now later cluster_name r)
  execute (confirm now later cluster_name) = forget (mark_successful_apply H now later cluster_name)
  execute (degrade now cluster_name reason message) =
      forget (mark_degraded H now cluster_name reason message)
  execute (observe now later cluster_name digest state summary message) =
      forget (persist_observed_state H now later cluster_name digest state summary message)

  -- The commands in turn, up to the first that fails.
  unfoldable pub run : List Command → M H (Unit {0})
  unfolding execute
  run [] = return H tt
  run (c ∷ cs) = ◌>>◌ H (execute c) (run cs)
