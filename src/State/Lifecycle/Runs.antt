-- ===== src/State/Lifecycle/Runs.antt =====
-- The operations, and runs of them, keep the documents coherent.
use sealos_lifecycle.Base.{
  ◌≡◌, String, false, Bool-cases, inl, inr, Option, none, some, List, [], ◌∷◌, ok, not, ◌&&◌, ◌==◌,
  string_eq, check_some,
}
use sealos_lifecycle.State.Types.{Time, ClusterState, ObservedSummary, AppliedRevision}
use sealos_lifecycle.State.Validate.{validate_cluster_state, validate_observed_summary}
use sealos_lifecycle.State.Host.{Host, IsLawful}
use sealos_lifecycle.State.Document.{
  Revision, new_document, rendered, applied, degraded_document, observed_document,
}
use sealos_lifecycle.State.Store.{
  M, ◌>>=◌, lift, load, load_existing, mark_degraded_on, persist_observed_on,
  persist_rendered_state, persist_successful_apply, mark_successful_apply, mark_degraded,
  persist_observed_state,
}
use sealos_lifecycle.State.Lifecycle.{
  Command, render, apply, confirm, degrade, observe, forget, execute, run,
}
use sealos_lifecycle.State.Lifecycle.Coherence.{
  IsCoherent, IsCoherentIfAny, AllCoherent, Keeps, Keeps-bind, Keeps-return, Keeps-lift, Keeps-load,
  Keeps-load_existing, Keeps-save_and_return, Keeps-save_marked, rendered-IsCoherent,
  applied-IsCoherent, degraded-IsCoherent, observed-IsCoherent,
}

module _ (H : Host) (L : IsLawful H) where
  abbrev KeepsAny : {A : Type 0} → M H A → Type 0
  KeepsAny m = Keeps H L m (λ _. Unit {0})

  then_any :
      {A B : Type 0} (m : M H A) (f : A → M H B) (P : A → Type 0)
      → Keeps H L m P
      → ((a : A) → P a → KeepsAny (f a))
      → KeepsAny (◌>>=◌ H m f)
  then_any m f P = Keeps-bind H L m f P (λ _. Unit {0})

  Keeps-render :
      (now : Time) (cluster_name : String) (r : Revision)
      → KeepsAny (persist_rendered_state H now cluster_name r)
  unfolding persist_rendered_state
  Keeps-render now cluster_name r =
      then_any (load_existing H cluster_name) _ IsCoherentIfAny
        (Keeps-load_existing H L cluster_name)
        λ existing c.
          Keeps-save_and_return H L (rendered now cluster_name r existing)
            (rendered-IsCoherent now cluster_name r existing c)

  Keeps-apply :
      (now later : Time) (cluster_name : String) (r : Revision)
      → KeepsAny (persist_successful_apply H now later cluster_name r)
  unfolding persist_successful_apply
  Keeps-apply now later cluster_name r =
      then_any (load_existing H cluster_name) _ IsCoherentIfAny
        (Keeps-load_existing H L cluster_name)
        λ existing c.
          Keeps-save_and_return H L (applied now later (new_document cluster_name r) existing)
            (applied-IsCoherent now later (new_document cluster_name r) existing)

  Keeps-confirm :
      (now later : Time) (cluster_name : String)
      → KeepsAny (mark_successful_apply H now later cluster_name)
  unfolding mark_successful_apply
  Keeps-confirm now later cluster_name =
      then_any (load H cluster_name) _ IsCoherent (Keeps-load H L cluster_name) λ doc c.
        Keeps-save_and_return H L (applied now later doc (some doc))
          (applied-IsCoherent now later doc (some doc))

  Keeps-degrade_on :
      (now : Time) (reason message : String) (existing : Option AppliedRevision)
      → IsCoherentIfAny existing
      → KeepsAny (mark_degraded_on H now reason message existing)
  unfolding mark_degraded_on
  Keeps-degrade_on now reason message none c = Keeps-return H L (none, false) _ tt
  Keeps-degrade_on now reason message (some doc) c =
      Keeps-save_marked H L (degraded_document now reason message doc)
        (degraded-IsCoherent now reason message doc c)

  Keeps-degrade :
      (now : Time) (cluster_name reason message : String)
      → KeepsAny (mark_degraded H now cluster_name reason message)
  unfolding mark_degraded
  Keeps-degrade now cluster_name reason message =
      then_any (load_existing H cluster_name) _ IsCoherentIfAny
        (Keeps-load_existing H L cluster_name) (Keeps-degrade_on now reason message)

  module _ (now later : Time) (digest : String) (state : ClusterState)
      (summary : Option ObservedSummary) (message : String) where
    Keeps-observe_on :
        (existing : Option AppliedRevision)
        → IsCoherentIfAny existing
        → KeepsAny (persist_observed_on H now later digest state summary message existing)
    unfolding persist_observed_on
    Keeps-observe_on none c = Keeps-return H L (none, false) _ tt
    Keeps-observe_on (some doc) c =
        elim (Bool-cases (not (digest == "") && not (doc.spec.desired_state_digest == digest))) [
          | inl stale ↦ rw stale (Keeps-return H L (some doc, false) _ tt)
          | inr current ↦ rw current (
              Keeps-save_marked H L (observed_document now later state summary message doc)
                (observed-IsCoherent now later state summary message doc c))
        ]

    Keeps-observe :
        (cluster_name : String)
        → KeepsAny (persist_observed_state H now later cluster_name digest state summary message)
    unfolding persist_observed_state
    Keeps-observe cluster_name =
        then_any (lift H (validate_cluster_state state)) _ (λ _. Unit {0}) (Keeps-lift H L _)
          λ _ _.
            then_any (lift H (check_some validate_observed_summary summary)) _ (λ _. Unit {0})
              (Keeps-lift H L _)
              λ _ _.
                then_any (load_existing H cluster_name) _ IsCoherentIfAny
                  (Keeps-load_existing H L cluster_name) Keeps-observe_on

  Keeps-forget : {A : Type 0} (m : M H A) → KeepsAny m → KeepsAny (forget H m)
  Keeps-forget m k = then_any m _ (λ _. Unit {0}) k (λ _ _. Keeps-return H L tt _ tt)

  Keeps-execute : (c : Command) → KeepsAny (execute H c)
  unfolding execute
  Keeps-execute (render now name r) = Keeps-forget _ (Keeps-render now name r)
  Keeps-execute (apply now later name r) = Keeps-forget _ (Keeps-apply now later name r)
  Keeps-execute (confirm now later name) = Keeps-forget _ (Keeps-confirm now later name)
  Keeps-execute (degrade now name reason message) =
      Keeps-forget _ (Keeps-degrade now name reason message)
  Keeps-execute (observe now later name digest state summary message) =
      Keeps-forget _ (Keeps-observe now later digest state summary message name)

  Keeps-run : (cs : List Command) → KeepsAny (run H cs)
  unfolding run
  Keeps-run [] = Keeps-return H L tt _ tt
  Keeps-run (c ∷ cs) =
      then_any (execute H c) _ (λ _. Unit {0}) (Keeps-execute c) (λ _ _. Keeps-run cs)

  -- On a lawful host, a run of the operations that meets no error leaves every document that can be
  -- read coherent, if they all were: its last successful revision is the newest of its history, and
  -- the history has at most ten revisions and no two with the same key. The commands may be any, in
  -- any order, for any clusters.
  pub run-AllCoherent :
      (commands : List Command) (d : H.Disk)
      → (run H commands d).0 ≡ ok tt
      → AllCoherent H L d
      → AllCoherent H L (run H commands d).1
  run-AllCoherent commands d h all = ((Keeps-run commands).at d tt h all).0
