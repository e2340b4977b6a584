-- ===== src/State/Store/Reports.antt =====
-- What the results of the operations say about the disk that they leave.
use sealos_lifecycle.Base.{
  ◌≡◌, refl, inl, inr, String, ◌==◌, string_eq, true, false, subst, Result-cases, Bool-cases,
  Option, none, some, [], Error, Result, ok, err, is_not_exist, ◌⊎◌, arith, not, ◌&&◌, check_some,
}
use sealos_lifecycle.State.Types.{Time, ClusterState, ObservedSummary, AppliedRevision}
use sealos_lifecycle.State.Validate.{validate_cluster_state, validate_observed_summary}
use sealos_lifecycle.State.Host.{Host, IsLawful}
use sealos_lifecycle.State.Document.{Revision, rendered, degraded_document, observed_document}
use sealos_lifecycle.State.Document.Laws.{SameHistory, rendered_keeps_history}
use sealos_lifecycle.State.Store.{
  M, ◌>>=◌, Marked, load, save, load_existing, existing_of, save_and_return, save_marked,
  mark_degraded_on, persist_observed_on, mark_degraded, persist_rendered_state,
  persist_observed_state,
}
use sealos_lifecycle.State.Store.Laws.{disk-load, load-save}

module _ (H : Host) (name : String) (d : H.Disk) where
  disk-load_existing : (load_existing H name d).1 ≡ d
  unfolding load_existing
  disk-load_existing = disk-load H name d

  bind_load_existing :
      {A : Type 0} (f : Option AppliedRevision → M H A) (existing : Option AppliedRevision)
      → (load_existing H name d).0 ≡ ok existing
      → ◌>>=◌ H (load_existing H name) f d ≡ f existing d
  bind_load_existing f existing e = rw (e, disk-load_existing)

  save_and_return-inv :
      (doc other : AppliedRevision)
      → (save_and_return H doc d).0 ≡ ok other
      → (doc ≡ other)
        × ((save H doc d).0 ≡ ok tt)
        × ((save_and_return H doc d).1 ≡ (save H doc d).1)
  unfolding save_and_return
  save_and_return-inv doc other h = ground arith

  save_marked-inv :
      (doc : AppliedRevision) (m : Marked H)
      → (save_marked H doc d).0 ≡ ok m
      → ◌≡◌ {A = Marked H} (some doc, true) m
        × ((save H doc d).0 ≡ ok tt)
        × ((save_marked H doc d).1 ≡ (save H doc d).1)
  unfolding save_marked
  save_marked-inv doc m h = ground arith

  render_of :
      (now : Time) (r : Revision) (existing : Option AppliedRevision)
      → existing_of H (load H name d).0 ≡ ok existing
      → persist_rendered_state H now name r d ≡ save_and_return H (rendered now name r existing) d
  unfolding persist_rendered_state load_existing
  render_of now r existing before = ground (arith, disk-load H name d)

module _ (H : Host) (L : IsLawful H) (name : String) (d : H.Disk) where
  -- What a render says of successful applies: nothing, where the file of the cluster does not exist,
  -- and else what the document before it said.
  abbrev pub KeepsRecord : AppliedRevision → Type 0
  KeepsRecord doc =
      ((e : Error) × ((load H name d).0 ≡ err e)
        × (is_not_exist e ≡ true)
        × (doc.status.last_successful_revision ≡ none)
        × (doc.status.successful_revisions ≡ [])
        × (doc.status.last_applied_time ≡ none))
      ⊎ ((old : AppliedRevision) × ((load H name d).0 ≡ ok old) × SameHistory doc old)

  render-load :
      (now : Time) (r : Revision) (existing : Option AppliedRevision) (doc : AppliedRevision)
      → existing_of H (load H name d).0 ≡ ok existing
      → (persist_rendered_state H now name r d).0 ≡ ok doc
      → (rendered now name r existing ≡ doc)
        × (load H name (persist_rendered_state H now name r d).1
            ≡ (ok doc, (persist_rendered_state H now name r d).1))
  unfolding rendered
  render-load now r existing doc before h =
      let fresh = rendered now name r existing in
      let step = render_of H name d now r existing before in
      let (same, saved, disk) = save_and_return-inv H name d fresh doc (rw step at h) in
      (same, rw (step, disk, ← same) (load-save H L fresh d saved))

  -- The document that a render returns with no error is the one that is loaded afterwards. It keeps
  -- the record of the successful applies: what it says of the last successful revision, the history
  -- and the time of the last apply is what the document before it said, or nothing where the cluster
  -- had no file. There is no other case: with a file that does not load, a render returns an error.
  pub persist_rendered_state-load :
      (now : Time) (r : Revision) (doc : AppliedRevision)
      → (persist_rendered_state H now name r d).0 ≡ ok doc
      → (load H name (persist_rendered_state H now name r d).1
          ≡ (ok doc, (persist_rendered_state H now name r d).1))
        × KeepsRecord doc
  unfolding existing_of persist_rendered_state load_existing rendered
  persist_rendered_state-load now r doc h = elim (Result-cases (load H name d).0) [
    | inl (old, e) ↦
        let (same, loaded) = render-load now r (some old) doc (ground arith) h in
        (
          loaded,
          inr (
            old,
            e,
            subst (λ (x : AppliedRevision). SameHistory x old) same
                (rendered_keeps_history now name r old),
          ),
        )
    | inr (e, failed) ↦ elim (Bool-cases (is_not_exist e)) [
      | inl missing ↦
          let (same, loaded) = render-load now r none doc (ground arith) h in
          (loaded, inl (e, failed, missing, rw (← same) refl, rw (← same) refl, rw (← same) refl))
      | inr other ↦ absurd (ground arith)
    ]
  ]

  -- The flag tells what was done: without it the disk is as it was, and with it the document that is
  -- returned is loaded back for its cluster.
  abbrev pub Tells : Marked H → H.Disk → Type 0
  Tells (found, false) d' = d' ≡ d
  Tells (none, true) d' = ⊥
  Tells (some doc, true) d' = load H doc.spec.cluster_name d' ≡ (ok doc, d')

  save_marked-Tells :
      (doc : AppliedRevision) (m : Marked H)
      → (save_marked H doc d).0 ≡ ok m
      → Tells m (save_marked H doc d).1
  save_marked-Tells doc m h =
      let (same, saved, disk) = save_marked-inv H name d doc m h in
      subst (λ (x : Marked H). Tells x (save_marked H doc d).1) same
        (rw disk (load-save H L doc d saved))

  return-Tells :
      (found : Option AppliedRevision) (m : Marked H)
      → ◌≡◌ {A = Result (Marked H)} (ok (found, false)) (ok m)
      → Tells m d
  return-Tells found m h =
      let same : ◌≡◌ {A = Marked H} (found, false) m = cc in
      subst (λ (x : Marked H). Tells x d) same refl

  degrade_on-Tells :
      (now : Time) (reason message : String) (existing : Option AppliedRevision) (m : Marked H)
      → (mark_degraded_on H now reason message existing d).0 ≡ ok m
      → Tells m (mark_degraded_on H now reason message existing d).1
  unfolding mark_degraded_on
  degrade_on-Tells now reason message none m h = return-Tells none m h
  degrade_on-Tells now reason message (some doc) m h =
      save_marked-Tells (degraded_document now reason message doc) m h

  -- What `MarkDegraded` returns without an error tells what it did: if it reports no change, the
  -- disk is as it was, and if it reports a change, the document that it returns is loaded back.
  pub mark_degraded-Tells :
      (now : Time) (reason message : String) (m : Marked H)
      → (mark_degraded H now name reason message d).0 ≡ ok m
      → Tells m (mark_degraded H now name reason message d).1
  unfolding mark_degraded
  mark_degraded-Tells now reason message m h = elim (Result-cases (load_existing H name d).0) [
    | inl (existing, e) ↦
        let step = bind_load_existing H name d (mark_degraded_on H now reason message) existing e in
        rw step (degrade_on-Tells now reason message existing m (rw step at h))
    | inr (e, failed) ↦ absurd (ground arith)
  ]

  module _ (now later : Time) (digest : String) (state : ClusterState)
      (summary : Option ObservedSummary) (message : String) where
    observe_on-Tells :
        (existing : Option AppliedRevision) (m : Marked H)
        → (persist_observed_on H now later digest state summary message existing d).0 ≡ ok m
        → Tells m (persist_observed_on H now later digest state summary message existing d).1
    unfolding persist_observed_on
    observe_on-Tells none m h = return-Tells none m h
    observe_on-Tells (some doc) m h =
        elim (Bool-cases (not (digest == "") && not (doc.spec.desired_state_digest == digest))) [
          | inl stale ↦ rw stale (return-Tells (some doc) m (rw stale at h))
          | inr current ↦ rw current (
              save_marked-Tells (observed_document now later state summary message doc) m
                (rw current at h))
        ]

    observe-inv :
        (m : Marked H)
        → (persist_observed_state H now later name digest state summary message d).0 ≡ ok m
        → (existing : Option AppliedRevision) × (persist_observed_state H now later name digest
              state summary message d
            ≡ persist_observed_on H now later digest state summary message existing d)
    unfolding persist_observed_state
    observe-inv m h = elim (Result-cases (validate_cluster_state state)) [
      | inr (e, bad) ↦ absurd (ground arith)
      | inl (u, good) ↦ elim (Result-cases (check_some validate_observed_summary summary)) [
        | inr (e, bad) ↦ absurd (ground arith)
        | inl (v, fine) ↦ elim (Result-cases (load_existing H name d).0) [
          | inr (e, failed) ↦ absurd (ground arith)
          | inl (existing, e) ↦ (existing, rw (good, fine, e, disk-load_existing H name d))
        ]
      ]
    ]

    -- What `PersistObservedState` returns without an error tells what it did: if it reports no
    -- change, as for an observation of another digest than the recorded one, the disk is as it was,
    -- and if it reports a change, the document that it returns is loaded back.
    pub persist_observed_state-Tells :
        (m : Marked H)
        → (persist_observed_state H now later name digest state summary message d).0 ≡ ok m
        → Tells m (persist_observed_state H now later name digest state summary message d).1
    persist_observed_state-Tells m h =
        let (existing, step) = observe-inv m h in
        rw step (observe_on-Tells existing m (rw step at h))
