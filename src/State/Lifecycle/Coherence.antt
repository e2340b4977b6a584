-- ===== src/State/Lifecycle/Coherence.antt =====
-- Every document that the operations write has a coherent record of the successful applies.
use sealos_lifecycle.Base.{
  ◌≡◌, refl, subst, ◌≢◌, String, string_eq, true, Option, none, some, List, [], ◌∷◌, Result, ok,
  err, arith, sym,
}
use sealos_lifecycle.State.Types.{Time, ClusterState, ObservedSummary, AppliedRevision}
use sealos_lifecycle.State.Host.{Host, IsLawful}
use sealos_lifecycle.State.History.Laws.{IsHistory, prepend_history-IsHistory, prepend_history-cons}
use sealos_lifecycle.State.Document.{
  Revision, rendered, applied, degraded_document, observed_document, snapshot_of,
}
use sealos_lifecycle.State.Store.{
  M, bind_on, return, lift, ◌>>=◌, save_and_return, save_marked, applied_revision_path, load, save,
  load_existing,
}
use sealos_lifecycle.State.Store.Laws.{save-inv}

abbrev pub head? {ℓ} : {A : Type ℓ} → List A → Option A
head? [] = none
head? (x ∷ xs) = some x

-- The last successful revision is the newest of the history, which has at most ten revisions and no
-- two with the same key.
pub record IsCoherent (doc : AppliedRevision) : Type 0 where
  pub history : IsHistory doc.status.successful_revisions
  pub latest : doc.status.last_successful_revision ≡ head? doc.status.successful_revisions

abbrev pub IsCoherentIfAny : Option AppliedRevision → Type 0
IsCoherentIfAny none = Unit
IsCoherentIfAny (some doc) = IsCoherent doc

pub rendered-IsCoherent :
    (now : Time) (cluster_name : String) (r : Revision) (existing : Option AppliedRevision)
    → IsCoherentIfAny existing
    → IsCoherent (rendered now cluster_name r existing)
unfolding rendered
rendered-IsCoherent now cluster_name r none h = record {
  history = record { bounded = omega arith; nodup = tt };
  latest = refl;
}
rendered-IsCoherent now cluster_name r (some doc) h = record {
  history = ground (arith, h.history);
  latest = ground (arith, h.latest);
}

pub applied-IsCoherent :
    (now later : Time) (doc : AppliedRevision) (existing : Option AppliedRevision)
    → IsCoherent (applied now later doc existing)
unfolding applied
applied-IsCoherent now later doc existing = record {
  history = prepend_history-IsHistory (snapshot_of doc.spec) existing;
  latest = rw ((prepend_history-cons (snapshot_of doc.spec) existing).1) refl;
}

pub degraded-IsCoherent :
    (now : Time) (reason message : String) (doc : AppliedRevision)
    → IsCoherent doc
    → IsCoherent (degraded_document now reason message doc)
unfolding degraded_document
degraded-IsCoherent now reason message doc h = record { history = h.history; latest = h.latest }

pub observed-IsCoherent :
    (now later : Time) (state : ClusterState) (summary : Option ObservedSummary) (message : String)
    (doc : AppliedRevision)
    → IsCoherent doc
    → IsCoherent (observed_document now later state summary message doc)
unfolding observed_document
observed-IsCoherent now later state summary message doc h = record {
  history = h.history;
  latest = h.latest;
}

module _ (H : Host) (L : IsLawful H) where
  -- Every document that can be read is coherent.
  abbrev pub AllCoherent : H.Disk → Type 0
  AllCoherent d = (path : String) (doc : AppliedRevision) → H.read path d ≡ ok doc → IsCoherent doc

  read-save_ne :
      (doc : AppliedRevision) (d : H.Disk) (path : String)
      → (save H doc d).0 ≡ ok tt
      → path ≢ applied_revision_path H doc.spec.cluster_name
      → H.read path (save H doc d).1 ≡ H.read path d
  unfolding save
  read-save_ne doc d path h ne =
      let target = applied_revision_path H doc.spec.cluster_name in
      ground (
        arith,
        L.read-mkdir_all (H.dir target) path d,
        L.read-write_ne target path doc (H.mkdir_all (H.dir target) d).1,
      )

  save-AllCoherent :
      (doc : AppliedRevision) (d : H.Disk)
      → (save H doc d).0 ≡ ok tt
      → IsCoherent doc
      → AllCoherent d
      → AllCoherent (save H doc d).1
  save-AllCoherent doc d h c all path other e =
      elim (string_eq.dec path (applied_revision_path H doc.spec.cluster_name)) [
        | yes p ↦ let same : doc ≡ other = cc ((save-inv H L doc d h).1) in subst IsCoherent same c
        | no n ↦ all path other (rw (read-save_ne doc d path h n) at e)
      ]

  -- `m` keeps the documents coherent, and what it returns satisfies `P`.
  pub record Keeps {A : Type 0} (m : M H A) (P : A → Type 0) : Type 0 where
    pub at : (d : H.Disk) (a : A) → (m d).0 ≡ ok a → AllCoherent d → AllCoherent (m d).1 × P a

  pub Keeps-bind :
      {A B : Type 0} (m : M H A) (f : A → M H B) (P : A → Type 0) (Q : B → Type 0)
      → Keeps m P
      → ((a : A) → P a → Keeps (f a) Q)
      → Keeps (◌>>=◌ H m f) Q
  Keeps-bind {A} {B} m f P Q km kf = record { at = λ d b h all. go d b all (m d).0 refl h }
    where
      go :
          (d : H.Disk) (b : B)
          → AllCoherent d
          → (r : Result A) → (m d).0 ≡ r
          → (bind_on H r (m d).1 f).0 ≡ ok b
          → AllCoherent (bind_on H r (m d).1 f).1 × Q b
      go d b all (ok a) e h = let k = km.at d a e all in (kf a k.1).at (m d).1 b h k.0
      go d b all (err x) e h = cc

  pub Keeps-return : {A : Type 0} (a : A) (P : A → Type 0) → P a → Keeps (return H a) P
  Keeps-return a P p = record { at = λ d b h all. (all, let same : a ≡ b = cc in subst P same p) }

  pub Keeps-lift : {A : Type 0} (r : Result A) → Keeps (lift H r) (λ _. Unit {0})
  Keeps-lift r = record { at = λ d b h all. (all, tt) }

  pub Keeps-save : (doc : AppliedRevision) → IsCoherent doc → Keeps (save H doc) (λ _. Unit {0})
  Keeps-save doc c = record { at = λ d u h all. (save-AllCoherent doc d (cc) c all, tt) }

  load-inv :
      (cluster_name : String) (d : H.Disk) (doc : AppliedRevision)
      → (load H cluster_name d).0 ≡ ok doc
      → ((load H cluster_name d).1 ≡ d) × (H.read (applied_revision_path H cluster_name) d ≡ ok doc)
  unfolding load
  load-inv cluster_name d doc h = ground arith

  pub Keeps-load : (cluster_name : String) → Keeps (load H cluster_name) IsCoherent
  Keeps-load cluster_name = record {
    at = λ d doc h all.
        let inv = load-inv cluster_name d doc h in
        (subst AllCoherent (sym inv.0) all, all (applied_revision_path H cluster_name) doc inv.1);
  }

  load_existing-inv :
      (cluster_name : String) (d : H.Disk) (existing : Option AppliedRevision)
      → (load_existing H cluster_name d).0 ≡ ok existing
      → AllCoherent d
      → IsCoherentIfAny existing
  unfolding load_existing load
  load_existing-inv cluster_name d none h all = tt
  load_existing-inv cluster_name d (some doc) h all =
      all (applied_revision_path H cluster_name) doc (ground arith)

  disk-load_existing : (cluster_name : String) (d : H.Disk) → (load_existing H cluster_name d).1 ≡ d
  unfolding load_existing load
  disk-load_existing cluster_name d = ground arith

  pub Keeps-load_existing :
      (cluster_name : String) → Keeps (load_existing H cluster_name) IsCoherentIfAny
  Keeps-load_existing cluster_name = record {
    at = λ d existing h all. (
      subst AllCoherent (sym (disk-load_existing cluster_name d)) all,
      load_existing-inv cluster_name d existing h all,
    );
  }

  pub Keeps-save_and_return :
      (doc : AppliedRevision) → IsCoherent doc → Keeps (save_and_return H doc) (λ _. Unit {0})
  unfolding save_and_return
  Keeps-save_and_return doc c =
      Keeps-bind (save H doc) (λ _. return H doc) (λ _. Unit {0}) (λ _. Unit {0}) (Keeps-save doc c)
        (λ _ _. Keeps-return doc (λ _. Unit {0}) tt)

  pub Keeps-save_marked :
      (doc : AppliedRevision) → IsCoherent doc → Keeps (save_marked H doc) (λ _. Unit {0})
  unfolding save_marked
  Keeps-save_marked doc c =
      Keeps-bind (save H doc) (λ _. return H (some doc, true)) (λ _. Unit {0}) (λ _. Unit {0})
        (Keeps-save doc c) (λ _ _. Keeps-return (some doc, true) (λ _. Unit {0}) tt)
