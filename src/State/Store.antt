-- ===== src/State/Store.antt =====
-- The operations of pkg/distribution/state/store.go on the file that holds a cluster's applied
-- revision. The host is a parameter, and an operation returns its result and the disk that it leaves.
pub mod Laws
pub mod Reports
use sealos_lifecycle.Base.{
  String, ◌==◌, string_eq, if◌then◌else◌, Bool, true, false, ◌&&◌, not, Option, none, some, [], ◌∷◌,
  text, errorf, is_not_exist, Result, ok, err, fail_if, wrap, check_some,
}
use sealos_lifecycle.State.Types.{Time, ClusterState, ObservedSummary, AppliedRevision}
use sealos_lifecycle.State.Validate.{validate_cluster_state, validate_observed_summary, validate}
use sealos_lifecycle.State.Host.{Host}
use sealos_lifecycle.State.Document.{
  Revision, new_document, rendered, applied, degraded_document, observed_document,
}

module _ (H : Host) where
  open H use {Disk, read, mkdir_all, write, runtime_root, join_path, dir, parse_digest}

  -- A step on the disk that may fail.
  abbrev pub M : Type 0 → Type 0
  M A = Disk → Result A × Disk

  abbrev pub bind_on : {A B : Type 0} → Result A → Disk → (A → M B) → Result B × Disk
  bind_on (ok a) d f = f a d
  bind_on (err e) d f = (err e, d)

  infixl 5 ◌>>=◌ ◌>>◌
  abbrev pub ◌>>=◌ : {A B : Type 0} → M A → (A → M B) → M B
  ◌>>=◌ m f d = bind_on (m d).0 (m d).1 f

  abbrev pub ◌>>◌ : {B : Type 0} → M (Unit {0}) → M B → M B
  m >> k = m >>= λ _. k

  abbrev pub lift : {A : Type 0} → Result A → M A
  lift r d = (r, d)

  abbrev pub return : {A : Type 0} → A → M A
  return a d = (ok a, d)

  -- `PathResolver.RunRoot` of pkg/constants/pathresolver.go.
  unfoldable pub run_root : String → String
  run_root cluster_name = join_path (runtime_root ∷ cluster_name ∷ [])

  unfoldable pub applied_revision_path : String → String
  unfolding run_root
  applied_revision_path cluster_name =
      join_path (run_root cluster_name ∷ "distribution" ∷ "applied-revision.yaml" ∷ [])

  unfoldable pub load : String → M AppliedRevision
  load cluster_name = do
    lift (fail_if (cluster_name == "") (errorf "cluster name cannot be empty" []))
    let path = applied_revision_path cluster_name
    doc ← λ d. (wrap "load applied revision %q: %w" (text path ∷ []) (read path d), d)
    lift (wrap "validate applied revision %q: %w" (text path ∷ []) (validate parse_digest doc))
    return doc

  unfoldable pub save : AppliedRevision → M (Unit {0})
  save doc = do
    lift (wrap "validate applied revision: %w" [] (validate parse_digest doc))
    let path = applied_revision_path doc.spec.cluster_name
    λ d.
        let (made, d') = mkdir_all (dir path) d in
        (wrap "create applied revision directory %q: %w" (text (dir path) ∷ []) made, d')
    λ d.
        let (written, d') = write path doc d in
        (wrap "write applied revision %q: %w" (text path ∷ []) written, d')

  -- `errors.Is(err, os.ErrNotExist)`: that there is no file is no error.
  unfoldable pub existing_of : Result AppliedRevision → Result (Option AppliedRevision)
  unfolding is_not_exist
  existing_of (ok doc) = ok (some doc)
  existing_of (err e) = if is_not_exist e then ok none else err e

  unfoldable pub load_existing : String → M (Option AppliedRevision)
  unfolding existing_of
  load_existing cluster_name d = let (r, d') = load cluster_name d in (existing_of r, d')

  unfoldable pub save_and_return : AppliedRevision → M AppliedRevision
  save_and_return doc = do save doc; return doc

  unfoldable pub persist_rendered_state : Time → String → Revision → M AppliedRevision
  unfolding save_and_return
  persist_rendered_state now cluster_name r = do
    existing ← load_existing cluster_name
    save_and_return (rendered now cluster_name r existing)

  unfoldable pub persist_successful_apply : Time → Time → String → Revision → M AppliedRevision
  unfolding save_and_return
  persist_successful_apply now later cluster_name r = do
    existing ← load_existing cluster_name
    save_and_return (applied now later (new_document cluster_name r) existing)

  unfoldable pub mark_successful_apply : Time → Time → String → M AppliedRevision
  unfolding save_and_return
  mark_successful_apply now later cluster_name = do
    doc ← load cluster_name
    save_and_return (applied now later doc (some doc))

  -- The document, if there is one, and whether it was changed.
  abbrev pub Marked : Type 0
  Marked = Option AppliedRevision × Bool

  unfoldable pub save_marked : AppliedRevision → M Marked
  save_marked doc = do save doc; return (some doc, true)

  unfoldable pub mark_degraded_on : Time → String → String → Option AppliedRevision → M Marked
  unfolding save_marked
  mark_degraded_on now reason message none = return (none, false)
  mark_degraded_on now reason message (some doc) =
      save_marked (degraded_document now reason message doc)

  unfoldable pub mark_degraded : Time → String → String → String → M Marked
  unfolding mark_degraded_on
  mark_degraded now cluster_name reason message = do
    existing ← load_existing cluster_name
    mark_degraded_on now reason message existing

  unfoldable pub persist_observed_on :
      Time
      → Time
      → String
      → ClusterState
      → Option ObservedSummary
      → String
      → Option AppliedRevision
      → M Marked
  unfolding save_marked
  persist_observed_on now later digest state summary message none = return (none, false)
  persist_observed_on now later digest state summary message (some doc) =
      if not (digest == "") && not (doc.spec.desired_state_digest == digest)
      then return (some doc, false)
      else save_marked (observed_document now later state summary message doc)

  unfoldable pub persist_observed_state :
      Time → Time → String → String → ClusterState → Option ObservedSummary → String → M Marked
  unfolding persist_observed_on
  persist_observed_state now later cluster_name digest state summary message = do
    lift (validate_cluster_state state)
    lift (check_some validate_observed_summary summary)
    existing ← load_existing cluster_name
    persist_observed_on now later digest state summary message existing
