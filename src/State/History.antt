-- ===== src/State/History.antt =====
-- `prependSuccessfulRevisionHistory` of pkg/distribution/state/store.go.
pub mod Laws
use sealos_lifecycle.Base.{
  ℕ, String, ◌<>◌, contains, string_eq, nat_eq, ◌==◌, if◌then◌else◌, Option, none, some, List, [],
  ◌∷◌, ◌++◌, length,
}
use sealos_lifecycle.State.Types.{RevisionSnapshot, AppliedRevision}

abbrev pub max_successful_revision_history : ℕ
max_successful_revision_history = 10

abbrev nul : String
nul = "\0"

unfoldable pub revision_history_key : RevisionSnapshot → String
revision_history_key r =
    r.bom.name
    <> (nul
        <> (r.bom.revision
            <> (nul
                <> (r.bom.channel <> (nul <> (r.bom.digest <> (nul <> r.desired_state_digest)))))))

-- What the existing document puts behind the new snapshot: its history, and in a document without
-- one its last successful revision.
unfoldable pub recorded : List RevisionSnapshot → Option RevisionSnapshot → List RevisionSnapshot
recorded [] none = []
recorded [] (some last) = last ∷ []
recorded (r ∷ rs) last = r ∷ rs

unfoldable pub candidates : RevisionSnapshot → Option AppliedRevision → List RevisionSnapshot
unfolding recorded
candidates snapshot none = snapshot ∷ []
candidates snapshot (some existing) =
    snapshot
    ∷ recorded existing.status.successful_revisions existing.status.last_successful_revision

-- The loop, with the keys `seen` and the revisions `out` so far.
pub collect : List String → List RevisionSnapshot → List RevisionSnapshot → List RevisionSnapshot
unfolding revision_history_key
collect seen out [] = out
collect seen out (r ∷ rs) =
    let key = revision_history_key r in
    let skip = collect seen out rs in
    let out' = out ++ (r ∷ []) in
    let more = collect (key ∷ seen) out' rs in
    if contains key seen
    then skip
    else if length out' == max_successful_revision_history
    then out'
    else more

unfoldable pub prepend_history : RevisionSnapshot → Option AppliedRevision → List RevisionSnapshot
unfolding collect candidates
prepend_history snapshot existing = collect [] [] (candidates snapshot existing)
