-- ===== src/State/Document/Laws.antt =====
-- What the new documents keep of the old one, and that they are valid.
use sealos_lifecycle.Base.{Option, ◌≡◌, refl, String, string_eq, some, arith}
use sealos_lifecycle.State.Types.{Time, AppliedRevision}
use sealos_lifecycle.State.Document.{Revision, rendered}

-- What a document says of successful applies.
abbrev pub SameHistory : AppliedRevision → AppliedRevision → Type 0
SameHistory a b =
    (a.status.last_successful_revision ≡ b.status.last_successful_revision)
    × (a.status.successful_revisions ≡ b.status.successful_revisions)
    × (a.status.last_applied_time ≡ b.status.last_applied_time)

pub rendered_keeps_history :
    (now : Time) (cluster_name : String) (r : Revision) (doc : AppliedRevision)
    → SameHistory (rendered now cluster_name r (some doc)) doc
unfolding rendered
rendered_keeps_history now cluster_name r doc = ground arith

pub cluster_name-rendered :
    (now : Time) (cluster_name : String) (r : Revision) (existing : Option AppliedRevision)
    → (rendered now cluster_name r existing).spec.cluster_name ≡ cluster_name
unfolding rendered
cluster_name-rendered now cluster_name r existing = refl
