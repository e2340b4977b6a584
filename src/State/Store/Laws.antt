-- ===== src/State/Store/Laws.antt =====
-- Saving, loading, and what each operation leaves on the disk.
use sealos_lifecycle.Base.{◌≡◌, String, ◌==◌, string_eq, false, ok, arith}
use sealos_lifecycle.State.Types.{AppliedRevision}
use sealos_lifecycle.State.Validate.{validate, validate_spec}
use sealos_lifecycle.State.Host.{Host, IsLawful}
use sealos_lifecycle.State.Store.{applied_revision_path, load, save}

pub validate-cluster_name :
    (H : Host) (doc : AppliedRevision)
    → validate H.parse_digest doc ≡ ok tt
    → (doc.spec.cluster_name == "") ≡ false
unfolding validate validate_spec
validate-cluster_name H doc h = ground arith

module _ (H : Host) (L : IsLawful H) where
  -- What a save that succeeds has done.
  pub save-inv :
      (doc : AppliedRevision) (d : H.Disk)
      → (save H doc d).0 ≡ ok tt
      → (validate H.parse_digest doc ≡ ok tt)
        × (H.read (applied_revision_path H doc.spec.cluster_name) (save H doc d).1 ≡ ok doc)
  unfolding save
  save-inv doc d h = ground (
    arith,
    L.read-write (applied_revision_path H doc.spec.cluster_name) doc
        (H.mkdir_all (H.dir (applied_revision_path H doc.spec.cluster_name)) d).1,
  )

  -- A document that is saved with no error is loaded back as it is, by the name of its cluster, and
  -- loading changes nothing.
  pub load-save :
      (doc : AppliedRevision) (d : H.Disk)
      → (save H doc d).0 ≡ ok tt
      → load H doc.spec.cluster_name (save H doc d).1 ≡ (ok doc, (save H doc d).1)
  unfolding load
  load-save doc d h = ground (arith, save-inv doc d h, validate-cluster_name H doc)

module _ (H : Host) (name : String) (d : H.Disk) where
  pub disk-load : (load H name d).1 ≡ d
  unfolding load
  disk-load = ground arith
