-- ===== src/State/Host.antt =====
-- What the store uses of the host, as a parameter.
use sealos_lifecycle.Base.{◌≡◌, ◌≢◌, String, Option, List, Error, Result, ok}
use sealos_lifecycle.State.Types.{AppliedRevision}

-- `yamlutil.UnmarshalFile`, `os.MkdirAll` and `yamlutil.MarshalFile` on a disk,
-- `constants.DefaultRuntimeRootDir`, `filepath.Join`, `filepath.Dir`, and `digest.Parse`.
pub record Host : Type 1 where
  pub Disk : Type 0
  pub read : String → Disk → Result AppliedRevision
  pub mkdir_all : String → Disk → Result (Unit {0}) × Disk
  pub write : String → AppliedRevision → Disk → Result (Unit {0}) × Disk
  pub runtime_root : String
  pub join_path : List String → String
  pub dir : String → String
  pub parse_digest : String → Option Error

-- What the file system and the YAML encoder promise of steps that succeed, for cleaned paths, of which
-- different texts are different files, and documents with times of whole seconds: a file that was written is read back, a write
-- leaves the other files alone, and making a directory leaves all files alone. Of a step that fails
-- nothing is assumed.
pub record IsLawful (H : Host) : Type 0 where
  pub read-write :
      (path : String) (doc : AppliedRevision) (d : H.Disk)
      → (H.write path doc d).0 ≡ ok tt
      → H.read path (H.write path doc d).1 ≡ ok doc
  pub read-write_ne :
      (path other : String) (doc : AppliedRevision) (d : H.Disk)
      → (H.write path doc d).0 ≡ ok tt
      → other ≢ path
      → H.read other (H.write path doc d).1 ≡ H.read other d
  pub read-mkdir_all :
      (path other : String) (d : H.Disk)
      → (H.mkdir_all path d).0 ≡ ok tt
      → H.read other (H.mkdir_all path d).1 ≡ H.read other d
