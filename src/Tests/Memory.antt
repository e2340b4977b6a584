-- ===== src/Tests/Memory.antt =====
-- A host in memory, and the documents that the tests store on it.
use sealos_lifecycle.Base.{
  ◌≡◌, refl, ◌≢◌, String, ◌==◌, string_eq, if◌then◌else◌, Option, none, some, Result, ok, err,
  not_exist, join, arith,
}
use sealos_lifecycle.State.Types.{AppliedRevision, BomReference}
use sealos_lifecycle.State.Host.{Host, IsLawful}
use sealos_lifecycle.State.Document.{Revision}

abbrev pub Files : Type 0
Files = String → Option AppliedRevision

abbrev read_file : Option AppliedRevision → Result AppliedRevision
read_file none = err not_exist
read_file (some doc) = ok doc

-- Every digest is accepted.
abbrev pub memory : Host
memory = record {
  Disk = Files;
  read = λ path d. read_file (d path);
  mkdir_all = λ path d. (ok tt, d);
  write = λ path doc d. (ok tt, λ other. if other == path then some doc else d other);
  runtime_root = "sealos";
  join_path = λ parts. join parts "/";
  dir = λ path. path;
  parse_digest = λ s. none;
}

read-write_self :
    (path : String) (doc : AppliedRevision) (d : Files)
    → read_file (if path == path then some doc else d path) ≡ ok doc
read-write_self path doc d = ground arith

read-write_other :
    (path other : String) (doc : AppliedRevision) (d : Files)
    → other ≢ path
    → read_file (if other == path then some doc else d other) ≡ read_file (d other)
read-write_other path other doc d ne = ground arith

pub memory-IsLawful : IsLawful memory
memory-IsLawful = record {
  read-write = λ path doc d h. read-write_self path doc d;
  read-write_ne = λ path other doc d h ne. read-write_other path other doc d ne;
  read-mkdir_all = λ path other d h. refl;
}

abbrev pub nothing : Files
nothing path = none

abbrev pub reference : BomReference
reference = record { name = "base"; revision = "r1"; channel = "stable"; digest = "" }

abbrev pub first : Revision
first = record {
  ref = reference;
  desired_state_digest = "d1";
  local_repo_revision = "";
  local_patch_revision = "";
  opts = record { requested_target = none; resolved_target = none };
}

abbrev pub second : Revision
second = record first { desired_state_digest = "d2" }
