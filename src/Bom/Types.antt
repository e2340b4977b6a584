-- ===== src/Bom/Types.antt =====
-- The types of pkg/distribution/bom/types.go and what reads them without an error.
use sealos_lifecycle.Base.{
  ℕ, String, ◌<>◌, ◌==◌, string_eq, if◌then◌else◌, Bool, Option, none, some, List, [], ◌∷◌, length,
}
use sealos_lifecycle.Kinds.{api_version, kind_bom}
use sealos_lifecycle.Bom.Channel.{ReleaseChannel}

pub record Metadata : Type 0 where
  pub name : String
  pub labels : List (String × String)

pub record ArtifactReference : Type 0 where
  pub name : String
  pub image : String
  pub digest : String
  pub platform : String
  pub source : String

pub record SourceReference : Type 0 where
  pub path : String
  pub digest : String

pub record BuildReference : Type 0 where
  pub build_class : String
  pub profile : String

pub record Package : Type 0 where
  pub category : String
  pub name : String
  pub version : String
  pub source : SourceReference
  pub build : BuildReference
  pub artifact : ArtifactReference
  pub dependencies : List String
  pub required : Bool

pub record Spec : Type 0 where
  pub revision : String
  pub local_patch_policy : String
  pub base_artifacts : List ArtifactReference
  pub packages : List Package

pub record Bom : Type 0 where
  pub api_version : String
  pub kind : String
  pub metadata : Metadata
  pub spec : Spec
  pub runtime_channel : ReleaseChannel

unfoldable pub new : String → String → ReleaseChannel → Bom
new name revision channel = record {
  api_version = api_version;
  kind = kind_bom;
  metadata = record { name = name; labels = [] };
  spec = record {
    revision = revision;
    local_patch_policy = "";
    base_artifacts = [];
    packages = [];
  };
  runtime_channel = channel;
}

unfoldable pub set_runtime_channel : Bom → ReleaseChannel → Bom
set_runtime_channel b channel = record b { runtime_channel = channel }

unfoldable pub identity : Package → String
identity p = p.category <> ("/" <> (p.name <> ("@" <> p.version)))

-- The map as the function that looks a name up. A later package takes the place of an earlier one.
unfoldable pub index_of : List Package → String → Option Package
index_of [] name = none
index_of (p ∷ ps) name =
    let later = index_of ps name in
    elim later [ some q ↦ some q | none ↦ if p.name == name then some p else none ]

unfoldable pub package_index : Bom → String → Option Package
unfolding index_of
package_index b name = index_of b.spec.packages name

unfoldable pub package_count : Bom → ℕ
package_count b = length b.spec.packages
