-- ===== src/Kinds.antt =====
-- pkg/distribution/doc.go: the version and the kinds of the documents.
use sealos_lifecycle.Base.{String}

abbrev pub api_version : String
api_version = "distribution.sealos.io/v1alpha1"

abbrev pub kind_applied_revision : String
kind_applied_revision = "AppliedRevision"

abbrev pub kind_bom : String
kind_bom = "BOM"

abbrev pub kind_component_package : String
kind_component_package = "ComponentPackage"
