-- ===== src/Bom/Validate.antt =====
-- The `Validate` methods of pkg/distribution/bom/types.go. `clean` is `path.Clean` of Go's library,
-- and `parse_digest` is `digest.Parse` of github.com/opencontainers/go-digest: the error that it
-- returns, if any.
use sealos_lifecycle.Base.{
  ℕ, ◌+◌, String, ◌==◌, contains, string_eq, ◌||◌, not, Option, none, some, List, [], ◌∷◌, map,
  Error, text, num, errorf, wrapf, Result, ok, err, ◌>>◌, fail_if, if_set, wrap, has_prefix,
  is_empty,
}
use sealos_lifecycle.Kinds.{api_version, kind_bom}
use sealos_lifecycle.Bom.Types.{ArtifactReference, Package, Bom, identity}

-- The loop over the dependencies of the package `name`, with those that it has seen.
unfoldable pub validate_dependencies : String → List String → List String → Result (Unit {0})
validate_dependencies name seen [] = ok tt
validate_dependencies name seen (d ∷ ds) = do
  fail_if (d == "") (errorf "dependencies cannot contain empty values" [])
  fail_if (d == name) (errorf "dependency %q cannot refer to itself" (text d ∷ []))
  fail_if (contains d seen) (errorf "duplicate dependency %q" (text d ∷ []))
  validate_dependencies name (d ∷ seen) ds

-- The loop over the dependencies of the package at `i`, where `names` are the packages.
unfoldable pub known_dependencies : ℕ → List String → List String → Result (Unit {0})
known_dependencies i names [] = ok tt
known_dependencies i names (d ∷ ds) = do
  fail_if (not (contains d names))
      (errorf "spec.packages[%d]: unknown dependency %q" (num i ∷ text d ∷ []))
  known_dependencies i names ds

-- The last loop over the packages, from the index `i`.
unfoldable pub known_packages : ℕ → List String → List Package → Result (Unit {0})
known_packages i names [] = ok tt
known_packages i names (p ∷ ps) =
    known_dependencies i names p.dependencies >> known_packages (i + 1) names ps

module _ (clean : String → String) (parse_digest : String → Option Error) where
  unfoldable pub validate_relative_path : String → String → Result (Unit {0})
  validate_relative_path field value = do
    fail_if (value == "") (errorf "%s cannot be empty" (text field ∷ []))
    fail_if (has_prefix value "/")
        (errorf "%s must be relative, got %q" (text field ∷ text value ∷ []))
    fail_if (clean value == "." || clean value == "")
        (errorf "%s cannot be empty" (text field ∷ []))
    fail_if (has_prefix (clean value) "../" || clean value == "..")
        (errorf "%s cannot escape the BOM root, got %q" (text field ∷ text value ∷ []))

  check_digest : String → String → Result (Unit {0})
  check_digest format value = elim (parse_digest value) [
    | none ↦ ok tt
    | some e ↦ err (wrapf format (text value ∷ []) e)
  ]

  unfoldable pub validate_artifact : ArtifactReference → Result (Unit {0})
  unfolding check_digest
  validate_artifact a = do
    fail_if (a.name == "") (errorf "name cannot be empty" [])
    fail_if (a.image == "") (errorf "image cannot be empty" [])
    fail_if (a.digest == "") (errorf "digest cannot be empty" [])
    check_digest "invalid digest %q: %w" a.digest

  unfoldable pub validate_package : Package → Result (Unit {0})
  unfolding check_digest
  validate_package p = do
    fail_if (p.category == "") (errorf "category cannot be empty" [])
    fail_if (p.name == "") (errorf "name cannot be empty" [])
    fail_if (p.version == "") (errorf "version cannot be empty" [])
    if_set p.source.path (validate_relative_path "source.path" p.source.path)
    if_set p.source.digest (check_digest "source.digest: invalid digest %q: %w" p.source.digest)
    wrap "artifact: %w" [] (validate_artifact p.artifact)
    validate_dependencies p.name [] p.dependencies

  -- The loop over the base artifacts, from the index `i`, with the names that it has seen.
  unfoldable pub validate_artifacts : ℕ → List String → List ArtifactReference → Result (Unit {0})
  validate_artifacts i seen [] = ok tt
  validate_artifacts i seen (a ∷ rest) = do
    wrap "spec.baseArtifacts[%d]: %w" (num i ∷ []) (validate_artifact a)
    fail_if (contains a.name seen)
        (errorf "spec.baseArtifacts[%d]: duplicate artifact name %q" (num i ∷ text a.name ∷ []))
    validate_artifacts (i + 1) (a.name ∷ seen) rest

  -- The first loop over the packages, from the index `i`, with the names and the identities that it
  -- has seen.
  unfoldable pub validate_packages :
      ℕ → List String → List String → List Package → Result (Unit {0})
  validate_packages i names identities [] = ok tt
  validate_packages i names identities (p ∷ ps) = do
    wrap "spec.packages[%d]: %w" (num i ∷ []) (validate_package p)
    fail_if (contains p.name names)
        (errorf "spec.packages[%d]: duplicate package name %q" (num i ∷ text p.name ∷ []))
    fail_if (contains (identity p) identities)
        (errorf "spec.packages[%d]: duplicate package identity %q" (num i ∷ text (identity p) ∷ []))
    validate_packages (i + 1) (p.name ∷ names) (identity p ∷ identities) ps

  unfoldable pub validate : Bom → Result (Unit {0})
  validate b = do
    fail_if (not (b.api_version == api_version))
        (errorf "unsupported apiVersion %q" (text b.api_version ∷ []))
    fail_if (not (b.kind == kind_bom)) (errorf "unsupported kind %q" (text b.kind ∷ []))
    fail_if (b.metadata.name == "") (errorf "metadata.name cannot be empty" [])
    fail_if (b.spec.revision == "") (errorf "spec.revision cannot be empty" [])
    if_set b.spec.local_patch_policy
        (validate_relative_path "spec.localPatchPolicy" b.spec.local_patch_policy)
    fail_if (is_empty b.spec.packages) (errorf "spec.packages cannot be empty" [])
    validate_artifacts 0 [] b.spec.base_artifacts
    validate_packages 0 [] [] b.spec.packages
    known_packages 0 (map (λ p. p.name) b.spec.packages) b.spec.packages
