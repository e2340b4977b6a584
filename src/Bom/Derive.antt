-- ===== src/Bom/Derive.antt =====
-- pkg/distribution/bom/derive.go: what a derived bill of materials changes. The maps of labels are lists
-- of entries, of which the overriding ones have distinct keys. The document is not nil.
pub mod Replacements
pub mod Laws
use sealos_lifecycle.Base.{
  ℕ, ◌+◌, String, ◌==◌, contains, string_eq, if◌then◌else◌, Bool, ◌||◌, Option, none, some, List,
  [], ◌∷◌, Error, less, sort_by, trim_space, text, num, errorf, Result, ok, err, ◌>>=◌, ◌>>◌,
  fail_if, wrap,
}
use sealos_lifecycle.Bom.Types.{ArtifactReference, Package, Bom}
use sealos_lifecycle.Bom.Validate.{validate_artifact}

abbrev pub Labels : Type 0
Labels = List (String × String)

-- `labels[key] = value`
unfoldable pub put_label : String → String → Labels → Labels
put_label key value [] = (key, value) ∷ []
put_label key value ((k, v) ∷ labels) =
    let rest = put_label key value labels in if k == key then (k, value) ∷ labels else (k, v) ∷ rest

-- `delete(labels, key)`
unfoldable pub delete_label : String → Labels → Labels
delete_label key [] = []
delete_label key ((k, v) ∷ labels) =
    let rest = delete_label key labels in if k == key then rest else (k, v) ∷ rest

-- The last loop of `mergeDerivedLabels`.
unfoldable pub override_labels : Labels → Labels → Labels
override_labels [] labels = labels
override_labels ((key, value) ∷ rest) labels = override_labels rest (
    if trim_space value == ""
    then delete_label key labels
    else put_label key (trim_space value) labels)

abbrev pub line_label : String
line_label = "distribution.sealos.io/derived-from-line"

abbrev pub revision_label : String
revision_label = "distribution.sealos.io/derived-from-revision"

unfoldable pub merge_derived_labels : Labels → Labels → String → String → Labels
merge_derived_labels source override source_line source_revision =
    override_labels (sort_by (λ a b. less a.0 b.0) override)
      (put_label revision_label source_revision (put_label line_label source_line source))

pub record ArtifactReplacement : Type 0 where
  pub package_name : String
  pub artifact_name : String
  pub image : String
  pub digest : String
  pub version : String
  pub source_path : String
  pub source_digest : String

pub record ArtifactReplacementResult : Type 0 where
  pub package_name : String
  pub before : ArtifactReference
  pub after : ArtifactReference
  pub version_from : String
  pub version_to : String

-- `if value := strings.TrimSpace(value); value != "" { old = value }`
unfoldable pub set_text : String → String → String
set_text value old = if trim_space value == "" then old else trim_space value

unfoldable pub replaced_artifact : ArtifactReplacement → ArtifactReference → ArtifactReference
replaced_artifact r before = record before {
  name = set_text r.artifact_name before.name;
  image = set_text r.image before.image;
  digest = set_text r.digest before.digest;
}

unfoldable pub replaced_package : ArtifactReplacement → Package → Package
replaced_package r p = record p {
  version = set_text r.version p.version;
  source = record (p.source) {
    path = set_text r.source_path p.source.path;
    digest = set_text r.source_digest p.source.digest;
  };
  artifact = replaced_artifact r p.artifact;
}

pub record Replaced : Type 0 where
  pub packages : List Package
  pub result : ArtifactReplacementResult

module _ (clean : String → String) (parse_digest : String → Option Error) where
  -- The replacement at `i` in the first package of its name.
  unfoldable pub replace_package : ℕ → ArtifactReplacement → List Package → Result Replaced
  replace_package i r [] = err (
      errorf "replacements[%d]: package %q not found in source BOM"
        (num i ∷ text (trim_space r.package_name) ∷ []))
  replace_package i r (p ∷ ps) =
      let further = replace_package i r ps in
      if p.name == trim_space r.package_name
      then (wrap "replacements[%d]: artifact: %w" (num i ∷ [])
            (validate_artifact clean parse_digest (replaced_artifact r p.artifact))
          >> ok (record {
            packages = replaced_package r p ∷ ps;
            result = record {
              package_name = trim_space r.package_name;
              before = p.artifact;
              after = replaced_artifact r p.artifact;
              version_from = p.version;
              version_to = set_text r.version p.version;
            };
          }))
      else (further
          >>= (λ rest. ok (record { packages = p ∷ rest.packages; result = rest.result })))

  -- The loop over the replacements, from the index `i`, with the names that it has seen and the results.
  unfoldable pub replace_packages :
      ℕ
      → List String
      → List ArtifactReplacement
      → List Package
      → Result (List Package × List ArtifactReplacementResult)
  replace_packages i seen [] ps = ok (ps, [])
  replace_packages i seen (r ∷ rs) ps = do
    fail_if (trim_space r.package_name == "")
        (errorf "replacements[%d]: package name cannot be empty" (num i ∷ []))
    fail_if (contains (trim_space r.package_name) seen) (
        errorf "replacements[%d]: duplicate package %q"
          (num i ∷ text (trim_space r.package_name) ∷ []))
    here ← replace_package i r ps
    rest ← replace_packages (i + 1) (trim_space r.package_name ∷ seen) rs here.packages
    ok (rest.0, here.result ∷ rest.1)

  unfoldable pub apply_artifact_replacements :
      Bom → List ArtifactReplacement → Result (Bom × List ArtifactReplacementResult)
  apply_artifact_replacements b rs = do
    done ← replace_packages 0 [] rs b.spec.packages
    ok (record b { spec = record (b.spec) { packages = done.0 } }, done.1)
