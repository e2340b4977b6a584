-- ===== src/Bom/Derive/Laws.antt =====
-- What a derived bill of materials keeps, and what its labels are.
use sealos_lifecycle.Base.{
  ◌≤◌, ◌≡◌, refl, subst, inl, inr, String, ◌==◌, string_eq, if◌then◌else◌, false, Option, none,
  some, List, [], ◌∷◌, map, Error, less, insert_by, sort_by, trim_space, count, count-map-sort_by,
  ok, Result-cases, arith,
}
use sealos_lifecycle.Bom.Types.{Bom}
use sealos_lifecycle.Bom.Validate.{validate}
use sealos_lifecycle.Bom.Laws.{names_once}
use sealos_lifecycle.Bom.Derive.{
  Labels, put_label, delete_label, override_labels, line_label, revision_label,
  merge_derived_labels, ArtifactReplacement, ArtifactReplacementResult, replace_packages,
  apply_artifact_replacements,
}
use sealos_lifecycle.Bom.Derive.Replacements.{replace_by, AreReported, replace_packages-eq-map}

-- `labels[key]`
unfoldable pub lookup : String → Labels → Option String
lookup key [] = none
lookup key ((k, v) ∷ labels) = if key == k then some v else lookup key labels

lookup-put_label :
    (x key value : String) (labels : Labels)
    → lookup x (put_label key value labels) ≡ (if x == key then some value else lookup x labels)
unfolding put_label lookup
lookup-put_label x key value [] = ground arith
lookup-put_label x key value ((k, v) ∷ labels) = ground (arith, lookup-put_label x key value labels)

lookup-delete_label :
    (x key : String) (labels : Labels)
    → lookup x (delete_label key labels) ≡ (if x == key then none else lookup x labels)
unfolding delete_label lookup
lookup-delete_label x key [] = ground arith
lookup-delete_label x key ((k, v) ∷ labels) = ground (arith, lookup-delete_label x key labels)

-- What an override says of a key: no word, to remove it, or its value.
abbrev pub overridden : Option String → Option String → Option String
overridden none old = old
overridden (some value) old = if trim_space value == "" then none else some (trim_space value)

lookup-absent :
    (x : String) (labels : Labels) → count x (map (λ e. e.0) labels) ≡ 0 → lookup x labels ≡ none
unfolding lookup
lookup-absent x [] h = refl
lookup-absent x ((k, v) ∷ labels) h = ground (arith, lookup-absent x labels)

lookup-override_labels :
    (x : String) (override labels : Labels)
    → count x (map (λ e. e.0) override) ≤ 1
    → lookup x (override_labels override labels) ≡ overridden (lookup x override) (lookup x labels)
unfolding override_labels lookup
lookup-override_labels x [] labels u = refl
lookup-override_labels x ((k, v) ∷ rest) labels u =
    let labels' =
      if trim_space v == "" then delete_label k labels else put_label k (trim_space v) labels in
    ground (
      arith,
      lookup-override_labels x rest labels',
      lookup-absent x rest,
      lookup-delete_label x k labels,
      lookup-put_label x k (trim_space v) labels,
    )

IsUnique : Labels → Type 0
IsUnique labels = (y : String) → count y (map (λ e. e.0) labels) ≤ 1

lookup-insert_by :
    (x k v : String) (labels : Labels)
    → count k (map (λ e. e.0) labels) ≡ 0
    → lookup x (insert_by (λ a b. less a.0 b.0) (k, v) labels)
      ≡ (if x == k then some v else lookup x labels)
unfolding insert_by lookup
lookup-insert_by x k v [] u = refl
lookup-insert_by x k v ((k', v') ∷ labels) u = elim (string_eq.dec x k) [
  | yes p ↦
      let other : (x == k') ≡ false = ground arith in ground (arith, lookup-insert_by x k v labels)
  | no n ↦ ground (arith, lookup-insert_by x k v labels)
]

lookup-sort_by :
    (x : String) (labels : Labels)
    → ((y : String) → count y (map (λ e. e.0) labels) ≤ 1)
    → lookup x (sort_by (λ a b. less a.0 b.0) labels) ≡ lookup x labels
unfolding sort_by lookup
lookup-sort_by x [] u = refl
lookup-sort_by x ((k, v) ∷ labels) u =
    let absent : count k (map (λ e. e.0) (sort_by (λ a b. less a.0 b.0) labels)) ≡ 0 =
      ground (arith, u k, count-map-sort_by (λ a b. less a.0 b.0) (λ e. e.0) k labels) in
    ground (
      arith,
      lookup-insert_by x k v (sort_by (λ a b. less a.0 b.0) labels) absent,
      lookup-sort_by x labels (λ y. ground (arith, u y)),
    )

-- The labels of a derived bill of materials: what an override says of a key, where a blank value
-- removes it, and else the line and the revision that it is derived from under their keys, and else the label of the source.
pub lookup-merge_derived_labels :
    (source override : Labels) (line revision x : String)
    → ((y : String) → count y (map (λ e. e.0) override) ≤ 1)
    → lookup x (merge_derived_labels source override line revision)
      ≡ overridden (lookup x override) (
          if x == revision_label
          then some revision
          else if x == line_label
          then some line
          else lookup x source)
unfolding merge_derived_labels
lookup-merge_derived_labels source override line revision x u =
    let derived = put_label revision_label revision (put_label line_label line source) in
    let sorted = sort_by (λ a b. less a.0 b.0) override in
    let once : count x (map (λ e. e.0) sorted) ≤ 1 =
      ground (arith, u x, count-map-sort_by (λ a b. less a.0 b.0) (λ e. e.0) x override) in
    let step = lookup-override_labels x sorted derived once in
    let same = lookup-sort_by x override u in
    let first = lookup-put_label x revision_label revision (put_label line_label line source) in
    let second = lookup-put_label x line_label line source in ground arith

module _ (clean : String → String) (parse_digest : String → Option Error) where
  -- When the replacements are applied without an error to a valid bill of materials, then every
  -- package of it stays in its place, with the version, the source and the artifact that the
  -- replacements of its name ask for and all else as it was, and nothing but the packages changes.
  -- The results tell, for each replacement in their order, the artifact and the version that its
  -- package had in the bill of materials, and those that it has now.
  pub apply_artifact_replacements-eq-map :
      (b b' : Bom) (rs : List ArtifactReplacement) (results : List ArtifactReplacementResult)
      → validate clean parse_digest b ≡ ok tt
      → apply_artifact_replacements clean parse_digest b rs ≡ ok (b', results)
      → (b' ≡ record b {
        spec = record (b.spec) { packages = map (λ p. replace_by rs p) b.spec.packages };
      })
        × AreReported b.spec.packages rs results
  unfolding apply_artifact_replacements
  apply_artifact_replacements-eq-map b b' rs results valid h =
      elim (Result-cases (replace_packages clean parse_digest 0 [] rs b.spec.packages)) [
        | inl ((ps, found), e) ↦
            let (same, reports) =
              replace_packages-eq-map clean parse_digest b.spec.packages 0 [] rs b.spec.packages ps
                found (λ q m n. m) (λ x. names_once clean parse_digest b x valid) e in
            let whole : b' ≡ record b { spec = record (b.spec) { packages = ps } } = ground arith in
            let told : found ≡ results = ground arith in
            (rw whole (rw same refl), subst (AreReported b.spec.packages rs) told reports)
        | inr (failure, e) ↦ absurd (ground arith)
      ]
