-- ===== src/Bom/Derive/Replacements.antt =====
-- What the replacements of artifacts make of the packages, and what their results say.
use sealos_lifecycle.Base.{
  ℕ, ◌+◌, ◌≤◌, ◌≡◌, refl, ap, sym, subst, ◌∙◌, ◌≢◌, Listed, contains, inl, inr, String, ◌==◌,
  string_eq, if◌then◌else◌, false, Option, List, [], ◌∷◌, map, Error, trim_space, count, ap₂, ok,
  Result-cases, arith,
}
use sealos_lifecycle.Bom.Types.{Package}
use sealos_lifecycle.Bom.Validate.{validate_artifact}
use sealos_lifecycle.Bom.Derive.{
  ArtifactReplacement, ArtifactReplacementResult, replaced_artifact, replaced_package, set_text,
  Replaced, replace_package, replace_packages,
}

-- What a value of a replacement leaves of the old one: a blank one says nothing.
abbrev pub or_old : String → String → String
or_old value old = if trim_space value == "" then old else trim_space value

-- The package that a replacement asks for: its version, the path and the digest of its source, and
-- the name, the image and the digest of its artifact are those of the replacement.
abbrev pub wanted_package : ArtifactReplacement → Package → Package
wanted_package r p = record {
  category = p.category;
  name = p.name;
  version = or_old r.version p.version;
  source = record {
    path = or_old r.source_path p.source.path;
    digest = or_old r.source_digest p.source.digest;
  };
  build = p.build;
  artifact = record {
    name = or_old r.artifact_name p.artifact.name;
    image = or_old r.image p.artifact.image;
    digest = or_old r.digest p.artifact.digest;
    platform = p.artifact.platform;
    source = p.artifact.source;
  };
  dependencies = p.dependencies;
  required = p.required;
}

-- The package `p` after one replacement, and after several.
abbrev pub replace_one : ArtifactReplacement → Package → Package
replace_one r p = if p.name == trim_space r.package_name then wanted_package r p else p

abbrev pub replace_by : List ArtifactReplacement → Package → Package
replace_by [] p = p
replace_by (r ∷ rs) p = replace_by rs (replace_one r p)

replace_one-none :
    (r : ArtifactReplacement) (ps : List Package)
    → count (trim_space r.package_name) (map (λ p. p.name) ps) ≡ 0
    → map (λ p. replace_one r p) ps ≡ ps
replace_one-none r [] h = refl
replace_one-none r (p ∷ ps) h =
    let here : replace_one r p ≡ p = ground arith in
    ap₂ (λ q qs. q ∷ qs) here (replace_one-none r ps (ground arith))

replace_one-name : (r : ArtifactReplacement) (p : Package) → (replace_one r p).name ≡ p.name
replace_one-name r p = ground arith

replace_one-Listed :
    (r : ArtifactReplacement) (ps : List Package) (q : Package)
    → Listed q (map (λ p. replace_one r p) ps)
    → q.name ≢ trim_space r.package_name
    → Listed q ps
replace_one-Listed r [] q m n = elim m [ ]
replace_one-Listed r (p ∷ ps) q (inr m) n = inr (replace_one-Listed r ps q m n)
replace_one-Listed r (p ∷ ps) q (inl e) n =
    elim (string_eq.dec p.name (trim_space r.package_name)) [
      | yes same ↦ absurd (n (ap (λ (x : Package). x.name) e ∙ replace_one-name r p ∙ same))
      | no other ↦ inl (e ∙ ground arith)
    ]

-- What the result of a replacement says: the artifact and the version of the package of its name
-- before and after.
pub record IsReported (ps : List Package) (r : ArtifactReplacement) (x : ArtifactReplacementResult)
    : Type 0 where
  pub subject : Package
  pub listed : Listed subject ps
  pub named : subject.name ≡ trim_space r.package_name
  pub says : x ≡ record {
    package_name = subject.name;
    before = subject.artifact;
    after = (wanted_package r subject).artifact;
    version_from = subject.version;
    version_to = (wanted_package r subject).version;
  }

-- Each replacement has its result, in their order.
abbrev pub AreReported :
    List Package → List ArtifactReplacement → List ArtifactReplacementResult → Type 0
AreReported ps [] [] = Unit
AreReported ps [] (x ∷ xs) = ⊥
AreReported ps (r ∷ rs) [] = ⊥
AreReported ps (r ∷ rs) (x ∷ xs) = IsReported ps r x × AreReported ps rs xs

names-replace_one :
    (r : ArtifactReplacement) (ps : List Package)
    → map (λ p. p.name) (map (λ p. replace_one r p) ps) ≡ map (λ p. p.name) ps
names-replace_one r [] = refl
names-replace_one r (p ∷ ps) = ap₂ (λ x xs. x ∷ xs) (replace_one-name r p) (names-replace_one r ps)

fuse :
    (r : ArtifactReplacement) (rs : List ArtifactReplacement) (ps : List Package)
    → map (λ p. replace_by rs p) (map (λ p. replace_one r p) ps)
      ≡ map (λ p. replace_by (r ∷ rs) p) ps
fuse r rs [] = refl
fuse r rs (p ∷ ps) = ap (λ qs. replace_by (r ∷ rs) p ∷ qs) (fuse r rs ps)

map-id : (ps : List Package) → map (λ p. replace_by [] p) ps ≡ ps
map-id [] = refl
map-id (p ∷ ps) = ap (λ qs. p ∷ qs) (map-id ps)

module _ (clean : String → String) (parse_digest : String → Option Error) where
  -- A replacement in a package that is there: its result, and the packages after it.
  replace_package-here :
      (i : ℕ) (r : ArtifactReplacement) (p : Package) (ps : List Package) (done : Replaced)
      → p.name ≡ trim_space r.package_name
      → replace_package clean parse_digest i r (p ∷ ps) ≡ ok done
      → (done.packages ≡ wanted_package r p ∷ ps) × IsReported (p ∷ ps) r done.result
  unfolding replace_package replaced_package replaced_artifact set_text
  replace_package-here i r p ps done e h =
      elim (Result-cases (validate_artifact clean parse_digest (replaced_artifact r p.artifact))) [
        | inl (u, valid) ↦ (
          ground arith,
          record { subject = p; listed = inl refl; named = e; says = ground arith },
        )
        | inr (failure, invalid) ↦ absurd (ground arith)
      ]

  replace_package-eq-map :
      (i : ℕ) (r : ArtifactReplacement) (ps : List Package) (done : Replaced)
      → ((x : String) → count x (map (λ p. p.name) ps) ≤ 1)
      → replace_package clean parse_digest i r ps ≡ ok done
      → (done.packages ≡ map (λ p. replace_one r p) ps) × IsReported ps r done.result
  unfolding replace_package
  replace_package-eq-map i r [] done u h = absurd (ground arith)
  replace_package-eq-map i r (p ∷ ps) done u h =
      elim (string_eq.dec p.name (trim_space r.package_name)) [
        | yes e ↦
            let none_left : count (trim_space r.package_name) (map (λ p. p.name) ps) ≡ 0 =
              ground (arith, u (trim_space r.package_name)) in
            let rest = replace_one-none r ps none_left in
            let here : replace_one r p ≡ wanted_package r p = ground arith in
            let (packages, reported) = replace_package-here i r p ps done e h in
            (rw packages (rw here (rw rest refl)), reported)
        | no n ↦ elim (Result-cases (replace_package clean parse_digest i r ps)) [
          | inl (rest, e) ↦
              let (below, report) =
                replace_package-eq-map i r ps rest (λ x. ground (arith, u x)) e in
              let here : replace_one r p ≡ p = ground arith in
              let packages : done.packages ≡ p ∷ rest.packages = ground arith in
              let same : rest.result ≡ done.result = ground arith in
              (
                rw packages (rw here (ap (λ qs. p ∷ qs) below)),
                record {
                  subject = report.subject;
                  listed = inr report.listed;
                  named = report.named;
                  says = sym same ∙ report.says;
                },
              )
          | inr (failure, e) ↦ absurd (ground arith)
        ]
      ]

  pub replace_packages-eq-map :
      (original : List Package) (i : ℕ) (seen : List String) (rs : List ArtifactReplacement)
      (ps ps' : List Package) (results : List ArtifactReplacementResult)
      → ((q : Package) → Listed q ps → contains q.name seen ≡ false → Listed q original)
      → ((x : String) → count x (map (λ p. p.name) ps) ≤ 1)
      → replace_packages clean parse_digest i seen rs ps ≡ ok (ps', results)
      → (ps' ≡ map (λ p. replace_by rs p) ps) × AreReported original rs results
  unfolding replace_packages
  replace_packages-eq-map original i seen [] ps ps' results k u h =
      let none_left : [] ≡ results = ground arith in
      (ground (arith, map-id ps), subst (AreReported original []) none_left tt)
  replace_packages-eq-map original i seen (r ∷ rs) ps ps' results k u h =
      let name = trim_space r.package_name in
      let fresh : contains name seen ≡ false = ground arith in
      elim (Result-cases (replace_package clean parse_digest i r ps)) [
        | inl (done, e) ↦
            elim (Result-cases
              (replace_packages clean parse_digest (i + 1) (name ∷ seen) rs done.packages)) [
                | inl ((qs, more), e') ↦
                    let (first, report) = replace_package-eq-map i r ps done u e in
                    let unique : (x : String) → count x (map (λ p. p.name) done.packages) ≤ 1 =
                      λ x. rw first (rw (names-replace_one r ps) (u x)) in
                    let kept : (q : Package)
                        → Listed q done.packages
                        → contains q.name (name ∷ seen) ≡ false
                        → Listed q original =
                      λ q m n.
                        k q
                          (replace_one-Listed r ps q
                            (subst (λ (xs : List Package). Listed q xs) first m) (ground arith))
                          (ground arith) in
                    let (second, reports) =
                      replace_packages-eq-map original (i + 1) (name ∷ seen) rs done.packages qs
                        more kept unique e' in
                    let same : ps' ≡ qs = ground arith in
                    let whole : done.result ∷ more ≡ results = ground arith in
                    let unseen : contains report.subject.name seen ≡ false =
                      rw report.named fresh in
                    let here : IsReported original r done.result = record {
                      subject = report.subject;
                      listed = k report.subject report.listed unseen;
                      named = report.named;
                      says = report.says;
                    } in
                    (
                      rw same (rw second (rw first (fuse r rs ps))),
                      subst (AreReported original (r ∷ rs)) whole (here, reports),
                    )
                | inr (failure, e') ↦ absurd (ground arith)
              ]
        | inr (failure, e) ↦ absurd (ground arith)
      ]
