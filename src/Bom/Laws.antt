-- ===== src/Bom/Laws.antt =====
-- What a valid bill of materials has.
use sealos_lifecycle.Base.{
  ℕ, ◌+◌, ◌≤◌, count, if◌then◌else◌, ◌≡◌, refl, ◌≢◌, inl, inr, String, contains, string_eq, true,
  Option, none, some, List, [], ◌∷◌, map, Error, ok, arith, Listed, Option-cases,
}
use sealos_lifecycle.Bom.Types.{identity, Package, Bom, package_index, index_of}
use sealos_lifecycle.Bom.Validate.{
  validate_dependencies, known_dependencies, known_packages, validate_package, validate_packages,
  validate,
}

known_dependencies-contains :
    (i : ℕ) (names ds : List String) (d : String)
    → known_dependencies i names ds ≡ ok tt
    → contains d ds ≡ true
    → contains d names ≡ true
unfolding known_dependencies
known_dependencies-contains i names [] d h m = cc
known_dependencies-contains i names (e ∷ ds) d h m =
    ground (arith, known_dependencies-contains i names ds d)

known_packages-Listed :
    (i : ℕ) (names : List String) (ps : List Package) (p : Package) (d : String)
    → known_packages i names ps ≡ ok tt
    → Listed p ps
    → contains d p.dependencies ≡ true
    → contains d names ≡ true
unfolding known_packages
known_packages-Listed i names [] p d h m c = elim m [ ]
known_packages-Listed i names (q ∷ ps) p d h (inl e) c =
    ground (arith, known_dependencies-contains i names q.dependencies d)
known_packages-Listed i names (q ∷ ps) p d h (inr m) c =
    ground (arith, known_packages-Listed (i + 1) names ps p d)

pub index_of_inv :
    (ps : List Package) (name : String) (q : Package)
    → index_of ps name ≡ some q
    → (q.name ≡ name) × Listed q ps
unfolding index_of
index_of_inv [] name q h = cc
index_of_inv (p ∷ ps) name q h = elim (Option-cases (index_of ps name)) [
  | inl missing ↦ (ground arith, inl (ground arith))
  | inr (r, found) ↦ let below = index_of_inv ps name q (ground arith) in (below.0, inr below.1)
]

pub index_of-contains :
    (ps : List Package) (name : String)
    → contains name (map (λ p. p.name) ps) ≡ true
    → (q : Package) × (index_of ps name ≡ some q)
unfolding index_of
index_of-contains [] name h = cc
index_of-contains (p ∷ ps) name h = elim (Option-cases (index_of ps name)) [
  | inl missing ↦ (p, ground (arith, index_of-contains ps name))
  | inr (q, found) ↦ (q, ground arith)
]

others_only :
    (name : String) (seen ds : List String) (d : String)
    → validate_dependencies name seen ds ≡ ok tt
    → contains d ds ≡ true
    → d ≢ name
unfolding validate_dependencies
others_only name seen [] d h m = cc
others_only name seen (e ∷ ds) d h m = ground (arith, others_only name (e ∷ seen) ds d)

module _ (clean : String → String) (parse_digest : String → Option Error) where
  -- No package of the list has a name that was seen.
  packages_fresh :
      (i : ℕ) (names identities : List String) (ps : List Package) (name : String)
      → validate_packages clean parse_digest i names identities ps ≡ ok tt
      → contains name names ≡ true
      → index_of ps name ≡ none
  unfolding validate_packages index_of
  packages_fresh i names identities [] name h m = refl
  packages_fresh i names identities (p ∷ ps) name h m =
      ground (arith, packages_fresh (i + 1) (p.name ∷ names) (identity p ∷ identities) ps name)

  packages_once :
      (i : ℕ) (names identities : List String) (ps : List Package) (x : String)
      → validate_packages clean parse_digest i names identities ps ≡ ok tt
      → count x (map (λ p. p.name) ps) ≤ (if contains x names then 0 else 1)
  unfolding validate_packages
  packages_once i names identities [] x h = omega arith
  packages_once i names identities (p ∷ ps) x h =
      ground (arith, packages_once (i + 1) (p.name ∷ names) (identity p ∷ identities) ps x)

  -- No two packages of a valid bill of materials have one name.
  pub names_once :
      (b : Bom) (x : String)
      → validate clean parse_digest b ≡ ok tt
      → count x (map (λ p. p.name) b.spec.packages) ≤ 1
  unfolding validate
  names_once b x h = ground (arith, packages_once 0 [] [] b.spec.packages x)

  index_of-Listed :
      (i : ℕ) (names identities : List String) (ps : List Package) (p : Package)
      → validate_packages clean parse_digest i names identities ps ≡ ok tt
      → Listed p ps
      → index_of ps p.name ≡ some p
  unfolding validate_packages index_of
  index_of-Listed i names identities [] p h m = elim m [ ]
  index_of-Listed i names identities (q ∷ ps) p h (inl e) =
      ground (arith, packages_fresh (i + 1) (q.name ∷ names) (identity q ∷ identities) ps q.name)
  index_of-Listed i names identities (q ∷ ps) p h (inr m) =
      ground (arith, index_of-Listed (i + 1) (q.name ∷ names) (identity q ∷ identities) ps p)

  -- In a valid bill of materials, `PackageIndex` finds every package by its name, so that no package
  -- hides another.
  pub package_index_valid :
      (b : Bom) (p : Package)
      → validate clean parse_digest b ≡ ok tt
      → Listed p b.spec.packages
      → package_index b p.name ≡ some p
  unfolding validate package_index
  package_index_valid b p h m = index_of-Listed 0 [] [] b.spec.packages p (ground arith) m

  validate_packages-Listed :
      (i : ℕ) (names identities : List String) (ps : List Package) (p : Package)
      → validate_packages clean parse_digest i names identities ps ≡ ok tt
      → Listed p ps
      → validate_dependencies p.name [] p.dependencies ≡ ok tt
  unfolding validate_packages validate_package
  validate_packages-Listed i names identities [] p h m = elim m [ ]
  validate_packages-Listed i names identities (q ∷ ps) p h (inl e) = ground arith
  validate_packages-Listed i names identities (q ∷ ps) p h (inr m) =
      ground
        (arith, validate_packages-Listed (i + 1) (q.name ∷ names) (identity q ∷ identities) ps p)

  -- In a valid bill of materials, every dependency of a package is another package of it, which
  -- `PackageIndex` finds by the name.
  pub package_index-dependencies :
      (b : Bom) (p : Package) (d : String)
      → validate clean parse_digest b ≡ ok tt
      → Listed p b.spec.packages
      → contains d p.dependencies ≡ true
      → (q : Package) × (package_index b d ≡ some q)
        × Listed q b.spec.packages
        × (q.name ≡ d)
        × (d ≢ p.name)
  unfolding validate package_index
  package_index-dependencies b p d h m c =
      let ps = b.spec.packages in
      let known = known_packages-Listed 0 (map (λ p. p.name) ps) ps p d (ground arith) m c in
      let (q, found) = index_of-contains ps d known in
      let (named, listed) = index_of_inv ps d q found in
      let own = validate_packages-Listed 0 [] [] ps p (ground arith) m in
      (q, found, listed, named, others_only p.name [] p.dependencies d own c)
