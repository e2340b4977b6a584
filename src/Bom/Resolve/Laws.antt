-- ===== src/Bom/Resolve/Laws.antt =====
-- What the resolved packages of a bill of materials are.
use sealos_lifecycle.Base.{
  ℕ, ◌+◌, ◌≡◌, inl, inr, String, string_eq, Option, none, some, List, [], ◌∷◌, Error, Result, ok,
  arith, Listed, Option-cases, Result-cases, ap,
}
use sealos_lifecycle.Packageformat.Types.{ComponentPackage}
use sealos_lifecycle.Bom.Types.{Package, Bom, index_of, package_index}
use sealos_lifecycle.Bom.Validate.{validate}
use sealos_lifecycle.Bom.Laws.{package_index_valid}
use sealos_lifecycle.Bom.Resolve.{
  Resolved, put, reference, resolve_packages, resolve_component_packages,
}

module _ (load : String → Result ComponentPackage) where
  -- The loaded package of `p`, with the component and the version that `p` asks for.
  abbrev pub IsResolved : Package → Option ComponentPackage → Type 0
  IsResolved p found =
      (pkg : ComponentPackage) × (found ≡ some pkg)
      × (load (reference p.artifact) ≡ ok pkg)
      × (pkg.spec.component ≡ p.name)
      × (pkg.spec.version ≡ p.version)

  step-inv :
      (i : ℕ) (p : Package) (ps : List Package) (m m' : Resolved)
      → resolve_packages load i (p ∷ ps) m ≡ ok m'
      → (pkg : ComponentPackage) × (load (reference p.artifact) ≡ ok pkg)
        × (pkg.spec.component ≡ p.name)
        × (pkg.spec.version ≡ p.version)
        × (resolve_packages load (i + 1) ps (put p.name pkg m) ≡ ok m')
  unfolding resolve_packages
  step-inv i p ps m m' h = elim (Result-cases (load (reference p.artifact))) [
    | inl (pkg, e) ↦ (pkg, e, ground arith, ground arith, ground arith)
    | inr (e, failed) ↦ absurd (ground arith)
  ]

  nil-inv : (i : ℕ) (m m' : Resolved) → resolve_packages load i [] m ≡ ok m' → m' ≡ m
  unfolding resolve_packages
  nil-inv i m m' h = cc

  resolve_packages-absent :
      (i : ℕ) (ps : List Package) (m m' : Resolved) (name : String)
      → resolve_packages load i ps m ≡ ok m'
      → index_of ps name ≡ none
      → m' name ≡ m name
  unfolding index_of
  resolve_packages-absent i [] m m' name h a =
      ap (λ (found : Resolved). found name) (nil-inv i m m' h)
  resolve_packages-absent i (p ∷ ps) m m' name h a =
      let (pkg, _, _, _, rest) = step-inv i p ps m m' h in
      let below = resolve_packages-absent (i + 1) ps (put p.name pkg m) m' name rest in
      ground (arith, below)

  resolve_packages-index_of :
      (i : ℕ) (ps : List Package) (m m' : Resolved) (name : String) (p : Package)
      → resolve_packages load i ps m ≡ ok m'
      → index_of ps name ≡ some p
      → IsResolved p (m' name)
  unfolding index_of
  resolve_packages-index_of i [] m m' name p h a = cc
  resolve_packages-index_of i (q ∷ ps) m m' name p h a =
      let (pkg, loaded, named, versioned, rest) = step-inv i q ps m m' h in
      elim (Option-cases (index_of ps name)) [
        | inl missing ↦
            let below =
              resolve_packages-absent (i + 1) ps (put q.name pkg m) m' name rest missing in
            let same : q ≡ p = ground arith in
            (pkg, ground (arith, below), ground arith, ground arith, ground arith)
        | inr (r, found) ↦
            resolve_packages-index_of (i + 1) ps (put q.name pkg m) m' name p rest (ground arith)
      ]

  module _ (clean : String → String) (parse_digest : String → Option Error) where
    -- When the component packages of a bill of materials are resolved without an error, every package
    -- of it has one: what the loader returns for the reference of the package's own artifact, and it
    -- is of the component and the version that the package names.
    pub resolve_component_packages-IsResolved :
        (b : Bom) (m : Resolved) (p : Package)
        → resolve_component_packages load clean parse_digest b ≡ ok m
        → Listed p b.spec.packages
        → IsResolved p (m p.name)
    unfolding resolve_component_packages package_index
    resolve_component_packages-IsResolved b m p h l =
        let valid : validate clean parse_digest b ≡ ok tt = ground arith in
        resolve_packages-index_of 0 b.spec.packages (λ name. none) m p.name p (rw valid at h)
          (package_index_valid clean parse_digest b p valid l)
