-- ===== src/Bom/Resolve.antt =====
-- pkg/distribution/bom/resolve.go: loading the component package of every package of a bill of
-- materials. `load` is the `Load` method of a `packageformat.Loader`.
pub mod Laws
use Prim.Native.Char.{Char, code}
use sealos_lifecycle.Base.{
  ℕ, ◌+◌, String, ◌<>◌, ◌==◌, string_eq, nat_eq, if◌then◌else◌, not, Option, none, some, List, [],
  ◌∷◌, Error, text, num, errorf, Result, ok, err, ◌>>=◌, ◌>>◌, fail_if, wrap,
}
use sealos_lifecycle.Packageformat.Types.{ComponentPackage}
use sealos_lifecycle.Bom.Types.{ArtifactReference, Package, Bom}
use sealos_lifecycle.Bom.Validate.{validate}

-- `image[:idx]` for the index of the first "@", and `image` without one.
unfoldable pub before_at : String → String
before_at String.[] = String.[]
before_at (String.◌∷◌ c s) =
    let rest = before_at s in if code c == 0x40 then String.[] else String.◌∷◌ c rest

unfoldable pub reference : ArtifactReference → String
unfolding before_at
reference a = before_at a.image <> ("@" <> a.digest)

-- A map as the function that looks a name up.
abbrev pub Resolved : Type 0
Resolved = String → Option ComponentPackage

-- `resolved[name] = pkg`
abbrev pub put : String → ComponentPackage → Resolved → Resolved
put name pkg resolved other = if name == other then some pkg else resolved other

module _ (load : String → Result ComponentPackage) where
  -- The loop over the packages, from the index `i`.
  unfoldable pub resolve_packages : ℕ → List Package → Resolved → Result Resolved
  resolve_packages i [] resolved = ok resolved
  resolve_packages i (p ∷ ps) resolved = do
    pkg ← wrap "load package %q: %w" (text p.name ∷ []) (load (reference p.artifact))
    fail_if (not (pkg.spec.component == p.name)) (
        errorf "spec.packages[%d]: package component mismatch, got %q want %q"
          (num i ∷ text pkg.spec.component ∷ text p.name ∷ []))
    fail_if (not (pkg.spec.version == p.version)) (
        errorf "spec.packages[%d]: package version mismatch, got %q want %q"
          (num i ∷ text pkg.spec.version ∷ text p.version ∷ []))
    resolve_packages (i + 1) ps (put p.name pkg resolved)

  module _ (clean : String → String) (parse_digest : String → Option Error) where
    unfoldable pub resolve_component_packages : Bom → Result Resolved
    resolve_component_packages b = do
      validate clean parse_digest b
      resolve_packages 0 b.spec.packages (λ name. none)
