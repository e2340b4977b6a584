-- ===== src/Packageformat/Laws.antt =====
-- What a valid component package has.
use sealos_lifecycle.Base.{
  ℕ, ◌+◌, ◌≤◌, ◌≡◌, ◌↔◌, ◌≢◌, inl, inr, refl, false, has_prefix, String, contains, string_eq,
  if◌then◌else◌, true, List, [], ◌∷◌, map, ok, Listed, count, arith,
}
use sealos_lifecycle.Packageformat.Types.{
  class_rootfs, content_rootfs, Input, Content, Hook, GeneratedHostPathOutput, Spec,
  ComponentPackage,
}
use sealos_lifecycle.Packageformat.Validate.{
  validate_class, validate_rootfs, has_rootfs_content, validate_relative_path, validate_content,
  validate_input, validate_hook, validate_dependencies, validate_inputs, validate_contents,
  validate_hooks, validate_host_paths, validate_spec, validate,
}

-- A path that names something within the directory that it is relative to: it does not start at the
-- root, and what `path.Clean` makes of it is not the directory itself and does not go up from it.
pub record IsInside (clean : String → String) (path : String) : Type 0 where
  pub some_path : path ≢ ""
  pub relative : has_prefix path "/" ≡ false
  pub below : (clean path ≢ "") × (clean path ≢ ".")
  pub not_above : (clean path ≢ "..") × (has_prefix (clean path) "../" ≡ false)

-- The names and the paths of a package are unambiguous, and its class tells whether it has a root file system.
pub record IsWellFormed (clean : String → String) (s : Spec) : Type 0 where
  pub dependencies : (x : String) → count x (map (λ d. d.name) s.dependencies) ≤ 1
  pub input_names : (x : String) → count x (map (λ i. i.name) s.inputs) ≤ 1
  pub input_paths : (x : String) → count x (map (λ i. i.path) s.inputs) ≤ 1
  pub content_names : (x : String) → count x (map (λ c. c.name) s.contents) ≤ 1
  pub content_paths : (x : String) → count x (map (λ c. c.path) s.contents) ≤ 1
  pub hook_names : (x : String) → count x (map (λ h. h.name) s.hooks) ≤ 1
  pub host_paths :
      (x : String) → count x (map (λ o. o.host_path) s.generated_outputs.host_paths) ≤ 1
  pub inputs_inside : (i : Input) → Listed i s.inputs → IsInside clean i.path
  pub contents_inside : (c : Content) → Listed c s.contents → IsInside clean c.path
  pub hooks_inside : (h : Hook) → Listed h s.hooks → IsInside clean h.path
  pub has_rootfs :
      (s.package_class ≡ class_rootfs)
      ↔ ((c : Content) × Listed c s.contents × (c.content_type ≡ content_rootfs))

dependencies_once :
    (i : ℕ) (seen : List String) (ds : List _) (x : String)
    → validate_dependencies i seen ds ≡ ok tt
    → count x (map (λ d. d.name) ds) ≤ (if contains x seen then 0 else 1)
unfolding validate_dependencies
dependencies_once i seen [] x h = omega arith
dependencies_once i seen (d ∷ ds) x h =
    ground (arith, dependencies_once (i + 1) (d.name ∷ seen) ds x)

rootfs_of_content :
    (cs : List Content)
    → has_rootfs_content cs ≡ true
    → (c : Content) × Listed c cs × (c.content_type ≡ content_rootfs)
unfolding has_rootfs_content
rootfs_of_content [] h = cc
rootfs_of_content (c ∷ cs) h = elim (string_eq.dec c.content_type content_rootfs) [
  | yes p ↦ (c, inl refl, p)
  | no n ↦ let (d, m, e) = rootfs_of_content cs (ground arith) in (d, inr m, e)
]

content_of_rootfs :
    (cs : List Content) (c : Content)
    → Listed c cs
    → c.content_type ≡ content_rootfs
    → has_rootfs_content cs ≡ true
unfolding has_rootfs_content
content_of_rootfs [] c m e = elim m [ ]
content_of_rootfs (d ∷ cs) c (inl here) e = ground arith
content_of_rootfs (d ∷ cs) c (inr m) e = ground (arith, content_of_rootfs cs c m e)

rootfs_exactly :
    (s : Spec)
    → validate_class s.package_class ≡ ok tt
    → validate_rootfs s.package_class (has_rootfs_content s.contents) ≡ ok tt
    → (s.package_class ≡ class_rootfs) ↔ (has_rootfs_content s.contents ≡ true)
unfolding validate_class validate_rootfs
rootfs_exactly s h k = (λ e. ground arith, λ e. ground arith)

module _ (clean : String → String) where
  inputs_once :
      (i : ℕ) (names paths : List String) (is : List Input) (x : String)
      → validate_inputs clean i names paths is ≡ ok tt
      → (count x (map (λ i. i.name) is) ≤ (if contains x names then 0 else 1))
        × (count x (map (λ i. i.path) is) ≤ (if contains x paths then 0 else 1))
  unfolding validate_inputs
  inputs_once i names paths [] x h = (omega arith, omega arith)
  inputs_once i names paths (y ∷ is) x h =
      ground (arith, inputs_once (i + 1) (y.name ∷ names) (y.path ∷ paths) is x)

  contents_once :
      (i : ℕ) (names paths : List String) (cs : List Content) (x : String)
      → validate_contents clean i names paths cs ≡ ok tt
      → (count x (map (λ c. c.name) cs) ≤ (if contains x names then 0 else 1))
        × (count x (map (λ c. c.path) cs) ≤ (if contains x paths then 0 else 1))
  unfolding validate_contents
  contents_once i names paths [] x h = (omega arith, omega arith)
  contents_once i names paths (c ∷ cs) x h =
      ground (arith, contents_once (i + 1) (c.name ∷ names) (c.path ∷ paths) cs x)

  validate_relative_path-IsInside :
      (path : String) → validate_relative_path clean "path" path ≡ ok tt → IsInside clean path
  unfolding validate_relative_path
  validate_relative_path-IsInside path h = record {
    some_path = ground arith;
    relative = ground arith;
    below = (ground arith, ground arith);
    not_above = (ground arith, ground arith);
  }

  inputs-IsInside :
      (i : ℕ) (names paths : List String) (xs : List Input) (x : Input)
      → validate_inputs clean i names paths xs ≡ ok tt
      → Listed x xs
      → IsInside clean x.path
  unfolding validate_inputs validate_input
  inputs-IsInside i names paths [] x h m = elim m [ ]
  inputs-IsInside i names paths (y ∷ ys) x h (inl e) =
      rw e (validate_relative_path-IsInside y.path (ground arith))
  inputs-IsInside i names paths (y ∷ ys) x h (inr m) =
      inputs-IsInside (i + 1) (y.name ∷ names) (y.path ∷ paths) ys x (ground arith) m

  contents-IsInside :
      (i : ℕ) (names paths : List String) (xs : List Content) (x : Content)
      → validate_contents clean i names paths xs ≡ ok tt
      → Listed x xs
      → IsInside clean x.path
  unfolding validate_contents validate_content
  contents-IsInside i names paths [] x h m = elim m [ ]
  contents-IsInside i names paths (y ∷ ys) x h (inl e) =
      rw e (validate_relative_path-IsInside y.path (ground arith))
  contents-IsInside i names paths (y ∷ ys) x h (inr m) =
      contents-IsInside (i + 1) (y.name ∷ names) (y.path ∷ paths) ys x (ground arith) m

  hooks-IsInside :
      (i : ℕ) (names : List String) (xs : List Hook) (x : Hook)
      → validate_hooks clean i names xs ≡ ok tt
      → Listed x xs
      → IsInside clean x.path
  unfolding validate_hooks validate_hook
  hooks-IsInside i names [] x h m = elim m [ ]
  hooks-IsInside i names (y ∷ ys) x h (inl e) =
      rw e (validate_relative_path-IsInside y.path (ground arith))
  hooks-IsInside i names (y ∷ ys) x h (inr m) =
      hooks-IsInside (i + 1) (y.name ∷ names) ys x (ground arith) m

  hooks_once :
      (i : ℕ) (names : List String) (hs : List Hook) (x : String)
      → validate_hooks clean i names hs ≡ ok tt
      → count x (map (λ h. h.name) hs) ≤ (if contains x names then 0 else 1)
  unfolding validate_hooks
  hooks_once i names [] x h = omega arith
  hooks_once i names (y ∷ hs) x h = ground (arith, hooks_once (i + 1) (y.name ∷ names) hs x)

  host_paths_once :
      (i : ℕ) (seen : List String) (os : List GeneratedHostPathOutput) (x : String)
      → validate_host_paths clean i seen os ≡ ok tt
      → count x (map (λ o. o.host_path) os) ≤ (if contains x seen then 0 else 1)
  unfolding validate_host_paths
  host_paths_once i seen [] x h = omega arith
  host_paths_once i seen (o ∷ os) x h =
      ground (arith, host_paths_once (i + 1) (o.host_path ∷ seen) os x)

  validate_spec-checks :
      (s : Spec)
      → validate_spec clean s ≡ ok tt
      → (validate_class s.package_class ≡ ok tt)
        × (validate_dependencies 0 [] s.dependencies ≡ ok tt)
        × (validate_inputs clean 0 [] [] s.inputs ≡ ok tt)
        × (validate_contents clean 0 [] [] s.contents ≡ ok tt)
        × (validate_hooks clean 0 [] s.hooks ≡ ok tt)
        × (validate_host_paths clean 0 [] s.generated_outputs.host_paths ≡ ok tt)
        × (validate_rootfs s.package_class (has_rootfs_content s.contents) ≡ ok tt)
  unfolding validate_spec
  validate_spec-checks s h = (
    ground arith,
    ground arith,
    ground arith,
    ground arith,
    ground arith,
    ground arith,
    ground arith,
  )

  -- In a valid component package no two dependencies, contents, hooks or inputs have one name, no two
  -- contents or inputs have one path, and no two generated outputs have one host path. The path of each content,
  -- input and hook is relative, and what it is cleaned to is not the package itself and does not lead out
  -- of it. The package is of class rootfs exactly if it has a content of type rootfs.
  pub validate-IsWellFormed :
      (p : ComponentPackage) → validate clean p ≡ ok tt → IsWellFormed clean p.spec
  unfolding validate
  validate-IsWellFormed p h =
      let s = p.spec in
      let (cls, ds, is, cs, hs, os, root) = validate_spec-checks s (ground arith) in
      let (there, back) = rootfs_exactly s cls root in
      record {
        dependencies = λ x. ground (arith, dependencies_once 0 [] s.dependencies x ds);
        input_names = λ x. ground (arith, inputs_once 0 [] [] s.inputs x is);
        input_paths = λ x. ground (arith, inputs_once 0 [] [] s.inputs x is);
        content_names = λ x. ground (arith, contents_once 0 [] [] s.contents x cs);
        content_paths = λ x. ground (arith, contents_once 0 [] [] s.contents x cs);
        hook_names = λ x. ground (arith, hooks_once 0 [] s.hooks x hs);
        host_paths = λ x. ground (arith, host_paths_once 0 [] s.generated_outputs.host_paths x os);
        inputs_inside = λ i m. inputs-IsInside 0 [] [] s.inputs i is m;
        contents_inside = λ c m. contents-IsInside 0 [] [] s.contents c cs m;
        hooks_inside = λ h m. hooks-IsInside 0 [] s.hooks h hs m;
        has_rootfs = (
          λ e. rootfs_of_content s.contents (there e),
          λ (c, m, e). back (content_of_rootfs s.contents c m e),
        );
      }
