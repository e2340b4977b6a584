-- ===== src/Hydrate/Steps/Laws.antt =====
-- The order of the steps of a component.
use mathlib.Core.List.{Permᴰ}
use mathlib.Core.List.Permᴰ
use sealos_lifecycle.Base.{
  ℕ, ◌+◌, ◌≤◌, ◌≡◌, refl, ap, String, ◌==◌, string_eq, if◌then◌else◌, Bool, true, false, List, [],
  ◌∷◌, ◌++◌, map, is_negative, sort_by, sort_by-Perm, pos, All, inl, inr, Listed, Listed-sort_by,
  ok, IsAscending, IsAscending-append, sort_by-IsAscending, arith,
}
use sealos_lifecycle.Packageformat.Types.{
  class_rootfs, content_rootfs, Content, Hook, ComponentPackage,
}
use sealos_lifecycle.Packageformat.Validate.{validate}
use sealos_lifecycle.Packageformat.Laws.{validate-IsWellFormed}
use sealos_lifecycle.Hydrate.Steps.{
  sort_func, Step, step_content, compare_int, content_rank, hook_phase_rank, compare_contents,
  compare_hooks, content_step, hook_step, build_steps,
}

-- When a step is due: the contents, by their type, and then the hooks, by their phase.
abbrev pub due : Step → ℕ
due s =
    if s.kind == step_content
    then content_rank s.content_type
    else 101 + hook_phase_rank s.hook_phase

content_rank_bound : (t : String) → content_rank t ≤ 100
unfolding content_rank
content_rank_bound t = ground arith

compare_contents-rank :
    (a b : Content) (r : Bool)
    → is_negative (compare_contents a b) ≡ r
    → (if r
        then content_rank a.content_type ≤ content_rank b.content_type
        else content_rank b.content_type ≤ content_rank a.content_type)
unfolding compare_contents compare_int
compare_contents-rank a b true h = ground arith
compare_contents-rank a b false h = ground arith

compare_hooks-rank :
    (a b : Hook) (r : Bool)
    → is_negative (compare_hooks a b) ≡ r
    → (if r
        then hook_phase_rank a.phase ≤ hook_phase_rank b.phase
        else hook_phase_rank b.phase ≤ hook_phase_rank a.phase)
unfolding compare_hooks compare_int
compare_hooks-rank a b true h = ground arith
compare_hooks-rank a b false h = ground arith

-- `map` of a field over the steps of contents and of hooks.
map-steps {κ} :
    {B : Type κ} (f : Step → B) (cs : List Content) (hs : List Hook)
    → map f (map content_step cs ++ map hook_step hs)
      ≡ map (λ c. f (content_step c)) cs ++ map (λ h. f (hook_step h)) hs
map-steps f [] [] = refl
map-steps f [] (h ∷ hs) = ap (λ rest. f (hook_step h) ∷ rest) (map-steps f [] hs)
map-steps f (c ∷ cs) hs = ap (λ rest. f (content_step c) ∷ rest) (map-steps f cs hs)

contents_first : (cs : List Content) → All (λ n. n ≤ 100) (map (λ c. due (content_step c)) cs)
unfolding content_step string_eq
contents_first [] = tt
contents_first (c ∷ cs) = (content_rank_bound c.content_type, contents_first cs)

hooks_last : (hs : List Hook) → All (λ n. 100 ≤ n) (map (λ h. due (hook_step h)) hs)
unfolding hook_step string_eq
hooks_last [] = tt
hooks_last (h ∷ hs) = (omega arith, hooks_last hs)

-- The step that a content entry asks for.
abbrev pub step_of_content : Content → Step
step_of_content c = record {
  name = c.name;
  kind = "content";
  path = c.path;
  content_type = c.content_type;
  hook_phase = "";
  target = "";
  media_type = c.media_type;
  required = c.required;
  args = [];
  timeout_seconds = pos 0;
}

-- The step that a hook asks for.
abbrev pub step_of_hook : Hook → Step
step_of_hook h = record {
  name = h.name;
  kind = "hook";
  path = h.path;
  content_type = "";
  hook_phase = h.phase;
  target = h.target;
  media_type = "";
  required = false;
  args = h.args;
  timeout_seconds = h.timeout_seconds;
}

-- The steps of a component are a permutation of one step for each content entry, with its name, path,
-- type, media type and whether it is required, and one for each hook, with its name, path, phase,
-- target, arguments and timeout. They stand in the order in which they are due: the contents by the
-- rank of their type, then the hooks by the rank of their phase.
pub build_steps_lem :
    (pkg : ComponentPackage)
    → IsAscending (map due (build_steps pkg))
      × Permᴰ
          (build_steps pkg)
          (map step_of_content pkg.spec.contents ++ map step_of_hook pkg.spec.hooks)
unfolding build_steps content_step hook_step string_eq
build_steps_lem pkg =
    let lt_content : Content → Content → Bool = λ a b. is_negative (compare_contents a b) in
    let lt_hook : Hook → Hook → Bool = λ a b. is_negative (compare_hooks a b) in
    let cs = sort_by lt_content pkg.spec.contents in
    let hs = sort_by lt_hook pkg.spec.hooks in
    (
      rw (map-steps due cs hs) (
          IsAscending-append 100 (map (λ c. due (content_step c)) cs)
            (map (λ h. due (hook_step h)) hs) (contents_first cs) (hooks_last hs)
            (sort_by-IsAscending lt_content (λ c. due (content_step c))
              (λ a b. compare_contents-rank a b true) (λ a b. compare_contents-rank a b false)
              pkg.spec.contents)
            (sort_by-IsAscending lt_hook (λ h. due (hook_step h))
              (λ a b e. omega (arith, compare_hooks-rank a b true e))
              (λ a b e. omega (arith, compare_hooks-rank a b false e)) pkg.spec.hooks)),
      Permᴰ.symm (
          Permᴰ.trans
            (Permᴰ.append_right (map step_of_hook pkg.spec.hooks)
              (Permᴰ.map step_of_content (sort_by-Perm lt_content pkg.spec.contents)))
            (Permᴰ.append_left (map step_of_content cs)
              (Permᴰ.map step_of_hook (sort_by-Perm lt_hook pkg.spec.hooks)))),
    )

rank-zero : (t : String) → content_rank t ≡ 0 → t ≡ content_rootfs
unfolding content_rank
rank-zero t h = ground arith

rank-zero-inv : (s : Step) → due s ≡ 0 → (s.kind ≡ step_content) × (s.content_type ≡ content_rootfs)
rank-zero-inv s h = ground (arith, rank-zero s.content_type)

ranks_above :
    (n : ℕ) (ss : List Step) (x : Step) → All (λ m. n ≤ m) (map due ss) → Listed x ss → n ≤ due x
ranks_above n [] x a m = elim m [ ]
ranks_above n (s ∷ ss) x a (inl e) = rw e a.0
ranks_above n (s ∷ ss) x a (inr m) = ranks_above n ss x a.1 m

-- Where some step is due at once, so is the first of an ascending list.
first_due :
    (ss : List Step) (x : Step)
    → IsAscending (map due ss)
    → Listed x ss
    → due x ≡ 0
    → (s : Step) × (rest : List Step) × (ss ≡ s ∷ rest) × (due s ≡ 0)
first_due [] x a m z = elim m [ ]
first_due (s ∷ ss) x a (inl e) z = (s, ss, refl, rw e at z)
first_due (s ∷ ss) x a (inr m) z = (s, ss, refl, omega (arith, ranks_above (due s) ss x a.0 m))

content_step-Listed :
    (cs : List Content) (rest : List Step) (c : Content)
    → Listed c cs
    → Listed (content_step c) (map content_step cs ++ rest)
content_step-Listed [] rest c m = elim m [ ]
content_step-Listed (d ∷ cs) rest c (inl e) = inl (ap content_step e)
content_step-Listed (d ∷ cs) rest c (inr m) = inr (content_step-Listed cs rest c m)

content_due : (c : Content) → c.content_type ≡ content_rootfs → due (content_step c) ≡ 0
unfolding content_step content_rank string_eq
content_due c e = rw e refl

-- The first step of a valid component package of class rootfs is a content of type rootfs.
pub build_steps-rootfs_first :
    (clean : String → String) (pkg : ComponentPackage)
    → validate clean pkg ≡ ok tt
    → pkg.spec.package_class ≡ class_rootfs
    → (s : Step) × (rest : List Step) × (build_steps pkg ≡ s ∷ rest)
      × (s.kind ≡ step_content)
      × (s.content_type ≡ content_rootfs)
unfolding build_steps
build_steps-rootfs_first clean pkg h e =
    let (c, m, t) = (validate-IsWellFormed clean pkg h).has_rootfs.0 e in
    let lt : Content → Content → Bool = λ a b. is_negative (compare_contents a b) in
    let here =
      content_step-Listed (sort_by lt pkg.spec.contents)
        (map hook_step (sort_func compare_hooks pkg.spec.hooks)) c
        (Listed-sort_by lt c pkg.spec.contents m) in
    let (s, rest, same, first) =
      first_due (build_steps pkg) (content_step c) (build_steps_lem pkg).0 here (content_due c t) in
    let (kind, content) = rank-zero-inv s first in (s, rest, same, kind, content)
