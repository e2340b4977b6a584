-- ===== src/Hydrate/Steps.antt =====
-- The steps of a component: `buildSteps` of pkg/distribution/hydrate/plan.go, and the orders that it
-- sorts by. The ranks are never negative.
pub mod Laws
use sealos_lifecycle.Base.{
  ℕ, String, ◌==◌, string_eq, if◌then◌else◌, not, Bool, false, List, [], ◌++◌, map, ℤ, pos, negsuc,
  ltb, is_negative, is_zero, less, sort_by,
}
use sealos_lifecycle.Packageformat.Types.{
  ContentType, content_rootfs, content_manifest, content_chart, content_patch, content_file,
  content_values, content_hook, HookPhase, phase_bootstrap, phase_configure, phase_install,
  phase_upgrade, phase_remove, phase_health, ExecutionTarget, Input, Content, Hook,
  ComponentPackage,
}

abbrev pub StepKind : Type 0
StepKind = String

abbrev pub step_content : StepKind
step_content = "content"

abbrev pub step_hook : StepKind
step_hook = "hook"

pub record Step : Type 0 where
  pub name : String
  pub kind : StepKind
  pub path : String
  pub content_type : ContentType
  pub hook_phase : HookPhase
  pub target : ExecutionTarget
  pub media_type : String
  pub required : Bool
  pub args : List String
  pub timeout_seconds : ℤ

unfoldable pub compare_int : ℕ → ℕ → ℤ
compare_int a b = if ltb a b then negsuc 0 else if ltb b a then pos 1 else pos 0

unfoldable pub compare_string : String → String → ℤ
compare_string a b = if less a b then negsuc 0 else if less b a then pos 1 else pos 0

unfoldable pub content_rank : ContentType → ℕ
content_rank t =
    if t == content_rootfs
    then 0
    else if t == content_file
    then 1
    else if t == content_values
    then 2
    else if t == content_manifest
    then 3
    else if t == content_chart
    then 4
    else if t == content_patch
    then 5
    else if t == content_hook
    then 6
    else 100

unfoldable pub hook_phase_rank : HookPhase → ℕ
hook_phase_rank p =
    if p == phase_bootstrap
    then 0
    else if p == phase_configure
    then 1
    else if p == phase_install
    then 2
    else if p == phase_upgrade
    then 3
    else if p == phase_health
    then 4
    else if p == phase_remove
    then 5
    else 100

unfoldable pub compare_inputs : Input → Input → ℤ
compare_inputs a b =
    if not (a.input_type == b.input_type)
    then compare_string a.input_type b.input_type
    else if not (a.path == b.path)
    then compare_string a.path b.path
    else compare_string a.name b.name

unfoldable pub compare_contents : Content → Content → ℤ
compare_contents a b =
    let rank = compare_int (content_rank a.content_type) (content_rank b.content_type) in
    if not (is_zero rank)
    then rank
    else if not (a.path == b.path)
    then compare_string a.path b.path
    else compare_string a.name b.name

unfoldable pub compare_hooks : Hook → Hook → ℤ
compare_hooks a b =
    let rank = compare_int (hook_phase_rank a.phase) (hook_phase_rank b.phase) in
    if not (is_zero rank)
    then rank
    else if not (a.target == b.target)
    then compare_string a.target b.target
    else if not (a.path == b.path)
    then compare_string a.path b.path
    else compare_string a.name b.name

-- `slices.SortFunc(xs, compare)` compares with `compare(x, y) < 0`.
abbrev pub sort_func {ℓ} : {A : Type ℓ} → (A → A → ℤ) → List A → List A
sort_func compare xs = sort_by (λ a b. is_negative (compare a b)) xs

-- The step of a content entry.
unfoldable pub content_step : Content → Step
content_step c = record {
  name = c.name;
  kind = step_content;
  path = c.path;
  content_type = c.content_type;
  hook_phase = "";
  target = "";
  media_type = c.media_type;
  required = c.required;
  args = [];
  timeout_seconds = pos 0;
}

-- The step of a hook.
unfoldable pub hook_step : Hook → Step
hook_step h = record {
  name = h.name;
  kind = step_hook;
  path = h.path;
  content_type = "";
  hook_phase = h.phase;
  target = h.target;
  media_type = "";
  required = false;
  args = h.args;
  timeout_seconds = h.timeout_seconds;
}

unfoldable pub build_steps : ComponentPackage → List Step
build_steps pkg =
    map content_step (sort_func compare_contents pkg.spec.contents)
    ++ map hook_step (sort_func compare_hooks pkg.spec.hooks)
