-- ===== src/Ownership/Impact/Widening.antt =====
-- A difference without widening changes: what the new policy permits, the old one permitted.
use Prim.Native.Char.{Char, code}
use Prim.Native.String.{◌++◌ as ◌<>◌}
use mathlib.Core.List.{map-append}
use text.Mathlib.TextLemmas.{nil-append, cons-append, cons-eq-cons}
use sealos_lifecycle.Base.{
  ◌≡◌, refl, sym, ◌≢◌, inl, inr, String, contains, string_eq, true, false, ◌||◌, List, [], ◌∷◌,
  ◌++◌, map, arith, All, Bool-cases, Option-cases, none, some, ap, ap₂,
}
use sealos_lifecycle.Ownership.Policy.{LocalPatchPolicy, LocalPatchKindRule, rule_for_kind}
use sealos_lifecycle.Ownership.Paths.{
  FieldPath, path_string, is_forbidden, is_allowed, matches_any, matches_prefix, last_is_in,
  is_metadata_key_in,
}
use sealos_lifecycle.Ownership.Impact.{
  rule_items, allowed_items, kind_path_key, diff_local_patch_policy, has_widening_changes,
}
use sealos_lifecycle.Ownership.Impact.Members.{NulFree, diff_strings-empty, diff_kind_paths-empty}

contains-append :
    (k : String) (xs ys : List String) → contains k (xs ++ ys) ≡ (contains k xs || contains k ys)
contains-append k [] ys = refl
contains-append k (x ∷ xs) ys = ground (arith, contains-append k xs ys)

abbrev nul_char : Char
nul_char = "\0"

nul_front : (s : String) → "\0" <> s ≡ String.◌∷◌ nul_char s
nul_front s = rw (cons-append nul_char String.[] s, nil-append s)

-- A kind without NUL can be read off the key of the set.
key_inj :
    (k j p q : String)
    → NulFree k
    → NulFree j
    → k <> ("\0" <> p) ≡ j <> ("\0" <> q)
    → (k ≡ j) × (p ≡ q)
key_inj String.[] String.[] p q hk hj e =
    let e' = rw (nil-append ("\0" <> p), nil-append ("\0" <> q), nul_front p, nul_front q) at e in
    (refl, (cons-eq-cons.0 e').1)
key_inj String.[] (String.◌∷◌ c j) p q hk hj e =
    let e' = rw (nil-append ("\0" <> p), cons-append c j, nul_front p) at e in
    absurd (hj.0 (ap code (sym (cons-eq-cons.0 e').0)))
key_inj (String.◌∷◌ c k) String.[] p q hk hj e =
    let e' = rw (nil-append ("\0" <> q), cons-append c k, nul_front q) at e in
    absurd (hk.0 (ap code (cons-eq-cons.0 e').0))
key_inj (String.◌∷◌ c k) (String.◌∷◌ d j) p q hk hj e =
    let cut = cons-eq-cons.0 (rw (cons-append c k, cons-append d j) at e) in
    let same = key_inj k j p q hk.1 hj.1 cut.1 in (ap₂ String.◌∷◌ cut.0 same.0, same.1)

abbrev pub UniqueKinds : List LocalPatchKindRule → Type 0
UniqueKinds [] = Unit
UniqueKinds (r ∷ rs) = All (λ q. q.kind ≢ r.kind) rs × UniqueKinds rs

abbrev pub NulFreeKinds : List LocalPatchKindRule → Type 0
NulFreeKinds = All (λ r. NulFree r.kind)

abbrev key_of : String → String → String
key_of kind prefix = kind <> ("\0" <> prefix)

contains-rule_items :
    (kind prefix : String) (prefixes : List String)
    → contains prefix prefixes ≡ true
    → contains
        (key_of kind prefix)
        (map kind_path_key (map (λ q. record { kind = kind; path = q }) prefixes))
      ≡ true
unfolding kind_path_key
contains-rule_items kind prefix [] h = cc
contains-rule_items kind prefix (q ∷ qs) h = ground (arith, contains-rule_items kind prefix qs)

listed_of_rule :
    (rs : List LocalPatchKindRule) (kind prefix : String) (r : LocalPatchKindRule)
    → rule_for_kind rs kind ≡ some r
    → contains prefix r.allowed_prefixes ≡ true
    → contains (key_of kind prefix) (map kind_path_key (allowed_items rs)) ≡ true
unfolding rule_for_kind allowed_items
listed_of_rule [] kind prefix r h m = cc
listed_of_rule (q ∷ rs) kind prefix r h m =
    rw (map-append, contains-append)
      (ground (
        arith,
        listed_of_rule rs kind prefix r,
        contains-rule_items q.kind prefix q.allowed_prefixes,
      ))

rule_items-contains :
    (kind prefix own : String) (prefixes : List String)
    → NulFree kind
    → NulFree own
    → contains
        (key_of kind prefix)
        (map kind_path_key (map (λ q. record { kind = own; path = q }) prefixes))
      ≡ true
    → (kind ≡ own) × (contains prefix prefixes ≡ true)
unfolding kind_path_key
rule_items-contains kind prefix own [] hk ho h = cc
rule_items-contains kind prefix own (q ∷ qs) hk ho h =
    ground (arith, key_inj kind own prefix q hk ho, rule_items-contains kind prefix own qs hk ho)

abbrev HasPrefixRule : List LocalPatchKindRule → String → String → Type 0
HasPrefixRule rs kind prefix =
    (r : LocalPatchKindRule) × (rule_for_kind rs kind ≡ some r)
    × (contains prefix r.allowed_prefixes ≡ true)

rule_for_kind-absent :
    (rs : List LocalPatchKindRule) (kind : String)
    → All (λ q. q.kind ≢ kind) rs
    → rule_for_kind rs kind ≡ none
unfolding rule_for_kind
rule_for_kind-absent [] kind h = refl
rule_for_kind-absent (q ∷ rs) kind h = ground (arith, rule_for_kind-absent rs kind h.1)

rule_of_listed :
    (rs : List LocalPatchKindRule) (kind prefix : String)
    → NulFree kind
    → NulFreeKinds rs
    → UniqueKinds rs
    → contains (key_of kind prefix) (map kind_path_key (allowed_items rs)) ≡ true
    → HasPrefixRule rs kind prefix
unfolding rule_for_kind allowed_items
rule_of_listed [] kind prefix nul nuls u h = cc
rule_of_listed (q ∷ rs) kind prefix nul nuls u h =
    elim (Bool-cases (contains (key_of kind prefix) (map kind_path_key (rule_items q)))) [
      | inl here ↦
          let (same, m) =
            rule_items-contains kind prefix q.kind q.allowed_prefixes nul nuls.0 here in
          (q, ground arith, m)
      | inr elsewhere ↦
          let split : (contains (key_of kind prefix) (map kind_path_key (rule_items q))
                || contains (key_of kind prefix) (map kind_path_key (allowed_items rs)))
              ≡ true =
            rw (map-append, contains-append) at h in
          let (r, found, m) = rule_of_listed rs kind prefix nul nuls.1 u.1 (ground arith) in
          (r, ground (arith, rule_for_kind-absent rs q.kind u.0), m)
    ]

matches_any-contains :
    (current : String) (prefixes : List String)
    → matches_any current prefixes ≡ true
    → (prefix : String) × (contains prefix prefixes ≡ true) × (matches_prefix current prefix ≡ true)
unfolding matches_any
matches_any-contains current [] h = cc
matches_any-contains current (q ∷ qs) h = elim (Bool-cases (matches_prefix current q)) [
  | inl here ↦ (q, ground arith, here)
  | inr there ↦
      let (prefix, m, e) = matches_any-contains current qs (ground arith) in
      (prefix, ground arith, e)
]

matches_any_of_contains :
    (current prefix : String) (prefixes : List String)
    → contains prefix prefixes ≡ true
    → matches_prefix current prefix ≡ true
    → matches_any current prefixes ≡ true
unfolding matches_any
matches_any_of_contains current prefix [] m e = cc
matches_any_of_contains current prefix (q ∷ qs) m e =
    ground (arith, matches_any_of_contains current prefix qs)

abbrev Includes : List String → List String → Type 0
Includes xs ys = (s : String) → contains s xs ≡ true → contains s ys ≡ true

module _ (xs ys : List String) (inc : Includes xs ys) where
  is_metadata_key_in_mono :
      (p : FieldPath) → is_metadata_key_in xs p ≡ true → is_metadata_key_in ys p ≡ true
  unfolding is_metadata_key_in
  is_metadata_key_in_mono (a ∷ b ∷ rest) h = ground (arith, inc b)
  is_metadata_key_in_mono _ h = cc

  last_is_in_mono : (p : FieldPath) → last_is_in xs p ≡ true → last_is_in ys p ≡ true
  unfolding last_is_in
  last_is_in_mono [] h = cc
  last_is_in_mono (s ∷ []) h = inc s h
  last_is_in_mono (s ∷ t ∷ p) h = last_is_in_mono (t ∷ p) h

module _ (old new : LocalPatchPolicy)
    (kept : has_widening_changes (diff_local_patch_policy old new) ≡ false) where
  pub is_forbidden_of_kept : (p : FieldPath) → is_forbidden old p ≡ true → is_forbidden new p ≡ true
  unfolding is_forbidden has_widening_changes diff_local_patch_policy
  is_forbidden_of_kept p h = ground (
    arith,
    diff_strings-empty old.forbidden_exact_paths new.forbidden_exact_paths (path_string p),
    is_metadata_key_in_mono old.forbidden_metadata_keys new.forbidden_metadata_keys
        (λ s.
          diff_strings-empty old.forbidden_metadata_keys new.forbidden_metadata_keys s
            (ground arith))
        p,
    last_is_in_mono old.forbidden_container_fields new.forbidden_container_fields
        (λ s.
          diff_strings-empty old.forbidden_container_fields new.forbidden_container_fields s
            (ground arith))
        p,
  )

  listed_was :
      (kind prefix : String)
      → contains (key_of kind prefix) (map kind_path_key (allowed_items new.kind_rules)) ≡ true
      → contains (key_of kind prefix) (map kind_path_key (allowed_items old.kind_rules)) ≡ true
  unfolding has_widening_changes diff_local_patch_policy
  listed_was kind prefix m = ground (arith, diff_kind_paths-empty new old (key_of kind prefix))

  pub is_allowed_of_kept :
      (kind : String) (p : FieldPath)
      → NulFree kind
      → NulFreeKinds old.kind_rules
      → UniqueKinds old.kind_rules
      → is_allowed new kind p ≡ true
      → is_allowed old kind p ≡ true
  unfolding is_allowed
  is_allowed_of_kept kind p nul nuls u h = elim (Option-cases (rule_for_kind new.kind_rules kind)) [
    | inl missing ↦ absurd (ground arith)
    | inr (r, found) ↦
        let (prefix, m, e) =
          matches_any-contains (path_string p) r.allowed_prefixes (rw found at h) in
        let (q, listed, mq) =
          rule_of_listed old.kind_rules kind prefix nul nuls u
            (listed_was kind prefix (listed_of_rule new.kind_rules kind prefix r found m)) in
        rw listed (matches_any_of_contains (path_string p) prefix q.allowed_prefixes mq e)
  ]
