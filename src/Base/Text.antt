-- ===== src/Base/Text.antt =====
-- What the code uses of Go's package `strings`, on texts as lists of code points. Go compares
-- strings by their bytes in UTF-8, which orders them as their code points do.
use Prim.Native.Nat.{ℕ, compare as compare_ℕ, Ordering}
use Prim.Native.Char.{Char, code}
use Prim.Native.String.{String, compare, ◌++◌ as ◌<>◌}
use mathlib.Core.Bool.{Bool, true, false, ◌&&◌, ◌||◌}
use mathlib.Core.List.{List, [], ◌∷◌}
use text.Mathlib.Text.{starts_with}
use sealos_lifecycle.Base.Equality.{if◌then◌else◌, ◌==◌, string_eq}

leb : ℕ → ℕ → Bool
leb a b = elim (compare_ℕ a b) [ Ordering.gt ↦ false | _ ↦ true ]

eqb : ℕ → ℕ → Bool
eqb a b = elim (compare_ℕ a b) [ Ordering.eq ↦ true | _ ↦ false ]

-- `unicode.IsSpace`
is_space : Char → Bool
unfolding leb eqb
is_space c =
    let n = code c in
    leb 0x9 n && leb n 0xd
    || eqb n 0x20
    || eqb n 0x85
    || eqb n 0xa0
    || eqb n 0x1680
    || leb 0x2000 n && leb n 0x200a
    || eqb n 0x2028
    || eqb n 0x2029
    || eqb n 0x202f
    || eqb n 0x205f
    || eqb n 0x3000

trim_left : String → String
unfolding is_space
trim_left String.[] = String.[]
trim_left (String.◌∷◌ c s) = let rest = trim_left s in if is_space c then rest else String.◌∷◌ c s

-- One character in front of a text that is trimmed on the right.
put_front : Char → String → String
unfolding is_space
put_front c String.[] = if is_space c then String.[] else String.◌∷◌ c String.[]
put_front c (String.◌∷◌ d s) = String.◌∷◌ c (String.◌∷◌ d s)

trim_right : String → String
unfolding put_front
trim_right String.[] = String.[]
trim_right (String.◌∷◌ c s) = put_front c (trim_right s)

-- `strings.TrimSpace`
unfoldable pub trim_space : String → String
unfolding trim_left trim_right
trim_space s = trim_right (trim_left s)

-- `strings.TrimSpace(s) == ""`
unfoldable pub is_blank : String → Bool
unfolding trim_space string_eq
is_blank s = trim_space s == ""

-- `strings.HasPrefix`
abbrev pub has_prefix : String → String → Bool
has_prefix s prefix = starts_with s prefix

-- `strings.Join(parts, separator)`
unfoldable pub join : List String → String → String
join [] separator = ""
join (s ∷ []) separator = s
join (s ∷ t ∷ parts) separator = s <> (separator <> join (t ∷ parts) separator)

-- `s < t`
unfoldable pub less : String → String → Bool
less s t = elim (compare s t) [ Ordering.lt ↦ true | _ ↦ false ]
