-- ===== src/Base/Int.antt =====
-- Go's `int`. `negsuc n` is -(n + 1). The code counts with these numbers, compares and prints them.
use Prim.Native.Nat.{ℕ, zero, suc, ◌/◌, ◌%◌, compare, Ordering}
use Prim.Native.String.{String, ◌++◌ as ◌<>◌}
use mathlib.Core.Path.{ap}
use mathlib.Core.Bool.{Bool, true, false}
use native.Mathlib.Decide.{ℕ_discrete}
use mathlib.Core.List.{List, [], ◌∷◌}
use sealos_lifecycle.Base.Equality.{if◌then◌else◌, Eq}

pub data ℤ : Type 0 where
  pos : ℕ → ℤ
  negsuc : ℕ → ℤ

abbrev magnitude : ℤ → ℕ
magnitude (pos n) = n
magnitude (negsuc n) = n

abbrev pub ltb : ℕ → ℕ → Bool
ltb a b = elim (compare a b) [ Ordering.lt ↦ true | _ ↦ false ]

ℤ_dec : Discrete ℤ
ℤ_dec (pos a) (pos b) = elim (ℕ_discrete a b) [
  | yes p ↦ yes (ap pos p)
  | no n ↦ no (λ q. n (ap magnitude q))
]
ℤ_dec (pos a) (negsuc b) = no (λ q. cc)
ℤ_dec (negsuc a) (pos b) = no (λ q. cc)
ℤ_dec (negsuc a) (negsuc b) = elim (ℕ_discrete a b) [
  | yes p ↦ yes (ap negsuc p)
  | no n ↦ no (λ q. n (ap magnitude q))
]

instance unfoldable pub int_eq : Eq ℤ
unfolding ℤ_dec ℕ_discrete
int_eq = record { dec = ℤ_dec }

-- `value < 0`
abbrev pub is_negative : ℤ → Bool
is_negative (pos n) = false
is_negative (negsuc n) = true

-- `value > 0`
abbrev pub is_positive : ℤ → Bool
is_positive (pos n) = ltb 0 n
is_positive (negsuc n) = false

-- `a < b`
abbrev pub less_ℤ : ℤ → ℤ → Bool
less_ℤ (pos a) (pos b) = ltb a b
less_ℤ (pos a) (negsuc b) = false
less_ℤ (negsuc a) (pos b) = true
less_ℤ (negsuc a) (negsuc b) = ltb b a

-- `value == 0`
abbrev pub is_zero : ℤ → Bool
is_zero (pos n) = elim (compare n 0) [ Ordering.eq ↦ true | _ ↦ false ]
is_zero (negsuc n) = false

-- `value++`
unfoldable pub increment : ℤ → ℤ
increment (pos n) = pos (suc n)
increment (negsuc zero) = pos zero
increment (negsuc (suc n)) = negsuc n

-- `value--`
unfoldable pub decrement : ℤ → ℤ
decrement (pos zero) = negsuc zero
decrement (pos (suc n)) = pos n
decrement (negsuc n) = negsuc (suc n)

digit : List String → ℕ → String
digit [] n = ""
digit (s ∷ names) zero = s
digit (s ∷ names) (suc n) = digit names n

-- The decimal digits of `n`, least last, in front of `rest`. A number is enough fuel for itself.
decimal : ℕ → ℕ → String → String
unfolding digit
decimal zero n rest = rest
decimal (suc fuel) n rest =
    let names = "0" ∷ "1" ∷ "2" ∷ "3" ∷ "4" ∷ "5" ∷ "6" ∷ "7" ∷ "8" ∷ "9" ∷ [] in
    let here = digit names (n % 10) <> rest in
    let more = decimal fuel (n / 10) here in if ltb n 10 then here else more

-- `%d`
unfoldable pub show_ℤ : ℤ → String
unfolding decimal
show_ℤ (pos n) = decimal (suc n) n ""
show_ℤ (negsuc n) = "-" <> decimal (suc (suc n)) (suc n) ""
