-- ===== src/State/Conditions.antt =====
-- `upsertCondition` of pkg/distribution/state/store.go, and what it keeps of the conditions.
use sealos_lifecycle.Base.{
  ℕ, ◌+◌, ◌≡◌, refl, String, ◌==◌, contains, string_eq, if◌then◌else◌, false, Option, none, some,
  List, [], ◌∷◌, ok, arith,
}
use sealos_lifecycle.State.Types.{Condition}
use sealos_lifecycle.State.Validate.{validate_condition, validate_conditions}

unfoldable pub upsert_condition : List Condition → Condition → List Condition
upsert_condition [] condition = condition ∷ []
upsert_condition (existing ∷ conditions) condition =
    if existing.condition_type == condition.condition_type
    then condition ∷ conditions
    else existing ∷ upsert_condition conditions condition

-- The condition of a type.
unfoldable pub find_condition : String → List Condition → Option Condition
find_condition k [] = none
find_condition k (c ∷ cs) = if c.condition_type == k then some c else find_condition k cs

-- After an upsert, the condition of its type is the new one, and the condition of every other type
-- is what it was.
pub find_condition-upsert_condition :
    (k : String) (cs : List Condition) (c : Condition)
    → find_condition k (upsert_condition cs c)
      ≡ (if c.condition_type == k then some c else find_condition k cs)
unfolding find_condition upsert_condition
find_condition-upsert_condition k [] c = refl
find_condition-upsert_condition k (e ∷ cs) c =
    ground (arith, find_condition-upsert_condition k cs c)

-- An upsert keeps the conditions valid.
pub validate_conditions-upsert :
    (i : ℕ) (seen : List String) (cs : List Condition) (c : Condition)
    → validate_condition c ≡ ok tt
    → contains c.condition_type seen ≡ false
    → validate_conditions i seen cs ≡ ok tt
    → validate_conditions i seen (upsert_condition cs c) ≡ ok tt
unfolding validate_conditions upsert_condition
validate_conditions-upsert i seen [] c v fresh h = rw (v, fresh)
validate_conditions-upsert i seen (e ∷ cs) c v fresh h =
    ground (arith, validate_conditions-upsert (i + 1) (e.condition_type ∷ seen) cs c v)
