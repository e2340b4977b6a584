-- ===== src/Ownership/Value.antt =====
-- A decoded YAML document, Go's `interface{}` over `map[string]interface{}` and `[]interface{}`. The
-- fields of a map stand in the order in which a loop over it meets them, which Go leaves open.
use sealos_lifecycle.Base.{String, Bool}

mutual
  pub data Value : Type 0 where
    null : Value
    str : String → Value
    bool : Bool → Value
    -- A number, by its text: the code reads nothing of it.
    number : String → Value
    list : Items → Value
    object : Fields → Value

  pub data Items : Type 0 where
    nil : Items
    item : Value → Items → Items

  pub data Fields : Type 0 where
    end : Fields
    field : String → Value → Fields → Fields
