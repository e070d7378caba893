-- ===== src/Common/Json.antt =====
-- The values of `Any` that JSON and YAML give: tool arguments, contexts, and tool results.
-- A number is kept as its literal.
use Prim.Native.String.{String}
use mathlib.Core.Bool.{Bool}

mutual
  pub data Json : Type 0 where
    null : Json
    bool : Bool → Json
    number : String → Json
    string : String → Json
    array : Items → Json
    object : Fields → Json

  pub data Items : Type 0 where
    nil : Items
    cons : Json → Items → Items

  pub data Fields : Type 0 where
    end : Fields
    field : String → Json → Fields → Fields
