-- ===== src/Prelude/Json.antt =====
-- The values of JSON and YAML documents.
use Prim.Native.Nat.{ℕ}
use Prim.Native.String.{String}
use mathlib.Core.Bool.{Bool}
use text.Mathlib.Text.{◌==◌ as str_eq}
use hola.Prelude.Tests.{if◌then◌else◌}

-- A JavaScript value that JSON carries, and `undefined`; an object is its entries in order.
mutual
  pub data Value : Type 0 where
    undefined null : Value
    boolean : Bool → Value
    number : ℕ → Value
    string : String → Value
    array : Values → Value
    object : Members → Value

  pub data Values : Type 0 where
    nil : Values
    cons : Value → Values → Values

  pub data Members : Type 0 where
    none_left : Members
    member : String → Value → Members → Members

-- `o.key`
unfoldable pub field : String → Members → Value
field key none_left = undefined
field key (member k v ms) = let rest = field key ms in if str_eq k key then v else rest
