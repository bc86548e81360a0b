-- ===== src/Json.antt =====
-- What the JSON of an action and of a reply holds, as far as it is read. A `number` is whole; a
-- `fraction` is any other, kept by its `int(…)`, as are the numbers of an `Item`. A nested table is
-- not looked into, and of the mappings in a list only the numbers are read.
use nttd.Prelude.{String, Bool, Option, List}
use nttd.Prelude.Dict.{Dict}
use nttd.Prelude.Int.{ℤ}

-- An entry of a list: none stands for a field that holds no number.
pub data Item : Type 0 where
  mapping : Dict String (Option ℤ) → Item
  no_mapping : Item

pub data Value : Type 0 where
  null : Value
  flag : Bool → Value
  number : ℤ → Value
  fraction : (whole_part : ℤ) → Value
  str : String → Value
  items : List Item → Value
  table : Value

-- The parameters of an action, and the payload of a reply.
abbrev pub Payload : Type 0
Payload = Dict String Value
