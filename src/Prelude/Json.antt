-- ===== src/Prelude/Json.antt =====
-- `serde_json::Value`. A number is kept as its text, since the program only carries it along.
use Prim.Native.String.{String}
use mathlib.Core.Bool.{Bool}
use mathlib.Core.List.{List, [], ◌∷◌}
use mathlib.Core.Option.{Option, none, some}

mutual
  pub data Json : Type 0 where
    null : Json
    boolean : Bool → Json
    number : String → Json
    string : String → Json
    array : Items → Json
    object : Fields → Json

  pub data Items : Type 0 where
    nil : Items
    cons : Json → Items → Items

  pub data Fields : Type 0 where
    end : Fields
    field : String → Json → Fields → Fields

abbrev pub entries_of : Fields → List (String × Json)
entries_of end = []
entries_of (field key value rest) = (key, value) ∷ entries_of rest

-- `as_object()`
abbrev pub as_object : Json → Option (List (String × Json))
as_object (object fields) = some (entries_of fields)
as_object _ = none

abbrev pub items_of : Items → List Json
items_of nil = []
items_of (cons item items) = item ∷ items_of items

-- `as_array()`
abbrev pub as_array : Json → Option (List Json)
as_array (array items) = some (items_of items)
as_array _ = none

-- `as_str()`
abbrev pub as_str_value : Json → Option String
as_str_value (string s) = some s
as_str_value _ = none
