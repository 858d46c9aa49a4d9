-- ===== src/Js/Values.antt =====
-- The values that `JSON.parse` returns and `JSON.stringify` takes, and how the program inspects
-- them. `none` is `undefined`.
use Prim.Native.String.{String}
use text.Mathlib.Text.{◌==◌}
use restaurant_engine.Prelude.{Bool, true, false, Option, none, some, List, [], ◌∷◌, if◌then◌else◌}
use restaurant_engine.Prelude.Text.{Text}
use restaurant_engine.Js.Numbers.{Number}

mutual
  pub data Json : Type 0 where
    null : Json
    bool : Bool → Json
    num : Number → Json
    str : Text → Json
    arr : Items → Json
    obj : Fields → Json

  pub data Items : Type 0 where
    nil : Items
    cons : Json → Items → Items

  pub data Fields : Type 0 where
    end : Fields
    field : String → Json → Fields → Fields

abbrev pub to_list : Items → List Json
to_list nil = []
to_list (cons v vs) = v ∷ to_list vs

abbrev pub from_list : List Json → Items
from_list [] = nil
from_list (v ∷ vs) = cons v (from_list vs)

abbrev pub lookup : String → Fields → Option Json
lookup k end = none
lookup k (field j v fs) = if j == k then some v else lookup k fs

-- `value[k]`, for a key that arrays and other values do not have
abbrev pub get : String → Json → Option Json
get k (obj fs) = lookup k fs
get k _ = none

-- `typeof value === 'object' && value !== null`
abbrev pub is_object : Json → Bool
is_object (arr vs) = true
is_object (obj fs) = true
is_object _ = false

-- `typeof value === 'string'`
abbrev pub is_string : Option Json → Bool
is_string (some (str s)) = true
is_string _ = false

-- `value === null`
abbrev pub is_null : Option Json → Bool
is_null (some null) = true
is_null _ = false
