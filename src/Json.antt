-- ===== src/Json.antt =====
-- The values of `json.loads` (python/rill_xray_agent/canonical.py reads every file through it).
pub mod Edit
pub mod Laws
use rill_xray_agent.Prelude.{
  String, Bool, true, false, Option, none, some, List, [], ◌∷◌, str_eq, if◌then◌else◌,
}
use rill_xray_agent.Prelude.Int.{ℤ, pos}

-- `real` is a float: its truncation towards zero, or `none` where `int()` of it raises. The model takes
-- it for equal to no integer; the files that the program writes hold none.
mutual
  pub data Json : Type 0 where
    null : Json
    bool : Bool → Json
    num : ℤ → Json
    real : Option ℤ → Json
    str : String → Json
    arr : Items → Json
    obj : Fields → Json

  pub data Items : Type 0 where
    nil : Items
    cons : Json → Items → Items

  pub data Fields : Type 0 where
    end : Fields
    field : String → Json → Fields → Fields

-- `data.get(key)` of an object
abbrev pub member : String → Fields → Option Json
member k end = none
member k (field j v fs) = if str_eq j k then some v else member k fs

abbrev pub elements : Items → List Json
elements nil = []
elements (cons x xs) = x ∷ elements xs

abbrev pub pairs : Fields → List (String × Json)
pairs end = []
pairs (field k v fs) = (k, v) ∷ pairs fs

-- `isinstance(v, int)`, with the integer: Python's booleans are the integers 0 and 1.
abbrev pub int_of : Json → Option ℤ
int_of (num z) = some z
int_of (bool true) = some (pos 1)
int_of (bool false) = some (pos 0)
int_of _ = none

abbrev pub bool_of : Json → Option Bool
bool_of (bool b) = some b
bool_of _ = none

abbrev pub str_of : Json → Option String
str_of (str s) = some s
str_of _ = none

abbrev pub arr_of : Json → Option Items
arr_of (arr xs) = some xs
arr_of _ = none

abbrev pub obj_of : Json → Option Fields
obj_of (obj fs) = some fs
obj_of _ = none
