-- ===== src/Json/Edit.antt =====
-- Python's operations on the dictionaries and lists of `json.loads`.
use rill_xray_agent.Prelude.{
  ℕ, String, Bool, true, false, not, List, [], ◌∷◌, str_eq, length, if◌then◌else◌,
}
use rill_xray_agent.Prelude.Int.{is_zero}
use rill_xray_agent.Json.{
  Json, null, bool, num, real, str, arr, obj, Items, nil, cons, Fields, end, field, pairs,
}

-- `data.get(k)`: a missing key reads as null.
unfoldable pub value : String → Fields → Json
value k end = null
value k (field j v fs) = if str_eq j k then v else value k fs

-- `data[k] = v`
unfoldable pub put_field : String → Json → Fields → Fields
put_field k v end = field k v end
put_field k v (field j w fs) = if str_eq j k then field k v fs else field j w (put_field k v fs)

-- `data.pop(k, None)`
unfoldable pub remove_field : String → Fields → Fields
remove_field k end = end
remove_field k (field j w fs) =
    if str_eq j k then remove_field k fs else field j w (remove_field k fs)

-- `len(data)`
abbrev pub size : Fields → ℕ
size fs = length (pairs fs)

-- the JSON list of Python's list
abbrev pub items : List Json → Items
items [] = nil
items (x ∷ xs) = cons x (items xs)

abbrev pub is_null : Json → Bool
is_null null = true
is_null _ = false

-- `bool(value)`. A float counts as true: none reaches the places that ask.
abbrev pub truthy : Json → Bool
truthy null = false
truthy (bool b) = b
truthy (num z) = not (is_zero z)
truthy (real _) = true
truthy (str s) = not (str_eq s "")
truthy (arr nil) = false
truthy (arr (cons _ _)) = true
truthy (obj end) = false
truthy (obj (field _ _ _)) = true
