-- ===== src/Json/Laws.antt =====
-- What reading finds after an edit of a dictionary.
use rill_xray_agent.Prelude.{String, ◌≡◌, refl, arith, eq_iff, eq_refl, str_eq, if◌then◌else◌}
use rill_xray_agent.Json.{Json, null, Fields, end, field}
use rill_xray_agent.Json.Edit.{value, put_field, remove_field}

pub value-put_field :
    (k j : String) (v : Json) (fs : Fields)
    → value j (put_field k v fs) ≡ (if str_eq k j then v else value j fs)
unfolding value put_field
value-put_field k j v end = refl
value-put_field k j v (field i w fs) =
    ground (arith, eq_iff k j, eq_iff i k, eq_iff i j, value-put_field k j v fs)

pub value-remove_field :
    (k j : String) (fs : Fields)
    → value j (remove_field k fs) ≡ (if str_eq k j then null else value j fs)
unfolding value remove_field
value-remove_field k j end = ground arith
value-remove_field k j (field i w fs) =
    ground (arith, eq_iff k j, eq_iff i k, eq_iff i j, value-remove_field k j fs)

pub value-put_self : (k : String) (v : Json) (fs : Fields) → value k (put_field k v fs) ≡ v
unfolding value put_field
value-put_self k v end = ground (arith, eq_refl k)
value-put_self k v (field j w fs) = ground (arith, eq_refl k, value-put_self k v fs)

pub remove-put_field :
    (k : String) (v : Json) (fs : Fields) → remove_field k (put_field k v fs) ≡ remove_field k fs
unfolding remove_field put_field
remove-put_field k v end = ground (arith, eq_refl k)
remove-put_field k v (field j w fs) = ground (arith, eq_refl k, remove-put_field k v fs)
