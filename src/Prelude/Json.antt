-- ===== src/Prelude/Json.antt =====
-- JSON values, and dictionaries with Python's `d.get(key)`, `d[key] = value` and `key in d`.
use open_webui_memorist_edit.Prelude.{
  Bool, true, false, Option, none, some, String, str_eq, if◌then◌else◌,
}
use open_webui_memorist_edit.Prelude.Int.{ℤ}

-- A JSON value; a number is an integer. `Items` and `Dict` are what an array and an object hold.
mutual
  pub data Json : Type 0 where
    null : Json
    flag : Bool → Json
    number : ℤ → Json
    text : String → Json
    array : Items → Json
    object : Dict → Json

  pub data Items : Type 0 where
    no_items : Items
    item : Json → Items → Items

  pub data Dict : Type 0 where
    no_fields : Dict
    field : String → Json → Dict → Dict

abbrev pub get : String → Dict → Option Json
get key no_fields = none
get key (field k v d) = let later = get key d in if str_eq k key then some v else later

abbrev pub put : String → Json → Dict → Dict
put key value no_fields = field key value no_fields
put key value (field k v d) =
    let rest = put key value d in if str_eq k key then field k value d else field k v rest

abbrev pub has_key : String → Dict → Bool
has_key key no_fields = false
has_key key (field k v d) = let later = has_key key d in if str_eq k key then true else later
