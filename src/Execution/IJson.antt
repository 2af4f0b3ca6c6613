-- ===== src/Execution/IJson.antt =====
-- The profile of JSON that validators/ijson.py lets through (_validate_value and its helpers), on the
-- values of Prelude.Json.
use open_webui_memorist_edit.Prelude.{
  ℕ, Bool, true, false, not, ◌&&◌, ◌||◌, Option, none, some, List, [], ◌∷◌, String,
}
use open_webui_memorist_edit.Prelude.Int.{ℤ, pos, negsuc, ltb_ℤ}
use open_webui_memorist_edit.Prelude.Texts.{codes, same_codes}
use open_webui_memorist_edit.Execution.{
  Json, Items, Dict, null, flag, number, text, array, object, no_items, item, no_fields, field,
}

-- What the profile takes from Python: `str.encode("utf-8")` succeeds, and the text matches the pattern
-- of RFC 3339 and datetime.fromisoformat reads it.
pub record TextTests : Type 0 where
  pub encodes : String → Bool
  pub is_timestamp : String → Bool

-- MIN_SAFE_INTEGER and MAX_SAFE_INTEGER
abbrev pub is_safe_integer : ℤ → Bool
is_safe_integer z = not (ltb_ℤ z (negsuc 9007199254740990)) && not (ltb_ℤ (pos 9007199254740991) z)

abbrev pub ends_with : List ℕ → List ℕ → Bool
ends_with suffix [] = same_codes [] suffix
ends_with suffix (c ∷ cs) = same_codes (c ∷ cs) suffix || ends_with suffix cs

-- _is_timestamp_field, with TIMESTAMP_SUFFIXES.
abbrev pub is_timestamp_field : String → Bool
is_timestamp_field name =
    ends_with (codes "_at") (codes name)
    || ends_with (codes "_from") (codes name)
    || ends_with (codes "_until") (codes name)

abbrev pub is_text : Json → Bool
is_text (text s) = true
is_text _ = false

module _ (tests : TextTests) where
  abbrev pub named_text : Option String → String → Bool
  named_text none s = true
  named_text (some name) s = not (is_timestamp_field name) || tests.is_timestamp s

  -- _validate_value, with the name of the member that holds the value; `false` is the exception.
  unfoldable mutual
    pub valid_value : Option String → Json → Bool
    valid_value name null = true
    valid_value name (flag b) = true
    valid_value name (number z) = is_safe_integer z
    valid_value name (text s) = tests.encodes s && named_text name s
    valid_value name (array vs) = valid_items vs
    valid_value name (object d) = valid_members d

    pub valid_items : Items → Bool
    valid_items no_items = true
    valid_items (item v vs) = valid_value none v && valid_items vs

    pub valid_members : Dict → Bool
    valid_members no_fields = true
    valid_members (field key v d) =
        tests.encodes key
        && (not (is_timestamp_field key) || is_text v)
        && valid_value (some key) v
        && valid_members d
