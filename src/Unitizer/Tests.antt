-- ===== src/Unitizer/Tests.antt =====
-- A message with a heading, two sentences, a number with a full stop in it, and a list.
use open_webui_memorist_edit.Prelude.{ℕ, Bool, ◌≡◌, refl, [], ◌∷◌, map, ◌&&◌, leb}
use open_webui_memorist_edit.Prelude.Texts.{codes, lower_code}
use open_webui_memorist_edit.Unitizer.{
  Text, TextUnitType, heading, sentence, list_item, UnitizedSpan,
}
use open_webui_memorist_edit.Unitizer.Blocks.{can_split_at}
use open_webui_memorist_edit.Unitizer.Unitize.{unitize}
use open_webui_memorist_edit.Unitizer.Cover.{UnitsTile, unitize-UnitsTile}

abbrev message : Text
message = codes "# Hi\n\nPi is 3.14. Yes!\n- a\n  b\n- c"

abbrev is_digit : ℕ → Bool
is_digit c = leb 48 c && leb c 57

abbrev lower : Text → Text
lower text = map lower_code text

abbrev kind_and_text : UnitizedSpan → TextUnitType × Text
kind_and_text u = (u.unit_type, u.text)

message_units :
    map kind_and_text (unitize is_digit lower message)
    ≡ (heading, codes "# Hi\n")
      ∷ (sentence, codes "Pi is 3.14.")
      ∷ (sentence, codes " Yes!")
      ∷ (list_item, codes "- a\n  b\n")
      ∷ (list_item, codes "- c")
      ∷ []
unfolding unitize can_split_at
message_units = refl

unitize-UnitsTile_example : UnitsTile 0 0 (unitize is_digit lower message) message
unitize-UnitsTile_example = unitize-UnitsTile is_digit lower message
