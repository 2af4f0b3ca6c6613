-- ===== src/Gate/Signals.antt =====
-- The signals that the gate of memory_worker/gating.py looks for. A text is the list of its
-- code points; `str.lower`, which goes by Unicode's tables, is a parameter.
use open_webui_memorist_edit.Prelude.{
  ℕ, Bool, ◌||◌, List, [], ◌∷◌, ◌==◌, leb, if◌then◌else◌, length, any,
}
use open_webui_memorist_edit.Prelude.Texts.{codes, same_codes, has_substring, strip_space}
use mathlib.Core.List.{reverse}

abbrev pub Text : Type 0
Text = List ℕ

-- STRONG_SIGNALS; a text of Persian letters is given by its code points.
abbrev pub strong_signals : List Text
strong_signals =
    codes "remember this"
    ∷ codes "don't forget"
    ∷ codes "do not forget"
    ∷ codes "from now on"
    ∷ codes "prefer"
    ∷ codes "i prefer"
    ∷ codes "we decided"
    ∷ codes "we have decided"
    ∷ codes "do not "
    ∷ codes "don't "
    ∷ codes "never "
    ∷ codes "always "
    ∷ codes "my name is"
    ∷ codes "by "
    ∷ codes "i mean"
    ∷ (1575 ∷ 1586 ∷ 32 ∷ 1575 ∷ 1740 ∷ 1606 ∷ 32 ∷ 1576 ∷ 1607 ∷ 32 ∷ 1576 ∷ 1593 ∷ 1583 ∷ [])
    ∷ (1740 ∷ 1575 ∷ 1583 ∷ 1578 ∷ 32 ∷ 1576 ∷ 1575 ∷ 1588 ∷ 1583 ∷ [])
    ∷ (1740 ∷ 1575 ∷ 1583 ∷ 1578 ∷ 32 ∷ 1576 ∷ 1575 ∷ 1588 ∷ 1607 ∷ [])
    ∷ (1605 ∷ 1606 ∷ 32 ∷ 1578 ∷ 1585 ∷ 1580 ∷ 1740 ∷ 1581 ∷ 32 ∷ 1605 ∷ 1740 ∷ [])
    ∷ (1578 ∷ 1585 ∷ 1580 ∷ 1740 ∷ 1581 ∷ 32 ∷ 1605 ∷ 1740 ∷ 8204 ∷ 1583 ∷ 1607 ∷ 1605 ∷ [])
    ∷ (1578 ∷ 1589 ∷ 1605 ∷ 1740 ∷ 1605 ∷ 32 ∷ 1711 ∷ 1585 ∷ 1601 ∷ 1578 ∷ 1740 ∷ 1605 ∷ [])
    ∷ (1606 ∷ 1576 ∷ 1575 ∷ 1740 ∷ 1583 ∷ [])
    ∷ (1607 ∷ 1605 ∷ 1740 ∷ 1588 ∷ 1607 ∷ [])
    ∷ (1607 ∷ 1585 ∷ 1711 ∷ 1586 ∷ [])
    ∷ (1601 ∷ 1593 ∷ 1604 ∷ 1575 ∷ [])
    ∷ (1601 ∷ 1593 ∷ 1604 ∷ 1575 ∷ 1611 ∷ [])
    ∷ (1606 ∷ 1575 ∷ 1605 ∷ 32 ∷ 1605 ∷ 1606 ∷ [])
    ∷ (1605 ∷ 1606 ∷ 1592 ∷ 1608 ∷ 1585 ∷ 1605 ∷ 32 ∷ 1575 ∷ 1586 ∷ [])
    ∷ []

abbrev pub low_value : List Text
low_value =
    codes "hi"
    ∷ codes "hello"
    ∷ codes "thanks"
    ∷ codes "thank you"
    ∷ codes "ok"
    ∷ codes "okay"
    ∷ codes "test"
    ∷ codes "ping"
    ∷ (1587 ∷ 1604 ∷ 1575 ∷ 1605 ∷ [])
    ∷ (1605 ∷ 1585 ∷ 1587 ∷ 1740 ∷ [])
    ∷ (1605 ∷ 1605 ∷ 1606 ∷ 1608 ∷ 1606 ∷ [])
    ∷ (1576 ∷ 1575 ∷ 1588 ∷ 1607 ∷ [])
    ∷ (1578 ∷ 1587 ∷ 1578 ∷ [])
    ∷ []

abbrev pub sensitive_terms : List Text
sensitive_terms =
    codes "religion"
    ∷ codes "political"
    ∷ codes "medical"
    ∷ codes "health"
    ∷ codes "password"
    ∷ codes "token"
    ∷ codes "secret"
    ∷ codes "api key"
    ∷ (1605 ∷ 1584 ∷ 1607 ∷ 1576 ∷ [])
    ∷ (1587 ∷ 1740 ∷ 1575 ∷ 1587 ∷ 1740 ∷ [])
    ∷ (1662 ∷ 1586 ∷ 1588 ∷ 1705 ∷ 1740 ∷ [])
    ∷ (1585 ∷ 1605 ∷ 1586 ∷ [])
    ∷ []

-- _contains_any
abbrev pub contains_any : Text → List Text → Bool
contains_any text needles = any (λ needle. has_substring needle text) needles

-- The characters that `_is_low_value` strips: a space, a full stop, an exclamation mark, and the
-- Latin and the Arabic question mark.
abbrev is_edge : ℕ → Bool
is_edge c = c == 32 || c == 46 || c == 33 || c == 63 || c == 1567

abbrev drop_edge : Text → Text
drop_edge [] = []
drop_edge (c ∷ cs) = let rest = drop_edge cs in if is_edge c then rest else c ∷ cs

abbrev strip_edges : Text → Text
strip_edges text = reverse (drop_edge (reverse (drop_edge text)))

abbrev pub is_low_value_word : Text → Bool
is_low_value_word text = any (same_codes text) low_value

abbrev pub is_forget_request : Text → Bool
is_forget_request text = contains_any text (
    codes "forget this"
    ∷ codes "forget that"
    ∷ (1601 ∷ 1585 ∷ 1575 ∷ 1605 ∷ 1608 ∷ 1588 ∷ 32 ∷ 1705 ∷ 1606 ∷ [])
    ∷ [])

module _ (lower : Text → Text) where
  -- _is_low_value
  abbrev pub is_low_value : Text → Bool
  is_low_value text =
      is_low_value_word (lower (strip_edges text)) || leb (length (lower (strip_edges text))) 2

  abbrev pub lowered_text : Text → Text
  lowered_text text = lower (strip_space text)

  abbrev pub is_phatic : Text → Bool
  is_phatic text = is_low_value_word text || is_low_value text
