-- ===== src/Unitizer.antt =====
-- memory_worker/unitizer.py: a message is cut into units. A text is the list of its code points, and
-- the regular expressions and the methods of `str` are written out on it; `str.isdigit` and
-- `str.lower`, which go by Unicode's tables, are parameters.
pub mod Blocks
pub mod Unitize
pub mod Tiling
pub mod Lines
pub mod Sentences
pub mod Cover
pub mod Tests
use open_webui_memorist_edit.Prelude.{
  ℕ, zero, suc, ◌+◌, ◌-◌, Bool, true, false, not, ◌&&◌, ◌||◌, Option, none, some, List, [], ◌∷◌,
  ◌++◌, map, leb, ltb, ◌==◌, if◌then◌else◌, length, get_elem?, take, drop, any, filter_if,
}
use open_webui_memorist_edit.Prelude.Texts.{is_space, drop_space}

abbrev pub Text : Type 0
Text = List ℕ

-- TextUnitType
pub data TextUnitType : Type 0 where
  sentence list_item paragraph code_block quote heading fragment : TextUnitType

-- UnitizedSpan; `persian` says that the language code is `fa`, which is `en` otherwise.
pub record UnitizedSpan : Type 0 where
  pub unit_index : ℕ
  pub unit_type : TextUnitType
  pub text : Text
  pub start_char : ℕ
  pub end_char : ℕ
  pub persian : Bool

-- A piece of the message with its start, as the elements of `spans`.
abbrev pub Piece : Type 0
Piece = ℕ × Text

-- What `_append_unit` is called with: a type, and a text with its start.
abbrev pub Appended : Type 0
Appended = TextUnitType × Piece

-- `not text.strip()`
abbrev pub blank : Text → Bool
blank [] = true
blank (c ∷ cs) = is_space c && blank cs

-- Where `str.splitlines` breaks a line; `\r\n` is one break.
abbrev is_break : ℕ → Bool
is_break c = leb 10 c && leb c 13 || leb 28 c && leb c 30 || c == 133 || c == 8232 || c == 8233

abbrev starts_with : ℕ → Text → Bool
starts_with c [] = false
starts_with c (d ∷ ds) = d == c

abbrev pub ends_line : ℕ → Text → Bool
ends_line c rest = is_break c && not (c == 13 && starts_with 10 rest)

-- The last line, if it has no break.
abbrev pub last_line : Text → List Text
last_line [] = []
last_line (c ∷ cs) = (c ∷ cs) ∷ []

-- text.splitlines(keepends=True), with the line read so far.
abbrev pub split_lines : Text → Text → List Text
split_lines line [] = last_line line
split_lines line (c ∷ rest) = elim (ends_line c rest) [
  | true ↦ (line ++ c ∷ []) ∷ split_lines [] rest
  | false ↦ split_lines (line ++ c ∷ []) rest
]

-- The list `spans`: each line with its start.
abbrev pub spans_from : ℕ → List Text → List Piece
spans_from cursor [] = []
spans_from cursor (line ∷ lines) = (cursor, line) ∷ spans_from (cursor + length line) lines

-- FENCE: white space and three backticks.
abbrev starts_fence : Text → Bool
starts_fence (a ∷ b ∷ c ∷ cs) = a == 96 && b == 96 && c == 96
starts_fence _ = false

abbrev pub is_fence : Text → Bool
is_fence line = starts_fence (drop_space line)

-- QUOTE: white space and `>`.
abbrev pub is_quote : Text → Bool
is_quote line = starts_with 62 (drop_space line)

abbrev starts_with_space : Text → Bool
starts_with_space [] = false
starts_with_space (c ∷ cs) = is_space c

-- The digits of LIST_ITEM: `[0-9۰-۹]`.
abbrev is_list_digit : ℕ → Bool
is_list_digit c = leb 48 c && leb c 57 || leb 1776 c && leb c 1785

-- More digits, `.` or `)`, and a white space.
abbrev after_digit : Text → Bool
after_digit [] = false
after_digit (c ∷ cs) =
    let more = after_digit cs in
    if is_list_digit c then more else (c == 46 || c == 41) && starts_with_space cs

-- LIST_ITEM: a bullet `-`, `*`, `+` or `•`, or digits with `.` or `)`, and a white space.
abbrev starts_list_item : Text → Bool
starts_list_item [] = false
starts_list_item (c ∷ cs) =
    if is_list_digit c
    then after_digit cs
    else (c == 45 || c == 42 || c == 43 || c == 8226) && starts_with_space cs

abbrev pub is_list_item : Text → Bool
is_list_item line = starts_list_item (drop_space line)

-- HEADING after the hashes: white space, and something after it.
abbrev after_hashes : Text → Bool
after_hashes cs = starts_with_space cs && not (blank cs)

-- At most `left` hashes more.
abbrev hashes : ℕ → Text → Bool
hashes left [] = false
hashes zero (c ∷ cs) = after_hashes (c ∷ cs)
hashes (suc left) (c ∷ cs) =
    let more = hashes left cs in if c == 35 then more else after_hashes (c ∷ cs)

abbrev starts_hashes : Text → Bool
starts_hashes [] = false
starts_hashes (c ∷ cs) = c == 35 && hashes 5 cs

-- HEADING: at most three white spaces, one to six hashes, white space, and something after it.
abbrev heading_after : ℕ → Text → Bool
heading_after left [] = false
heading_after zero cs = starts_hashes cs
heading_after (suc left) (c ∷ cs) =
    let more = heading_after left cs in if is_space c then more else starts_hashes (c ∷ cs)

abbrev pub is_heading : Text → Bool
is_heading line = heading_after 3 line

-- SENTENCE_PUNCTUATION
abbrev pub is_sentence_punctuation : ℕ → Bool
is_sentence_punctuation c = c == 46 || c == 33 || c == 63 || c == 1567 || c == 1748

-- _has_sentence_signal
abbrev pub has_sentence_signal : Text → Bool
has_sentence_signal text = any is_sentence_punctuation text

-- _detect_language
abbrev pub is_persian : Text → Bool
is_persian text = any (λ c. leb 1536 c && leb c 1791) text
