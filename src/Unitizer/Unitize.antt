-- ===== src/Unitizer/Unitize.antt =====
-- DeterministicUnitizer.unitize of memory_worker/unitizer.py.
use open_webui_memorist_edit.Prelude.{
  ℕ, zero, suc, ◌+◌, Bool, List, [], ◌∷◌, ◌++◌, if◌then◌else◌, length,
}
use open_webui_memorist_edit.Unitizer.{
  Text, list_item, code_block, quote, heading, UnitizedSpan, Piece, Appended, blank, split_lines,
  spans_from, is_fence, is_quote, is_list_item, is_heading, is_persian,
}
use open_webui_memorist_edit.Unitizer.Blocks.{
  paragraph_units, gather, gather_fenced, stops_block, stops_quote,
}

-- What a line begins, by the tests of the loop in their order.
pub data Block : Type 0 where
  nothing fenced item title quoted prose : Block

abbrev pub block_of : Text → Block
block_of line =
    if blank line
    then nothing
    else if is_fence line
    then fenced
    else if is_list_item line
    then item
    else if is_heading line
    then title
    else if is_quote line
    then quoted
    else prose

-- _append_unit
abbrev pub append_units : ℕ → List Appended → List UnitizedSpan
append_units index [] = []
append_units index ((type, (start, [])) ∷ units) = append_units index units
append_units index ((type, (start, c ∷ cs)) ∷ units) =
    record {
      unit_index = index;
      unit_type = type;
      text = c ∷ cs;
      start_char = start;
      end_char = start + length (c ∷ cs);
      persian = is_persian (c ∷ cs);
    }
    ∷ append_units (index + 1) units

abbrev pub spans_of : Text → List Piece
spans_of text = spans_from 0 (split_lines [] text)

-- The units that a block has and the lines after it; `start` and `line` are its first line.
module _ (is_digit : ℕ → Bool) (lower : Text → Text) where
  abbrev pub take_block : Block → ℕ → Text → List Piece → List Appended × List Piece
  take_block nothing start line spans = ([], spans)
  take_block fenced start line spans =
      let (text, rest) = gather_fenced line spans in ((code_block, (start, text)) ∷ [], rest)
  take_block item start line spans =
      let (text, rest) = gather stops_block line spans in ((list_item, (start, text)) ∷ [], rest)
  take_block title start line spans = ((heading, (start, line)) ∷ [], spans)
  take_block quoted start line spans =
      let (text, rest) = gather stops_quote line spans in ((quote, (start, text)) ∷ [], rest)
  take_block prose start line spans =
      let (text, rest) = gather stops_block line spans in
      (paragraph_units is_digit lower text start, rest)

  -- The loop over the lines. Each pass takes a line at least, so as much fuel as lines is enough.
  abbrev pub take_blocks : ℕ → List Piece → List Appended
  take_blocks zero spans = []
  take_blocks (suc fuel) [] = []
  take_blocks (suc fuel) (p ∷ spans) =
      let (units, rest) = take_block (block_of p.1) p.0 p.1 spans in units ++ take_blocks fuel rest

  unfoldable pub unitize : Text → List UnitizedSpan
  unitize text = append_units 0 (take_blocks (length (spans_of text)) (spans_of text))
