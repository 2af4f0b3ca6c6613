-- ===== src/Unitizer/Cover.antt =====
-- That the units of a message cover it.
use mathlib.Core.Path.{subst}
use open_webui_memorist_edit.Prelude.{
  ℕ, zero, suc, ◌+◌, ◌≤◌, ◌≡◌, ◌≢◌, refl, sym, ap, inl, inr, Bool, true, false, if◌then◌else◌, List,
  [], ◌∷◌, ◌++◌, map, length, arith, Bool-cases,
}
use open_webui_memorist_edit.Unitizer.{
  Text, TextUnitType, list_item, code_block, quote, UnitizedSpan, Piece, Appended, blank, is_fence,
  is_list_item, is_heading, is_quote,
}
use open_webui_memorist_edit.Unitizer.Blocks.{gather, stops_block, stops_quote}
use open_webui_memorist_edit.Unitizer.Unitize.{
  append_units, spans_of, Block, nothing, fenced, item, title, quoted, prose, block_of, take_block,
  take_blocks, unitize,
}
use open_webui_memorist_edit.Unitizer.Lines.{
  joined, Starts, IsGathered, gather-IsGathered, gather_fenced-IsGathered, spans_of-joined,
  spans_of-Starts,
}
use open_webui_memorist_edit.Unitizer.Tiling.{IsBlank, Tiles, one-Tiles, append-Tiles}
use open_webui_memorist_edit.Unitizer.Sentences.{nonblank, paragraph-Tiles}

-- What a pass of the loop takes: pieces that tile the lines it goes past.
pub record IsTaken (n : ℕ) (line : Text) (spans : List Piece) (r : List Appended × List Piece)
    : Type 0 where
  pub passed : Text
  pub tiles : Tiles n (map (λ (a : Appended). a.1) r.0) passed
  pub same : passed ++ joined r.1 ≡ line ++ joined spans
  pub starts : Starts (n + length passed) r.1
  pub fewer : length r.1 ≤ length spans

-- A line that begins nothing is white space, and any other line is not empty.
abbrev Begins : Block → Text → Type 0
Begins nothing line = IsBlank line
Begins b line = line ≢ []

either-Begins :
    (q : Bool) (b c : Block) (line : Text)
    → Begins b line
    → Begins c line
    → Begins (if q then b else c) line
either-Begins true b c line h k = h
either-Begins false b c line h k = k

block_of-Begins : (line : Text) → Begins (block_of line) line
block_of-Begins line = elim (Bool-cases (blank line)) [
  | inl e ↦ simp e refl
  | inr e ↦
      let h = nonblank line e in
      simp e (
        either-Begins (is_fence line) fenced _ line h (
          either-Begins (is_list_item line) item _ line h (
            either-Begins (is_heading line) title _ line h
              (either-Begins (is_quote line) quoted prose line h h))))
]

module _ (is_digit : ℕ → Bool) (lower : Text → Text) where
  gathered-IsTaken :
      (n : ℕ) (line : Text) (spans : List Piece) (type : TextUnitType) (r : Text × List Piece)
      → IsGathered n line spans r
      → IsTaken n line spans ((type, (n, r.0)) ∷ [], r.1)
  gathered-IsTaken n line spans type r g = record {
    passed = r.0;
    tiles = one-Tiles n r.0 g.some_text;
    same = g.same;
    starts = g.starts;
    fewer = g.fewer;
  }

  take_block-IsTaken :
      (b : Block) (n : ℕ) (line : Text) (spans : List Piece)
      → Begins b line
      → Starts (n + length line) spans
      → IsTaken n line spans (take_block is_digit lower b n line spans)
  take_block-IsTaken nothing n line spans h s = record {
    passed = line;
    tiles = h;
    same = refl;
    starts = s;
    fewer = omega arith;
  }
  take_block-IsTaken fenced n line spans h s =
      gathered-IsTaken n line spans code_block _ (gather_fenced-IsGathered n line spans h s)
  take_block-IsTaken item n line spans h s =
      gathered-IsTaken n line spans list_item _ (gather-IsGathered stops_block n line spans h s)
  take_block-IsTaken title n line spans h s = record {
    passed = line;
    tiles = one-Tiles n line h;
    same = refl;
    starts = s;
    fewer = omega arith;
  }
  take_block-IsTaken quoted n line spans h s =
      gathered-IsTaken n line spans quote _ (gather-IsGathered stops_quote n line spans h s)
  take_block-IsTaken prose n line spans h s =
      let g = gather-IsGathered stops_block n line spans h s in
      record {
        passed = (gather stops_block line spans).0;
        tiles = paragraph-Tiles is_digit lower (gather stops_block line spans).0 n g.some_text;
        same = g.same;
        starts = g.starts;
        fewer = g.fewer;
      }

  map-append :
      (xs ys : List Appended)
      → map (λ (a : Appended). a.1) (xs ++ ys)
        ≡ map (λ (a : Appended). a.1) xs ++ map (λ (a : Appended). a.1) ys
  map-append [] ys = refl
  map-append (x ∷ xs) ys = ap (λ ps. x.1 ∷ ps) (map-append xs ys)

  take_blocks-Tiles :
      (fuel n : ℕ) (spans : List Piece)
      → length spans ≤ fuel
      → Starts n spans
      → Tiles n (map (λ (a : Appended). a.1) (take_blocks is_digit lower fuel spans)) (joined spans)
  take_blocks-Tiles zero n [] h s = refl
  take_blocks-Tiles zero n (p ∷ spans) h s = absurd (omega arith)
  take_blocks-Tiles (suc fuel) n [] h s = refl
  take_blocks-Tiles (suc fuel) n (p ∷ spans) h s =
      let r = take_block is_digit lower (block_of p.1) p.0 p.1 spans in
      let k : IsTaken n p.1 spans r =
        subst (λ m. IsTaken m p.1 spans (take_block is_digit lower (block_of p.1) p.0 p.1 spans))
          s.0
          (take_block-IsTaken (block_of p.1) p.0 p.1 spans (block_of-Begins p.1)
            (subst (λ m. Starts (m + length p.1) spans) (sym s.0) s.1)) in
      let later =
        take_blocks-Tiles fuel (n + length k.passed) r.1 (let f = k.fewer in omega arith)
          k.starts in
      rw (map-append r.0 (take_blocks is_digit lower fuel r.1)) (
        subst
          (λ t.
            Tiles n
              (map (λ (a : Appended). a.1) r.0
                ++ map (λ (a : Appended). a.1) (take_blocks is_digit lower fuel r.1))
              t)
          k.same (append-Tiles n _ _ k.passed (joined r.1) k.tiles later))

-- The units stand in the text in order, n characters in and counted from `index`: each has the right
-- bounds, none is empty, and only white space is outside them.
abbrev pub UnitsTile : ℕ → ℕ → List UnitizedSpan → Text → Type 0
UnitsTile index n [] text = IsBlank text
UnitsTile index n (u ∷ us) text =
    (gap : Text) × (rest : Text) × (text ≡ gap ++ (u.text ++ rest))
    × IsBlank gap
    × (u.start_char ≡ n + length gap)
    × (u.end_char ≡ u.start_char + length u.text)
    × (u.text ≢ [])
    × (u.unit_index ≡ index)
    × UnitsTile (index + 1) u.end_char us rest

append_units-UnitsTile :
    (index n : ℕ) (units : List Appended) (text : Text)
    → Tiles n (map (λ (a : Appended). a.1) units) text
    → UnitsTile index n (append_units index units) text
append_units-UnitsTile index n [] text h = h
append_units-UnitsTile index n ((type, (start, [])) ∷ units) text
      (gap, rest, eq, g, at_start, some_text, later) =
    absurd (some_text refl)
append_units-UnitsTile index n ((type, (start, c ∷ cs)) ∷ units) text
      (gap, rest, eq, g, at_start, some_text, later) =
    (
      gap,
      rest,
      eq,
      g,
      at_start,
      refl,
      some_text,
      refl,
      append_units-UnitsTile (index + 1) (start + length (c ∷ cs)) units rest later,
    )

-- The units of a message, whatever it is, put together again with the white space between them give
-- the message: they stand in it in order and are not empty, each has its index and the bounds at which
-- its text stands, and only white space is in no unit.
pub unitize-UnitsTile :
    (is_digit : ℕ → Bool) (lower : Text → Text) (text : Text)
    → UnitsTile 0 0 (unitize is_digit lower text) text
unfolding unitize
unitize-UnitsTile is_digit lower text =
    let spans = spans_of text in
    let all = take_blocks is_digit lower (length spans) spans in
    append_units-UnitsTile 0 0 all text (
      subst (λ t. Tiles 0 (map (λ (a : Appended). a.1) all) t) (spans_of-joined text)
        (take_blocks-Tiles is_digit lower (length spans) 0 spans (omega arith)
          (spans_of-Starts text)))
