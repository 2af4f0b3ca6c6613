-- ===== src/Unitizer/Blocks.antt =====
-- How memory_worker/unitizer.py cuts a paragraph into sentences and a message into blocks.
use mathlib.Core.List.{reverse}
use open_webui_memorist_edit.Prelude.{
  ℕ, ◌+◌, ◌-◌, Bool, true, false, not, ◌&&◌, ◌||◌, none, some, List, [], ◌∷◌, ◌++◌, map, ltb, ◌==◌,
  if◌then◌else◌, length, get_elem?, take, drop, any, filter_if,
}
use open_webui_memorist_edit.Prelude.Texts.{has_prefix, codes, is_space, drop_space, same_codes}
use open_webui_memorist_edit.Unitizer.{
  Text, TextUnitType, sentence, paragraph, fragment, Piece, Appended, blank, is_fence, is_quote,
  is_list_item, is_heading, is_sentence_punctuation, has_sentence_signal,
}

abbrev is_empty {ℓ} : {A : Type ℓ} → List A → Bool
is_empty [] = true
is_empty (x ∷ xs) = false

-- The characters before the first white space.
abbrev until_space : Text → Text
until_space [] = []
until_space (c ∷ cs) = let rest = until_space cs in if is_space c then [] else c ∷ rest

-- The last word of a text, or nothing.
abbrev last_word : Text → Text
last_word text = reverse (until_space (drop_space (reverse text)))

abbrev drop_dots : Text → Text
drop_dots [] = []
drop_dots (c ∷ cs) = let rest = drop_dots cs in if c == 46 then rest else c ∷ cs

-- text.rstrip(".")
abbrev strip_dots : Text → Text
strip_dots text = reverse (drop_dots (reverse text))

abbrev abbreviations : List Text
abbreviations =
    codes "mr"
    ∷ codes "mrs"
    ∷ codes "ms"
    ∷ codes "dr"
    ∷ codes "prof"
    ∷ codes "sr"
    ∷ codes "jr"
    ∷ codes "e.g"
    ∷ codes "i.e"
    ∷ codes "etc"
    ∷ []

-- URL_NEARBY.search
abbrev url_nearby : Text → Bool
url_nearby [] = false
url_nearby (c ∷ cs) =
    has_prefix (codes "http://") (c ∷ cs)
    || has_prefix (codes "https://") (c ∷ cs)
    || has_prefix (codes "www.") (c ∷ cs)
    || url_nearby cs

abbrev holds_at : (ℕ → Bool) → Text → ℕ → Bool
holds_at p text i = elim (get_elem? text i) [ none ↦ false | some c ↦ p c ]

-- `text[start:]`, if it is not empty.
abbrev pub last_piece : ℕ → Text → List Piece
last_piece start [] = []
last_piece start (c ∷ cs) = (start, c ∷ cs) ∷ []

module _ (is_digit : ℕ → Bool) (lower : Text → Text) where
  abbrev before_dot : Text → ℕ → Text
  before_dot text index = take (index + 1 - (index - 12)) (drop (index - 12) text)

  abbrev after_dot : Text → ℕ → Text
  after_dot text index = take 11 (drop (index + 1) text)

  -- The three tests that keep a full stop from ending a sentence.
  abbrev is_inner_dot : Text → ℕ → Bool
  is_inner_dot text index =
      ltb 0 index
        && ltb (index + 1) (length text)
        && holds_at is_digit text (index - 1)
        && holds_at is_digit text (index + 1)
      || any (same_codes (strip_dots (lower (last_word (before_dot text index))))) abbreviations
      || url_nearby (before_dot text index ++ after_dot text index)

  -- _can_split_at
  unfoldable pub can_split_at : Text → ℕ → Bool
  can_split_at text index =
      not (holds_at (λ c. c == 46) text index && is_inner_dot text index)
      && (index + 1 == length text || holds_at is_space text (index + 1))

  -- The loop of `_split_sentences` at `index`: `part` is `text[start:index]`, the last argument
  -- `text[index:]`.
  abbrev pub sentence_pieces : Text → ℕ → ℕ → ℕ → Text → Text → List Piece
  sentence_pieces text absolute_start start index part [] = last_piece (absolute_start + start) part
  sentence_pieces text absolute_start start index part (c ∷ rest) =
      elim (is_sentence_punctuation c && can_split_at text index) [
        | true ↦
            (absolute_start + start, part ++ c ∷ [])
            ∷ sentence_pieces text absolute_start (index + 1) (index + 1) [] rest
        | false ↦ sentence_pieces text absolute_start start (index + 1) (part ++ c ∷ []) rest
      ]

  -- _split_sentences
  abbrev pub split_sentences : Text → ℕ → List Piece
  split_sentences text absolute_start =
      filter_if (λ (p : Piece). not (blank p.1)) (sentence_pieces text absolute_start 0 0 [] text)

  abbrev pub sentence_type : Text → TextUnitType
  sentence_type text = if has_sentence_signal text then sentence else fragment

  -- The units of a paragraph.
  abbrev pub paragraph_units : Text → ℕ → List Appended
  paragraph_units text start =
      let sentences = split_sentences text start in
      if length sentences == 1 && any (λ c. c == 10) text
      then (paragraph, (start, text)) ∷ []
      else map (λ (p : Piece). (sentence_type p.1, p)) sentences

-- The inner loops: lines are added to a text until one stops it.
abbrev pub gather : (Text → Bool) → Text → List Piece → Text × List Piece
gather stops text [] = (text, [])
gather stops text (p ∷ spans) = elim (stops p.1) [
  | true ↦ (text, p ∷ spans)
  | false ↦ gather stops (text ++ p.1) spans
]

-- The loop of a code block, which takes the closing fence too.
abbrev pub gather_fenced : Text → List Piece → Text × List Piece
gather_fenced text [] = (text, [])
gather_fenced text (p ∷ spans) = elim (is_fence p.1) [
  | true ↦ (text ++ p.1, spans)
  | false ↦ gather_fenced (text ++ p.1) spans
]

-- The lines that end a list item or a paragraph: in the source's order of tests.
abbrev pub stops_block : Text → Bool
stops_block line =
    blank line || is_list_item line || is_fence line || is_heading line || is_quote line

abbrev pub stops_quote : Text → Bool
stops_quote line = not (is_quote line)
