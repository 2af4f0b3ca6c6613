-- ===== src/Unitizer/Sentences.antt =====
-- That the sentences of a paragraph cover it.
use mathlib.Core.List.{append-nil, append_assoc}
use mathlib.Core.Path.{subst}
use open_webui_memorist_edit.Prelude.{
  ℕ, ◌+◌, ◌≡◌, ◌≢◌, refl, sym, ap, inl, inr, Bool, true, false, not, ◌&&◌, ◌==◌, List, [], ◌∷◌,
  ◌++◌, map, length, length-append, filter_if, any, arith, Bool-cases,
}
use open_webui_memorist_edit.Unitizer.{Text, Piece, Appended, blank, is_sentence_punctuation}
use open_webui_memorist_edit.Unitizer.Blocks.{
  can_split_at, last_piece, sentence_pieces, split_sentences, sentence_type, paragraph_units,
}
use open_webui_memorist_edit.Unitizer.Tiling.{Tiles, gap-Tiles, piece-Tiles, one-Tiles}

pub nonblank : (text : Text) → blank text ≡ false → text ≢ []
nonblank [] h = cc
nonblank (c ∷ cs) h = λ e. cc

abbrev kept : Piece → Bool
kept p = not (blank p.1)

-- To drop a piece of white space leaves a gap.
kept-Tiles :
    (n : ℕ) (piece : Text) (pieces : List Piece) (text : Text)
    → Tiles (n + length piece) (filter_if kept pieces) text
    → Tiles n (filter_if kept ((n, piece) ∷ pieces)) (piece ++ text)
kept-Tiles n piece pieces text h = elim (Bool-cases (blank piece)) [
  | inl e ↦ simp e (gap-Tiles piece n (filter_if kept pieces) text e h)
  | inr e ↦ simp e (piece-Tiles n piece (filter_if kept pieces) text (nonblank piece e) h)
]

last-Tiles : (n : ℕ) (part : Text) → Tiles n (filter_if kept (last_piece n part)) part
last-Tiles n [] = refl
last-Tiles n (c ∷ cs) =
    subst (λ t. Tiles n (filter_if kept ((n, c ∷ cs) ∷ [])) t) (append-nil (c ∷ cs))
      (kept-Tiles n (c ∷ cs) [] [] refl)

module _ (is_digit : ℕ → Bool) (lower : Text → Text) where
  sentence-cut :
      (text : Text) (absolute start index c : ℕ) (part rest : Text)
      → (is_sentence_punctuation c && can_split_at is_digit lower text index) ≡ true
      → sentence_pieces is_digit lower text absolute start index part (c ∷ rest)
        ≡ (absolute + start, part ++ c ∷ [])
          ∷ sentence_pieces is_digit lower text absolute (index + 1) (index + 1) [] rest
  sentence-cut text absolute start index c part rest e = rw (e, sentence_pieces)

  sentence-goes_on :
      (text : Text) (absolute start index c : ℕ) (part rest : Text)
      → (is_sentence_punctuation c && can_split_at is_digit lower text index) ≡ false
      → sentence_pieces is_digit lower text absolute start index part (c ∷ rest)
        ≡ sentence_pieces is_digit lower text absolute start (index + 1) (part ++ c ∷ []) rest
  sentence-goes_on text absolute start index c part rest e = rw (e, sentence_pieces)

  sentences-Tiles :
      (text : Text) (absolute start index : ℕ) (part rest : Text)
      → index ≡ start + length part
      → Tiles
          (absolute + start)
          (filter_if kept (sentence_pieces is_digit lower text absolute start index part rest))
          (part ++ rest)
  sentences-Tiles text absolute start index part [] h =
      subst (λ t. Tiles (absolute + start) (filter_if kept (last_piece (absolute + start) part)) t)
        (sym (append-nil part)) (last-Tiles (absolute + start) part)
  sentences-Tiles text absolute start index part (c ∷ rest) h =
      let longer = length-append part (c ∷ []) in
      let same : (part ++ c ∷ []) ++ rest ≡ part ++ c ∷ rest = append_assoc part (c ∷ []) rest in
      let all = sentence_pieces is_digit lower text absolute start index part (c ∷ rest) in
      subst (λ t. Tiles (absolute + start) (filter_if kept all) t) same
        (elim (Bool-cases (is_sentence_punctuation c && can_split_at is_digit lower text index)) [
          | inl e ↦
              let moved : absolute + (index + 1) ≡ absolute + start + length (part ++ c ∷ []) =
                omega arith in
              let tail =
                sentences-Tiles text absolute (index + 1) (index + 1) [] rest (omega arith) in
              let later =
                sentence_pieces is_digit lower text absolute (index + 1) (index + 1) [] rest in
              rw (sentence-cut text absolute start index c part rest e) (
                kept-Tiles (absolute + start) (part ++ c ∷ []) later rest
                  (subst (λ m. Tiles m (filter_if kept later) rest) moved tail))
          | inr e ↦
              rw (sentence-goes_on text absolute start index c part rest e) (
                sentences-Tiles text absolute start (index + 1) (part ++ c ∷ []) rest (omega arith))
        ])

  map-pieces :
      (ps : List Piece)
      → map (λ (a : Appended). a.1) (map (λ (p : Piece). (sentence_type is_digit lower p.1, p)) ps)
        ≡ ps
  map-pieces [] = refl
  map-pieces (p ∷ ps) = ap (λ qs. p ∷ qs) (map-pieces ps)

  pub paragraph-Tiles :
      (text : Text) (start : ℕ)
      → text ≢ []
      → Tiles start (map (λ (a : Appended). a.1) (paragraph_units is_digit lower text start)) text
  paragraph-Tiles text start some_text =
      elim (Bool-cases
        (length (split_sentences is_digit lower text start) == 1 && any (λ c. c == 10) text)) [
          | inl e ↦ simp e (one-Tiles start text some_text)
          | inr e ↦
              let tiles = sentences-Tiles text start 0 0 [] text refl in
              let from : start + 0 ≡ start = omega arith in
              simp e (
                subst (λ ps. Tiles start ps text)
                  (sym (map-pieces (split_sentences is_digit lower text start)))
                  (subst (λ m. Tiles m (split_sentences is_digit lower text start) text) from
                    tiles))
        ]
