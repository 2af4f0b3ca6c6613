-- ===== src/Unitizer/Lines.antt =====
-- The lines of a message, and the blocks that are gathered from them.
use mathlib.Core.List.{append_assoc}
use mathlib.Core.Path.{subst}
use open_webui_memorist_edit.Prelude.{
  ℕ, ◌+◌, ◌≤◌, ◌≡◌, ◌≢◌, refl, ap, ◌∙◌, inl, inr, Bool, List, [], ◌∷◌, ◌++◌, length, length-append,
  arith, Bool-cases,
}
use open_webui_memorist_edit.Unitizer.{Text, Piece, ends_line, split_lines, spans_from, is_fence}
use open_webui_memorist_edit.Unitizer.Blocks.{gather, gather_fenced}
use open_webui_memorist_edit.Unitizer.Unitize.{spans_of}

-- The text of consecutive lines.
abbrev pub joined : List Piece → Text
joined [] = []
joined (p ∷ spans) = p.1 ++ joined spans

-- Each line starts where the one before it ends.
abbrev pub Starts : ℕ → List Piece → Type 0
Starts n [] = Unit
Starts n (p ∷ spans) = (p.0 ≡ n) × Starts (n + length p.1) spans

-- What a loop over lines gathers: the text grows by the lines that are taken.
pub record IsGathered (n : ℕ) (text : Text) (spans : List Piece) (r : Text × List Piece)
    : Type 0 where
  pub same : r.0 ++ joined r.1 ≡ text ++ joined spans
  pub starts : Starts (n + length r.0) r.1
  pub fewer : length r.1 ≤ length spans
  pub some_text : r.0 ≢ []

grown : (text line : Text) → text ≢ [] → text ++ line ≢ []
grown [] line h = absurd (h refl)
grown (c ∷ cs) line h = λ e. cc

-- One line more.
further :
    (n : ℕ) (text : Text) (p : Piece) (spans : List Piece) (r : Text × List Piece)
    → IsGathered n (text ++ p.1) spans r
    → IsGathered n text (p ∷ spans) r
further n text p spans r g = record {
  same = g.same ∙ append_assoc text p.1 (joined spans);
  starts = g.starts;
  fewer = let k = g.fewer in omega arith;
  some_text = g.some_text;
}

moved :
    (n : ℕ) (text : Text) (p : Piece) (spans : List Piece)
    → Starts (n + length text + length p.1) spans
    → Starts (n + length (text ++ p.1)) spans
moved n text p spans h =
    let same : n + length text + length p.1 ≡ n + length (text ++ p.1) =
      omega (arith, length-append text p.1) in
    subst (λ m. Starts m spans) same h

pub gather-IsGathered :
    (stops : Text → Bool) (n : ℕ) (text : Text) (spans : List Piece)
    → text ≢ []
    → Starts (n + length text) spans
    → IsGathered n text spans (gather stops text spans)
gather-IsGathered stops n text [] h s = record {
  same = refl;
  starts = tt;
  fewer = omega arith;
  some_text = h;
}
gather-IsGathered stops n text (p ∷ spans) h s = elim (Bool-cases (stops p.1)) [
  | inl e ↦ rw (e, gather) record { same = refl; starts = s; fewer = omega arith; some_text = h }
  | inr e ↦
      rw (e, gather)
        (further n text p spans _ (
          gather-IsGathered stops n (text ++ p.1) spans (grown text p.1 h)
            (moved n text p spans s.1)))
]

pub gather_fenced-IsGathered :
    (n : ℕ) (text : Text) (spans : List Piece)
    → text ≢ []
    → Starts (n + length text) spans
    → IsGathered n text spans (gather_fenced text spans)
gather_fenced-IsGathered n text [] h s = record {
  same = refl;
  starts = tt;
  fewer = omega arith;
  some_text = h;
}
gather_fenced-IsGathered n text (p ∷ spans) h s = elim (Bool-cases (is_fence p.1)) [
  | inl e ↦
      simp (e, gather_fenced)
        record {
          same = append_assoc text p.1 (joined spans);
          starts = moved n text p spans s.1;
          fewer = omega arith;
          some_text = grown text p.1 h;
        }
  | inr e ↦
      simp (e, gather_fenced)
        (further n text p spans _ (
          gather_fenced-IsGathered n (text ++ p.1) spans (grown text p.1 h)
            (moved n text p spans s.1)))
]

-- The lines of a text, with the part of a line read so far.
lines-joined :
    (n : ℕ) (line text : Text) → joined (spans_from n (split_lines line text)) ≡ line ++ text
lines-joined n [] [] = refl
lines-joined n (c ∷ cs) [] = refl
lines-joined n line (c ∷ rest) = elim (Bool-cases (ends_line c rest)) [
  | inl e ↦
      rw (e, split_lines)
        (ap (λ t. (line ++ c ∷ []) ++ t) (lines-joined (n + length (line ++ c ∷ [])) [] rest)
          ∙ append_assoc line (c ∷ []) rest)
  | inr e ↦
      rw (e, split_lines) (lines-joined n (line ++ c ∷ []) rest ∙ append_assoc line (c ∷ []) rest)
]

lines-Starts : (n : ℕ) (lines : List Text) → Starts n (spans_from n lines)
lines-Starts n [] = tt
lines-Starts n (line ∷ lines) = (refl, lines-Starts (n + length line) lines)

pub spans_of-joined : (text : Text) → joined (spans_of text) ≡ text
spans_of-joined text = lines-joined 0 [] text

pub spans_of-Starts : (text : Text) → Starts 0 (spans_of text)
spans_of-Starts text = lines-Starts 0 (split_lines [] text)
