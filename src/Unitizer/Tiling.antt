-- ===== src/Unitizer/Tiling.antt =====
-- What it is for pieces to cover a text but for white space.
use mathlib.Core.List.{append-nil, append_assoc}
use mathlib.Core.Path.{subst}
use open_webui_memorist_edit.Prelude.{
  ℕ, ◌+◌, ◌≡◌, ◌≢◌, refl, sym, ap, ◌∙◌, inl, inr, true, false, List, [], ◌∷◌, ◌++◌, length,
  length-append, arith, Bool-cases,
}
use open_webui_memorist_edit.Prelude.Texts.{is_space}
use open_webui_memorist_edit.Unitizer.{Text, Piece, blank}

abbrev pub IsBlank : Text → Type 0
IsBlank text = blank text ≡ true

-- The pieces stand in the text in order, none of them is empty, each has the right start, counted
-- from n, and only white space is outside them.
abbrev pub Tiles : ℕ → List Piece → Text → Type 0
Tiles n [] text = IsBlank text
Tiles n ((start, piece) ∷ pieces) text =
    (gap : Text) × (rest : Text) × (text ≡ gap ++ (piece ++ rest))
    × IsBlank gap
    × (start ≡ n + length gap)
    × (piece ≢ [])
    × Tiles (start + length piece) pieces rest

pub IsBlank-append : (a b : Text) → IsBlank a → IsBlank b → IsBlank (a ++ b)
IsBlank-append [] b h k = k
IsBlank-append (c ∷ a) b h k = elim (Bool-cases (is_space c)) [
  | inl e ↦ simp e (IsBlank-append a b (simp e at h) k)
  | inr e ↦ let h' : false ≡ true = simp e at h in cc
]

pub gap-Tiles :
    (gap : Text) (n : ℕ) (pieces : List Piece) (text : Text)
    → IsBlank gap
    → Tiles (n + length gap) pieces text
    → Tiles n pieces (gap ++ text)
gap-Tiles gap n [] text g h = IsBlank-append gap text g h
gap-Tiles gap n ((start, piece) ∷ pieces) text g (inner, rest, eq, b, at_start, some_text, later) =
    (
      gap ++ inner,
      rest,
      ap (λ t. gap ++ t) eq ∙ sym (append_assoc gap inner (piece ++ rest)),
      IsBlank-append gap inner g b,
      omega (arith, length-append gap inner),
      some_text,
      later,
    )

pub piece-Tiles :
    (n : ℕ) (piece : Text) (pieces : List Piece) (text : Text)
    → piece ≢ []
    → Tiles (n + length piece) pieces text
    → Tiles n ((n, piece) ∷ pieces) (piece ++ text)
piece-Tiles n piece pieces text some_text h = ([], text, refl, refl, omega arith, some_text, h)

pub one-Tiles : (n : ℕ) (piece : Text) → piece ≢ [] → Tiles n ((n, piece) ∷ []) piece
one-Tiles n piece some_text = ([], [], sym (append-nil piece), refl, omega arith, some_text, refl)

pub append-Tiles :
    (n : ℕ) (ps qs : List Piece) (a b : Text)
    → Tiles n ps a
    → Tiles (n + length a) qs b
    → Tiles n (ps ++ qs) (a ++ b)
append-Tiles n [] qs a b h k = gap-Tiles a n qs b h k
append-Tiles n ((start, piece) ∷ ps) qs a b (gap, rest, eq, g, at_start, some_text, later) k =
    let size : length a ≡ length gap + (length piece + length rest) =
      ap length eq ∙ omega (arith, length-append gap (piece ++ rest), length-append piece rest) in
    let moved : n + length a ≡ start + length piece + length rest = omega arith in
    (
      gap,
      rest ++ b,
      ap (λ t. t ++ b) eq
          ∙ append_assoc gap (piece ++ rest) b
          ∙ ap (λ t. gap ++ t) (append_assoc piece rest b),
      g,
      at_start,
      some_text,
      append-Tiles (start + length piece) ps qs rest b later (subst (λ m. Tiles m qs b) moved k),
    )
