-- ===== src/Coverage/Intervals.antt =====
-- _merge_intervals and _tokens_outside_intervals of coverage/planner.py. A span is a pair of
-- positions, the second one excluded.
pub mod Merge
pub mod Outside
use open_webui_memorist_edit.Prelude.{
  ℕ, Bool, true, false, ◌&&◌, List, [], ◌∷◌, ltb, leb, if◌then◌else◌, max,
}
use open_webui_memorist_edit.Prelude.Sorting.{sort_by}

abbrev pub Span : Type 0
Span = ℕ × ℕ

-- The order of Python tuples.
abbrev pub span_leb : Span → Span → Bool
span_leb a b = if ltb a.0 b.0 then true else if ltb b.0 a.0 then false else leb a.1 b.1

-- The loop: the last merged span is carried until a later span begins past its end.
unfoldable pub merge_from : Span → List Span → List Span
merge_from last [] = last ∷ []
merge_from last (s ∷ ss) =
    let apart = last ∷ merge_from s ss in
    let joined = merge_from (last.0, max last.1 s.1) ss in if ltb last.1 s.0 then apart else joined

unfoldable pub merge_sorted : List Span → List Span
unfolding merge_from
merge_sorted [] = []
merge_sorted (s ∷ ss) = merge_from s ss

unfoldable pub merge_intervals : List Span → List Span
unfolding merge_sorted sort_by
merge_intervals spans = merge_sorted (sort_by span_leb spans)

-- The test of `_tokens_outside_intervals` against one interval.
abbrev pub overlap : Span → Span → Bool
overlap token c = ltb token.0 c.1 && ltb c.0 token.1

-- `while ... covered[interval_index][1] <= token_start: interval_index += 1`, on the intervals
-- from `interval_index` on.
unfoldable pub skip_before : ℕ → List Span → List Span
skip_before start [] = []
skip_before start (c ∷ cs) =
    let rest = skip_before start cs in if leb c.1 start then rest else c ∷ cs

unfoldable pub overlaps_first : Span → List Span → Bool
overlaps_first token [] = false
overlaps_first token (c ∷ cs) = overlap token c

module _ {ℓ} {A : Type ℓ} (span : A → Span) where
  unfoldable pub tokens_outside_intervals : List A → List Span → List A
  unfolding skip_before overlaps_first
  tokens_outside_intervals [] covered = []
  tokens_outside_intervals (t ∷ ts) covered =
      let ahead = skip_before (span t).0 covered in
      let rest = tokens_outside_intervals ts ahead in
      if overlaps_first (span t) ahead then rest else t ∷ rest
