-- ===== src/Coverage/AuthorityIndex.antt =====
-- _AuthorityIndex of coverage/planner.py: the authorities whose span contains a given span.
pub mod Exhaustive
use Prim.Native.String.{compare}
use text.Mathlib.Text.{is_le}
use open_webui_memorist_edit.Prelude.{
  ℕ, zero, suc, ◌+◌, Bool, true, false, ◌&&◌, ◌||◌, Option, none, some, List, [], ◌∷◌, ltb, leb,
  if◌then◌else◌, get_elem?, filter_if,
}
use open_webui_memorist_edit.Prelude.Sorting.{sort_by}
use open_webui_memorist_edit.Coverage.Contracts.{Authority}

-- The order on (raw_start, raw_end, text_unit_uuid).
abbrev pub authority_leb : Authority → Authority → Bool
authority_leb a b =
    if ltb a.raw_start b.raw_start
    then true
    else if ltb b.raw_start a.raw_start
    then false
    else if ltb a.raw_end b.raw_end
    then true
    else if ltb b.raw_end a.raw_end
    then false
    else is_le (compare a.text_unit_uuid b.text_unit_uuid)

-- Two neighbours overlap.
unfoldable pub overlapping : List Authority → Bool
overlapping [] = false
overlapping (a ∷ []) = false
overlapping (a ∷ b ∷ xs) = ltb b.raw_start a.raw_end || overlapping (b ∷ xs)

-- bisect_right on the starts, which ascend: how many are at most `start`.
unfoldable pub bisect_right : List Authority → ℕ → ℕ
bisect_right [] start = 0
bisect_right (a ∷ xs) start =
    let rest = bisect_right xs start in if leb a.raw_start start then suc rest else 0

abbrev pub contains_span : ℕ → ℕ → Authority → Bool
contains_span start end a = leb a.raw_start start && leb end a.raw_end

abbrev pub ends_within : ℕ → Option Authority → List Authority
ends_within end none = []
ends_within end (some a) = if leb end a.raw_end then a ∷ [] else []

-- `index = bisect_right(...) - 1`, and no authority where that is negative.
unfoldable pub at_index : List Authority → ℕ → ℕ → List Authority
at_index xs end zero = []
at_index xs end (suc i) = ends_within end (get_elem? xs i)

unfoldable pub containing_sorted : List Authority → ℕ → ℕ → List Authority
unfolding overlapping bisect_right at_index
containing_sorted xs start end =
    if overlapping xs
    then filter_if (contains_span start end) xs
    else at_index xs end (bisect_right xs start)

unfoldable pub containing : List Authority → ℕ → ℕ → List Authority
unfolding containing_sorted sort_by
containing authorities start end = containing_sorted (sort_by authority_leb authorities) start end
