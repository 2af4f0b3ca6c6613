-- ===== src/Coverage/Intervals/Merge.antt =====
-- `_merge_intervals` gives sorted spans with gaps between them, over the same positions.
use open_webui_memorist_edit.Prelude.{
  ℕ, suc, ◌≤◌, ◌<◌, ◌≡◌, refl, sym, ap, ◌∙◌, inl, inr, Bool, true, false, ◌&&◌, ◌||◌, List, [], ◌∷◌,
  arith, ltb, leb, max, any, All, All-imp, Bool-cases,
}
use open_webui_memorist_edit.Prelude.Sorting.{sort_by, IsSorted, sort_by-IsSorted, any-sort_by}
use open_webui_memorist_edit.Coverage.Intervals.{
  Span, span_leb, merge_from, merge_sorted, merge_intervals,
}

-- The position lies in a span.
abbrev pub inside : ℕ → Span → Bool
inside x s = leb s.0 x && ltb x s.1

abbrev pub covers : ℕ → List Span → Bool
covers x spans = any (inside x) spans

-- Starts do not fall.
abbrev pub IsAscending : List Span → Type 0
IsAscending = IsSorted (λ a b. a.0 ≤ b.0)

-- Each span ends before all later ones begin.
abbrev pub IsSeparated : List Span → Type 0
IsSeparated [] = Unit
IsSeparated (s ∷ ss) = All (λ t. s.1 < t.0) ss × IsSeparated ss

sort_spans-IsAscending : (ss : List Span) → IsAscending (sort_by span_leb ss)
sort_spans-IsAscending =
    sort_by-IsSorted span_leb (λ a b. a.0 ≤ b.0) (λ a b e. ground arith) (λ a b e. ground arith)
      (λ a b c h k. omega arith)

merge_from-starts :
    (n : ℕ) (last : Span) (ss : List Span)
    → n ≤ last.0
    → All (λ t. n ≤ t.0) ss
    → All (λ t. n ≤ t.0) (merge_from last ss)
unfolding merge_from
merge_from-starts n last [] h hs = (h, tt)
merge_from-starts n last (s ∷ ss) h hs = elim (Bool-cases (ltb last.1 s.0)) [
  | inl e ↦ rw e (h, merge_from-starts n s ss hs.0 hs.1)
  | inr e ↦ rw e (merge_from-starts n (last.0, max last.1 s.1) ss h hs.1)
]

merge_from-IsSeparated :
    (last : Span) (ss : List Span) → IsAscending (last ∷ ss) → IsSeparated (merge_from last ss)
unfolding merge_from
merge_from-IsSeparated last [] h = (tt, tt)
merge_from-IsSeparated last (s ∷ ss) h = elim (Bool-cases (ltb last.1 s.0)) [
  | inl e ↦
      let gap : last.1 < s.0 = ground arith in
      let later =
        All-imp ss (λ (t : Span) (k : s.0 ≤ t.0). let r : suc last.1 ≤ t.0 = omega arith in r)
          h.1.0 in
      rw e (merge_from-starts (suc last.1) s ss gap later, merge_from-IsSeparated s ss h.1)
  | inr e ↦ rw e (merge_from-IsSeparated (last.0, max last.1 s.1) ss (h.0.1, h.1.1))
]

inside-joined :
    (x : ℕ) (a b : Span)
    → a.0 ≤ b.0
    → b.0 ≤ a.1
    → inside x (a.0, max a.1 b.1) ≡ (inside x a || inside x b)
inside-joined x a b h k = ground arith

or_assoc : (a b c : Bool) → (a || (b || c)) ≡ ((a || b) || c)
or_assoc true b c = refl
or_assoc false b c = refl

covers-merge_from :
    (x : ℕ) (last : Span) (ss : List Span)
    → IsAscending (last ∷ ss)
    → covers x (merge_from last ss) ≡ (inside x last || covers x ss)
unfolding merge_from
covers-merge_from x last [] h = refl
covers-merge_from x last (s ∷ ss) h = elim (Bool-cases (ltb last.1 s.0)) [
  | inl e ↦ rw e (ap (λ b. inside x last || b) (covers-merge_from x s ss h.1))
  | inr e ↦
      let touch : s.0 ≤ last.1 = ground arith in
      rw e (
        covers-merge_from x (last.0, max last.1 s.1) ss (h.0.1, h.1.1)
        ∙ ap (λ b. b || covers x ss) (inside-joined x last s h.0.0 touch)
        ∙ sym (or_assoc (inside x last) (inside x s) (covers x ss)))
]

merge_from-IsAscending :
    (last : Span) (ss : List Span) → IsAscending (last ∷ ss) → IsAscending (merge_from last ss)
unfolding merge_from
merge_from-IsAscending last [] h = (tt, tt)
merge_from-IsAscending last (s ∷ ss) h = elim (Bool-cases (ltb last.1 s.0)) [
  | inl e ↦ rw e (merge_from-starts last.0 s ss h.0.0 h.0.1, merge_from-IsAscending s ss h.1)
  | inr e ↦ rw e (merge_from-IsAscending (last.0, max last.1 s.1) ss (h.0.1, h.1.1))
]

merge_sorted-IsSeparated : (ss : List Span) → IsAscending ss → IsSeparated (merge_sorted ss)
unfolding merge_sorted
merge_sorted-IsSeparated [] h = tt
merge_sorted-IsSeparated (s ∷ ss) h = merge_from-IsSeparated s ss h

merge_sorted-IsAscending : (ss : List Span) → IsAscending ss → IsAscending (merge_sorted ss)
unfolding merge_sorted
merge_sorted-IsAscending [] h = tt
merge_sorted-IsAscending (s ∷ ss) h = merge_from-IsAscending s ss h

covers-merge_sorted :
    (x : ℕ) (ss : List Span) → IsAscending ss → covers x (merge_sorted ss) ≡ covers x ss
unfolding merge_sorted
covers-merge_sorted x [] h = refl
covers-merge_sorted x (s ∷ ss) h = covers-merge_from x s ss h

pub merge_intervals-IsAscending : (spans : List Span) → IsAscending (merge_intervals spans)
unfolding merge_intervals
merge_intervals-IsAscending spans =
    merge_sorted-IsAscending (sort_by span_leb spans) (sort_spans-IsAscending spans)

-- The merged spans stand in order, each ends strictly before the next begins, and they cover the
-- positions that the given spans cover.
pub merge_intervals_lem :
    (spans : List Span)
    → IsSeparated (merge_intervals spans)
      × ((x : ℕ) → covers x (merge_intervals spans) ≡ covers x spans)
unfolding merge_intervals
merge_intervals_lem spans =
    let sorted = sort_spans-IsAscending spans in
    (
      merge_sorted-IsSeparated (sort_by span_leb spans) sorted,
      λ x.
          covers-merge_sorted x (sort_by span_leb spans) sorted
          ∙ any-sort_by span_leb (inside x) spans,
    )
