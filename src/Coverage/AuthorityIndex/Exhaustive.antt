-- ===== src/Coverage/AuthorityIndex/Exhaustive.antt =====
-- The binary search finds what the exhaustive query finds.
use open_webui_memorist_edit.Prelude.{
  ℕ, zero, suc, ◌≤◌, ◌<◌, ◌≡◌, refl, sym, inl, inr, false, List, [], ◌∷◌, arith, leb, if◌then◌else◌,
  get_elem?, filter_if, All, All-imp, Bool-cases,
}
use open_webui_memorist_edit.Prelude.Sorting.{sort_by, IsSorted, sort_by-IsSorted}
use open_webui_memorist_edit.Coverage.Contracts.{Authority}
use open_webui_memorist_edit.Coverage.AuthorityIndex.{
  authority_leb, overlapping, bisect_right, contains_span, ends_within, at_index, containing_sorted,
  containing,
}

abbrev StartsSorted : List Authority → Type 0
StartsSorted = IsSorted (λ a b. a.raw_start ≤ b.raw_start)

-- Authorities that begin after the query contain it in no case.
filter_if-later :
    (start end : ℕ) (xs : List Authority)
    → All (λ a. start < a.raw_start) xs
    → filter_if (contains_span start end) xs ≡ []
filter_if-later start end [] h = refl
filter_if-later start end (a ∷ xs) h =
    let no : contains_span start end a ≡ false = let lt = h.0 in ground arith in
    rw no (filter_if-later start end xs h.1)

bisect_right-zero :
    (start : ℕ) (xs : List Authority)
    → StartsSorted xs
    → bisect_right xs start ≡ 0
    → All (λ a. start < a.raw_start) xs
unfolding bisect_right
bisect_right-zero start [] s h = tt
bisect_right-zero start (a ∷ xs) s h =
    let lt : start < a.raw_start = ground arith in (lt, All-imp xs (λ b le. omega arith) s.0)

bisect_right-suc :
    (start : ℕ) (a b : Authority) (xs : List Authority) (k : ℕ)
    → bisect_right (b ∷ xs) start ≡ suc k
    → b.raw_start ≤ start
unfolding bisect_right
bisect_right-suc start a b xs k h = ground arith

-- An authority with a later one that starts in time ends before the query.
earlier_ends :
    (start end : ℕ) (a : Authority) (xs : List Authority) (k : ℕ)
    → start < end
    → overlapping (a ∷ xs) ≡ false
    → bisect_right xs start ≡ suc k
    → leb end a.raw_end ≡ false
unfolding overlapping
earlier_ends start end a [] k lt o h = unfold bisect_right in ground arith
earlier_ends start end a (b ∷ xs) k lt o h =
    let le = bisect_right-suc start a b xs k h in ground arith

overlapping-tail :
    (a : Authority) (xs : List Authority) → overlapping (a ∷ xs) ≡ false → overlapping xs ≡ false
unfolding overlapping
overlapping-tail a [] o = refl
overlapping-tail a (b ∷ xs) o = ground arith

at_index-step :
    (start end : ℕ) (a : Authority) (xs : List Authority) (k : ℕ)
    → start < end
    → StartsSorted xs
    → overlapping (a ∷ xs) ≡ false
    → bisect_right xs start ≡ k
    → at_index xs end k ≡ filter_if (contains_span start end) xs
    → ends_within end (get_elem? (a ∷ xs) k) ≡ (
        if leb end a.raw_end
        then a ∷ filter_if (contains_span start end) xs
        else filter_if (contains_span start end) xs)
unfolding at_index
at_index-step start end a xs zero lt s o h ih = rw (← ih)
at_index-step start end a xs (suc k) lt s o h ih = rw (earlier_ends start end a xs k lt o h) ih

-- With sorted starts and no overlapping neighbours, and a query that is not empty.
at_index-eq-filter :
    (start end : ℕ) (xs : List Authority)
    → start < end
    → StartsSorted xs
    → overlapping xs ≡ false
    → at_index xs end (bisect_right xs start) ≡ filter_if (contains_span start end) xs
unfolding at_index bisect_right
at_index-eq-filter start end [] lt s o = refl
at_index-eq-filter start end (a ∷ xs) lt s o = elim (Bool-cases (leb a.raw_start start)) [
  | inl e ↦
      let ih = at_index-eq-filter start end xs lt s.1 (overlapping-tail a xs o) in
      let step = at_index-step start end a xs (bisect_right xs start) lt s.1 o refl ih in rw e step
  | inr e ↦
      let after : start < a.raw_start = ground arith in
      rw e (sym (filter_if-later start end xs (All-imp xs (λ b le. omega arith) s.0)))
]

StartsSorted-sort_by : (xs : List Authority) → StartsSorted (sort_by authority_leb xs)
StartsSorted-sort_by =
    sort_by-IsSorted authority_leb (λ a b. a.raw_start ≤ b.raw_start) (λ a b e. ground arith)
      (λ a b e. ground arith) (λ a b c h k. omega arith)

containing_sorted-eq-filter :
    (start end : ℕ) (xs : List Authority)
    → start < end
    → StartsSorted xs
    → containing_sorted xs start end ≡ filter_if (contains_span start end) xs
unfolding containing_sorted
containing_sorted-eq-filter start end xs lt s = elim (Bool-cases (overlapping xs)) [
  | inl o ↦ rw o
  | inr o ↦ rw o (at_index-eq-filter start end xs lt s o)
]

-- For a query that is not empty, on any authorities, overlapping or not: the index answers with
-- the sorted authorities whose span contains the query, each of them and no other.
pub containing-eq-filter :
    (authorities : List Authority) (start end : ℕ)
    → start < end
    → containing authorities start end
      ≡ filter_if (contains_span start end) (sort_by authority_leb authorities)
unfolding containing
containing-eq-filter authorities start end lt =
    containing_sorted-eq-filter start end (sort_by authority_leb authorities) lt
      (StartsSorted-sort_by authorities)
