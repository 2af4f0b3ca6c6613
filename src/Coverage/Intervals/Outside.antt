-- ===== src/Coverage/Intervals/Outside.antt =====
-- The two-pointer loop of `_tokens_outside_intervals` is the exhaustive test.
use open_webui_memorist_edit.Prelude.{
  ℕ, ◌≤◌, ◌<◌, ◌≡◌, refl, sym, ap, ◌∙◌, inl, inr, Bool, false, not, ◌||◌, List, [], ◌∷◌, arith, leb,
  any, filter_if, filter_if-cong, All, All-imp, Bool-cases, if-not,
}
use open_webui_memorist_edit.Coverage.Intervals.{
  Span, overlap, skip_before, overlaps_first, tokens_outside_intervals,
}
use open_webui_memorist_edit.Coverage.Intervals.Merge.{IsAscending}

-- The overlap with any of the intervals.
abbrev pub overlaps_any : List Span → Span → Bool
overlaps_any covered token = any (overlap token) covered

-- What is skipped at a position overlaps no token that starts there or later.
any-skip_before :
    (start : ℕ) (token : Span) (cs : List Span)
    → start ≤ token.0
    → overlaps_any (skip_before start cs) token ≡ overlaps_any cs token
unfolding skip_before
any-skip_before start token [] h = refl
any-skip_before start token (c ∷ cs) h = elim (Bool-cases (leb c.1 start)) [
  | inl e ↦
      let away : overlap token c ≡ false = ground arith in
      rw (e, away) (any-skip_before start token cs h)
  | inr e ↦ rw e
]

later_away :
    (token c : Span) (cs : List Span)
    → token.1 ≤ c.0
    → All (λ d. c.0 ≤ d.0) cs
    → overlaps_any cs token ≡ false
later_away token c [] h k = refl
later_away token c (d ∷ ds) h k =
    let away : overlap token d ≡ false = let le = k.0 in ground arith in
    rw away (later_away token c ds h k.1)

-- An interval that ends past the token's start decides for all that come after it.
first_decides :
    (token c : Span) (cs : List Span)
    → token.0 < c.1
    → All (λ d. c.0 ≤ d.0) cs
    → overlap token c ≡ (overlap token c || overlaps_any cs token)
first_decides token c cs h k = elim (Bool-cases (overlap token c)) [
  | inl e ↦ rw e
  | inr e ↦ let past : token.1 ≤ c.0 = ground arith in rw e (sym (later_away token c cs past k))
]

overlaps_first-skip_before :
    (token : Span) (cs : List Span)
    → IsAscending cs
    → overlaps_first token (skip_before token.0 cs) ≡ overlaps_any cs token
unfolding skip_before overlaps_first
overlaps_first-skip_before token [] h = refl
overlaps_first-skip_before token (c ∷ cs) h = elim (Bool-cases (leb c.1 token.0)) [
  | inl e ↦
      let away : overlap token c ≡ false = ground arith in
      rw (e, away) (overlaps_first-skip_before token cs h.1)
  | inr e ↦ rw e (first_decides token c cs (ground arith) h.0)
]

skip_before-IsAscending :
    (start : ℕ) (cs : List Span) → IsAscending cs → IsAscending (skip_before start cs)
unfolding skip_before
skip_before-IsAscending start [] h = tt
skip_before-IsAscending start (c ∷ cs) h = elim (Bool-cases (leb c.1 start)) [
  | inl e ↦ rw e (skip_before-IsAscending start cs h.1)
  | inr e ↦ rw e h
]

module _ {ℓ} {A : Type ℓ} (span : A → Span) where
  -- Tokens in the order of their starts.
  abbrev pub AreOrdered : List A → Type ℓ
  AreOrdered [] = Unit
  AreOrdered (t ∷ ts) = All (λ u. (span t).0 ≤ (span u).0) ts × AreOrdered ts

  -- With tokens in the order of their starts and intervals in the order of theirs, the loop keeps
  -- exactly the tokens that overlap no interval.
  pub tokens_outside_intervals-eq-filter :
      (ts : List A) (covered : List Span)
      → AreOrdered ts
      → IsAscending covered
      → tokens_outside_intervals span ts covered
        ≡ filter_if (λ t. not (overlaps_any covered (span t))) ts
  unfolding tokens_outside_intervals
  tokens_outside_intervals-eq-filter [] covered h asc = refl
  tokens_outside_intervals-eq-filter (t ∷ ts) covered h asc =
      let ahead = skip_before (span t).0 covered in
      let rest =
        tokens_outside_intervals-eq-filter ts ahead h.1
          (skip_before-IsAscending (span t).0 covered asc) in
      let same =
        filter_if-cong (λ u. not (overlaps_any ahead (span u)))
          (λ u. not (overlaps_any covered (span u))) ts
          (All-imp ts (λ u le. ap not (any-skip_before (span t).0 (span u) covered le)) h.0) in
      rw (overlaps_first-skip_before (span t) covered asc)
        (rw (rest ∙ same) (if-not (overlaps_any covered (span t)) _ _))
