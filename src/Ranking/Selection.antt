-- ===== src/Ranking/Selection.antt =====
-- What is selected from a ranking.
use mathlib.Core.Path.{subst}
use open_webui_memorist_edit.Prelude.{
  ℕ, suc, ◌+◌, ◌-◌, ◌≤◌, ◌<◌, ◌≡◌, refl, sym, ◌⊎◌, inl, inr, Bool, true, false, not, ◌&&◌, ◌||◌,
  List, [], ◌∷◌, leb, any, All, All-imp, filter_if, filter_if-passes, filter_if-All, take, length,
  arith, Bool-cases, or_true, &&-left,
}
use open_webui_memorist_edit.Prelude.Int.{ℤ}
use open_webui_memorist_edit.Prelude.Texts.{same_codes, same_codes_refl}
use open_webui_memorist_edit.Ranking.{
  ScoredMemoryItem, Items, diversity_key, is_seen, may_repeat, diversify_from, diversify, reaches,
  is_unresolved, select_eligible, select_items,
}

module _ (lower : List ℕ → List ℕ) where
  abbrev pub same_key : ScoredMemoryItem → ScoredMemoryItem → Bool
  same_key a b = same_codes (diversity_key lower a) (diversity_key lower b)

  -- No two items have one key, unless the later is a constraint or a decision.
  abbrev pub IsDiverse : Items → Type 0
  IsDiverse [] = Unit
  IsDiverse (i ∷ items) =
      All (λ (x : ScoredMemoryItem). (same_key i x ≡ false) ⊎ (may_repeat x.memory_type ≡ true))
        items
      × IsDiverse items

  abbrev IsNew : List (List ℕ) → ScoredMemoryItem → Type 0
  IsNew seen x = (is_seen (diversity_key lower x) seen ≡ false) ⊎ (may_repeat x.memory_type ≡ true)

  taken-IsNew :
      (seen : List (List ℕ)) (i : ScoredMemoryItem)
      → is_seen (diversity_key lower i) seen && not (may_repeat i.memory_type) ≡ false
      → IsNew seen i
  taken-IsNew seen i h = elim (Bool-cases (may_repeat i.memory_type)) [
    | inl repeats ↦ inr repeats
    | inr once ↦
        inl (unseen (is_seen (diversity_key lower i) seen) (may_repeat i.memory_type) h once)
  ]
    where
      unseen : (a b : Bool) → a && not b ≡ false → b ≡ false → a ≡ false
      unseen false b h k = refl
      unseen true b h k = ground arith

  IsNew-weaken :
      (k : List ℕ) (seen : List (List ℕ)) (x : ScoredMemoryItem) → IsNew (k ∷ seen) x → IsNew seen x
  IsNew-weaken k seen x (inr r) = inr r
  IsNew-weaken k seen x (inl h) = inl (second (same_codes k (diversity_key lower x)) _ h)
    where
      second : (a b : Bool) → a || b ≡ false → b ≡ false
      second true b h = cc
      second false b h = h

  unlike :
      (i x : ScoredMemoryItem) (seen : List (List ℕ))
      → IsNew (diversity_key lower i ∷ seen) x
      → (same_key i x ≡ false) ⊎ (may_repeat x.memory_type ≡ true)
  unlike i x seen (inr r) = inr r
  unlike i x seen (inl h) = inl (first (same_key i x) _ h)
    where
      first : (a b : Bool) → a || b ≡ false → a ≡ false
      first true b h = cc
      first false b h = refl

  diversify_from-IsNew :
      (limit : ℕ) (seen : List (List ℕ)) (n : ℕ) (items : Items)
      → All (IsNew seen) (diversify_from lower limit seen n items)
  unfolding diversify_from
  diversify_from-IsNew limit seen n [] = tt
  diversify_from-IsNew limit seen n (i ∷ items) =
      elim (Bool-cases (is_seen (diversity_key lower i) seen && not (may_repeat i.memory_type))) [
        | inl e ↦ rw e (diversify_from-IsNew limit seen n items)
        | inr e ↦
            let new = taken-IsNew seen i e in
            elim (Bool-cases (leb limit (suc n))) [
              | inl full ↦ rw (e, full) (new, tt)
              | inr more ↦
                  rw (e, more)
                    (
                      new,
                      All-imp
                          (diversify_from lower limit (diversity_key lower i ∷ seen) (suc n) items)
                          (λ x h. IsNew-weaken (diversity_key lower i) seen x h)
                          (diversify_from-IsNew limit (diversity_key lower i ∷ seen) (suc n) items),
                    )
            ]
      ]

  diversify_from-IsDiverse :
      (limit : ℕ) (seen : List (List ℕ)) (n : ℕ) (items : Items)
      → IsDiverse (diversify_from lower limit seen n items)
  unfolding diversify_from
  diversify_from-IsDiverse limit seen n [] = tt
  diversify_from-IsDiverse limit seen n (i ∷ items) =
      elim (Bool-cases (is_seen (diversity_key lower i) seen && not (may_repeat i.memory_type))) [
        | inl e ↦ rw e (diversify_from-IsDiverse limit seen n items)
        | inr e ↦ elim (Bool-cases (leb limit (suc n))) [
          | inl full ↦ rw (e, full) (tt, tt)
          | inr more ↦
              let rest = diversify_from lower limit (diversity_key lower i ∷ seen) (suc n) items in
              rw (e, more)
                (
                  All-imp rest (λ x h. unlike i x seen h)
                      (diversify_from-IsNew limit (diversity_key lower i ∷ seen) (suc n) items),
                  diversify_from-IsDiverse limit (diversity_key lower i ∷ seen) (suc n) items,
                )
        ]
      ]

  length-diversify_from-le :
      (limit : ℕ) (seen : List (List ℕ)) (n : ℕ) (items : Items)
      → length (diversify_from lower limit seen n items) ≤ suc (limit - suc n)
  unfolding diversify_from
  length-diversify_from-le limit seen n [] = omega arith
  length-diversify_from-le limit seen n (i ∷ items) = ground (
    arith,
    length-diversify_from-le limit seen n items,
    length-diversify_from-le limit (diversity_key lower i ∷ seen) (suc n) items,
  )

  -- Where the limit is not reached, each item's key is among those that were seen or are selected.
  abbrev IsCovered : List (List ℕ) → Items → ScoredMemoryItem → Type 0
  IsCovered seen out x =
      (is_seen (diversity_key lower x) seen ≡ true) ⊎ (any (λ y. same_key y x) out ≡ true)

  moved :
      (seen : List (List ℕ)) (i : ScoredMemoryItem) (rest : Items) (x : ScoredMemoryItem)
      → IsCovered (diversity_key lower i ∷ seen) rest x
      → IsCovered seen (i ∷ rest) x
  moved seen i rest x (inr h) = inr (rw h (or_true (same_key i x)))
  moved seen i rest x (inl h) = elim (Bool-cases (same_key i x)) [
    | inl same ↦ inr (rw same)
    | inr other ↦ inl (rw other at h)
  ]

  diversify_from_complete :
      (limit : ℕ) (seen : List (List ℕ)) (n : ℕ) (items : Items)
      → n + length (diversify_from lower limit seen n items) < limit
      → All (IsCovered seen (diversify_from lower limit seen n items)) items
  unfolding diversify_from
  diversify_from_complete limit seen n [] h = tt
  diversify_from_complete limit seen n (i ∷ items) h =
      elim (Bool-cases (is_seen (diversity_key lower i) seen && not (may_repeat i.memory_type))) [
        | inl e ↦
            let same : diversify_from lower limit seen n (i ∷ items)
                ≡ diversify_from lower limit seen n items =
              rw e in
            subst (λ (out : Items). All (IsCovered seen out) (i ∷ items)) (sym same)
              (
                inl (&&-left (is_seen (diversity_key lower i) seen) _ e),
                diversify_from_complete limit seen n items
                    (subst (λ (out : Items). n + length out < limit) same h),
              )
        | inr e ↦ elim (Bool-cases (leb limit (suc n))) [
          | inl full ↦ absurd (let h' = rw (e, full) at h in ground arith)
          | inr more ↦
              let rest = diversify_from lower limit (diversity_key lower i ∷ seen) (suc n) items in
              let same : diversify_from lower limit seen n (i ∷ items) ≡ i ∷ rest = rw (e, more) in
              let h' : suc n + length rest < limit =
                let k = subst (λ (out : Items). n + length out < limit) same h in omega arith in
              subst (λ (out : Items). All (IsCovered seen out) (i ∷ items)) (sym same)
                (
                  inr (rw (same_codes_refl (diversity_key lower i))),
                  All-imp items (λ x k. moved seen i rest x k)
                      (diversify_from_complete limit (diversity_key lower i ∷ seen) (suc n) items
                        h'),
                )
        ]
      ]

  -- An item of the selection is at least at the threshold, no key repeats but that of a constraint or a
  -- decision, at most `limit` items are selected, or one if `limit` is 0, and where fewer are, each item
  -- at the threshold has a key that is selected.
  pub record IsSelection (threshold : ℤ) (limit : ℕ) (items selected : Items) : Type 0 where
    pub passing : All (λ (i : ScoredMemoryItem). reaches threshold i ≡ true) selected
    pub diverse : IsDiverse selected
    pub bounded : length selected ≤ suc (limit - 1)
    pub exhaustive :
        length selected < limit
        → All
            (λ (i : ScoredMemoryItem).
              reaches threshold i ≡ true → any (λ y. same_key y i) selected ≡ true)
            items

  diversify_from-All :
      (P : ScoredMemoryItem → Type 0) (limit : ℕ) (seen : List (List ℕ)) (n : ℕ) (items : Items)
      → All P items
      → All P (diversify_from lower limit seen n items)
  unfolding diversify_from
  diversify_from-All P limit seen n [] h = tt
  diversify_from-All P limit seen n (i ∷ items) h =
      elim (Bool-cases (is_seen (diversity_key lower i) seen && not (may_repeat i.memory_type))) [
        | inl e ↦ rw e (diversify_from-All P limit seen n items h.1)
        | inr e ↦ elim (Bool-cases (leb limit (suc n))) [
          | inl full ↦ rw (e, full) (h.0, tt)
          | inr more ↦
              rw (e, more)
                (h.0, diversify_from-All P limit (diversity_key lower i ∷ seen) (suc n) items h.1)
        ]
      ]

  selected-eq :
      (items : Items) (limit : ℕ)
      → (select_eligible lower items limit).selected ≡ diversify lower items limit
  unfolding diversify
  selected-eq [] limit = refl
  selected-eq (i ∷ items) limit =
      elim (Bool-cases
        (any (λ (x : ScoredMemoryItem). is_unresolved x.conflict_status) (take 2 (i ∷ items)))) [
          | inl e ↦ simp e refl
          | inr e ↦ simp e refl
        ]

  covered_of_empty :
      (out : Items) (x : ScoredMemoryItem) → IsCovered [] out x → any (λ y. same_key y x) out ≡ true
  covered_of_empty out x (inl h) = cc
  covered_of_empty out x (inr h) = h

  -- The items that are selected are at least at the threshold; none has the key of an earlier one,
  -- unless it is a constraint or a decision; there are at most `limit` of them, or one if `limit` is 0;
  -- and where there are fewer, each item at the threshold has a key that is selected.
  pub select_items-IsSelection :
      (items : Items) (threshold : ℤ) (limit : ℕ)
      → IsSelection threshold limit items (select_items lower items threshold limit).selected
  unfolding select_items
  select_items-IsSelection items threshold limit =
      let eligible = filter_if (reaches threshold) items in
      let out = diversify_from lower limit [] 0 eligible in
      subst (IsSelection threshold limit items) (sym (selected-eq eligible limit)) (record {
        passing =
            diversify_from-All (λ i. reaches threshold i ≡ true) limit [] 0 eligible
              (filter_if-passes (reaches threshold) items);
        diverse = diversify_from-IsDiverse limit [] 0 eligible;
        bounded = length-diversify_from-le limit [] 0 eligible;
        exhaustive = λ h.
            filter_if-All (λ (i : ScoredMemoryItem). any (λ y. same_key y i) out ≡ true)
              (reaches threshold) items
              (All-imp eligible (λ x k. covered_of_empty out x k)
                (diversify_from_complete limit [] 0 eligible (omega arith)));
      })
