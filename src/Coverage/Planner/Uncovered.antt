-- ===== src/Coverage/Planner/Uncovered.antt =====
-- The items for material that no unit covers: every token is accounted for.
use mathlib.Core.Path.{subst}
use open_webui_memorist_edit.Prelude.{
  ◌≤◌, ◌≡◌, refl, sym, ap, ◌⊎◌, inl, inr, Bool, true, false, not, ◌&&◌, List, [], ◌∷◌, arith,
  filter_if, filter_if-All, All-filter_if, All, All-imp, map, Bool-cases,
}
use open_webui_memorist_edit.Prelude.Sorting.{IsSorted}
use open_webui_memorist_edit.Prelude.Membership.{Any}
use open_webui_memorist_edit.Coverage.Contracts.{unsupported}
use open_webui_memorist_edit.Coverage.Intervals.{Span}
use open_webui_memorist_edit.Coverage.Intervals.Merge.{merge_intervals-IsAscending}
use open_webui_memorist_edit.Coverage.Intervals.Outside.{
  overlaps_any, AreOrdered, tokens_outside_intervals-eq-filter,
}
use open_webui_memorist_edit.Coverage.References.{PlannerInput}
use open_webui_memorist_edit.Coverage.Unit.{CoverageItem, Library, coverage_item}
use open_webui_memorist_edit.Coverage.Planner.{
  Group, key_eq, authority_key, group_from, group_tokens, uncovered_item, uncovered_items,
  covered_spans, uncovered_tokens,
}

-- Tokens in the order of their starts and of their ends.
abbrev pub IsChain : List Span → Type 0
IsChain = IsSorted (λ a b. (a.0 ≤ b.0) × (a.1 ≤ b.1))

abbrev IsWithin : Span → Group → Type 0
IsWithin t g = (g.start ≤ t.0) × (t.1 ≤ g.end)

-- A token lies in an item of unsupported material that belongs to no unit.
abbrev pub IsListed : Span → CoverageItem → Type 0
IsListed t i = (i.raw_start ≤ t.0) × (t.1 ≤ i.raw_end) × (i.disposition ≡ unsupported)

Any-imp {ℓ} :
    {A : Type ℓ} (P Q : A → Type 0) (xs : List A) → ((a : A) → P a → Q a) → Any P xs → Any Q xs
Any-imp P Q [] f h = absurd h
Any-imp P Q (x ∷ xs) f (inl h) = inl (f x h)
Any-imp P Q (x ∷ xs) f (inr h) = inr (Any-imp P Q xs f h)

Any-map {ℓ κ} :
    {A : Type ℓ} {B : Type κ} (P : B → Type 0) (f : A → B) (xs : List A)
    → Any (λ a. P (f a)) xs
    → Any P (map f xs)
Any-map P f [] h = absurd h
Any-map P f (x ∷ xs) (inl h) = inl h
Any-map P f (x ∷ xs) (inr h) = inr (Any-map P f xs h)

chain-AreOrdered : (ts : List Span) → IsChain ts → AreOrdered (λ s. s) ts
chain-AreOrdered [] h = tt
chain-AreOrdered (t ∷ ts) h = (All-imp ts (λ u k. k.0) h.0, chain-AreOrdered ts h.1)

filter-IsChain : (p : Span → Bool) (ts : List Span) → IsChain ts → IsChain (filter_if p ts)
filter-IsChain p [] h = tt
filter-IsChain p (t ∷ ts) h = elim (Bool-cases (p t)) [
  | inl e ↦
      rw e
        (All-filter_if (λ (u : Span). (t.0 ≤ u.0) × (t.1 ≤ u.1)) p ts h.0, filter-IsChain p ts h.1)
  | inr e ↦ rw e (filter-IsChain p ts h.1)
]

module _ (library : Library) (value : PlannerInput) where
  abbrev same_group : Group → Span → Bool
  same_group g t =
      key_eq (authority_key library value t) g.authority_key
      && not (library.has_alnum value.current_raw_text g.end t.0)

  abbrev new_group : Span → Group
  new_group t = record { start = t.0; end = t.1; authority_key = authority_key library value t }

  group_from-joined :
      (g : Group) (t : Span) (ts : List Span)
      → same_group g t ≡ true
      → group_from library value g (t ∷ ts) ≡ group_from library value (record g { end = t.1 }) ts
  unfolding group_from
  group_from-joined g t ts e = rw e

  group_from-apart :
      (g : Group) (t : Span) (ts : List Span)
      → same_group g t ≡ false
      → group_from library value g (t ∷ ts) ≡ g ∷ group_from library value (new_group t) ts
  unfolding group_from
  group_from-apart g t ts e = rw e

  -- The groups contain the group that is being built and all the tokens.
  abbrev Kept : Group → List Span → List Group → Type 0
  Kept g ts gs = Any (IsWithin (g.start, g.end)) gs × All (λ t. Any (IsWithin t) gs) ts

  abbrev Follows : Group → Span → Type 0
  Follows g t = (g.start ≤ t.0) × (g.end ≤ t.1)

  group_from-Kept :
      (g : Group) (ts : List Span)
      → All (Follows g) ts
      → IsChain ts
      → Kept g ts (group_from library value g ts)
  group_from-Kept g [] h c = unfold group_from in (inl (omega arith, omega arith), tt)
  group_from-Kept g (t ∷ ts) h c = elim (Bool-cases (same_group g t)) [
    | inl e ↦
        let grown = record g { end = t.1 } in
        let rest =
          group_from-Kept grown ts
            (All-imp ts (λ u k. let first = h.0 in (omega (arith, k.0), k.1)) c.0) c.1 in
        subst (Kept g (t ∷ ts)) (sym (group_from-joined g t ts e)) (
          Any-imp (IsWithin (g.start, t.1)) (IsWithin (g.start, g.end)) _
              (λ a k. let ends = h.0.1 in (k.0, omega (arith, k.1))) rest.0,
          (
            Any-imp (IsWithin (g.start, t.1)) (IsWithin t) _
                (λ a k. let starts = h.0.0 in (omega (arith, k.0), k.1)) rest.0,
            rest.1,
          ),
        )
    | inr e ↦
        let rest = group_from-Kept (new_group t) ts c.0 c.1 in
        subst (Kept g (t ∷ ts)) (sym (group_from-apart g t ts e))
          (inl (omega arith, omega arith), (inr rest.0, All-imp ts (λ u k. inr k) rest.1))
  ]

  group_tokens-All :
      (ts : List Span) → IsChain ts → All (λ t. Any (IsWithin t) (group_tokens library value ts)) ts
  unfolding group_tokens
  group_tokens-All [] c = tt
  group_tokens-All (t ∷ ts) c = group_from-Kept (new_group t) ts c.0 c.1

  uncovered-IsListed :
      (t : Span)
      → Any (IsWithin t) (group_tokens library value (uncovered_tokens value))
      → Any (IsListed t) (uncovered_items library value)
  unfolding uncovered_items uncovered_item coverage_item
  uncovered-IsListed t h = Any-map (IsListed t) (uncovered_item library value) _ (
      Any-imp (IsWithin t) (λ g. IsListed t (uncovered_item library value g)) _
        (λ g k. (k.0, k.1, refl)) h)

  -- When the tokens of the envelope come in the order of their starts and of their ends, each of
  -- them overlaps a merged span of the semantic units or lies in an item of unsupported material.
  pub uncovered_items_complete :
      IsChain value.tokens
      → All
          (λ t.
            (overlaps_any (covered_spans value) t ≡ true)
            ⊎ Any (IsListed t) (uncovered_items library value))
          value.tokens
  uncovered_items_complete c =
      let same =
        tokens_outside_intervals-eq-filter (λ s. s) value.tokens (covered_spans value)
          (chain-AreOrdered value.tokens c) (merge_intervals-IsAscending _) in
      let chain = subst IsChain (sym same) (filter-IsChain _ value.tokens c) in
      let listed =
        All-imp (uncovered_tokens value) uncovered-IsListed
          (group_tokens-All (uncovered_tokens value) chain) in
      All-imp value.tokens
        (λ t k. elim (Bool-cases (overlaps_any (covered_spans value) t)) [
          | inl e ↦ inl e
          | inr e ↦ inr (k (ap not e))
        ])
        (filter_if-All (λ t. Any (IsListed t) (uncovered_items library value))
          (λ t. not (overlaps_any (covered_spans value) t)) value.tokens
          (subst (All (λ t. Any (IsListed t) (uncovered_items library value))) same listed))
