-- ===== src/Attachments/Bounds.antt =====
-- The limits that an attachment's budget respects.
use mathlib.Core.Path.{subst}
use open_webui_memorist_edit.Prelude.{
  ◌≡◌, refl, sym, ◌⊎◌, inl, inr, false, none, some, String, arith, Bool-cases,
}
use open_webui_memorist_edit.Prelude.Int.{ℤ, pos, ltb_ℤ, ◌≤ℤ◌, ◌+ℤ◌, ◌-ℤ◌, int_laws}
use open_webui_memorist_edit.Attachments.{
  BudgetRequest, AttachmentBudgetDecision, mode_limit, min_ℤ, max_ℤ, context_window, recent_tokens,
  remaining_budget, request_cap, smallest, effective_budget, compute_attachment_budget,
}

min_left : (a b : ℤ) → min_ℤ a b ≤ℤ a
min_left a b = ground arith

min_right : (a b : ℤ) → min_ℤ a b ≤ℤ b
min_right a b = ground arith

≤ℤ_trans : (a b c : ℤ) → a ≤ℤ b → b ≤ℤ c → a ≤ℤ c
≤ℤ_trans a b c h k = omega arith

max_cases : (b : ℤ) → (max_ℤ (pos 0) b ≡ pos 0) ⊎ (max_ℤ (pos 0) b ≡ b)
max_cases b = ground arith

-- A minimum of five is at most each of them.
record IsLeast (s a b c d e : ℤ) : Type 0 where
  le_first : s ≤ℤ a
  le_second : s ≤ℤ b
  le_third : s ≤ℤ c
  le_fourth : s ≤ℤ d
  le_fifth : s ≤ℤ e

min-IsLeast : (a b c d e : ℤ) → IsLeast (min_ℤ (min_ℤ (min_ℤ (min_ℤ a b) c) d) e) a b c d e
min-IsLeast a b c d e =
    let two = min_ℤ a b in
    let three = min_ℤ two c in
    let four = min_ℤ three d in
    let all = min_ℤ four e in
    let h = ≤ℤ_trans all four three (min_left four e) (min_left three d) in
    let k = ≤ℤ_trans all three two h (min_left two c) in
    record {
      le_first = ≤ℤ_trans all two a k (min_left a b);
      le_second = ≤ℤ_trans all two b k (min_right a b);
      le_third = ≤ℤ_trans all three c h (min_right two c);
      le_fourth = ≤ℤ_trans all four d (min_left four e) (min_right three d);
      le_fifth = min_right four e;
    }

module _ (lower : String → String) (scaled : ℤ → ℤ) (r : BudgetRequest) where
  -- A budget that is within all limits, with room for the rest of the context.
  pub record IsWithin (budget : ℤ) : Type 0 where
    pub within_maximum : budget ≤ℤ r.max_tokens
    pub within_request : budget ≤ℤ request_cap lower scaled r
    pub within_ratio : budget ≤ℤ scaled (context_window lower scaled r)
    pub within_mode : budget ≤ℤ mode_limit r.mode
    pub fits :
        budget
          +ℤ recent_tokens lower scaled r
          +ℤ r.reserved_completion_tokens
          +ℤ r.safety_margin_tokens
        ≤ℤ context_window lower scaled r

  -- What a decision can be.
  pub data Decided : AttachmentBudgetDecision → Type 0 where
    disabled :
        (d : AttachmentBudgetDecision)
        → d.attachment_mode ≡ none
        → d.effective_token_budget ≡ pos 0
        → Decided d
    enabled :
        (d : AttachmentBudgetDecision)
        → d.attachment_mode ≡ some r.mode
        → r.min_tokens ≤ℤ d.effective_token_budget
        → (d.effective_token_budget ≡ pos 0) ⊎ IsWithin d.effective_token_budget
        → Decided d

  fits_window : (s w t c m : ℤ) → s ≤ℤ w -ℤ t -ℤ c -ℤ m → s +ℤ t +ℤ c +ℤ m ≤ℤ w
  fits_window s w t c m h = omega int_laws

  smallest-IsWithin : IsWithin (smallest lower scaled r)
  unfolding smallest remaining_budget
  smallest-IsWithin =
      let l =
        min-IsLeast r.max_tokens (request_cap lower scaled r)
          (scaled (context_window lower scaled r)) (remaining_budget lower scaled r)
          (mode_limit r.mode) in
      record {
        within_maximum = l.le_first;
        within_request = l.le_second;
        within_ratio = l.le_third;
        within_mode = l.le_fifth;
        fits = fits_window _ _ _ _ _ l.le_fourth;
      }

  effective-cases :
      (effective_budget lower scaled r ≡ pos 0) ⊎ IsWithin (effective_budget lower scaled r)
  unfolding effective_budget
  effective-cases = elim (max_cases (smallest lower scaled r)) [
    | inl e ↦ inl e
    | inr e ↦ inr (subst IsWithin (sym e) smallest-IsWithin)
  ]

  not_below : (a b : ℤ) → ltb_ℤ a b ≡ false → b ≤ℤ a
  not_below a b h = ground arith

  -- An attachment is disabled with the budget 0, or its budget is at least the minimum. A budget that
  -- is not 0 is at most the maximum, the requested budget if there is one, the share of the context
  -- window and the limit of the mode; and together with the recent conversation, the tokens reserved
  -- for the completion and the safety margin it fits in the context window.
  pub compute_attachment_budget-Decided : Decided (compute_attachment_budget lower scaled r)
  unfolding compute_attachment_budget
  compute_attachment_budget-Decided =
      elim (Bool-cases (ltb_ℤ (effective_budget lower scaled r) r.min_tokens)) [
        | inl e ↦ rw (e, compute_attachment_budget) (disabled _ refl refl)
        | inr e ↦
            rw (e, compute_attachment_budget)
              (enabled _ refl (not_below (effective_budget lower scaled r) r.min_tokens e)
                effective-cases)
      ]
