-- ===== src/Attachments.antt =====
-- The token budget of a memory attachment (memorist-core/src/memcore/attachments/budget.py).
-- Two parameters: str.lower, and floor(context_window * context_ratio), which is a product of floats.
-- The reason of a decision keeps the numbers that the code formats into a text.
pub mod Bounds
pub mod Windows
pub mod Tests
use text.Mathlib.Text.{starts_with}
use open_webui_memorist_edit.Prelude.{
  ℕ, ◌+◌, ◌/◌, Bool, true, false, Option, none, some, List, [], ◌∷◌, String, if◌then◌else◌, str_eq,
  max,
}
use open_webui_memorist_edit.Prelude.Int.{ℤ, pos, negsuc, ltb_ℤ, ◌-ℤ◌}
use open_webui_memorist_edit.Prelude.Texts.{count_chars}

pub data RetrievalMode : Type 0 where
  lite standard full debug : RetrievalMode

abbrev pub mode_limit : RetrievalMode → ℤ
mode_limit lite = pos 700
mode_limit standard = pos 1800
mode_limit full = pos 3200
mode_limit debug = pos 2200

-- KNOWN_CONTEXT_WINDOWS, in the order of the dict.
abbrev pub known_context_windows : List (String × ℤ)
known_context_windows =
    ("llama3", pos 8192)
    ∷ ("llama3.1", pos 131072)
    ∷ ("llama3.2", pos 131072)
    ∷ ("mistral", pos 8192)
    ∷ ("qwen2.5", pos 32768)
    ∷ ("gpt-4o-mini", pos 128000)
    ∷ []

-- Python's `min` of two, which keeps the first of equal ones, and `max`.
abbrev pub min_ℤ : ℤ → ℤ → ℤ
min_ℤ a b = if ltb_ℤ b a then b else a

abbrev pub max_ℤ : ℤ → ℤ → ℤ
max_ℤ a b = if ltb_ℤ a b then b else a

unfoldable pub conservative_token_count : String → ℕ
conservative_token_count text = max 1 ((count_chars text + 3) / 4)

unfoldable pub budget_for_mode : RetrievalMode → ℤ → ℤ
budget_for_mode mode requested_budget = min_ℤ (mode_limit mode) requested_budget

-- The first entry whose name begins the model's.
unfoldable pub window_of : List (String × ℤ) → String → Option ℤ
window_of [] model = none
window_of ((prefix, window) ∷ known) model =
    let rest = window_of known model in if starts_with model prefix then some window else rest

abbrev fallback_warning : String
fallback_warning = "missing_model_context_window_used_fallback"

abbrev pub is_positive : ℤ → Bool
is_positive n = ltb_ℤ (pos 0) n

-- The part of `_resolve_context_window` after the given window is passed over.
unfoldable pub window_by_name : (String → String) → Option String → ℤ → ℤ × Option String
unfolding window_of
window_by_name lower none fallback = (fallback, some fallback_warning)
window_by_name lower (some model) fallback =
    if str_eq model ""
    then (fallback, some fallback_warning)
    else elim (window_of known_context_windows (lower model)) [
      | none ↦ (fallback, some fallback_warning)
      | some window ↦ (window, none)
    ]

-- _resolve_context_window
unfoldable pub resolve_context_window :
    (String → String) → Option String → Option ℤ → ℤ → ℤ × Option String
unfolding window_by_name
resolve_context_window lower model none fallback = window_by_name lower model fallback
resolve_context_window lower model (some given) fallback =
    let named = window_by_name lower model fallback in
    if is_positive given then (given, none) else named

-- _estimate_recent_tokens
unfoldable pub estimate_recent_tokens : Option String → Option ℤ → ℤ × String
unfolding conservative_token_count
estimate_recent_tokens text (some estimate) = (max_ℤ (pos 0) estimate, "provided_estimate")
estimate_recent_tokens none none = (pos 0, "no_recent_conversation_supplied")
estimate_recent_tokens (some text) none =
    if str_eq text ""
    then (pos 0, "no_recent_conversation_supplied")
    else (pos (conservative_token_count text), "conservative_chars_div_4")

pub data BudgetReason : Type 0 where
  below_minimum : ℤ → ℤ → BudgetReason
  smallest_of : ℤ → ℤ → ℤ → ℤ → ℤ → BudgetReason

-- `attachment_mode` is `none` where the code says "disabled".
pub record AttachmentBudgetDecision : Type 0 where
  pub effective_token_budget : ℤ
  pub attachment_mode : Option RetrievalMode
  pub budget_reason : BudgetReason
  pub token_estimation_method : String
  pub warnings : List String

-- The arguments of compute_attachment_budget, without the ratio.
pub record BudgetRequest : Type 0 where
  pub mode : RetrievalMode
  pub requested_budget : Option ℤ
  pub target_model : Option String
  pub model_context_window : Option ℤ
  pub recent_conversation_text : Option String
  pub estimated_recent_conversation_tokens : Option ℤ
  pub max_tokens : ℤ
  pub min_tokens : ℤ
  pub reserved_completion_tokens : ℤ
  pub fallback_context_window : ℤ
  pub safety_margin_tokens : ℤ

abbrev warning_list : Option String → List String
warning_list none = []
warning_list (some w) = w ∷ []

abbrev value_or : ℤ → Option ℤ → ℤ
value_or default none = default
value_or default (some n) = n

module _ (lower : String → String) (scaled : ℤ → ℤ) (r : BudgetRequest) where
  abbrev pub context_window : ℤ
  context_window =
      (resolve_context_window lower r.target_model r.model_context_window
        r.fallback_context_window).0

  abbrev pub recent_tokens : ℤ
  recent_tokens =
      (estimate_recent_tokens r.recent_conversation_text r.estimated_recent_conversation_tokens).0

  unfoldable pub remaining_budget : ℤ
  remaining_budget =
      context_window -ℤ recent_tokens -ℤ r.reserved_completion_tokens -ℤ r.safety_margin_tokens

  abbrev pub request_cap : ℤ
  request_cap = value_or r.max_tokens r.requested_budget

  unfoldable pub smallest : ℤ
  smallest =
      min_ℤ
        (min_ℤ (min_ℤ (min_ℤ r.max_tokens request_cap) (scaled context_window)) remaining_budget)
        (mode_limit r.mode)

  unfoldable pub effective_budget : ℤ
  unfolding smallest
  effective_budget = max_ℤ (pos 0) smallest

  unfoldable pub compute_attachment_budget : AttachmentBudgetDecision
  unfolding effective_budget resolve_context_window estimate_recent_tokens
  compute_attachment_budget =
      let warnings =
        warning_list
          (resolve_context_window lower r.target_model r.model_context_window
            r.fallback_context_window).1 in
      let method =
        (estimate_recent_tokens r.recent_conversation_text
          r.estimated_recent_conversation_tokens).1 in
      if ltb_ℤ effective_budget r.min_tokens
      then record {
        effective_token_budget = pos 0;
        attachment_mode = none;
        budget_reason = below_minimum effective_budget r.min_tokens;
        token_estimation_method = method;
        warnings = warnings;
      }
      else record {
        effective_token_budget = effective_budget;
        attachment_mode = some r.mode;
        budget_reason =
            smallest_of r.max_tokens request_cap (scaled context_window) remaining_budget
              (mode_limit r.mode);
        token_estimation_method = method;
        warnings = warnings;
      }
