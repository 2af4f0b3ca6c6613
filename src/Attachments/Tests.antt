-- ===== src/Attachments/Tests.antt =====
-- A budget for a chat with a model of a known window.
use open_webui_memorist_edit.Prelude.{◌/◌, ◌≡◌, refl, none, some}
use open_webui_memorist_edit.Prelude.Int.{ℤ, pos, negsuc}
use open_webui_memorist_edit.Prelude.Int.{◌-ℤ◌}
use open_webui_memorist_edit.Prelude.Texts.{count_chars}
use open_webui_memorist_edit.Attachments.{remaining_budget}
use open_webui_memorist_edit.Attachments.{BudgetRequest, standard, compute_attachment_budget}
use open_webui_memorist_edit.Attachments.Bounds.{Decided, compute_attachment_budget-Decided}

abbrev sample_request : BudgetRequest
sample_request = record {
  mode = standard;
  requested_budget = some (pos 900);
  target_model = some "llama3.1:8b";
  model_context_window = none;
  recent_conversation_text = some "hello there";
  estimated_recent_conversation_tokens = none;
  max_tokens = pos 1200;
  min_tokens = pos 120;
  reserved_completion_tokens = pos 1000;
  fallback_context_window = pos 4096;
  safety_margin_tokens = pos 200;
}

-- floor(window / 2)
abbrev half_window : ℤ → ℤ
half_window (pos n) = pos (n / 2)
half_window (negsuc n) = negsuc (n / 2)

compute_attachment_budget-Decided_example :
    Decided
      (λ s. s)
      half_window
      sample_request
      (compute_attachment_budget (λ s. s) half_window sample_request)
compute_attachment_budget-Decided_example =
    compute_attachment_budget-Decided (λ s. s) half_window sample_request

sample_budget :
    (compute_attachment_budget (λ s. s) half_window sample_request).effective_token_budget ≡ pos 900
unfolding compute_attachment_budget remaining_budget ◌-ℤ◌ count_chars
sample_budget = refl
