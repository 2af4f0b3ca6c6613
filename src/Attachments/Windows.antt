-- ===== src/Attachments/Windows.antt =====
-- The context window of a model by its name.
use text.Mathlib.Text.{starts_with}
use open_webui_memorist_edit.Prelude.{◌≡◌, true, false, none, some, String, str_eq}
use open_webui_memorist_edit.Prelude.Int.{ℤ, pos}
use open_webui_memorist_edit.Attachments.{resolve_context_window, window_by_name, window_of}

-- Without a given window, every model whose name in lower case begins with `llama3` has the window
-- 8192, whatever follows, since this entry comes before those of `llama3.1` and `llama3.2`.
pub llama3_window :
    (lower : String → String) (model : String) (fallback : ℤ)
    → str_eq model "" ≡ false
    → starts_with (lower model) "llama3" ≡ true
    → resolve_context_window lower (some model) none fallback ≡ (pos 8192, none)
unfolding resolve_context_window window_by_name window_of
llama3_window lower model fallback named prefix = rw (named, prefix)
