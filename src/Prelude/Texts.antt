-- ===== src/Prelude/Texts.antt =====
-- Texts by their characters.
use Prim.Native.Nat.{ℕ, zero, suc, ◌+◌}
use Prim.Native.Char.{code}
use Prim.Native.String.{String, [], ◌∷◌}
use mathlib.Core.Bool.{Bool, true, false, ◌&&◌, ◌||◌}
use mathlib.Core.List.{List, [], ◌∷◌, map, reverse}
use mathlib.Core.Path.{◌≡◌, refl}
use native.Mathlib.Omega.{arith}
use open_webui_memorist_edit.Prelude.Tests.{leb, ◌==◌, if◌then◌else◌}

-- Python's `text[:n]`.
unfoldable pub take_chars : ℕ → String → String
take_chars zero s = ""
take_chars (suc n) [] = ""
take_chars (suc n) (c ∷ s) = c ∷ take_chars n s

-- Python's `len` of a text.
unfoldable pub count_chars : String → ℕ
count_chars [] = 0
count_chars (c ∷ s) = suc (count_chars s)

abbrev pub codes : String → List ℕ
codes [] = []
codes (c ∷ s) = code c ∷ codes s

-- Python's white space, by code points.
abbrev pub is_space : ℕ → Bool
is_space n =
    leb 9 n && leb n 13
    || leb 28 n && leb n 32
    || n == 133
    || n == 160
    || n == 5760
    || leb 8192 n && leb n 8202
    || n == 8232
    || n == 8233
    || n == 8239
    || n == 8287
    || n == 12288

abbrev pub drop_space : List ℕ → List ℕ
drop_space [] = []
drop_space (n ∷ ns) = let rest = drop_space ns in if is_space n then rest else n ∷ ns

abbrev pub lower_code : ℕ → ℕ
lower_code n = if leb 65 n && leb n 90 then n + 32 else n

abbrev pub same_codes : List ℕ → List ℕ → Bool
same_codes [] [] = true
same_codes (m ∷ ms) (n ∷ ns) = m == n && same_codes ms ns
same_codes _ _ = false

pub same_codes_refl : (k : List ℕ) → same_codes k k ≡ true
same_codes_refl [] = refl
same_codes_refl (n ∷ k) = ground (arith, same_codes_refl k)

-- Python's `text.strip().lower() == word`, for a word of lower-case ASCII letters without `k`: no
-- letter outside ASCII has one of these as its lower case.
unfoldable pub is_word : String → String → Bool
is_word text word =
    same_codes (map lower_code (reverse (drop_space (reverse (drop_space (codes text))))))
      (codes word)

-- `prefix` begins a text; `needle in text`.
abbrev pub has_prefix : List ℕ → List ℕ → Bool
has_prefix [] text = true
has_prefix (c ∷ cs) [] = false
has_prefix (c ∷ cs) (d ∷ ds) = c == d && has_prefix cs ds

abbrev pub has_substring : List ℕ → List ℕ → Bool
has_substring needle [] = has_prefix needle []
has_substring needle (c ∷ cs) = has_prefix needle (c ∷ cs) || has_substring needle cs

-- `text.strip()`
abbrev pub strip_space : List ℕ → List ℕ
strip_space text = reverse (drop_space (reverse (drop_space text)))
