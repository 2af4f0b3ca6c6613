-- ===== src/Prelude/Lists.antt =====
-- Lists counted by native numbers and by Boolean tests, with `x in xs` on texts.
use Prim.Native.Nat.{ℕ, zero, suc, ◌+◌, ◌-◌}
use Prim.Native.String.{String}
use mathlib.Core.Path.{◌≡◌, refl}
use mathlib.Core.Bool.{Bool, true, false, ◌||◌, ◌&&◌}
use mathlib.Core.List.{List, [], ◌∷◌, ◌++◌}
use mathlib.Core.Option.{Option, none, some}
use native.Mathlib.Omega.{arith}
use text.Mathlib.Text.{◌==◌}
use mathlib.Core.Logic.{inl, inr}
use open_webui_memorist_edit.Prelude.Tests.{if◌then◌else◌, Bool-cases}

module _ {ℓ} {A : Type ℓ} where
  abbrev pub length : List A → ℕ
  length [] = 0
  length (x ∷ xs) = suc (length xs)

  abbrev pub get_elem? : List A → ℕ → Option A
  get_elem? [] i = none
  get_elem? (x ∷ xs) zero = some x
  get_elem? (x ∷ xs) (suc i) = get_elem? xs i

  abbrev pub take : ℕ → List A → List A
  take zero xs = []
  take (suc n) [] = []
  take (suc n) (x ∷ xs) = x ∷ take n xs

  abbrev pub drop : ℕ → List A → List A
  drop zero xs = xs
  drop (suc n) [] = []
  drop (suc n) (x ∷ xs) = drop n xs

  -- How many elements pass a test.
  abbrev pub count_if : (A → Bool) → List A → ℕ
  count_if p [] = 0
  count_if p (x ∷ xs) = (if p x then 1 else 0) + count_if p xs

  -- Python's `[x for x in xs if p(x)]`, `any` and `all`.
  abbrev pub filter_if : (A → Bool) → List A → List A
  filter_if p [] = []
  filter_if p (x ∷ xs) = let rest = filter_if p xs in if p x then x ∷ rest else rest

  abbrev pub any : (A → Bool) → List A → Bool
  any p [] = false
  any p (x ∷ xs) = p x || any p xs

  abbrev pub all : (A → Bool) → List A → Bool
  all p [] = true
  all p (x ∷ xs) = p x && all p xs

  -- Every element has a property.
  abbrev pub All {κ} : (A → Type κ) → List A → Type κ
  All P [] = Unit
  All P (x ∷ xs) = P x × All P xs

  pub length-append : (xs ys : List A) → length (xs ++ ys) ≡ length xs + length ys
  length-append [] ys = omega arith
  length-append (x ∷ xs) ys = omega (arith, length-append xs ys)

  pub length-drop : (n : ℕ) (xs : List A) → length (drop n xs) ≡ length xs - n
  length-drop zero xs = omega arith
  length-drop (suc n) [] = omega arith
  length-drop (suc n) (x ∷ xs) = omega (arith, length-drop n xs)

  pub count_if-append :
      (p : A → Bool) (xs ys : List A) → count_if p (xs ++ ys) ≡ count_if p xs + count_if p ys
  count_if-append p [] ys = omega arith
  count_if-append p (x ∷ xs) ys = omega (arith, count_if-append p xs ys)

module _ {ℓ κ μ} {A : Type ℓ} {P : A → Type κ} {Q : A → Type μ} where
  pub All-imp : (xs : List A) → ((a : A) → P a → Q a) → All P xs → All Q xs
  All-imp [] f h = tt
  All-imp (x ∷ xs) f h = (f x h.0, All-imp xs f h.1)

module _ {ℓ κ μ ν} {A : Type ℓ} {P : A → Type κ} {Q : A → Type μ} {R : A → Type ν} where
  pub All-both : (xs : List A) → ((a : A) → P a → Q a → R a) → All P xs → All Q xs → All R xs
  All-both [] f h k = tt
  All-both (x ∷ xs) f h k = (f x h.0 k.0, All-both xs f h.1 k.1)

module _ {ℓ κ} {A : Type ℓ} (P : A → Type κ) where
  pub All-filter_if : (p : A → Bool) (xs : List A) → All P xs → All P (filter_if p xs)
  All-filter_if p [] h = tt
  All-filter_if p (x ∷ xs) h = elim (Bool-cases (p x)) [
    | inl e ↦ rw e (h.0, All-filter_if p xs h.1)
    | inr e ↦ rw e (All-filter_if p xs h.1)
  ]

module _ {ℓ κ} {A : Type ℓ} (P : A → Type κ) where
  -- What holds of the kept elements holds of each element that passes.
  pub filter_if-All :
      (p : A → Bool) (xs : List A) → All P (filter_if p xs) → All (λ a. p a ≡ true → P a) xs
  filter_if-All p [] h = tt
  filter_if-All p (x ∷ xs) h = elim (Bool-cases (p x)) [
    | inl e ↦ let k = rw e at h in ((λ _. k.0), filter_if-All p xs k.1)
    | inr e ↦ ((λ t. cc), filter_if-All p xs (rw e at h))
  ]

module _ {ℓ} {A : Type ℓ} where
  -- What a filter keeps passes its test.
  pub filter_if-passes : (p : A → Bool) (xs : List A) → All (λ a. p a ≡ true) (filter_if p xs)
  filter_if-passes p [] = tt
  filter_if-passes p (x ∷ xs) = elim (Bool-cases (p x)) [
    | inl e ↦ rw e (e, filter_if-passes p xs)
    | inr e ↦ rw e (filter_if-passes p xs)
  ]

  pub filter_if-nil : (p : A → Bool) (xs : List A) → filter_if p xs ≡ [] → All (λ a. p a ≡ false) xs
  filter_if-nil p [] h = tt
  filter_if-nil p (x ∷ xs) h = elim (Bool-cases (p x)) [
    | inl e ↦ let h' = rw e at h in cc
    | inr e ↦ (e, filter_if-nil p xs (rw e at h))
  ]

module _ {ℓ} {A : Type ℓ} where
  pub filter_if-cong :
      (p q : A → Bool) (xs : List A) → All (λ a. p a ≡ q a) xs → filter_if p xs ≡ filter_if q xs
  filter_if-cong p q [] h = refl
  filter_if-cong p q (x ∷ xs) h = rw (h.0, filter_if-cong p q xs h.1)

-- `x in xs` for texts.
abbrev pub contains : List String → String → Bool
contains [] s = false
contains (x ∷ xs) s = x == s || contains xs s
