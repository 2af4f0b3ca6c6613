-- ===== src/Prelude/Sorting.antt =====
-- Python's `sorted` by a comparison, as insertion sort, which is stable like it.
use open_webui_memorist_edit.Prelude.{
  ℕ, ◌+◌, ◌≡◌, refl, ◌∙◌, ap, inl, inr, Bool, true, false, ◌||◌, List, [], ◌∷◌, arith,
  if◌then◌else◌, count_if, any, All, All-imp, Bool-cases,
}

module _ {ℓ} {A : Type ℓ} where
  unfoldable pub insert_by : (A → A → Bool) → A → List A → List A
  insert_by before x [] = x ∷ []
  insert_by before x (y ∷ ys) =
      let rest = insert_by before x ys in if before x y then x ∷ y ∷ ys else y ∷ rest

  unfoldable pub sort_by : (A → A → Bool) → List A → List A
  unfolding insert_by
  sort_by before [] = []
  sort_by before (x ∷ xs) = insert_by before x (sort_by before xs)

  -- Each element is related to all later ones.
  abbrev pub IsSorted {κ} : (A → A → Type κ) → List A → Type κ
  IsSorted R [] = Unit
  IsSorted R (x ∷ xs) = All (R x) xs × IsSorted R xs

module _ {ℓ κ} {A : Type ℓ} (before : A → A → Bool) (P : A → Type κ) where
  pub insert_by-All : (x : A) (xs : List A) → P x → All P xs → All P (insert_by before x xs)
  unfolding insert_by
  insert_by-All x [] p h = (p, tt)
  insert_by-All x (y ∷ ys) p h = elim (Bool-cases (before x y)) [
    | inl e ↦ rw e (p, h)
    | inr e ↦ rw e (h.0, insert_by-All x ys p h.1)
  ]

  pub sort_by-All : (xs : List A) → All P xs → All P (sort_by before xs)
  unfolding sort_by
  sort_by-All [] h = tt
  sort_by-All (x ∷ xs) h = insert_by-All x (sort_by before xs) h.0 (sort_by-All xs h.1)

module _ {ℓ κ} {A : Type ℓ} (before : A → A → Bool) (R : A → A → Type κ)
    (yes_related : (a b : A) → before a b ≡ true → R a b)
    (no_related : (a b : A) → before a b ≡ false → R b a)
    (R_trans : (a b c : A) → R a b → R b c → R a c) where
  insert_by-IsSorted : (x : A) (xs : List A) → IsSorted R xs → IsSorted R (insert_by before x xs)
  unfolding insert_by
  insert_by-IsSorted x [] h = (tt, tt)
  insert_by-IsSorted x (y ∷ ys) h = elim (Bool-cases (before x y)) [
    | inl e ↦ let r = yes_related x y e in rw e ((r, All-imp ys (λ z k. R_trans x y z r k) h.0), h)
    | inr e ↦
        rw e (insert_by-All before (R y) x ys (no_related x y e) h.0, insert_by-IsSorted x ys h.1)
  ]

  pub sort_by-IsSorted : (xs : List A) → IsSorted R (sort_by before xs)
  unfolding sort_by
  sort_by-IsSorted [] = tt
  sort_by-IsSorted (x ∷ xs) = insert_by-IsSorted x (sort_by before xs) (sort_by-IsSorted xs)

module _ {ℓ} {A : Type ℓ} (before : A → A → Bool) (p : A → Bool) where
  count_if-insert_by :
      (x : A) (xs : List A) → count_if p (insert_by before x xs) ≡ count_if p (x ∷ xs)
  unfolding insert_by
  count_if-insert_by x [] = refl
  count_if-insert_by x (y ∷ ys) = elim (Bool-cases (before x y)) [
    | inl e ↦ rw e
    | inr e ↦ rw e (omega (arith, count_if-insert_by x ys))
  ]

  -- Sorting keeps the elements, with their number.
  pub count_if-sort_by : (xs : List A) → count_if p (sort_by before xs) ≡ count_if p xs
  unfolding sort_by
  count_if-sort_by [] = refl
  count_if-sort_by (x ∷ xs) =
      count_if-insert_by x (sort_by before xs)
      ∙ ap (λ (n : ℕ). (if p x then 1 else 0) + n) (count_if-sort_by xs)

  any-insert_by : (x : A) (xs : List A) → any p (insert_by before x xs) ≡ any p (x ∷ xs)
  unfolding insert_by
  any-insert_by x [] = refl
  any-insert_by x (y ∷ ys) = elim (Bool-cases (before x y)) [
    | inl e ↦ rw e
    | inr e ↦ rw e (ground (arith, any-insert_by x ys))
  ]

  pub any-sort_by : (xs : List A) → any p (sort_by before xs) ≡ any p xs
  unfolding sort_by
  any-sort_by [] = refl
  any-sort_by (x ∷ xs) = any-insert_by x (sort_by before xs) ∙ ap (λ b. p x || b) (any-sort_by xs)
