-- ===== src/Prelude/Membership.antt =====
-- Texts in lists: membership, distinctness by counts, and the values of optional texts.
use open_webui_memorist_edit.Prelude.{
  ℕ, ◌+◌, ◌≤◌, ◌<◌, ◌≡◌, refl, ap, ◌⊎◌, inl, inr, Bool, true, false, not, ◌&&◌, ◌||◌, Option, none,
  some, List, [], ◌∷◌, ◌++◌, String, arith, if◌then◌else◌, str_eq, eq_iff, contains, length,
  count_if, filter_if, any, all, All, map, Bool-cases, Option-cases, &&-left, &&-right,
}

-- Some element has a property; which one is kept.
abbrev pub Any {ℓ} : {A : Type ℓ} → (A → Type 0) → List A → Type 0
Any P [] = ⊥
Any P (x ∷ xs) = P x ⊎ Any P xs

-- No two equal texts: `len(set(texts)) == len(texts)`.
unfoldable pub distinct : List String → Bool
distinct [] = true
distinct (x ∷ xs) = not (contains xs x) && distinct xs

-- The values that are there.
unfoldable pub somes : List (Option String) → List String
somes [] = []
somes (none ∷ xs) = somes xs
somes (some x ∷ xs) = x ∷ somes xs

-- A test on a value that is there.
abbrev pub holds : (String → Bool) → Option String → Bool
holds p none = false
holds p (some s) = p s

unfoldable pub occurrences : String → List String → ℕ
occurrences s = count_if (λ x. str_eq x s)

contains-occurrences : (xs : List String) (s : String) → contains xs s ≡ true → 0 < occurrences s xs
unfolding occurrences
contains-occurrences [] s h = cc
contains-occurrences (x ∷ xs) s h = ground (arith, contains-occurrences xs s)

occurrences-contains : (xs : List String) (s : String) → 0 < occurrences s xs → contains xs s ≡ true
unfolding occurrences
occurrences-contains [] s h = absurd (omega arith)
occurrences-contains (x ∷ xs) s h = ground (arith, occurrences-contains xs s)

str_eq_refl : (s : String) → str_eq s s ≡ true
str_eq_refl s = (eq_iff s s).1 refl

occurrences-cons :
    (s x : String) (xs : List String)
    → occurrences s (x ∷ xs) ≡ (if str_eq x s then 1 else 0) + occurrences s xs
unfolding occurrences
occurrences-cons s x xs = refl

-- A list in which every text occurs at most once is distinct.
pub distinct_of_occurrences :
    (xs : List String) → ((s : String) → occurrences s xs ≤ 1) → distinct xs ≡ true
unfolding distinct
distinct_of_occurrences [] h = refl
distinct_of_occurrences (x ∷ xs) h =
    let later : (s : String) → occurrences s xs ≤ 1 =
      λ s. let at = h s in omega (arith, occurrences-cons s x xs) in
    let only : occurrences x xs ≡ 0 =
      let at = h x in let more = rw (str_eq_refl x) at (occurrences-cons x x xs) in omega arith in
    let fresh : contains xs x ≡ false = ground (arith, contains-occurrences xs x) in
    rw fresh (distinct_of_occurrences xs later)

pub occurrences_of_distinct :
    (xs : List String) → distinct xs ≡ true → (s : String) → occurrences s xs ≤ 1
unfolding distinct
occurrences_of_distinct [] h s = unfold occurrences in omega arith
occurrences_of_distinct (x ∷ xs) h s =
    let rest = occurrences_of_distinct xs (&&-right (not (contains xs x)) (distinct xs) h) s in
    elim (Bool-cases (str_eq x s)) [
      | inr e ↦ let c = rw e at (occurrences-cons s x xs) in omega arith
      | inl e ↦
          let same : x ≡ s = (eq_iff x s).0 e in
          let fresh : contains xs s ≡ false =
            rw (← same) (let n = &&-left (not (contains xs x)) (distinct xs) h in ground arith) in
          ground (arith, occurrences-cons s x xs, occurrences-contains xs s)
    ]

module _ {ℓ} {A : Type ℓ} (f : A → Option String) where
  -- Counting among the values that are there.
  pub count_if-somes :
      (p : String → Bool) (xs : List A)
      → count_if p (somes (map f xs)) ≡ count_if (λ x. holds p (f x)) xs
  unfolding somes
  count_if-somes p [] = refl
  count_if-somes p (x ∷ xs) = elim (Option-cases (f x)) [
    | inl e ↦ rw e (omega (arith, count_if-somes p xs))
    | inr (s, e) ↦ rw e (ap (λ (n : ℕ). (if p s then 1 else 0) + n) (count_if-somes p xs))
  ]

  pub any-somes :
      (p : String → Bool) (xs : List A) → any p (somes (map f xs)) ≡ any (λ x. holds p (f x)) xs
  unfolding somes
  any-somes p [] = refl
  any-somes p (x ∷ xs) = elim (Option-cases (f x)) [
    | inl e ↦ rw e (any-somes p xs)
    | inr (s, e) ↦ rw e (ap (λ b. p s || b) (any-somes p xs))
  ]

pub length-count_if {ℓ} : {A : Type ℓ} (xs : List A) → length xs ≡ count_if (λ x. true) xs
length-count_if [] = refl
length-count_if (x ∷ xs) = omega (arith, length-count_if xs)

pub contains-any : (xs : List String) (s : String) → contains xs s ≡ any (λ x. str_eq x s) xs
contains-any [] s = refl
contains-any (x ∷ xs) s = ap (λ b. str_eq x s || b) (contains-any xs s)

module _ {ℓ} {A : Type ℓ} where
  pub all-All : (p : A → Bool) (xs : List A) → All (λ x. p x ≡ true) xs → all p xs ≡ true
  all-All p [] h = refl
  all-All p (x ∷ xs) h = rw h.0 (all-All p xs h.1)

  pub any-filter_if :
      (p q : A → Bool) (xs : List A) → any p (filter_if q xs) ≡ any (λ x. q x && p x) xs
  any-filter_if p q [] = refl
  any-filter_if p q (x ∷ xs) = elim (Bool-cases (q x)) [
    | inl e ↦ rw e (ap (λ b. p x || b) (any-filter_if p q xs))
    | inr e ↦ rw e (any-filter_if p q xs)
  ]

  pub any-append : (p : A → Bool) (xs ys : List A) → any p (xs ++ ys) ≡ (any p xs || any p ys)
  any-append p [] ys = refl
  any-append p (x ∷ xs) ys = ground (arith, any-append p xs ys)
