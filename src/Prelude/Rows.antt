-- ===== src/Prelude/Rows.antt =====
-- Tables as lists of rows: the first row that a SELECT finds, UPDATE ... WHERE, and what updates and
-- inserts keep.
use mathlib.Core.Path.{subst}
use open_webui_memorist_edit.Prelude.{
  suc, ◌≡◌, refl, inl, inr, Bool, true, false, Option, none, some, List, [], ◌∷◌, ◌++◌, arith,
  if◌then◌else◌, any, All, count_if, length, Bool-cases,
}

module _ {ℓ} {A : Type ℓ} where
  unfoldable pub find_row : (A → Bool) → List A → Option A
  find_row p [] = none
  find_row p (r ∷ t) = let later = find_row p t in if p r then some r else later

  unfoldable pub update_rows : (A → Bool) → (A → A) → List A → List A
  update_rows p f [] = []
  update_rows p f (r ∷ t) = (if p r then f r else r) ∷ update_rows p f t

  -- A new row, after the others.
  abbrev pub insert_row : A → List A → List A
  insert_row r t = t ++ r ∷ []

  -- The first of two results that is there.
  abbrev pub or_else : Option A → Option A → Option A
  or_else (some a) b = some a
  or_else none b = b

  pub find-append :
      (p : A → Bool) (t u : List A) → find_row p (t ++ u) ≡ or_else (find_row p t) (find_row p u)
  unfolding find_row
  find-append p [] u = refl
  find-append p (r ∷ t) u = elim (Bool-cases (p r)) [
    | inl e ↦ rw e
    | inr e ↦ rw e (find-append p t u)
  ]

  pub find-insert_some :
      (p : A → Bool) (r a : A) (t : List A)
      → find_row p t ≡ some a
      → find_row p (insert_row r t) ≡ some a
  find-insert_some p r a t h = rw (find-append p t (r ∷ []), h)

  pub find_hit :
      (p : A → Bool) (r : A) (t : List A)
      → find_row p t ≡ none
      → p r ≡ true
      → find_row p (insert_row r t) ≡ some r
  unfolding find_row
  find_hit p r t h k = rw (find-append p t (r ∷ []), h, k)

  pub find_miss :
      (p : A → Bool) (r : A) (t : List A) → p r ≡ false → find_row p (insert_row r t) ≡ find_row p t
  unfolding find_row
  find_miss p r [] k = rw k
  find_miss p r (x ∷ t) k = elim (Bool-cases (p x)) [
    | inl e ↦ rw e
    | inr e ↦ rw e (find_miss p r t k)
  ]

  -- An update that a test does not see.
  pub find-update :
      (p q : A → Bool) (f : A → A) (t : List A)
      → ((r : A) → p (f r) ≡ p r)
      → (a : A) → find_row p t ≡ some a
      → find_row p (update_rows q f t) ≡ some (if q a then f a else a)
  unfolding find_row update_rows
  find-update p q f [] keep a h = cc
  find-update p q f (r ∷ t) keep a h = elim (Bool-cases (p r)) [
    | inl e ↦
        let same : r ≡ a = let k : some r ≡ some a = rw e at h in cc in
        elim (Bool-cases (q r)) [
          | inl d ↦ rw (d, keep r, e, ← same, d)
          | inr d ↦ rw (d, e, ← same, d)
        ]
    | inr e ↦
        let later = find-update p q f t keep a (rw e at h) in
        elim (Bool-cases (q r)) [ inl d ↦ rw (d, keep r, e) later | inr d ↦ rw (d, e) later ]
  ]

  pub find-update_none :
      (p q : A → Bool) (f : A → A) (t : List A)
      → ((r : A) → p (f r) ≡ p r)
      → find_row p t ≡ none
      → find_row p (update_rows q f t) ≡ none
  unfolding find_row update_rows
  find-update_none p q f [] keep h = refl
  find-update_none p q f (r ∷ t) keep h = elim (Bool-cases (p r)) [
    | inl e ↦ absurd (let k : some r ≡ none = rw e at h in cc)
    | inr e ↦
        let later = find-update_none p q f t keep (rw e at h) in
        elim (Bool-cases (q r)) [ inl d ↦ rw (d, keep r, e) later | inr d ↦ rw (d, e) later ]
  ]

  pub any_of_none : (p : A → Bool) (t : List A) → find_row p t ≡ none → any p t ≡ false
  unfolding find_row
  any_of_none p [] h = refl
  any_of_none p (r ∷ t) h = elim (Bool-cases (p r)) [
    | inl e ↦ absurd (let k : some r ≡ none = rw e at h in cc)
    | inr e ↦ rw e (any_of_none p t (rw e at h))
  ]

  pub any_of_All : (p : A → Bool) (t : List A) → All (λ r. p r ≡ false) t → any p t ≡ false
  any_of_All p [] h = refl
  any_of_All p (r ∷ t) h = rw h.0 (any_of_All p t h.1)

  pub none_of_All : (p : A → Bool) (t : List A) → All (λ r. p r ≡ false) t → find_row p t ≡ none
  unfolding find_row
  none_of_All p [] h = refl
  none_of_All p (r ∷ t) h = rw h.0 (none_of_All p t h.1)

  pub count-update :
      (p q : A → Bool) (f : A → A) (t : List A)
      → ((r : A) → p (f r) ≡ p r)
      → count_if p (update_rows q f t) ≡ count_if p t
  unfolding update_rows
  count-update p q f [] keep = refl
  count-update p q f (r ∷ t) keep = elim (Bool-cases (q r)) [
    | inl e ↦ rw (e, keep r) (omega (arith, count-update p q f t keep))
    | inr e ↦ rw e (omega (arith, count-update p q f t keep))
  ]

module _ {ℓ κ} {A : Type ℓ} (P : A → Type κ) where
  pub All-find :
      (p : A → Bool) (t : List A) (a : A) → All P t → find_row p t ≡ some a → P a × (p a ≡ true)
  unfolding find_row
  All-find p [] a h k = cc
  All-find p (r ∷ t) a h k = elim (Bool-cases (p r)) [
    | inl e ↦
        let same : r ≡ a = let k' : some r ≡ some a = rw e at k in cc in
        (subst P same h.0, subst (λ x. p x ≡ true) same e)
    | inr e ↦ All-find p t a h.1 (rw e at k)
  ]

  pub All-append : (t u : List A) → All P t → All P u → All P (t ++ u)
  All-append [] u h k = k
  All-append (r ∷ t) u h k = (h.0, All-append t u h.1 k)

  pub All-update :
      (q : A → Bool) (f : A → A) (t : List A)
      → ((r : A) → P r → q r ≡ true → P (f r))
      → All P t
      → All P (update_rows q f t)
  unfolding update_rows
  All-update q f [] keep h = tt
  All-update q f (r ∷ t) keep h = elim (Bool-cases (q r)) [
    | inl e ↦ rw e (keep r h.0 e, All-update q f t keep h.1)
    | inr e ↦ rw e (h.0, All-update q f t keep h.1)
  ]

module _ {ℓ κ μ} {A : Type ℓ} (P : A → Type κ) (Q : A → Type μ) where
  -- What holds of each row after an update, on the rows that it takes and on the others.
  pub All-updated :
      (q : A → Bool) (f : A → A) (t : List A)
      → ((r : A) → P r → q r ≡ true → Q (f r))
      → ((r : A) → P r → q r ≡ false → Q r)
      → All P t
      → All Q (update_rows q f t)
  unfolding update_rows
  All-updated q f [] hit miss h = tt
  All-updated q f (r ∷ t) hit miss h = elim (Bool-cases (q r)) [
    | inl e ↦ rw e (hit r h.0 e, All-updated q f t hit miss h.1)
    | inr e ↦ rw e (miss r h.0 e, All-updated q f t hit miss h.1)
  ]

module _ {ℓ} {A : Type ℓ} where
  pub update-append :
      (q : A → Bool) (f : A → A) (t u : List A)
      → update_rows q f (t ++ u) ≡ update_rows q f t ++ update_rows q f u
  unfolding update_rows
  update-append q f [] u = refl
  update-append q f (r ∷ t) u = rw (update-append q f t u)

  -- An update that takes no row.
  pub update_none :
      (q : A → Bool) (f : A → A) (t : List A) → All (λ r. q r ≡ false) t → update_rows q f t ≡ t
  unfolding update_rows
  update_none q f [] h = refl
  update_none q f (r ∷ t) h = rw (h.0, update_none q f t h.1)

  pub count_none : (p : A → Bool) (t : List A) → All (λ r. p r ≡ false) t → count_if p t ≡ 0
  count_none p [] h = refl
  count_none p (r ∷ t) h = rw h.0 (omega (arith, count_none p t h.1))

  pub any_weaker :
      (p q : A → Bool) (t : List A)
      → ((r : A) → p r ≡ false → q r ≡ false)
      → any p t ≡ false
      → any q t ≡ false
  any_weaker p q [] f h = refl
  any_weaker p q (r ∷ t) f h = elim (Bool-cases (p r)) [
    | inl e ↦ absurd (let k : true ≡ false = rw e at h in cc)
    | inr e ↦ rw (f r e) (any_weaker p q t f (rw e at h))
  ]

  -- An update that takes the new row alone.
  pub update_insert :
      (q : A → Bool) (f : A → A) (r : A) (t : List A)
      → All (λ x. q x ≡ false) t
      → q r ≡ true
      → update_rows q f (insert_row r t) ≡ insert_row (f r) t
  unfolding update_rows
  update_insert q f r [] h k = rw k
  update_insert q f r (x ∷ t) h k = rw (h.0, update_insert q f r t h.1 k)

  pub length-update :
      (q : A → Bool) (f : A → A) (t : List A) → length (update_rows q f t) ≡ length t
  unfolding update_rows
  length-update q f [] = refl
  length-update q f (r ∷ t) = omega (arith, length-update q f t)

  pub length-insert : (r : A) (t : List A) → length (insert_row r t) ≡ suc (length t)
  length-insert r [] = refl
  length-insert r (x ∷ t) = omega (arith, length-insert r t)
