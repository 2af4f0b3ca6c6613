-- ===== src/Jobs/Rows.antt =====
-- Lookups and updates on a table: what they keep.
use mathlib.Core.Path.{subst}
use open_webui_memorist_edit.Prelude.{
  ◌≤◌, ◌≡◌, refl, ap, inl, inr, Bool, true, false, some, [], ◌∷◌, arith, count_if, any, All,
  Bool-cases,
}
use open_webui_memorist_edit.Jobs.{Job, Table, find, update_where}

module _ (p : Job → Bool) (f : Job → Job) where
  pub All-update_where {κ} :
      (P : Job → Type κ) (t : Table)
      → ((j : Job) → p j ≡ true → P j → P (f j))
      → All P t
      → All P (update_where p f t)
  All-update_where P [] step h = tt
  All-update_where P (j ∷ t) step h = elim (Bool-cases (p j)) [
    | inl e ↦ rw e (step j e h.0, All-update_where P t step h.1)
    | inr e ↦ rw e (h.0, All-update_where P t step h.1)
  ]

  -- An update that leaves what a test reads leaves the count.
  pub count-update_where :
      (q : Job → Bool) (t : Table)
      → ((j : Job) → q (f j) ≡ q j)
      → count_if q (update_where p f t) ≡ count_if q t
  count-update_where q [] same = refl
  count-update_where q (j ∷ t) same = elim (Bool-cases (p j)) [
    | inl e ↦ rw (e, same j) (omega (arith, count-update_where q t same))
    | inr e ↦ rw e (omega (arith, count-update_where q t same))
  ]

pub count-zero : (p : Job → Bool) (t : Table) → any p t ≡ false → count_if p t ≡ 0
count-zero p [] h = refl
count-zero p (j ∷ t) h = ground (arith, count-zero p t)

update_none :
    (p : Job → Bool) (f g : Job → Job) (t : Table)
    → count_if p t ≡ 0
    → update_where p f t ≡ update_where p g t
update_none p f g [] h = refl
update_none p f g (j ∷ t) h = elim (Bool-cases (p j)) [
  | inl e ↦ absurd (let k = rw e at h in omega arith)
  | inr e ↦
      rw e (ap (λ (r : Table). j ∷ r) (update_none p f g t (let k = rw e at h in omega arith)))
]

-- Where at most one row passes, an update by the row that was found is one by the row itself.
pub update_found :
    (p : Job → Bool) (f : Job → Job → Job) (t : Table) (job : Job)
    → count_if p t ≤ 1
    → find p t ≡ some job
    → update_where p (f job) t ≡ update_where p (λ j. f j j) t
unfolding find
update_found p f [] job c h = refl
update_found p f (j ∷ t) job c h = elim (Bool-cases (p j)) [
  | inl e ↦
      let same : j ≡ job = let k = rw e at h in cc in
      let rest : count_if p t ≡ 0 = let k = rw e at c in omega arith in
      rw (e, same) (ap (λ (r : Table). f job job ∷ r) (update_none p (f job) (λ k. f k k) t rest))
  | inr e ↦
      let below : count_if p t ≤ 1 = let k = rw e at c in omega arith in
      let later = rw e at h in rw e (ap (λ (r : Table). j ∷ r) (update_found p f t job below later))
]

pub find-passes : (p : Job → Bool) (t : Table) (job : Job) → find p t ≡ some job → p job ≡ true
unfolding find
find-passes p [] job h = cc
find-passes p (j ∷ t) job h = elim (Bool-cases (p j)) [
  | inl e ↦ let same : j ≡ job = let k = rw e at h in cc in rw (← same) e
  | inr e ↦ find-passes p t job (rw e at h)
]

pub find-All {κ} :
    (P : Job → Type κ) (p : Job → Bool) (t : Table) (job : Job)
    → All P t
    → find p t ≡ some job
    → P job
unfolding find
find-All P p [] job a h = cc
find-All P p (j ∷ t) job a h = elim (Bool-cases (p j)) [
  | inl e ↦ let same : j ≡ job = let k = rw e at h in cc in subst P same a.0
  | inr e ↦ find-All P p t job a.1 (rw e at h)
]
