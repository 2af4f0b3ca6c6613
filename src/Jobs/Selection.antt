-- ===== src/Jobs/Selection.antt =====
-- The row that the inner SELECT of a claim returns.
use mathlib.Core.Path.{subst}
use open_webui_memorist_edit.Prelude.{
  ℕ, ◌≡◌, refl, sym, inl, inr, Bool, true, false, not, ◌&&◌, ◌||◌, some, [], ◌∷◌, arith, leb,
  str_eq, eq_iff, All, All-imp, All-filter_if, filter_if, filter_if-All, filter_if-passes,
  Bool-cases,
}
use open_webui_memorist_edit.Prelude.Int.{ltb_ℤ}
use open_webui_memorist_edit.Prelude.Membership.{Any}
use open_webui_memorist_edit.Jobs.{
  Job, Table, claimable, job_before, first_job, first_of, select_claimable, takes,
}

-- `s` has a higher priority than `r`, or the same and is no later.
abbrev pub ranked : Job → Job → Bool
ranked s r =
    ltb_ℤ r.priority s.priority
    || (not (ltb_ℤ s.priority r.priority) && leb s.created_at r.created_at)

before_ranked : (a b : Job) → job_before a b ≡ true → ranked a b ≡ true
unfolding job_before
before_ranked a b h = ground arith

not_before_ranked : (a b : Job) → job_before a b ≡ false → ranked b a ≡ true
unfolding job_before
not_before_ranked a b h = ground arith

ranked_trans : (a b c : Job) → ranked a b ≡ true → ranked b c ≡ true → ranked a c ≡ true
ranked_trans a b c h k = ground arith

ranked_refl : (a : Job) → ranked a a ≡ true
ranked_refl a = ground arith

first_job-yes :
    (m j : Job) (js : Table) → job_before j m ≡ true → first_job m (j ∷ js) ≡ first_job j js
unfolding first_job
first_job-yes m j js e = rw e

first_job-no :
    (m j : Job) (js : Table) → job_before j m ≡ false → first_job m (j ∷ js) ≡ first_job m js
unfolding first_job
first_job-no m j js e = rw e

abbrev Heads : Table → Job → Type 0
Heads js s = All (λ r. ranked s r ≡ true) js

-- The first job heads the whole list.
first_job-Heads : (m : Job) (js : Table) → Heads (m ∷ js) (first_job m js)
first_job-Heads m [] = unfold first_job in (ranked_refl m, tt)
first_job-Heads m (j ∷ js) = elim (Bool-cases (job_before j m)) [
  | inl e ↦
      let rest = first_job-Heads j js in
      subst (Heads (m ∷ j ∷ js)) (sym (first_job-yes m j js e))
        (ranked_trans (first_job j js) j m rest.0 (before_ranked j m e), rest)
  | inr e ↦
      let rest = first_job-Heads m js in
      subst (Heads (m ∷ j ∷ js)) (sym (first_job-no m j js e))
        (rest.0, (ranked_trans (first_job m js) m j rest.0 (not_before_ranked j m e), rest.1))
]

first_job-keeps {κ} :
    (P : Job → Type κ) (m : Job) (js : Table) → P m → All P js → P (first_job m js)
first_job-keeps P m [] h hs = unfold first_job in h
first_job-keeps P m (j ∷ js) h hs = elim (Bool-cases (job_before j m)) [
  | inl e ↦ subst P (sym (first_job-yes m j js e)) (first_job-keeps P j js hs.0 hs.1)
  | inr e ↦ subst P (sym (first_job-no m j js e)) (first_job-keeps P m js h hs.1)
]

pub All-Any {κ} : (P : Job → Type κ) (r : Job) (t : Table) → All P t → Any (λ x. x ≡ r) t → P r
All-Any P r [] h m = absurd m
All-Any P r (x ∷ t) h (inl e) = subst P e h.0
All-Any P r (x ∷ t) h (inr m) = All-Any P r t h.1 m

All-members : (t : Table) → All (λ r. Any (λ x. x ≡ r) t) t
All-members [] = tt
All-members (x ∷ t) = (inl refl, All-imp t (λ r h. inr h) (All-members t))

first_of-Heads : (js : Table) (s : Job) → first_of js ≡ some s → Heads js s
first_of-Heads [] s h = tt
first_of-Heads (j ∷ js) s h =
    let same : first_job j js ≡ s = cc in subst (Heads (j ∷ js)) same (first_job-Heads j js)

first_of-keeps {κ} :
    (P : Job → Type κ) (js : Table) (s : Job) → All P js → first_of js ≡ some s → P s
first_of-keeps P [] s hs h = cc
first_of-keeps P (j ∷ js) s hs h =
    let same : first_job j js ≡ s = cc in subst P same (first_job-keeps P j js hs.0 hs.1)

module _ (now : ℕ) (t : Table) (s : Job) (selected : select_claimable now t ≡ some s) where
  selected' : first_of (filter_if (claimable now) t) ≡ some s
  unfolding select_claimable
  selected' = selected

  pub selected-claimable : claimable now s ≡ true
  selected-claimable =
      first_of-keeps (λ j. claimable now j ≡ true) (filter_if (claimable now) t) s
        (filter_if-passes (claimable now) t) selected'

  pub selected_member : Any (λ x. x ≡ s) t
  selected_member =
      first_of-keeps (λ j. Any (λ x. x ≡ j) t) (filter_if (claimable now) t) s
        (All-filter_if (λ j. Any (λ x. x ≡ j) t) (claimable now) t (All-members t)) selected'

  pub selected-Heads : (r : Job) → Any (λ x. x ≡ r) t → claimable now r ≡ true → ranked s r ≡ true
  selected-Heads r m c =
      All-Any (λ r. claimable now r ≡ true → ranked s r ≡ true) r t
        (filter_if-All (λ r. ranked s r ≡ true) (claimable now) t
          (first_of-Heads (filter_if (claimable now) t) s selected'))
        m c

  pub selected-takes : takes s s ≡ true
  selected-takes =
      let same : str_eq s.job_uuid s.job_uuid ≡ true = (eq_iff s.job_uuid s.job_uuid).1 refl in
      let c = selected-claimable in ground arith
