-- ===== src/Jobs/Claims.antt =====
-- Which job a claim takes, and that its two implementations agree.

use mathlib.Core.Path.{subst}
use open_webui_memorist_edit.Prelude.{
  ℕ, ◌+◌, ◌≤◌, ◌≡◌, refl, sym, ap, ◌∙◌, inl, inr, Bool, true, false, Option, none, some, [], ◌∷◌,
  arith, ◌==◌, eq_iff, str_eq, String, &&-left, count_if, All, filter_if, filter_if-nil, Bool-cases,
  Option-cases,
}
use open_webui_memorist_edit.Prelude.Membership.{Any}
use open_webui_memorist_edit.Jobs.{
  Job, Table, has_uuid, find, update_where, get_job, claimable, first_of, select_claimable,
  claimed_row, takes, claim_next_job_once, claim_next_job_compare_and_swap,
}
use open_webui_memorist_edit.Jobs.Rows.{update_found, count-update_where}
use open_webui_memorist_edit.Jobs.Attempts.{count_takes}
use open_webui_memorist_edit.Jobs.Validity.{IsValid}
use open_webui_memorist_edit.Jobs.Selection.{
  ranked, All-Any, selected-claimable, selected_member, selected-Heads, selected-takes,
}

count_member :
    (p : Job → Bool) (t : Table) (s : Job) → Any (λ x. x ≡ s) t → p s ≡ true → 1 ≤ count_if p t
count_member p [] s m h = absurd m
count_member p (x ∷ t) s (inl e) h = let k = subst (λ y. p y ≡ true) (sym e) h in rw k (omega arith)
count_member p (x ∷ t) s (inr m) h = omega (arith, count_member p t s m h)

find_member :
    (p : Job → Bool) (t : Table) (s : Job)
    → Any (λ x. x ≡ s) t
    → p s ≡ true
    → count_if p t ≤ 1
    → find p t ≡ some s
unfolding find
find_member p [] s m h c = absurd m
find_member p (x ∷ t) s (inl e) h c = let k = subst (λ y. p y ≡ true) (sym e) h in rw k (ap some e)
find_member p (x ∷ t) s (inr m) h c = elim (Bool-cases (p x)) [
  | inl e ↦ absurd (let k = rw e at c in omega (arith, count_member p t s m h))
  | inr e ↦
      let below : count_if p t ≤ 1 = let k = rw e at c in omega arith in
      rw e (find_member p t s m h below)
]

member-update_where :
    (p : Job → Bool) (f : Job → Job) (t : Table) (s : Job)
    → p s ≡ true
    → Any (λ x. x ≡ s) t
    → Any (λ x. x ≡ f s) (update_where p f t)
member-update_where p f [] s h m = absurd m
member-update_where p f (x ∷ t) s h (inl e) =
    let k = subst (λ y. p y ≡ true) (sym e) h in inl (rw k (ap f e))
member-update_where p f (x ∷ t) s h (inr m) = inr (member-update_where p f t s h m)

one_takes : (s : Job) (t : Table) → IsValid t → count_if (takes s) t ≤ 1
one_takes s t v = let u = v.unique s.job_uuid in omega (arith, count_takes s t)

-- What a claim does once a job is selected.
claim_selected :
    (now : ℕ) (t : Table) (s : Job)
    → IsValid t
    → select_claimable now t ≡ some s
    → claim_next_job_once now t
      ≡ (some (claimed_row now s), update_where (takes s) (claimed_row now) t)
unfolding claim_next_job_once
claim_selected now t s v h = rw (
  h,
  claim_next_job_once,
  find_member (takes s) t s (selected_member now t s h) (selected-takes now t s h)
      (one_takes s t v),
)

-- The row that was claimed, read again.
claimed_read :
    (now : ℕ) (t : Table) (s : Job)
    → IsValid t
    → select_claimable now t ≡ some s
    → get_job s.job_uuid (update_where (takes s) (claimed_row now) t) ≡ some (claimed_row now s)
claimed_read now t s v h =
    let m = selected_member now t s h in
    let passes = selected-takes now t s h in
    let kept = count-update_where (takes s) (claimed_row now) (has_uuid s.job_uuid) t (λ j. refl) in
    let single : count_if (has_uuid s.job_uuid) (update_where (takes s) (claimed_row now) t) ≤ 1 =
      let u = v.unique s.job_uuid in omega arith in
    unfold get_job in
    find_member (has_uuid s.job_uuid) _ (claimed_row now s)
      (member-update_where (takes s) (claimed_row now) t s passes m)
      ((eq_iff s.job_uuid s.job_uuid).1 refl) single

other_uuid :
    (s j : Job) (uuid : String)
    → str_eq s.job_uuid uuid ≡ false
    → takes s j ≡ true
    → has_uuid uuid j ≡ false
other_uuid s j uuid e h =
    let same = (eq_iff j.job_uuid s.job_uuid).0 (&&-left (has_uuid s.job_uuid j) _ h) in
    subst (λ i. str_eq i uuid ≡ false) (sym same) e

claimed_others :
    (now : ℕ) (t : Table) (s : Job) (uuid : String)
    → str_eq s.job_uuid uuid ≡ false
    → get_job uuid (update_where (takes s) (claimed_row now) t) ≡ get_job uuid t
unfolding get_job
claimed_others now [] s uuid e = refl
claimed_others now (j ∷ t) s uuid e = elim (Bool-cases (takes s j)) [
  | inl f ↦ let other = other_uuid s j uuid e f in rw (f, other) (claimed_others now t s uuid e)
  | inr f ↦ elim (Bool-cases (has_uuid uuid j)) [
    | inl g ↦ rw (f, g) refl
    | inr g ↦ rw (f, g) (claimed_others now t s uuid e)
  ]
]

swap_selected :
    (now : ℕ) (t : Table) (s : Job)
    → IsValid t
    → select_claimable now t ≡ some s
    → claim_next_job_compare_and_swap now t
      ≡ (some (claimed_row now s), update_where (takes s) (claimed_row now) t)
unfolding claim_next_job_compare_and_swap
swap_selected now t s v h =
    let m = selected_member now t s h in
    let passes = selected-takes now t s h in
    let found = find_member (takes s) t s m passes (one_takes s t v) in
    let same =
      update_found (takes s) (λ k j. record (claimed_row now j) { attempts = k.attempts + 1 }) t s
        (one_takes s t v) found in
    let one : count_if (takes s) t == 1 ≡ true =
      let low = count_member (takes s) t s m passes in let high = one_takes s t v in ground arith in
    let read = claimed_read now t s v h in rw (h, claim_next_job_compare_and_swap, one, same, read)

-- On a valid table the claim without RETURNING hands out the same job and leaves the same table as
-- the claim with RETURNING.
pub compare_and_swap-eq-once :
    (now : ℕ) (t : Table)
    → IsValid t
    → claim_next_job_compare_and_swap now t ≡ claim_next_job_once now t
unfolding claim_next_job_compare_and_swap claim_next_job_once
compare_and_swap-eq-once now t v = elim (Option-cases (select_claimable now t)) [
  | inl e ↦ rw (e, claim_next_job_compare_and_swap, claim_next_job_once)
  | inr (s, e) ↦ swap_selected now t s v e ∙ sym (claim_selected now t s v e)
]

no_first : (js : Table) → first_of js ≡ none → js ≡ []
no_first [] h = refl
no_first (j ∷ js) h = cc

none_selected :
    (now : ℕ) (t : Table) → select_claimable now t ≡ none → All (λ r. claimable now r ≡ false) t
unfolding select_claimable
none_selected now t h = filter_if-nil (claimable now) t (no_first (filter_if (claimable now) t) h)

-- What a claim that hands out `j` did: `j` is a claimable row of the table, now running under a lock
-- with one attempt more; the table that is left has `j` in its place and the other rows as they were;
-- and the row comes no later than another one.
pub record IsClaimed (now : ℕ) (t t' : Table) (j r : Job) : Type 0 where
  pub row : Job
  pub in_table : Any (λ x. x ≡ row) t
  pub was_claimable : claimable now row ≡ true
  pub taken : j ≡ claimed_row now row
  pub written : get_job row.job_uuid t' ≡ some j
  pub not_again : claimable now j ≡ false
  pub others : (uuid : String) → str_eq row.job_uuid uuid ≡ false → get_job uuid t' ≡ get_job uuid t
  pub in_order : ranked row r ≡ true

-- On a valid table, a claim that hands out a job takes a row that is pending and due, and leaves a
-- table in which this row is the job, running with a lock and one attempt more and not claimable
-- again, and each job of another identifier is as before; every row `r` that is pending and due has a
-- lower priority than the row taken, or the same priority and no earlier creation.
pub claim_takes_first :
    (now : ℕ) (t t' : Table) (j r : Job)
    → IsValid t
    → claim_next_job_once now t ≡ (some j, t')
    → Any (λ x. x ≡ r) t
    → claimable now r ≡ true
    → IsClaimed now t t' j r
claim_takes_first now t t' j r v h m c = elim (Option-cases (select_claimable now t)) [
  | inl e ↦ let no = All-Any (λ r. claimable now r ≡ false) r t (none_selected now t e) m in cc
  | inr (s, e) ↦
      let k = sym (claim_selected now t s v e) ∙ h in
      let given : some (claimed_row now s) ≡ some j = ap (λ (x : Option Job × Table). x.0) k in
      let table : update_where (takes s) (claimed_row now) t ≡ t' =
        ap (λ (x : Option Job × Table). x.1) k in
      let taken : j ≡ claimed_row now s = cc in
      record {
        row = s;
        in_table = selected_member now t s e;
        was_claimable = selected-claimable now t s e;
        taken = taken;
        written =
            subst (λ (x : Table). get_job s.job_uuid x ≡ some j) table
              (claimed_read now t s v e ∙ given);
        not_again = subst (λ (x : Job). claimable now x ≡ false) (sym taken) refl;
        others = λ uuid other.
            subst (λ (x : Table). get_job uuid x ≡ get_job uuid t) table
              (claimed_others now t s uuid other);
        in_order = selected-Heads now t s e r m c;
      }
]

taken_not_none : (j : Job) (t t' : Table) → ¬ ◌≡◌ {A = Option Job × Table} (some j, t) (none, t')
taken_not_none j t t' h = let k = ap (λ (r : Option Job × Table). r.0) h in cc

-- On a valid table, a claim that hands out no job leaves the table, and no row is pending and due.
pub claim_finds_none :
    (now : ℕ) (t t' : Table)
    → IsValid t
    → claim_next_job_once now t ≡ (none, t')
    → (t' ≡ t) × All (λ r. claimable now r ≡ false) t
unfolding claim_next_job_once
claim_finds_none now t t' v h = elim (Option-cases (select_claimable now t)) [
  | inl e ↦
      let k = rw (e, claim_next_job_once) at h in
      (sym (ap (λ (r : Option Job × Table). r.1) k), none_selected now t e)
  | inr (s, e) ↦ let k = sym (claim_selected now t s v e) ∙ h in absurd (taken_not_none _ _ _ k)
]
