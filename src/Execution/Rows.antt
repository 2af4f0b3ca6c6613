-- ===== src/Execution/Rows.antt =====
-- The rows of the audit table.
use open_webui_memorist_edit.Prelude.{
  ℕ, ◌||◌, ◌≡◌, refl, inl, inr, Bool, true, not, ◌&&◌, List, [], ◌∷◌, ◌++◌, map, String, any, arith,
  Bool-cases, eq_iff,
}
use open_webui_memorist_edit.Execution.{
  FrozenProviderExecution, AttemptKind, AttemptRow, AttemptAudit,
}
use open_webui_memorist_edit.Execution.Audit.{
  same_identity, same_stage, is_some, reserved_row, finalize_if, Observation,
}

module _ (p : AttemptRow → Bool) where
  pub any-append :
      (rs : List AttemptRow) (r : AttemptRow) → any p (rs ++ r ∷ []) ≡ (any p rs || p r)
  any-append [] r = ground arith
  any-append (x ∷ rs) r = ground (arith, any-append rs r)

  pub any-map :
      (g : AttemptRow → AttemptRow) (rs : List AttemptRow)
      → ((r : AttemptRow) → p (g r) ≡ p r)
      → any p (map g rs) ≡ any p rs
  any-map g [] same = refl
  any-map g (r ∷ rs) same = rw (same r, any-map g rs same)

-- To complete a row changes none of its keys.
module _ (f : FrozenProviderExecution) (i index : ℕ) (seen : Observation) (now : String) where
  pub finalize-identity :
      (g : FrozenProviderExecution) (r : AttemptRow)
      → same_identity g i (finalize_if f index seen now r) ≡ same_identity g i r
  finalize-identity g r = elim (Bool-cases (same_stage f index r && not (is_some r.completed_at))) [
    | inl e ↦ rw e
    | inr e ↦ rw e
  ]

  pub finalize-stage :
      (g : FrozenProviderExecution) (r : AttemptRow)
      → same_stage g i (finalize_if f index seen now r) ≡ same_stage g i r
  finalize-stage g r = elim (Bool-cases (same_stage f index r && not (is_some r.completed_at))) [
    | inl e ↦ rw e
    | inr e ↦ rw e
  ]

pub own_identity :
    (a : AttemptAudit) (n : ℕ) (kind : AttemptKind) (now : String)
    → same_identity a.frozen n (reserved_row a n kind now) ≡ true
own_identity a n kind now =
    let k = (eq_iff a.frozen.idempotency_identity a.frozen.idempotency_identity).1 refl in
    rw k (ground arith)
