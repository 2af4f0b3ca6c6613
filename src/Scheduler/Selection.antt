-- ===== src/Scheduler/Selection.antt =====
-- Which entry `_select_next_index_locked` picks: lemmas on `enumerate`, `filter`, `min` and `pop`.
use mathlib.Core.Path.{subst}
use open_webui_memorist_edit.Prelude.{
  ℕ, zero, suc, ◌+◌, ◌-◌, ◌≤◌, ◌≡◌, refl, sym, ◌⊎◌, inl, inr, ◌≢◌, Bool, true, false, none, some,
  List, [], ◌∷◌, arith, if◌then◌else◌, get_elem?, count_if, All, All-imp, Bool-cases,
}
use open_webui_memorist_edit.Scheduler.{Queued, queued_lt, enumerate, first_min, choose, remove_at}

-- An entry that stands in a queue, at its index counted from `n`.
abbrev pub At : ℕ → List Queued → ℕ × Queued → Type 0
At n xs e = (n ≤ e.0) × (get_elem? xs (e.0 - n) ≡ some e.1)

At-suc :
    (n : ℕ) (x : Queued) (xs : List Queued) (e : ℕ × Queued) → At (suc n) xs e → At n (x ∷ xs) e
At-suc n x xs (i, q) h =
    let step : i - n ≡ suc (i - suc n) = omega arith in (omega arith, rw step h.1)

-- `enumerate` lists the elements with their indices.
pub enumerate-At : (n : ℕ) (xs : List Queued) → All (At n xs) (enumerate n xs)
unfolding enumerate
enumerate-At n [] = tt
enumerate-At n (x ∷ xs) =
    let zeroth : n - n ≡ 0 = omega arith in
    (
      (omega arith, rw zeroth),
      All-imp (enumerate (suc n) xs) (At-suc n x xs) (enumerate-At (suc n) xs),
    )

-- What holds of the kept entries of an enumerated queue holds of each element that passes.
pub enumerate-lookup {κ} :
    (P : ℕ × Queued → Type κ) (n : ℕ) (xs : List Queued) (j : ℕ) (r : Queued)
    → All P (enumerate n xs)
    → get_elem? xs j ≡ some r
    → P (n + j, r)
unfolding enumerate
enumerate-lookup P n [] j r h at = cc
enumerate-lookup P n (x ∷ xs) zero r h at =
    let same : x ≡ r = cc in let here : n + 0 ≡ n = omega arith in rw (here, ← same) h.0
enumerate-lookup P n (x ∷ xs) (suc j) r h at =
    let shift : n + suc j ≡ suc n + j = omega arith in
    rw shift (enumerate-lookup P (suc n) xs j r h.1 at)

queued_lt-asymm : (a b : Queued) → queued_lt a b ≡ true → queued_lt b a ≡ false
unfolding queued_lt
queued_lt-asymm a b h = ground arith

queued_le_trans :
    (a b c : Queued) → queued_lt b a ≡ false → queued_lt c b ≡ false → queued_lt c a ≡ false
unfolding queued_lt
queued_le_trans a b c h k = ground arith

pub queued_lt_irrefl : (a : Queued) → queued_lt a a ≡ false
unfolding queued_lt
queued_lt_irrefl a = ground arith

-- What holds of all the entries holds of the least.
pub first_min-keeps {κ} :
    (P : ℕ × Queued → Type κ) (m : ℕ × Queued) (es : List (ℕ × Queued))
    → P m
    → All P es
    → P (first_min m es)
unfolding first_min
first_min-keeps P m [] h hs = h
first_min-keeps P m (e ∷ es) h hs = elim (Bool-cases (queued_lt e.1 m.1)) [
  | inl lt ↦ rw lt (first_min-keeps P e es hs.0 hs.1)
  | inr ge ↦ rw ge (first_min-keeps P m es h hs.1)
]

first_min-le-start :
    (m : ℕ × Queued) (es : List (ℕ × Queued)) → queued_lt m.1 (first_min m es).1 ≡ false
unfolding first_min
first_min-le-start m [] = queued_lt_irrefl m.1
first_min-le-start m (e ∷ es) = elim (Bool-cases (queued_lt e.1 m.1)) [
  | inl lt ↦
      rw (lt, first_min)
        (queued_le_trans (first_min e es).1 e.1 m.1 (first_min-le-start e es)
          (queued_lt-asymm e.1 m.1 lt))
  | inr ge ↦ rw (ge, first_min) (first_min-le-start m es)
]

-- No entry of a list comes before `r`.
abbrev pub Least : List (ℕ × Queued) → ℕ × Queued → Type 0
Least es r = All (λ e. queued_lt e.1 r.1 ≡ false) es

first_min-cons :
    (m e : ℕ × Queued) (es : List (ℕ × Queued)) (b : Bool)
    → queued_lt e.1 m.1 ≡ b
    → first_min m (e ∷ es) ≡ first_min (if b then e else m) es
unfolding first_min
first_min-cons m e es b h = rw (h, first_min)

-- No entry comes before the least one.
pub first_min-Least : (m : ℕ × Queued) (es : List (ℕ × Queued)) → Least (m ∷ es) (first_min m es)
first_min-Least m [] = (first_min-le-start m [], tt)
first_min-Least m (e ∷ es) = elim (Bool-cases (queued_lt e.1 m.1)) [
  | inl lt ↦
      let rest = first_min-Least e es in
      subst (Least (m ∷ e ∷ es)) (sym (first_min-cons m e es true lt))
        (queued_le_trans (first_min e es).1 e.1 m.1 rest.0 (queued_lt-asymm e.1 m.1 lt), rest)
  | inr ge ↦
      let rest = first_min-Least m es in
      subst (Least (m ∷ e ∷ es)) (sym (first_min-cons m e es false ge))
        (rest.0, (queued_le_trans (first_min m es).1 m.1 e.1 rest.0 ge, rest.1))
]

-- Popping an index takes away the element that stands there, and nothing else.
pub count_if-remove_at :
    (p : Queued → Bool) (i : ℕ) (xs : List Queued) (q : Queued)
    → get_elem? xs i ≡ some q
    → (if p q then 1 else 0) + count_if p (remove_at i xs) ≡ count_if p xs
unfolding remove_at
count_if-remove_at p i [] q h = cc
count_if-remove_at p zero (x ∷ xs) q h = let same : x ≡ q = cc in rw same
count_if-remove_at p (suc i) (x ∷ xs) q h = omega (arith, count_if-remove_at p i xs q h)

module _ {κ} (P : ℕ × Queued → Type κ) (b : Bool) where
  pub choose-keeps :
      (cs hs : List (ℕ × Queued)) (e : ℕ × Queued)
      → choose b cs hs ≡ some e
      → All P cs
      → All P hs
      → P e
  unfolding choose
  choose-keeps [] hs e h pc ph = cc
  choose-keeps (c ∷ cs) [] e h pc ph =
      let same : first_min c cs ≡ e = cc in subst P same (first_min-keeps P c cs pc.0 pc.1)
  choose-keeps (c ∷ cs) (x ∷ hs) e h pc ph = elim (Bool-cases b) [
    | inl t ↦
        let same : first_min x hs ≡ e = ground arith in
        subst P same (first_min-keeps P x hs ph.0 ph.1)
    | inr f ↦
        let same : first_min c cs ≡ e = ground arith in
        subst P same (first_min-keeps P c cs pc.0 pc.1)
  ]

-- The choice is the least of the hot entries, which were forced, or the least of all.
pub choose-Least :
    (b : Bool) (cs hs : List (ℕ × Queued)) (e : ℕ × Queued)
    → choose b cs hs ≡ some e
    → ((b ≡ true) × (hs ≢ []) × Least hs e) ⊎ (((b ≡ false) ⊎ (hs ≡ [])) × Least cs e)
unfolding choose
choose-Least b [] hs e h = cc
choose-Least b (c ∷ cs) [] e h =
    let same : first_min c cs ≡ e = cc in
    inr (inr refl, subst (Least (c ∷ cs)) same (first_min-Least c cs))
choose-Least true (c ∷ cs) (x ∷ hs) e h =
    let same : first_min x hs ≡ e = cc in
    inl (refl, (λ p. cc), subst (Least (x ∷ hs)) same (first_min-Least x hs))
choose-Least false (c ∷ cs) (x ∷ hs) e h =
    let same : first_min c cs ≡ e = cc in
    inr (inl refl, subst (Least (c ∷ cs)) same (first_min-Least c cs))

pub choose-none : (b : Bool) (cs hs : List (ℕ × Queued)) → choose b cs hs ≡ none → cs ≡ []
unfolding choose
choose-none b [] hs h = refl
choose-none b (c ∷ cs) [] h = cc
choose-none true (c ∷ cs) (x ∷ hs) h = cc
choose-none false (c ∷ cs) (x ∷ hs) h = cc

-- Where hot work is due and there is some, what holds of the hot entries holds of the choice.
pub choose-forced {κ} :
    (P : ℕ × Queued → Type κ) (cs hs : List (ℕ × Queued)) (e : ℕ × Queued)
    → choose true cs hs ≡ some e
    → hs ≢ []
    → All P hs
    → P e
unfolding choose
choose-forced P [] hs e h ne ph = cc
choose-forced P (c ∷ cs) [] e h ne ph = absurd (ne refl)
choose-forced P (c ∷ cs) (x ∷ hs) e h ne ph =
    let same : first_min x hs ≡ e = cc in subst P same (first_min-keeps P x hs ph.0 ph.1)
