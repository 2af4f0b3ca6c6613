-- ===== src/Execution/Rules.antt =====
-- Reasoning about an execution: what holds where an action ends, by an exception or with a value.
use open_webui_memorist_edit.Execution.{State, Error, Step, Action, stopped, gave, next}

module _ {A : Type 0} where
  abbrev pub Ends : (Error → State → Type 0) → (A → State → Type 0) → Step A → Type 0
  Ends E Q (stopped e s) = E e s
  Ends E Q (gave a s) = Q a s

module _ {A B : Type 0} (E : Error → State → Type 0) where
  pub next-Ends :
      (P : A → State → Type 0) (Q : B → State → Type 0) (m : Step A) (f : A → Action B)
      → Ends E P m
      → ((a : A) (s : State) → P a s → Ends E Q (f a s))
      → Ends E Q (next m f)
  next-Ends P Q (stopped e s) f h k = h
  next-Ends P Q (gave a s) f h k = k a s h
