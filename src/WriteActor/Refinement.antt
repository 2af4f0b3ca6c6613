-- ===== src/WriteActor/Refinement.antt =====
-- That the write actor does what it promises.
use mathlib.Core.Path.{subst}
use open_webui_memorist_edit.Prelude.{
  ℕ, suc, ◌≡◌, refl, sym, ap, ◌∙◌, inl, inr, true, false, Option, none, some, List, [], ◌∷◌, ◌++◌,
  String, str_eq, eq_iff, if◌then◌else◌, any, All, Bool-cases,
}
use open_webui_memorist_edit.Prelude.Int.{pos, ltb_ℤ}
use open_webui_memorist_edit.WriteActor.{
  WriteResult, Command, default_max_write_weight, IdempotencyRecord, Failure, overweight,
  invalid_max_transaction_ms, database_busy, timed_out, replay_refused, handler_failed,
  lookup_failed, recording_failed, World, fault, Work, State, Envelope, Reply, refused, did, key_of,
  has_key_and_type, find_record, lookup_key, replayed, record_of, insert_or_ignore, record_key,
}
use open_webui_memorist_edit.WriteActor.Run.{
  execute_command, Response, of_error, of_result, elapsed_ms, finish, validated, recorded, executed,
  perform, looked_up, with_retries, execute_envelope, answered, run_envelopes, read_clock,
}
use open_webui_memorist_edit.WriteActor.Once.{
  Memory, Store, Slip, remembered, recall_once, recall, remember, untimed, replay, run_once,
  answer_once, execute_once, response, run_commands,
}

-- What the actor answers is what is promised, or it reports that the time ran out.
abbrev pub Agrees : Response → Response → Type 0
Agrees (of_result r) (of_result r') = untimed r ≡ r'
Agrees (of_error timed_out) (of_result r') = Unit
Agrees (of_error f) (of_error f') = f ≡ f'
Agrees _ _ = ⊥

abbrev pub AllAgree : List Response → List Response → Type 0
AllAgree [] [] = Unit
AllAgree (r ∷ rs) (r' ∷ rs') = Agrees r r' × AllAgree rs rs'
AllAgree _ _ = ⊥

-- Each key belongs to the commands of one type, which `owner` gives.
module _ (owner : String → String) where
  abbrev pub OwnsKey : Option String → String → Type 0
  OwnsKey none type = Unit
  OwnsKey (some key) type = owner key ≡ type

  -- The rows hold what the memory holds.
  pub record Holds (rows : List IdempotencyRecord) (memory : Memory) : Type 0 where
    pub found : (key : String) → find_record key (owner key) rows ≡ memory key (owner key)
    pub owned : All (λ (r : IdempotencyRecord). owner r.idempotency_key ≡ r.command_type) rows

  no_key :
      (key : String) (rows : List IdempotencyRecord)
      → All (λ (r : IdempotencyRecord). owner r.idempotency_key ≡ r.command_type) rows
      → find_record key (owner key) rows ≡ none
      → any (λ (r : IdempotencyRecord). str_eq r.idempotency_key key) rows ≡ false
  no_key key [] h k = refl
  no_key key (r ∷ rows) h k = elim (Bool-cases (str_eq r.idempotency_key key)) [
    | inl e ↦
        let same : r.idempotency_key ≡ key = (eq_iff r.idempotency_key key).0 e in
        let type : r.command_type ≡ owner key = sym h.0 ∙ ap owner same in
        let passes = (eq_iff r.command_type (owner key)).1 type in
        let k' = rw (e, passes) at k in cc
    | inr e ↦ rw e (no_key key rows h.1 (rw e at k))
  ]

  find-append :
      (key type : String) (rows : List IdempotencyRecord) (r : IdempotencyRecord)
      → find_record key type rows ≡ none
      → find_record key type (rows ++ r ∷ [])
        ≡ (if has_key_and_type key type r then some r else none)
  find-append key type [] r h = refl
  find-append key type (x ∷ rows) r h = elim (Bool-cases (has_key_and_type key type x)) [
    | inl e ↦ let k : some x ≡ none = simp e at h in cc
    | inr e ↦ simp e (find-append key type rows r (simp e at h))
  ]

  find-kept :
      (key type : String) (rows : List IdempotencyRecord) (r : IdempotencyRecord)
      → has_key_and_type key type r ≡ false
      → find_record key type (rows ++ r ∷ []) ≡ find_record key type rows
  find-kept key type [] r h = simp h refl
  find-kept key type (x ∷ rows) r h = elim (Bool-cases (has_key_and_type key type x)) [
    | inl e ↦ simp e refl
    | inr e ↦ simp e (find-kept key type rows r h)
  ]

  All-append :
      (rows : List IdempotencyRecord) (r : IdempotencyRecord)
      → All (λ (x : IdempotencyRecord). owner x.idempotency_key ≡ x.command_type) rows
      → owner r.idempotency_key ≡ r.command_type
      → All (λ (x : IdempotencyRecord). owner x.idempotency_key ≡ x.command_type) (rows ++ r ∷ [])
  All-append [] r h k = (k, tt)
  All-append (x ∷ rows) r h k = (h.0, All-append rows r h.1 k)

  same-text : (s : String) → str_eq s s ≡ true
  same-text s = (eq_iff s s).1 refl

  -- A result that is recorded under a key without a row is one that is remembered.
  recorded-Holds :
      (key : String) (r : WriteResult) (rows : List IdempotencyRecord) (memory : Memory)
      → Holds rows memory
      → find_record key (owner key) rows ≡ none
      → Holds
          (insert_or_ignore (record_of key (owner key) r) rows)
          (remember (some key) (owner key) r memory)
  recorded-Holds key r rows memory h none_yet =
      let new = record_of key (owner key) r in
      simp (no_key key rows h.owned none_yet) record {
        found = λ k. elim (Bool-cases (str_eq key k)) [
          | inl e ↦
              let same : key ≡ k = (eq_iff key k).0 e in
              subst
                (λ k.
                  find_record k (owner k) (rows ++ new ∷ [])
                  ≡ remember (some key) (owner key) r memory k (owner k))
                same
                (simp (same-text key, same-text (owner key))
                  (find-append key (owner key) rows new none_yet
                    ∙ simp (same-text key, same-text (owner key)) refl))
          | inr e ↦
              let fails : has_key_and_type k (owner k) new ≡ false = simp e refl in
              simp e (find-kept k (owner k) rows new fails ∙ h.found k)
        ];
        owned = All-append rows new h.owned refl;
      }

  record-Holds :
      (key : Option String) (type : String) (r : WriteResult) (rows : List IdempotencyRecord)
      (memory : Memory)
      → OwnsKey key type
      → Holds rows memory
      → lookup_key key type rows ≡ none
      → Holds (record_key key type r rows) (remember key type r memory)
  record-Holds none type r rows memory o h k = record { found = h.found; owned = h.owned }
  record-Holds (some key) type r rows memory o h k =
      subst
        (λ t. Holds (insert_or_ignore (record_of key t r) rows) (remember (some key) t r memory)) o
        (recorded-Holds key r rows memory h (o' ∙ k))
    where
      o' : find_record key (owner key) rows ≡ find_record key type rows
      o' = ap (λ t. find_record key t rows) o

  recall-lookup :
      (key : Option String) (type : String) (rows : List IdempotencyRecord) (memory : Memory)
      → OwnsKey key type
      → Holds rows memory
      → recall key type memory ≡ lookup_key key type rows
  recall-lookup none type rows memory o h = refl
  recall-lookup (some key) type rows memory o h =
      subst (λ t. memory key t ≡ find_record key t rows) o (sym (h.found key))

failure-Agrees : (f : Failure) → Agrees (of_error f) (of_error f)
failure-Agrees overweight = refl
failure-Agrees invalid_max_transaction_ms = refl
failure-Agrees database_busy = refl
failure-Agrees timed_out = refl
failure-Agrees (replay_refused reason) = refl
failure-Agrees (handler_failed m) = refl
failure-Agrees (lookup_failed m) = refl
failure-Agrees (recording_failed m) = refl

-- How the memory slips at a command.
abbrev pub slip_at : {D : Type 0} → World → Command D → ℕ → Slip
slip_at world command readings = record {
  unread = fault (key_of command.idempotency_key) (world.unread readings);
  unremembered = fault (key_of command.idempotency_key) (world.unrecorded (suc (suc readings)));
}

module _ {D : Type 0} (owner : String → String) (world : World) where
  -- A response of the actor and its state against the promised ones.
  pub record Matches (a : Response × State D) (b : Response × Store D) : Type 0 where
    pub same : Agrees a.0 b.0
    pub work : a.1.work ≡ b.1.work
    pub holds : Holds owner a.1.records b.1.memory

  finish-Matches :
      (command : Command D) (wait_ms started : ℕ) (r : WriteResult) (s : State D) (memory : Memory)
      → Holds owner s.records memory
      → Matches
          (answered (finish world command wait_ms started r s))
          (of_result (untimed r), record { work = s.work; memory = memory })
  finish-Matches command wait_ms started r s memory h =
      elim (Bool-cases (
        ltb_ℤ command.max_transaction_ms
          (pos (elapsed_ms started (world.perf_counter s.readings))))) [
            | inl e ↦ simp e record { same = tt; work = refl; holds = h }
            | inr e ↦ simp e record { same = refl; work = refl; holds = h }
          ]

  validated-Matches :
      (command : Command D) (wait_ms started : ℕ) (known : IdempotencyRecord) (o : Option String)
      (s : State D) (memory : Memory)
      → Holds owner s.records memory
      → Matches
          (answered (validated world command wait_ms started known o s))
          (response (replay known o (record { work = s.work; memory = memory })))
  validated-Matches command wait_ms started known (some reason) s memory h = record {
    same = refl;
    work = refl;
    holds = h;
  }
  validated-Matches command wait_ms started known none s memory h =
      finish-Matches command wait_ms started (replayed known) s memory h

  recorded-Matches :
      (command : Command D) (wait_ms started : ℕ) (r : WriteResult) (error : Option String)
      (s : State D) (memory : Memory)
      → OwnsKey owner (key_of command.idempotency_key) command.command_type
      → Holds owner s.records memory
      → lookup_key (key_of command.idempotency_key) command.command_type s.records ≡ none
      → Matches
          (answered (recorded world command wait_ms started r error s))
          (response (remembered command r error s.work memory))
  recorded-Matches command wait_ms started r (some error) s memory o h k = record {
    same = refl;
    work = refl;
    holds = h;
  }
  recorded-Matches command wait_ms started r none s memory o h k =
      finish-Matches command wait_ms started r _ _ (
        record-Holds owner (key_of command.idempotency_key) command.command_type r s.records memory
          o h k)

  executed-Matches :
      (command : Command D) (slip : Slip) (wait_ms started : ℕ) (s : State D) (memory : Memory)
      (ran : Reply (Work D) (WriteResult × ℕ))
      → slip.unremembered ≡ fault (key_of command.idempotency_key) (world.unrecorded s.readings)
      → OwnsKey owner (key_of command.idempotency_key) command.command_type
      → Holds owner s.records memory
      → lookup_key (key_of command.idempotency_key) command.command_type s.records ≡ none
      → Matches
          (answered (executed world command wait_ms started s ran))
          (response (run_once command slip ran memory))
  executed-Matches command slip wait_ms started s memory (refused f w) q o h k = record {
    same = failure-Agrees f;
    work = refl;
    holds = h;
  }
  executed-Matches command slip wait_ms started s memory (did (r, n) w) q o h k =
      let s' : State D = record s { work = w; metrics = with_retries n s.metrics } in
      let error = fault (key_of command.idempotency_key) (world.unrecorded s.readings) in
      subst
        (λ e.
          Matches (answered (recorded world command wait_ms started r error s'))
            (response (remembered command r e w memory)))
        (sym q) (recorded-Matches command wait_ms started r error s' memory o h k)

  perform-Matches :
      (command : Command D) (slip : Slip) (wait_ms started : ℕ) (known : Option IdempotencyRecord)
      (s : State D) (memory : Memory)
      → slip.unremembered ≡ fault (key_of command.idempotency_key) (world.unrecorded s.readings)
      → OwnsKey owner (key_of command.idempotency_key) command.command_type
      → Holds owner s.records memory
      → lookup_key (key_of command.idempotency_key) command.command_type s.records ≡ known
      → Matches
          (answered (perform world command wait_ms started known s))
          (response (answer_once command slip known (record { work = s.work; memory = memory })))
  perform-Matches command slip wait_ms started none s memory q o h k =
      executed-Matches command slip wait_ms started s memory (execute_command command s.work) q o h
        k
  perform-Matches command slip wait_ms started (some known) s memory q o h k =
      validated-Matches command wait_ms started known _ s memory h

  looked_up-Matches :
      (command : Command D) (slip : Slip) (wait_ms started : ℕ) (error : Option String)
      (s : State D) (memory : Memory)
      → slip.unremembered ≡ fault (key_of command.idempotency_key) (world.unrecorded s.readings)
      → OwnsKey owner (key_of command.idempotency_key) command.command_type
      → Holds owner s.records memory
      → Matches
          (answered (looked_up world command wait_ms started error s))
          (response (recall_once command slip error (record { work = s.work; memory = memory })))
  looked_up-Matches command slip wait_ms started (some error) s memory q o h = record {
    same = refl;
    work = refl;
    holds = h;
  }
  looked_up-Matches command slip wait_ms started none s memory q o h =
      rw
        (recall-lookup owner (key_of command.idempotency_key) command.command_type s.records memory
          o h)
        (perform-Matches command slip wait_ms started _ s memory q o h refl)

  execute-Matches :
      (e : Envelope D) (s : State D) (memory : Memory)
      → OwnsKey owner (key_of e.command.idempotency_key) e.command.command_type
      → Holds owner s.records memory
      → Matches (answered (execute_envelope world e s)) (
          response (
            execute_once e.command
              (slip_at world e.command s.readings)
              (record { work = s.work; memory = memory })))
  unfolding execute_envelope
  execute-Matches e s memory o h =
      let c = e.command in
      elim (Bool-cases (ltb_ℤ default_max_write_weight c.estimated_write_weight)) [
        | inl heavy ↦ simp heavy record { same = refl; work = refl; holds = h }
        | inr light ↦ elim (Bool-cases (ltb_ℤ (pos 0) c.max_transaction_ms)) [
          | inl good ↦
              simp (light, good)
                (looked_up-Matches c (slip_at world c s.readings) _ _ _ (read_clock (read_clock s))
                  memory refl o h)
          | inr bad ↦ simp (light, bad) record { same = refl; work = refl; holds = h }
        ]
      ]

-- What is to hold of the state that a sequence of commands leaves.
pub record Refines {D : Type 0} (owner : String → String) (s : State D) (t : Store D) : Type 0 where
  pub work : s.work ≡ t.work
  pub holds : Holds owner s.records t.memory

-- What commands of an actor and its promise come to, on a state and a store.
pub record Simulates {D : Type 0} (owner : String → String) (a : List Response × State D)
    (b : List Response × Store D) : Type 0 where
  pub answers : AllAgree a.0 b.0
  pub refines : Refines owner a.1 b.1

module _ {D : Type 0} (owner : String → String) (world : World) where
  abbrev pub Keyed : Envelope D → Type 0
  Keyed e = OwnsKey owner (key_of e.command.idempotency_key) e.command.command_type

  same_store :
      (s : State D) (t : Store D)
      → Refines owner s t
      → ◌≡◌ {A = Store D} (record { work = s.work; memory = t.memory }) t
  same_store s t r = ap (λ w. record { work = w; memory = t.memory }) r.work

  step-Matches :
      (e : Envelope D) (s : State D) (t : Store D)
      → Keyed e
      → Refines owner s t
      → Matches owner world
          (answered (execute_envelope world e s))
          (response (execute_once e.command (slip_at world e.command s.readings) t))
  step-Matches e s t o r =
      subst
        (λ u.
          Matches owner world (answered (execute_envelope world e s))
            (response (execute_once e.command (slip_at world e.command s.readings) u)))
        (same_store s t r) (execute-Matches owner world e s t.memory o r.holds)

-- The commands in the order in which they are taken, each with how the memory slips at it.
abbrev pub slipped : {D : Type 0} → World → List (Envelope D) → State D → List (Command D × Slip)
slipped world [] s = []
slipped world (e ∷ es) s =
    (e.command, slip_at world e.command s.readings)
    ∷ slipped world es (answered (execute_envelope world e s)).1

-- Where each key belongs to one type of command, the actor's thread does with commands, in the
-- order in which it takes them, what is promised: each is answered as if it ran once for its key and
-- type and were remembered, but for one whose time runs out; one at which the table of idempotency
-- records cannot be read does not run, and one at which it cannot be written has run and is not
-- remembered. The database, the number of executions and what is remembered agree at the end.
pub run_envelopes-Simulates :
    {D : Type 0} (owner : String → String) (world : World) (es : List (Envelope D)) (s : State D)
    (t : Store D)
    → All (Keyed owner world) es
    → Refines owner s t
    → Simulates owner (run_envelopes world es s) (run_commands (slipped world es s) t)
run_envelopes-Simulates owner world [] s t o r = record { answers = tt; refines = r }
run_envelopes-Simulates owner world (e ∷ es) s t o r =
    let step = step-Matches owner world e s t o.0 r in
    let rest =
      run_envelopes-Simulates owner world es (answered (execute_envelope world e s)).1
        (response (execute_once e.command (slip_at world e.command s.readings) t)).1 o.1
        (record { work = step.work; holds = step.holds }) in
    record { answers = (step.same, rest.answers); refines = rest.refines }
