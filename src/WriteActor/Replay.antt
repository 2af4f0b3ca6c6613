-- ===== src/WriteActor/Replay.antt =====
-- How often a command is executed: the attempts of one call, and that a recorded command is not
-- executed again.
use open_webui_memorist_edit.Prelude.{
  ℕ, zero, suc, ◌+◌, ◌≤◌, ◌≡◌, refl, inl, inr, Option, none, some, List, [], ◌∷◌, ◌++◌, String,
  str_eq, any, Bool-cases, arith,
}
use open_webui_memorist_edit.Prelude.Int.{pos, ltb_ℤ}
use open_webui_memorist_edit.WriteActor.{
  WriteResult, Executed, wrote, busy, failed, Command, default_max_write_weight, IdempotencyRecord,
  overweight, invalid_max_transaction_ms, database_busy, timed_out, replay_refused, handler_failed,
  Work, State, Envelope, Reply, refused, did, key_of, has_key_and_type, find_record, lookup_key,
  replayed, record_of, record_key, World, lookup_failed, recording_failed,
}
use open_webui_memorist_edit.WriteActor.Run.{
  recorded, looked_up, with_retries, execute_with_busy_retry, executed_once, execute_command,
  check_replay, Response, elapsed_ms, finish, validated, executed, perform, execute_envelope,
  answered, run_envelopes, read_clock,
}

module _ {D : Type 0} where
  -- What a call with `left` attempts after the first leaves, `b` retries having been made.
  abbrev pub Bounded : ℕ → ℕ → Work D → Reply (Work D) (WriteResult × ℕ) → Type 0
  Bounded left b w (did (r, n) v) = (n ≤ b + left) × (v.executions + b ≡ w.executions + suc n)
  Bounded left b w (refused database_busy v) = v.executions ≡ w.executions + suc left
  Bounded left b w (refused f v) =
      (suc w.executions ≤ v.executions) × (v.executions ≤ w.executions + suc left)

  later-Bounded :
      (left b : ℕ) (w : Work D) (d : D) (m : Reply (Work D) (WriteResult × ℕ))
      → Bounded left (suc b) (executed_once w d) m
      → Bounded (suc left) b w m
  later-Bounded left b w d (did (r, n) v) h = omega arith
  later-Bounded left b w d (refused database_busy v) h = omega arith
  later-Bounded left b w d (refused overweight v) h = omega arith
  later-Bounded left b w d (refused invalid_max_transaction_ms v) h = omega arith
  later-Bounded left b w d (refused timed_out v) h = omega arith
  later-Bounded left b w d (refused (replay_refused m) v) h = omega arith
  later-Bounded left b w d (refused (handler_failed m) v) h = omega arith
  later-Bounded left b w d (refused (lookup_failed m) v) h = omega arith
  later-Bounded left b w d (refused (recording_failed m) v) h = omega arith

  retry-Bounded :
      (command : Command D) (left b : ℕ) (w : Work D)
      → Bounded left b w (execute_with_busy_retry command left b w)
  unfolding execute_with_busy_retry
  retry-Bounded command zero b w = last (command.execute w.executions w.content)
    where
      last :
          (x : Executed D)
          → Bounded 0 b w (elim x [
            | wrote r d ↦ did (r, b) (executed_once w d)
            | busy d ↦ refused database_busy (executed_once w d)
            | failed m d ↦ refused (handler_failed m) (executed_once w d)
          ])
      last (wrote r d) = omega arith
      last (busy d) = omega arith
      last (failed m d) = omega arith
  retry-Bounded command (suc left) b w =
      attempt (command.execute w.executions w.content)
        (λ d. later-Bounded left b w d _ (retry-Bounded command left (suc b) (executed_once w d)))
    where
      attempt :
          (x : Executed D)
          → ((d : D)
              → Bounded
                  (suc left)
                  b
                  w
                  (execute_with_busy_retry command left (suc b) (executed_once w d)))
          → Bounded (suc left) b w (elim x [
            | wrote r d ↦ did (r, b) (executed_once w d)
            | busy d ↦ execute_with_busy_retry command left (suc b) (executed_once w d)
            | failed m d ↦ refused (handler_failed m) (executed_once w d)
          ])
      attempt (wrote r d) later = omega arith
      attempt (busy d) later = later d
      attempt (failed m d) later = omega arith

  -- A command is executed at most four times in one call: a result after n retries comes from the
  -- execution n + 1, and n is at most 3; that the database is busy is reported after the fourth
  -- execution; any other exception after one of them.
  pub execute_command-Bounded :
      (command : Command D) (w : Work D) → Bounded 3 0 w (execute_command command w)
  execute_command-Bounded command w = retry-Bounded command 3 0 w

-- The row of a key and a type stays.
module _ (key type : String) (row : IdempotencyRecord) where
  abbrev Has : List IdempotencyRecord → Type 0
  Has rows = find_record key type rows ≡ some row

  append-Has :
      (rows : List IdempotencyRecord) (r : IdempotencyRecord) → Has rows → Has (rows ++ r ∷ [])
  append-Has [] r h = cc
  append-Has (x ∷ rows) r h = elim (Bool-cases (has_key_and_type key type x)) [
    | inl e ↦ simp e (simp e at h)
    | inr e ↦ simp e (append-Has rows r (simp e at h))
  ]

  record-Has :
      (k : Option String) (t : String) (r : WriteResult) (rows : List IdempotencyRecord)
      → Has rows
      → Has (record_key k t r rows)
  record-Has none t r rows h = h
  record-Has (some k) t r rows h =
      elim (Bool-cases (any (λ (x : IdempotencyRecord). str_eq x.idempotency_key k) rows)) [
        | inl e ↦ simp e h
        | inr e ↦ simp e (append-Has rows (record_of k t r) h)
      ]

  module _ {D : Type 0} (world : World) where
    abbrev Still : Response × State D → Type 0
    Still r = Has r.1.records

    finish-Still :
        (command : Command D) (wait_ms started : ℕ) (r : WriteResult) (s : State D)
        → Has s.records
        → Still (answered (finish world command wait_ms started r s))
    finish-Still command wait_ms started r s h =
        elim (Bool-cases (
          ltb_ℤ command.max_transaction_ms
            (pos (elapsed_ms started (world.perf_counter s.readings))))) [
              | inl e ↦ simp e h
              | inr e ↦ simp e h
            ]

    recorded-Still :
        (command : Command D) (wait_ms started : ℕ) (r : WriteResult) (error : Option String)
        (s : State D)
        → Has s.records
        → Still (answered (recorded world command wait_ms started r error s))
    recorded-Still command wait_ms started r (some error) s h = h
    recorded-Still command wait_ms started r none s h =
        finish-Still command wait_ms started r _
          (record-Has (key_of command.idempotency_key) command.command_type r s.records h)

    perform-Still :
        (command : Command D) (wait_ms started : ℕ) (known : Option IdempotencyRecord) (s : State D)
        → Has s.records
        → Still (answered (perform world command wait_ms started known s))
    perform-Still command wait_ms started none s h = ran (execute_command command s.work)
      where
        ran :
            (m : Reply (Work D) (WriteResult × ℕ))
            → Still (answered (executed world command wait_ms started s m))
        ran (refused f w) = h
        ran (did (r, n) w) =
            recorded-Still command wait_ms started r _
              (record s { work = w; metrics = with_retries n s.metrics }) h
    perform-Still command wait_ms started (some known) s h =
        checked (check_replay command.validate_idempotent_replay s.work.content)
      where
        checked :
            (o : Option String)
            → Still (answered (validated world command wait_ms started known o s))
        checked (some reason) = h
        checked none = finish-Still command wait_ms started (replayed known) s h

    looked_up-Still :
        (command : Command D) (wait_ms started : ℕ) (error : Option String) (s : State D)
        → Has s.records
        → Still (answered (looked_up world command wait_ms started error s))
    looked_up-Still command wait_ms started (some error) s h = h
    looked_up-Still command wait_ms started none s h = perform-Still command wait_ms started _ s h

    execute-Still :
        (e : Envelope D) (s : State D)
        → Has s.records
        → Still (answered (execute_envelope world e s))
    unfolding execute_envelope
    execute-Still e s h =
        elim (Bool-cases (ltb_ℤ default_max_write_weight e.command.estimated_write_weight)) [
          | inl heavy ↦ simp heavy h
          | inr light ↦ elim (Bool-cases (ltb_ℤ (pos 0) e.command.max_transaction_ms)) [
            | inl good ↦
                simp (light, good) (looked_up-Still e.command _ _ _ (read_clock (read_clock s)) h)
            | inr bad ↦ simp (light, bad) h
          ]
        ]

    run-Has :
        (es : List (Envelope D)) (s : State D)
        → Has s.records
        → Has (run_envelopes world es s).1.records
    run-Has [] s h = h
    run-Has (e ∷ es) s h =
        run-Has es (answered (execute_envelope world e s)).1 (execute-Still e s h)

    finish-work :
        (command : Command D) (wait_ms started : ℕ) (r : WriteResult) (s : State D)
        → (answered (finish world command wait_ms started r s)).1.work ≡ s.work
    finish-work command wait_ms started r s =
        elim (Bool-cases (
          ltb_ℤ command.max_transaction_ms
            (pos (elapsed_ms started (world.perf_counter s.readings))))) [
              | inl e ↦ simp e refl
              | inr e ↦ simp e refl
            ]

    known-work :
        (command : Command D) (wait_ms started : ℕ) (known : IdempotencyRecord) (o : Option String)
        (s : State D)
        → (answered (validated world command wait_ms started known o s)).1.work ≡ s.work
    known-work command wait_ms started known (some reason) s = refl
    known-work command wait_ms started known none s =
        finish-work command wait_ms started (replayed known) s

    looked_up-work :
        (command : Command D) (wait_ms started : ℕ) (error : Option String) (s : State D)
        → key_of command.idempotency_key ≡ some key
        → command.command_type ≡ type
        → Has s.records
        → (answered (looked_up world command wait_ms started error s)).1.work ≡ s.work
    looked_up-work command wait_ms started (some error) s k q h = refl
    looked_up-work command wait_ms started none s k q h =
        let found : lookup_key (key_of command.idempotency_key) command.command_type s.records
            ≡ some row =
          simp (k, q) h in
        simp found (known-work command wait_ms started row _ s)

    recorded-work :
        (e : Envelope D) (s : State D)
        → key_of e.command.idempotency_key ≡ some key
        → e.command.command_type ≡ type
        → Has s.records
        → (answered (execute_envelope world e s)).1.work ≡ s.work
    unfolding execute_envelope
    recorded-work e s k q h =
        elim (Bool-cases (ltb_ℤ default_max_write_weight e.command.estimated_write_weight)) [
          | inl heavy ↦ simp heavy refl
          | inr light ↦ elim (Bool-cases (ltb_ℤ (pos 0) e.command.max_transaction_ms)) [
            | inl good ↦
                simp (light, good)
                  (looked_up-work e.command _ _ _ (read_clock (read_clock s)) k q h)
            | inr bad ↦ simp (light, bad) refl
          ]
        ]

-- Once the table has a row of a key and a type, no command with this key and type is executed,
-- whatever commands come before it: it leaves the database and the number of executions.
pub recorded_never_executes :
    {D : Type 0} (world : World) (key type : String) (row : IdempotencyRecord)
    (es : List (Envelope D)) (e : Envelope D) (s : State D)
    → find_record key type s.records ≡ some row
    → key_of e.command.idempotency_key ≡ some key
    → e.command.command_type ≡ type
    → (answered (execute_envelope world e (run_envelopes world es s).1)).1.work
      ≡ (run_envelopes world es s).1.work
recorded_never_executes world key type row es e s h k q =
    recorded-work key type row world e (run_envelopes world es s).1 k q
      (run-Has key type row world es s h)
