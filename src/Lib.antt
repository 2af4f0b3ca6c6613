-- ===== src/Lib.antt =====
-- Memorist, the memory service for Open WebUI (memorist-core/src/memcore): a model of the parts that
-- decide what runs next and what may become memory, with their correctness.
--
-- The program. Chat messages are captured, cut into units and passed through a gate; a language
-- model analyses them into semantic units, which are planned into memory candidates; background
-- work shares the process with the live chat. Eleven parts are modelled. The service takes a
-- durable job; its pipeline unitizes a message, lets its units through the gate, executes the
-- analysis under a contract, and plans what becomes memory; candidates are consolidated with the
-- memories, which an attachment later brings back into a chat within a budget of tokens. What is
-- written to SQLite goes through the write actor.
--
-- Scheduler (scheduler/hot_scheduler.py, lanes.py, metrics.py): the in-memory queue of the hot path.
--   Scheduler is the state of HotScheduler; submit, claim_next, complete, pause_lane and resume_lane
--   are its methods, select_next is _select_next_index_locked with the entry beside its index. Each
--   method holds the lock, so a run of the program is a sequence of calls (Runs.run). heapq is the
--   record Heap: a push adds an element, and no operation loses one. Clock readings are microseconds
--   that the caller passes, and do not go back. Lanes holds the lanes, Selection and Choice what is
--   taken, Runs and Validity sequences of calls, Starvation the limit on background work.
--
-- Coverage (memory_worker/semantic/coverage/planner.py and policy.py, with
--   semantic/provenance_policy.py and semantic/candidate_mapping.py): from the accepted semantic
--   units of one message to a plan that accounts for all its text and to candidate proposals.
--   Contracts has the data; Intervals _merge_intervals and _tokens_outside_intervals;
--   AuthorityIndex the class _AuthorityIndex; Policy disposition_for_unit; Provenance
--   decide_candidate_provenance; Mapping the two candidate mappings; References the guards on
--   references and on an assistant's words; Unit the body of the loop over units (plan_unit);
--   Planner plan_candidate_coverage with its validation, the uncovered material, _assert_complete,
--   _plan_status and the bounds that the contracts of contracts.py put on items, proposals and the
--   plan. An exception is an error value of Planner.Attempt, the loop's `assert` an option without
--   value. A set is a list without repetitions. References and relations are all accepted after
--   validation, so a unit's indexes stand for its own references, in order. Parameters
--   (Unit.Library): SHA-256 and the identities of coverage/identity.py, str.strip, the two token
--   patterns with casefold, and the test of a slice for alphanumeric characters.
--
-- Jobs (repositories/domain.py, class JobRepository): the table of durable jobs in SQLite as a list of
--   rows, and the statements that the methods execute on it. call_job is a call of a method with the
--   identifier and the times that it reads; a statement is atomic, so a run is a sequence of calls
--   (run_jobs). claim_next_job_once is the claim by UPDATE with RETURNING, and
--   claim_next_job_compare_and_swap the path for a SQLite without it. A time is a number; the code
--   writes it as a text in the same order. Rows lists what lookups and updates keep, Validity has the
--   invariant, Attempts counts the claims, Selection and Claims say which job is claimed, and Enqueue
--   is about repeated work.
--
-- Consolidation (memory_worker/consolidation): what becomes of a candidate among the memories.
--   Consolidation has resolver.py, conflicts.py and operations.py, Keys canonical_keys.py, Store the
--   methods of MemoryStoreRepository (repositories/memory_worker.py) on the tables of
--   migrations/0002_phase2_memory_worker.sql with their unique indexes, Consolidator the class
--   MemoryConsolidator of consolidator.py, and Outbox the marks of the projection on its outbox. A
--   method is one transaction, so one that raises leaves the tables; an Outcome is a value or an
--   exception with the store. new_uuid and utc_now are sequences of which a store counts what it used,
--   and new_uuid does not repeat itself (Writes.DrawsFresh). Sound is the invariant of the tables;
--   Writes, Records, Memories, Paths, Changes, Growth, Invariant, Branches and Marks have the lemmas on
--   single methods and paths; Calls is about all outcomes of a call and Runs about sequences of calls,
--   Effect about the memory that a call leaves, Projection about what the outbox hears. Left out:
--   confidence and importance, which are floats that are only stored, and the times at which rows are
--   created and updated.
--
-- Ranking (retrieval/ranking: selection.py, diversity.py, reranker.py, conflicts.py, with their use in
--   scorer.py and retrieval/runner.py): which memories an answer gets. A score is an integer of
--   millionths, and the score of an item an arbitrary function of its penalty for conflicts. Selection
--   is about what is selected, Conflicts about the conflicts that the consolidator records. Left out:
--   the generators of candidates, the fusion of their lists and the other parts of a score.
--
-- Attachments (attachments/budget.py): compute_attachment_budget with _resolve_context_window and
--   _estimate_recent_tokens, on integers of any size. str.lower and floor(window * ratio), a product
--   of floats, are parameters. Bounds has the limits of a budget, Windows the window of a model.
--
-- Execution (memory_worker/execution.py and attempt_audit.py, stage_status_for_output of
--   model_control/stage_status.py): run_contract_execution, which calls a provider at most twice,
--   validates its answers and falls back to a deterministic output. An action is a function from a
--   State (the audit table, the requests that were sent, the number of interactions so far) to a value
--   or an exception with the state that it leaves. Audit has the repository of attempts, Actions the
--   helpers and the calls on the world, Run the function, cut where it returns early. Call holds its
--   arguments: the validator and the deterministic output are arbitrary, the provider and the check of
--   the lease are functions of the number of interactions. Honesty and Outcomes are about what is
--   returned and raised, Invariants about states, Payments and Audited about the requests, Returns says
--   when an outcome is returned. IJson has the profile of validators/ijson.py that an output is held to
--   when its hash is taken. Parameters: the clock, SHA-256 of the JSON text, and the tests of a text by
--   str.encode and as a timestamp. A number in a JSON value is an integer; floats are left out.
--
-- WriteActor (storage/write_actor.py and commands.py): execute_envelope is _execute_envelope with
--   the idempotency lookup and record, execute_with_busy_retry its retries, and run_envelopes the
--   loop of the thread on the commands in the order in which it takes them. The database is of any
--   type, a command a function on it and on the number of executions so far. World holds what the
--   actor does not decide: the clock, and which reads and writes of the idempotency table raise, as
--   functions of the number of readings of the clock. Once is what the actor promises, with the
--   slips that it allows, Refinement that it keeps the promise, Replay how often a command is
--   executed.
--
-- Unitizer (memory_worker/unitizer.py): DeterministicUnitizer.unitize on code points, with its regular
--   expressions written out. Blocks has the inner loops and the sentences, Unitize the loop over lines,
--   Tiling what it is for pieces to cover a text, Lines, Sentences and Cover the proofs.
--   Parameters: str.isdigit and str.lower.
--
-- Gate (memory_worker/gating.py, semantic/gate_policy.py, semantic/authority.py): evaluate is
--   DeterministicGate.evaluate, with the optional classifier as a function; Signals has its lists of
--   words; Routes the choice of the authoritative route and the policy on both; Drafts the guards of
--   build_candidate_draft (semantic/candidate_service.py); Creation says when a unit gets a draft of a
--   candidate. str.lower and str.strip are parameters.
--
-- Leases (memory_worker/service.py): the leases on jobs of type memory_extraction, on SQLite. A
--   claim recovers the jobs whose lease ran out, takes the first one that is due and counts its
--   generation up; renewals, successes and failures are written under the fence of JobLeaseFence. A
--   table is a list of rows (migrations/0001_init.sql with 0030_strict_processing_job_fence.sql), a
--   clock reading a number, and a token an argument. Rows says how calls change identifiers and
--   generations, Fencing what a lost lease still writes, Elsewhere what the calls of other workers
--   leave of a held job, Holding what a lease allows while it lasts. A fenced write raises, or
--   returns, unless it updates one row: rejected leaves the table, as an update of no row does.
--
-- Prelude has what these share: tests on numbers, counted lists, sorting, texts, integers, JSON
-- values, and tables of rows.
-- The loop of the unitizer has as much fuel as there are lines, of which each pass takes one at least,
-- and the retries of a write count down from 3; all other functions are structural.
--
-- Not modelled: the scheduler's status report, which only reads; the hash of a plan; the retries on
-- a busy database around the statements of JobRepository; the leases on PostgreSQL; the comparison
-- of snapshots by the fence, and the service's thread; the queue of the write actor and its samples
-- of times; other workers on the audit table during an execution, and the errors of its database
-- other than those of its two unique keys; changes of a row between the two statements of
-- mark_job_failed; the writes of corrections, privacy and the HTTP routes to the tables of
-- memories; the rest of the service, which is storage, HTTP, language model calls, imports, and the
-- generators and the fusion of retrieval.
pub mod Prelude
pub mod Scheduler
pub mod Coverage
pub mod Jobs
pub mod Attachments
pub mod Consolidation
pub mod Execution
pub mod WriteActor
pub mod Unitizer
pub mod Gate
pub mod Leases
pub mod Ranking
