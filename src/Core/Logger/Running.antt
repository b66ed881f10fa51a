-- ===== src/Core/Logger/Running.antt =====
-- The logger's thread: RunLoggerThread, Worker and StopLoggerThread of
-- DdingGameServer/RIO_Core/Logger.cpp, with the program's calls of WriteLog between them.
use dding_game_server.Prelude.{
  ℕ, ◌<◌, ◌≡◌, refl, ◌∙◌, Bool, true, false, ◌&&◌, inl, inr, Option, none, some, List, [], length,
  ◌==◌, if◌then◌else◌, arith, Bool-cases,
}
use dding_game_server.Core.Logger.{
  Logger, Outcome, returns, reads_empty_queue, out_of_fuel, write_log, write_log_impl,
  write_log_impl_lem, work, work_lem,
}

-- The logger as its constructor leaves it, with a file that may have lines of before.
abbrev pub opened : List ℕ → Logger
opened lines = record {
  log_waiting_queue = [];
  log_file = lines;
  log_event = false;
  stop_event = false;
}

-- `none` is the crash where an event cannot be made.
unfoldable pub run_logger_thread : (made_log made_stop : Bool) → Logger → Option Logger
run_logger_thread made_log made_stop l =
    if made_log && made_stop
    then some (record l { log_event = false; stop_event = false })
    else none

-- What a round of Worker comes to. The two events reset themselves, and the first one that is set
-- is taken.
pub data Round : Type 0 where
  waits crashes : Round
  goes_on ends : Logger → Round

unfoldable pub goes_round : Outcome Logger → Round
goes_round (returns l) = goes_on l
goes_round reads_empty_queue = crashes
goes_round out_of_fuel = crashes

unfoldable pub ends_round : Outcome Logger → Round
ends_round (returns l) = ends (record l { stop_event = true })
ends_round reads_empty_queue = crashes
ends_round out_of_fuel = crashes

-- `log` and `stop`: the events that are set.
unfoldable pub serve_event : (log stop : Bool) → ℕ → Logger → Round
serve_event true stop fuel l = goes_round (work fuel l)
serve_event false true fuel l = ends_round (write_log_impl fuel (record l { stop_event = false }))
serve_event false false fuel l = waits

unfoldable pub worker_round : ℕ → Logger → Round
worker_round fuel l = serve_event l.log_event l.stop_event fuel l

-- Up to the wait for the thread.
unfoldable pub stop_logger_thread : Logger → Logger
stop_logger_thread l = record l { stop_event = true }

-- The program writes and stops at any time, and the thread has its rounds, with fuel for the queue.
pub data Step : Logger → Logger → Type 0 where
  runs :
      (made_log made_stop : Bool) (l l' : Logger)
      → run_logger_thread made_log made_stop l ≡ some l'
      → Step l l'
  writes : (line : ℕ) (l : Logger) → Step l (write_log line l)
  stops : (l : Logger) → Step l (stop_logger_thread l)
  has_round :
      (fuel : ℕ) (l l' : Logger)
      → length l.log_waiting_queue < fuel
      → worker_round fuel l ≡ goes_on l'
      → Step l l'
  has_last_round :
      (fuel : ℕ) (l l' : Logger)
      → length l.log_waiting_queue < fuel
      → worker_round fuel l ≡ ends l'
      → Step l l'

pub data Reachable (lines : List ℕ) : Logger → Type 0 where
  starts : Reachable lines (opened lines)
  steps : (l l' : Logger) → Reachable lines l → Step l l' → Reachable lines l'

goes_round-log_file :
    (fuel : ℕ) (l l' : Logger)
    → length l.log_waiting_queue < fuel
    → goes_round (work fuel l) ≡ goes_on l'
    → l'.log_file ≡ l.log_file
unfolding goes_round
goes_round-log_file fuel l l' enough e = elim (Bool-cases (length l.log_waiting_queue == 0)) [
  | inl z ↦ ground (arith, rw (work_lem fuel l enough, z, goes_round) at e)
  | inr n ↦ absurd (cc (rw (work_lem fuel l enough, n, goes_round) at e))
]

ends_round-log_file :
    (fuel : ℕ) (l l' : Logger)
    → length l.log_waiting_queue < fuel
    → ends_round (write_log_impl fuel l) ≡ ends l'
    → l'.log_file ≡ l.log_file
unfolding ends_round
ends_round-log_file fuel l l' enough e = elim (Bool-cases (length l.log_waiting_queue == 0)) [
  | inl z ↦ ground (arith, rw (write_log_impl_lem fuel l enough, z, ends_round) at e)
  | inr n ↦ absurd (cc (rw (write_log_impl_lem fuel l enough, n, ends_round) at e))
]

ends-goes_on : (o : Outcome Logger) (l : Logger) → ¬ (ends_round o ≡ goes_on l)
unfolding ends_round
ends-goes_on (returns x) l e = cc e
ends-goes_on reads_empty_queue l e = cc e
ends-goes_on out_of_fuel l e = cc e

goes_on-ends : (o : Outcome Logger) (l : Logger) → ¬ (goes_round o ≡ ends l)
unfolding goes_round
goes_on-ends (returns x) l e = cc e
goes_on-ends reads_empty_queue l e = cc e
goes_on-ends out_of_fuel l e = cc e

goes_on-log_file :
    (log stop : Bool) (fuel : ℕ) (l l' : Logger)
    → length l.log_waiting_queue < fuel
    → serve_event log stop fuel l ≡ goes_on l'
    → l'.log_file ≡ l.log_file
unfolding serve_event
goes_on-log_file true stop fuel l l' enough e = goes_round-log_file fuel l l' enough e
goes_on-log_file false true fuel l l' enough e = absurd (ends-goes_on _ l' e)
goes_on-log_file false false fuel l l' enough e = absurd (cc e)

ends-log_file :
    (log stop : Bool) (fuel : ℕ) (l l' : Logger)
    → length l.log_waiting_queue < fuel
    → serve_event log stop fuel l ≡ ends l'
    → l'.log_file ≡ l.log_file
unfolding serve_event
ends-log_file true stop fuel l l' enough e = absurd (goes_on-ends _ l' e)
ends-log_file false true fuel l l' enough e =
    ends_round-log_file fuel (record l { stop_event = false }) l' enough e
ends-log_file false false fuel l l' enough e = absurd (cc e)

Step-log_file : (l l' : Logger) → Step l l' → l'.log_file ≡ l.log_file
unfolding run_logger_thread write_log stop_logger_thread worker_round
Step-log_file l l' (runs made_log made_stop _ _ e) = ground (arith, e)
Step-log_file l _ (writes line _) = refl
Step-log_file l _ (stops _) = refl
Step-log_file l l' (has_round fuel _ _ enough e) =
    goes_on-log_file l.log_event l.stop_event fuel l l' enough e
Step-log_file l l' (has_last_round fuel _ _ enough e) =
    ends-log_file l.log_event l.stop_event fuel l l' enough e

-- Whatever the program writes and whenever it stops the logger, the thread never puts a line into the
-- file: it holds what it held when it was opened.
pub Reachable-log_file : (lines : List ℕ) (l : Logger) → Reachable lines l → l.log_file ≡ lines
Reachable-log_file lines _ starts = refl
Reachable-log_file lines _ (steps l l' r s) = Step-log_file l l' s ∙ Reachable-log_file lines l r
