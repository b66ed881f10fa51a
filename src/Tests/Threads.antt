-- ===== src/Tests/Threads.antt =====
-- The theorems on the threads of AuthServer, on the logger and on the deadlock checker at small
-- states.
use dding_game_server.Prelude.{ℕ, ◌+◌, ◌≡◌, refl, true, false, List, [], ◌∷◌, ◌++◌, arith}
use dding_game_server.Rio.Types.{err, crash}
use dding_game_server.AuthServer.DbThread.{
  Job, DbThreads, Steps, db_job_handle, start_threads, stop_threads, insert_db_job, inserts, stops,
  stays, goes_on,
}
use dding_game_server.AuthServer.DbThread.Drain.{db_job_handle_lem}
use dding_game_server.AuthServer.DbThread.Events.{start_threads-idle, stop_threads-ends}

abbrev job : ℕ → Job
job n = record { session_id = n; query = n; query_type = 0; need_result = true }

-- Three jobs, and a pool of two connections.
abbrev three_jobs : DbThreads
three_jobs = record {
  is_started = false;
  waiting = 0;
  ended = 0;
  db_job_event = false;
  stop_event = false;
  db_job_list = job 1 ∷ job 2 ∷ job 3 ∷ [];
  db_job_handler_map = [];
  connections =
      record { dbc_handle = 1; stmt_handle = 2 } ∷ record { dbc_handle = 3; stmt_handle = 4 } ∷ [];
  effects = [];
}

drain_example : db_job_handle (λ c. c) 4 three_jobs ≡ err crash
drain_example = db_job_handle_lem (λ c. c) 4 three_jobs (omega arith)

abbrev two_threads : DbThreads
two_threads = record three_jobs { is_started = true; waiting = 2 }

abbrev later : DbThreads
later = stop_threads (insert_db_job (job 4) two_threads)

later-Steps : Steps (λ c. c) two_threads later
later-Steps =
    goes_on two_threads (insert_db_job (job 4) two_threads) later (inserts (job 4) two_threads) (
      goes_on (insert_db_job (job 4) two_threads) later later
        (stops (insert_db_job (job 4) two_threads)) (stays later))

idle_example :
    (later.effects ≡ [])
    × (later.connections ≡ three_jobs.connections)
    × ((jobs : List Job) × (later.db_job_list ≡ three_jobs.db_job_list ++ jobs))
unfolding start_threads
idle_example = start_threads-idle (λ c. c) 2 three_jobs two_threads later refl later-Steps

ends_example :
    (sv : DbThreads) × Steps (λ c. c) (stop_threads two_threads) sv
    × (sv.waiting ≡ 0)
    × (sv.ended ≡ 0 + 2)
ends_example = stop_threads-ends (λ c. c) two_threads refl
