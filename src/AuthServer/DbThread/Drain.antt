-- ===== src/AuthServer/DbThread/Drain.antt =====
-- How DBJobHandle empties the list of jobs.
use dding_game_server.Prelude.{
  leb, if◌then◌else◌, Bool-cases, inl, inr, ℕ, zero, suc, ◌≤◌, ◌<◌, ◌≡◌, refl, List, [], ◌∷◌,
  length, drop, arith,
}
use dding_game_server.Prelude.Map.{Map}
use dding_game_server.Rio.Types.{ok, err, crash}
use dding_game_server.DbServer.Connections.{DbConnection, get_connection}
use dding_game_server.AuthServer.DbThread.{
  Job, Effect, DbThreads, sends_query, db_job_result_handler, call_on, call_sp, get_db_job_object,
  handle_next, db_job_handle,
}

-- The jobs run one by one, each on the next connection.
abbrev pub run_on :
    (DbConnection → DbConnection) → Map ℕ → List Job → List DbConnection → List Effect → List Effect
run_on released handlers [] pool es = es
run_on released handlers (job ∷ jobs) [] es = es
run_on released handlers (job ∷ jobs) (c ∷ pool) es =
    run_on released handlers jobs pool
      (db_job_result_handler handlers job (sends_query (released c) job.query ∷ es))

abbrev with_jobs : List Job → List DbConnection → List Effect → DbThreads → DbThreads
with_jobs jobs pool es sv = record sv { db_job_list = jobs; connections = pool; effects = es }

module _ (released : DbConnection → DbConnection) where
  enough :
      (fuel : ℕ) (jobs : List Job) (pool : List DbConnection) (es : List Effect) (sv : DbThreads)
      → length jobs < fuel
      → length jobs ≤ length pool
      → db_job_handle released fuel (with_jobs jobs pool es sv)
        ≡ ok (
            with_jobs []
              (drop (length jobs) pool)
              (run_on released sv.db_job_handler_map jobs pool es)
              sv)
  unfolding db_job_handle handle_next call_sp call_on get_db_job_object get_connection
  enough zero jobs pool es sv h l = absurd (omega arith)
  enough (suc fuel) [] pool es sv h l = refl
  enough (suc fuel) (job ∷ jobs) [] es sv h l = absurd (omega arith)
  enough (suc fuel) (job ∷ jobs) (c ∷ pool) es sv h l =
      enough fuel jobs pool _ sv (omega arith) (omega arith)

  too_few :
      (fuel : ℕ) (jobs : List Job) (pool : List DbConnection) (es : List Effect) (sv : DbThreads)
      → length jobs < fuel
      → length pool < length jobs
      → db_job_handle released fuel (with_jobs jobs pool es sv) ≡ err crash
  unfolding db_job_handle handle_next call_sp call_on get_db_job_object get_connection
  too_few zero jobs pool es sv h l = absurd (omega arith)
  too_few (suc fuel) [] pool es sv h l = absurd (omega arith)
  too_few (suc fuel) (job ∷ jobs) [] es sv h l = refl
  too_few (suc fuel) (job ∷ jobs) (c ∷ pool) es sv h l =
      too_few fuel jobs pool _ sv (omega arith) (omega arith)

-- With more fuel than there are jobs, DBJobHandle ends. If the pool has a connection for each of
-- them, it has run them all, in the order of their coming, each on what the reference to the next
-- connection of the pool gives once that connection is popped off the list, and the pool has lost as
-- many connections as there were jobs; if it has fewer connections than that, the server crashes.
pub db_job_handle_lem :
    (released : DbConnection → DbConnection) (fuel : ℕ) (sv : DbThreads)
    → length sv.db_job_list < fuel
    → db_job_handle released fuel sv ≡ (
        if leb (length sv.db_job_list) (length sv.connections)
        then ok (record sv {
          db_job_list = [];
          connections = drop (length sv.db_job_list) sv.connections;
          effects = run_on released sv.db_job_handler_map sv.db_job_list sv.connections sv.effects;
        })
        else err crash)
db_job_handle_lem released fuel sv h =
    elim (Bool-cases (leb (length sv.db_job_list) (length sv.connections))) [
      | inl y ↦
          rw y
            (enough released fuel sv.db_job_list sv.connections sv.effects sv h (ground (arith, y)))
      | inr n ↦
          rw n (
            too_few released fuel sv.db_job_list sv.connections sv.effects sv h (ground (arith, n)))
    ]
