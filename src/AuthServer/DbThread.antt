-- ===== src/AuthServer/DbThread.antt =====
-- AuthServer/AuthServer/AuthDBThread.cpp and NeedDBResultHandler.cpp: the threads that run the
-- queries. The two events are the flags that SetEvent raises and a wait lowers, a thread is waiting
-- or has ended, and the connection pool is that of AuthDBConnector.cpp, whose text is the one in
-- DbServer/Connections.antt.
pub mod Drain
pub mod Events
use dding_game_server.Prelude.{
  ℕ, zero, suc, ◌+◌, ◌%◌, Bool, true, false, ◌&&◌, Option, none, some, List, [], ◌∷◌, ◌++◌, ◌≡◌,
  if◌then◌else◌,
}
use dding_game_server.Prelude.Map
use dding_game_server.Prelude.Map.{Map}
use dding_game_server.Rio.Types.{Result, ok, err, crash, out_of_fuel, ◌>>=◌}
use dding_game_server.DbServer.Connections.{DbConnection, get_connection}

-- DBJobObject with its QueryObject; the query is named by a number.
pub record Job : Type 0 where
  pub session_id : ℕ
  pub query : ℕ
  pub query_type : ℕ
  pub need_result : Bool

-- What the threads do to the outside.
pub data Effect : Type 0 where
  sends_query : DbConnection → ℕ → Effect
  -- the handler of the query's type, and the log line behind it
  handles_result : ℕ → Job → Effect
  logs_query_fail : Job → Effect

pub record DbThreads : Type 0 where
  pub is_started : Bool
  pub waiting : ℕ
  pub ended : ℕ
  pub db_job_event : Bool
  pub stop_event : Bool
  pub db_job_list : List Job
  pub db_job_handler_map : Map ℕ
  pub connections : List DbConnection
  -- the last first
  pub effects : List Effect

-- NeedDBResultHandler and NotNeedDBResultHandler
unfoldable pub db_job_result_handler : Map ℕ → Job → List Effect → List Effect
db_job_result_handler handlers job es =
    let handled : List Effect = elim (Map.find job.query_type handlers) [
      | none ↦ logs_query_fail job ∷ es
      | some handler ↦ handles_result handler job ∷ es
    ] in
    if job.need_result then handled else es

-- CallSP behind GetConnection. Whether the query succeeds is not looked at, and the connection is
-- not given back.
unfoldable pub call_on :
    Job → Option DbConnection × List DbConnection → DbThreads → Result DbThreads
call_on job (none, pool) sv = err crash
call_on job (some c, pool) sv = ok (record sv {
  connections = pool;
  effects = db_job_result_handler sv.db_job_handler_map job (sends_query c job.query ∷ sv.effects);
})

-- `released` is what the read of a popped list element gives.
unfoldable pub call_sp : (DbConnection → DbConnection) → Job → DbThreads → Result DbThreads
call_sp released job sv = call_on job (get_connection released sv.connections) sv

unfoldable pub get_db_job_object : DbThreads → Option Job × DbThreads
get_db_job_object sv = elim sv.db_job_list [
  | [] ↦ (none, sv)
  | job ∷ jobs ↦ (some job, record sv { db_job_list = jobs })
]

unfoldable pub insert_db_job : Job → DbThreads → DbThreads
insert_db_job job sv = record sv { db_job_list = sv.db_job_list ++ job ∷ [] }

-- The body of DBJobHandle's loop, on what GetDBJobObject gave; `next` is the rest of the loop.
unfoldable pub handle_next :
    (DbConnection → DbConnection)
    → (DbThreads → Result DbThreads)
    → Option Job × DbThreads
    → Result DbThreads
handle_next released next (none, sv) = ok sv
handle_next released next (some job, sv) = call_sp released job sv >>= next

unfoldable pub db_job_handle : (DbConnection → DbConnection) → ℕ → DbThreads → Result DbThreads
db_job_handle released zero sv = err out_of_fuel
db_job_handle released (suc fuel) sv =
    handle_next released (db_job_handle released fuel) (get_db_job_object sv)

-- `created` says whether both calls of CreateEvent succeed; the number of threads is a BYTE.
unfoldable pub start_threads : Bool → ℕ → DbThreads → Result (Bool × DbThreads)
start_threads created n sv =
    if sv.is_started
    then ok (false, sv)
    else if created
    then ok (
      true,
      record sv {
        is_started = true;
        waiting = sv.waiting + n % 256;
        db_job_event = false;
        stop_event = false;
      },
    )
    else err crash

-- StopThreads up to the threads' ends, which `join` waits for.
unfoldable pub stop_threads : DbThreads → DbThreads
stop_threads sv = record sv { stop_event = true }

-- What the waiting threads and their callers do, one at a time; a thread empties the list in one
-- step. WaitForMultipleObjects lowers the
-- event that it returns for, and of two it returns for the first.
pub data Step (released : DbConnection → DbConnection) : DbThreads → DbThreads → Type 0 where
  inserts : (job : Job) (sv : DbThreads) → Step released sv (insert_db_job job sv)
  stops : (sv : DbThreads) → Step released sv (stop_threads sv)
  works :
      (n fuel : ℕ) (sv sv' : DbThreads)
      → sv.waiting ≡ suc n
      → sv.db_job_event ≡ true
      → db_job_handle released fuel (record sv { db_job_event = false }) ≡ ok sv'
      → Step released sv sv'
  ends :
      (n : ℕ) (sv : DbThreads)
      → sv.waiting ≡ suc n
      → sv.db_job_event ≡ false
      → sv.stop_event ≡ true
      → Step released sv (record sv { waiting = n; ended = sv.ended + 1; stop_event = true })

pub data Steps (released : DbConnection → DbConnection) : DbThreads → DbThreads → Type 0 where
  stays : (sv : DbThreads) → Steps released sv sv
  goes_on :
      (sv sv' sv'' : DbThreads)
      → Step released sv sv'
      → Steps released sv' sv''
      → Steps released sv sv''
