-- ===== src/Core/DbJobs.antt =====
-- DdingGameServer/RIO_Core/DBJob.cpp, DBJob.h and DBJobUtil.cpp: the jobs for the database, the batches they
-- stand in, and the keys of the batches; with AssemblePacket of ProcedureReplyHandler.cpp.
pub mod Keys
use dding_game_server.Prelude.{
  ℕ, ◌+◌, ◌≡◌, refl, Bool, true, false, ◌||◌, Option, none, some, List, [], ◌∷◌, ◌++◌, map, leb,
  ◌==◌, if◌then◌else◌, length,
}
use dding_game_server.Prelude.Map
use dding_game_server.Prelude.Map.{Map}
use dding_game_server.Prelude.Word.{inc64, u32}

abbrev pub maximum_batched_db_job_size : ℕ
maximum_batched_db_job_size = 16

pub data ErrorCode : Type 0 where
  success batched_db_job_size_overflowed : ErrorCode

-- A DBJob by its class name. The constructor fills a buffer of its own, and keeps the place of the
-- key in it.
pub record DbJob : Type 0 where
  pub name : ℕ
  pub job_sp_buffer : Option (List ℕ)
  pub job_key_position : Option ℕ

unfoldable pub make_db_job : ℕ → ℕ → DbJob
make_db_job name position = record {
  name = name;
  job_sp_buffer = none;
  job_key_position = some position;
}

-- `false` where nothing is sent; `none` where the key itself is read as an address.
unfoldable pub execute_job : DbJob → Option Bool
execute_job job = elim job.job_sp_buffer [
  | none ↦ some false
  | some _ ↦ elim job.job_key_position [ none ↦ some false | some _ ↦ none ]
]

pub record BatchedDbJob : Type 0 where
  pub job_list : List DbJob
  pub owner : ℕ
  pub db_job_key : ℕ

unfoldable pub add_db_job : DbJob → BatchedDbJob → ErrorCode × BatchedDbJob
add_db_job job b =
    if leb maximum_batched_db_job_size (length b.job_list)
    then (batched_db_job_size_overflowed, b)
    else (success, record b { job_list = b.job_list ++ job ∷ [] })

-- The loop of ExecuteBatchJob over the jobs: it looks at no result.
unfoldable pub execute_all : List DbJob → Option (List Bool)
execute_all [] = some []
execute_all (j ∷ js) = elim (execute_job j) [
  | none ↦ none
  | some sent ↦ elim (execute_all js) [ none ↦ none | some rest ↦ some (sent ∷ rest) ]
]

-- The result, and what each job did.
unfoldable pub execute_batch_job : BatchedDbJob → Option (ErrorCode × List Bool)
execute_batch_job b = elim (execute_all b.job_list) [
  | none ↦ none
  | some results ↦ some (success, results)
]

-- The virtual calls of the jobs.
pub data Call : Type 0 where
  on_commit on_rollback : ℕ → Call

unfoldable pub batch_on_commit : BatchedDbJob → List Call
batch_on_commit b = map (λ j. on_commit j.name) b.job_list

unfoldable pub batch_on_rollback : BatchedDbJob → List Call
batch_on_rollback b = map (λ j. on_rollback j.name) b.job_list

unfoldable pub get_job_name_list : BatchedDbJob → List ℕ
get_job_name_list b = map (λ j. j.name) b.job_list

-- DBJobManager, and the batches that exist, by address.
pub record DbJobManager : Type 0 where
  pub job_key : ℕ
  pub job_map : Map ℕ
  pub batches : Map BatchedDbJob

unfoldable pub get_db_job_key : DbJobManager → ℕ × DbJobManager
get_db_job_key m = (m.job_key, record m { job_key = inc64 m.job_key })

unfoldable pub register_db_job : ℕ → DbJobManager → DbJobManager
register_db_job a m = record m {
  job_key = inc64 m.job_key;
  job_map = Map.insert m.job_key a m.job_map;
}

unfoldable pub get_registed_db_job : ℕ → DbJobManager → Option ℕ
get_registed_db_job key m = Map.find key m.job_map

unfoldable pub deregister_db_job : ℕ → DbJobManager → DbJobManager
deregister_db_job key m = record m { job_map = Map.erase key m.job_map }

-- BatchedDBJob's constructor, at a new address.
unfoldable pub new_batch : ℕ → ℕ → DbJobManager → DbJobManager
unfolding get_db_job_key
new_batch a owner m =
    let (key, m') = get_db_job_key m in
    record m' {
      batches = Map.put a (record { job_list = []; owner = owner; db_job_key = key }) m.batches;
    }

-- MakeBatchedDBJob of DBJobUtil.cpp
unfoldable pub make_batched_db_job : ℕ → ℕ → DbJobManager → DbJobManager
make_batched_db_job a owner m = register_db_job a (new_batch a owner m)

-- BatchedDBJob's destructor
unfoldable pub drop_batch : ℕ → DbJobManager → DbJobManager
drop_batch a m = elim (Map.find a m.batches) [
  | none ↦ m
  | some b ↦
      let m' = deregister_db_job b.db_job_key m in record m' { batches = Map.erase a m.batches }
]

-- AddDBJob on the batch at an address.
unfoldable pub add_to_batch : ℕ → DbJob → DbJobManager → DbJobManager
add_to_batch a job m = elim (Map.find a m.batches) [
  | none ↦ m
  | some b ↦ record m { batches = Map.put a (add_db_job job b).1 m.batches }
]

-- AssemblePacket: the calls that the reply leads to.
unfoldable pub assemble_packet : ℕ → Bool → DbJobManager → List Call
assemble_packet key is_successed m = elim (get_registed_db_job key m) [
  | none ↦ []
  | some a ↦ elim (Map.find a m.batches) [
    | none ↦ []
    | some b ↦ if is_successed then batch_on_commit b else batch_on_rollback b
  ]
]
