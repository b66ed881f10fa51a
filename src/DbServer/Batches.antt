-- ===== src/DbServer/Batches.antt =====
-- DBServer/DBServer/PakcetHandler.cpp: the jobs that wait for their batch to be complete. A packet of
-- the library is what the handler reads of it; the connection pool and SQL are parameters.
use dding_game_server.Prelude.{
  ℕ, ◌%◌, Bool, true, false, Option, none, some, List, [], ◌∷◌, ◌++◌, ◌==◌, if◌then◌else◌, length,
}
use dding_game_server.Prelude.Map
use dding_game_server.Prelude.Map.{Map, find-erase}

pub record BatchedDbJob : Type 0 where
  -- an unsigned char
  pub batch_size : ℕ
  pub session_id : ℕ
  -- the packet ids and buffers, oldest first
  pub buffer_list : List (ℕ × ℕ)

-- What the server does to the outside, the last first.
pub data Effect : Type 0 where
  autocommit_off commits rolls_back autocommit_on frees_connection : Effect
  runs_job : ℕ × ℕ → Effect
  replies : ℕ → ℕ → Bool → Effect
  prints_invalid_job : ℕ → ℕ → Effect
  runs_procedure : ℕ → Effect

pub record DbServer : Type 0 where
  pub batched_db_job_map : Map BatchedDbJob
  pub effects : List Effect

-- What the connection pool and the driver answer.
pub record Odbc : Type 0 where
  pub connected : Bool
  pub switched : Bool
  pub ended : Bool

-- The packets: the start of a batch, and a job or procedure.
pub data Packet : Type 0 where
  batch_start : (job_key session_id batch_size : ℕ) → Packet
  item : (job_key packet_id buffer : ℕ) → Packet

unfoldable pub insert_batch_job : ℕ → ℕ → ℕ → DbServer → DbServer
insert_batch_job key session size sv = record sv {
  batched_db_job_map =
      Map.insert key (record { batch_size = size % 256; session_id = session; buffer_list = [] })
        sv.batched_db_job_map;
}

unfoldable pub is_batch_job_waiting_job : ℕ → DbServer → Bool
is_batch_job_waiting_job key sv = elim (Map.find key sv.batched_db_job_map) [
  | none ↦ false
  | some _ ↦ true
]

-- DBJobHandleImpl: its cases are commented out.
abbrev pub db_job_handle_impl : Bool
db_job_handle_impl = false

-- The loop over the jobs runs them all: it tests `isSuccess`, which no job sets.
unfoldable pub run_jobs : Bool → List (ℕ × ℕ) → List Effect → List Effect
run_jobs is_success [] es = es
run_jobs is_success (b ∷ bs) es =
    let result = db_job_handle_impl in
    let rest = run_jobs is_success bs (runs_job b ∷ es) in
    if is_success then rest else runs_job b ∷ es

-- `none` where it crashes.
unfoldable pub do_batched_job : Odbc → ℕ → ℕ → BatchedDbJob → DbServer → Option DbServer
do_batched_job db request key b sv =
    let is_success = true in
    let es = run_jobs is_success b.buffer_list (autocommit_off ∷ sv.effects) in
    let done = (if is_success then commits else rolls_back) ∷ es in
    if db.connected
    then (if db.switched
        then (if db.ended
            then some (record sv {
              effects = frees_connection ∷ autocommit_on ∷ replies request key is_success ∷ done;
            })
            else none)
        else none)
    else none

-- AddItemForJobStart with the batch that it found, which it has taken out of the map.
unfoldable pub add_item : Odbc → ℕ → ℕ → ℕ × ℕ → Option BatchedDbJob → DbServer → Option DbServer
add_item db request key buffer none sv = some sv
add_item db request key buffer (some b) sv =
    let b' = record b { buffer_list = b.buffer_list ++ buffer ∷ [] } in
    let sv' = record sv { batched_db_job_map = Map.erase key sv.batched_db_job_map } in
    let done = do_batched_job db request key b' sv' in
    if b.batch_size == length b'.buffer_list then done else some sv'

unfoldable pub add_item_for_job_start : Odbc → ℕ → ℕ → ℕ × ℕ → DbServer → Option DbServer
add_item_for_job_start db request key buffer sv =
    add_item db request key buffer (Map.find key sv.batched_db_job_map) sv

-- ProcedureHandleImpl takes and gives back a connection, and its reply is never sent.
unfoldable pub procedure_handle_impl : Odbc → ℕ → DbServer → Option DbServer
procedure_handle_impl db packet_id sv =
    if db.connected
    then some (record sv { effects = runs_procedure packet_id ∷ sv.effects })
    else none

-- HandlePacket for an item behind the test for key 0.
unfoldable pub handle_item : Odbc → ℕ → ℕ → ℕ × ℕ → DbServer → Option DbServer
handle_item db request key buffer sv =
    let added = add_item_for_job_start db request key buffer sv in
    if is_batch_job_waiting_job key sv
    then added
    else some (record sv { effects = prints_invalid_job request buffer.0 ∷ sv.effects })

-- HandlePacket goes on behind the procedure of a packet with key 0.
unfoldable pub before_item : Odbc → ℕ → ℕ → DbServer → Option DbServer
before_item db key packet_id sv =
    if key == 0 then procedure_handle_impl db packet_id sv else some sv

unfoldable pub handle_packet : Odbc → ℕ → Packet → DbServer → Option DbServer
handle_packet db request (batch_start key session size) sv =
    some (insert_batch_job key session size sv)
handle_packet db request (item key packet_id buffer) sv = elim (before_item db key packet_id sv) [
  | none ↦ none
  | some sv' ↦ handle_item db request key (packet_id, buffer) sv'
]
