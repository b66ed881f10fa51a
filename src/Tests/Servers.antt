-- ===== src/Tests/Servers.antt =====
-- The theorems on the servers' tables and on a channel at small states of theirs.
use dding_game_server.Prelude.{
  ◌-◌, ◌⊎◌, ℕ, ◌+◌, ◌≤◌, ◌≡◌, refl, ap, true, false, Option, none, some, List, [], ◌∷◌, ◌++◌, arith,
  length, take, drop, leb, if◌then◌else◌,
}
use dding_game_server.Prelude.Map
use dding_game_server.LanClient.Post.{
  LanLib, Channel, PostRetval, complete, send_packet, send_post, post_batch, dequeue_all,
  batch_size, wsa_send,
}
use dding_game_server.LanClient.Order.{Flow, opens, queues, closes, Flow-order}
use dding_game_server.LanClient.Order.Batches.{sent_all}
use dding_game_server.LanClient.Receive.{recv_completed}
use dding_game_server.Core.DbJobs.{
  DbJobManager, BatchedDbJob, make_batched_db_job, get_registed_db_job, assemble_packet,
  register_db_job, new_batch, get_db_job_key,
}
use dding_game_server.Core.DbJobs.Keys.{
  Reachable, starts, steps, makes, no_jobs, assemble_packet-own_key,
}
use dding_game_server.DbServer.Batches.{
  DbServer, BatchedDbJob as Batch, Odbc, item, handle_packet, is_batch_job_waiting_job,
  prints_invalid_job,
}
use dding_game_server.DbServer.Waiting.{IsFresh, handle_packet-lost}

abbrev front : List ℕ → Option (ℕ × List ℕ)
front [] = none
front (b ∷ bs) = some (b, bs)

abbrev first : List ℕ → ℕ
first [] = 0
first (b ∷ bs) = b

abbrev pub lan : LanLib
lan = record {
  Buffer = ℕ;
  seal = λ b. b + 100;
  Queue = List ℕ;
  empty_queue = [];
  enqueue = λ b q. q ++ b ∷ [];
  dequeue = front;
  rest_size = length;
  contents = λ q. q;
  Ring = List ℕ;
  is_full = λ r. leb 16 (length r);
  unread = λ r. r;
  receive = λ bs r. r ++ bs;
  free_size = λ r. 1024 - length r;
  use_size = length;
  peek = take;
  remove_data = drop;
  ring_dequeue = λ n r. (take n r, drop n r);
  header_size = 2;
  payload_length = first;
  contents-empty_queue = refl;
  contents-enqueue = λ b q. refl;
  rest_size-contents = λ q. refl;
  dequeue-cons = λ q b bs e. (bs, ap front e, refl);
  unread-receive = λ bs r h. refl;
  use_size-unread = λ r. refl;
  peek-unread = λ n r. refl;
  unread-remove_data = λ n r. refl;
  ring_dequeue-bytes = λ n r. refl;
  unread-ring_dequeue = λ n r. refl;
}

abbrev pub open_channel : Channel ⦃lib = lan⦄
open_channel = record {
  is_connect = true;
  io_count = 1;
  session_id = 0;
  ring = [];
  sending = false;
  store = [];
  send_q = [];
  is_reconnect = true;
  session_reconnect_id_list = [];
  events = [];
}

open_channel-Flow : Flow ⦃lib = lan⦄ true open_channel []
open_channel-Flow = opens open_channel refl refl refl

abbrev posted : Option (PostRetval × Channel ⦃lib = lan⦄) → Channel ⦃lib = lan⦄
posted none = open_channel
posted (some p) = p.1

abbrev sent_one : Channel ⦃lib = lan⦄
sent_one = posted (send_packet ⦃lib = lan⦄ true 7 open_channel)

sent_one-Flow : Flow ⦃lib = lan⦄ true sent_one (107 ∷ [])
unfolding send_packet send_post post_batch dequeue_all batch_size wsa_send
sent_one-Flow = queues true 7 [] complete open_channel sent_one open_channel-Flow refl refl

-- The other side closes while the send is under way.
abbrev closed_one : Channel ⦃lib = lan⦄
closed_one = elim (recv_completed ⦃lib = lan⦄ true [] sent_one) [ none ↦ sent_one | some c ↦ c ]

closed_one-Flow : Flow ⦃lib = lan⦄ false closed_one (107 ∷ [])
unfolding send_packet send_post post_batch dequeue_all batch_size wsa_send recv_completed
closed_one-Flow = closes true (107 ∷ []) sent_one closed_one sent_one-Flow refl

flow_example :
    (sent_all ⦃lib = lan⦄ closed_one.events ++ closed_one.send_q ≡ 107 ∷ [])
    × ((closed_one.sending ≡ true) ⊎ (sent_all ⦃lib = lan⦄ closed_one.events ≡ 107 ∷ []))
    × (closed_one.io_count ≡ (if false then 1 else 0) + (if closed_one.sending then 1 else 0))
flow_example = Flow-order ⦃lib = lan⦄ false closed_one (107 ∷ []) closed_one-Flow

-- The manager with one batch, at address 5.
abbrev one_batch : DbJobManager
one_batch = make_batched_db_job 5 9 no_jobs

one_batch-Reachable : Reachable one_batch
one_batch-Reachable = steps no_jobs one_batch starts (makes 5 9 no_jobs (omega arith))

abbrev batch : BatchedDbJob
batch = record { job_list = []; owner = 9; db_job_key = 1 }

batch_there : Map.find 5 one_batch.batches ≡ some batch
unfolding make_batched_db_job register_db_job new_batch get_db_job_key Map.find Map.put
batch_there = refl

own_key_example :
    (get_registed_db_job 1 one_batch ≡ none) × (assemble_packet 1 true one_batch ≡ []) × (0 ≤ 16)
own_key_example = assemble_packet-own_key one_batch 5 batch true one_batch-Reachable batch_there

abbrev db : Odbc
db = record { connected = true; switched = true; ended = true }

abbrev two_jobs : Batch
two_jobs = record { batch_size = 2; session_id = 8; buffer_list = [] }

abbrev waiting : DbServer
waiting = record { batched_db_job_map = (6, two_jobs) ∷ []; effects = [] }

waiting-IsFresh : IsFresh waiting
unfolding IsFresh Map.find
waiting-IsFresh key b f = ground arith

waiting_there : Map.find 6 waiting.batched_db_job_map ≡ some two_jobs
unfolding Map.find
waiting_there = refl

lost_example :
    (sv : DbServer) × (handle_packet db 1 (item 6 40 50) waiting ≡ some sv)
    × (sv.effects ≡ [])
    × (is_batch_job_waiting_job 6 sv ≡ false)
    × (handle_packet db 1 (item 6 41 51) sv
        ≡ some (record sv { effects = prints_invalid_job 1 41 ∷ sv.effects }))
lost_example =
    handle_packet-lost db 1 6 40 50 41 51 two_jobs waiting (λ e. omega (arith, e)) waiting-IsFresh
      waiting_there (λ e. omega (arith, e))
