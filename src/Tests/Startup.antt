-- ===== src/Tests/Startup.antt =====
-- The start and the end of the game server and of its channels, with two worker threads.
use dding_game_server.Prelude.{
  ℕ, ◌+◌, ◌≤◌, ◌≡◌, ◌↔◌, ◌⊎◌, refl, true, false, none, some, List, [], ◌∷◌, length, arith, All,
}
use dding_game_server.Rio.Accept.{Setup}
use dding_game_server.Rio.Steps.{started}
use dding_game_server.Rio.Start.{ServerOptions, Winsock, start_server, constructed}
use dding_game_server.Rio.Start.Started.{succeeds, start_server-started}
use dding_game_server.Rio.Start.Accepter.{Accepted, enters, interrupted, other_error}
use dding_game_server.Rio.Start.Threads.{
  Line, at_start, at_mark, in_loop, WorkerThread, Booting, run_threads, worker_line, run_line,
  wait_round, completed, queue_size, works, waits, starts as nothing_ran, steps as and_then,
  accepting-HasQueue,
}
use dding_game_server.Rio.Start.Threads as Threads
use dding_game_server.LanClient.Post.{Channel, recv_post}
use dding_game_server.LanClient.Reconnect.{fails, connects}
use dding_game_server.LanClient.Start.{
  ClientOptions, Started, Answers, started as channels, start, start_channels, start_channel,
  connect_attempts, open_connected, add_channel, and_channels, new_channel,
}
use dding_game_server.LanClient.Start.Channels.{AreOpen, start-AreOpen}
use dding_game_server.LanClient.Stop.{
  Workers, io, quits, nothing, stop, Steps, none_yet, more, turns, worker_turn, packets,
  stop-running,
}
use dding_game_server.Tests.RioModel.{test_lib}
use dding_game_server.Tests.Servers.{lan}

abbrev two_threads : ServerOptions
two_threads = record {
  num_of_worker_thread = 2;
  nagle_on = true;
  port = 10001;
  max_client_count = 100;
  header_code = 119;
  xor_code = 50;
}

abbrev all_well : Winsock
all_well = record {
  started_up = true;
  made_socket = true;
  bound = true;
  listens = true;
  set_no_delay = true;
  set_linger = true;
  got_function_table = true;
}

started_example :
    let r =
      start_server ⦃lib = test_lib⦄ all_well (some two_threads) (constructed ⦃lib = test_lib⦄) in
    ((r.0 ≡ none) ↔ (succeeds all_well two_threads ≡ true))
    × ((r ≡ (none, started ⦃lib = test_lib⦄ 2 100)) ↔ (succeeds all_well two_threads ≡ true))
started_example = start_server-started ⦃lib = test_lib⦄ all_well two_threads

abbrev fine : Setup
fine = record { queue_ok = true; receive_ok = true }

abbrev answers : List Accepted
answers = enters fine 7 ∷ other_error ∷ enters fine 8 ∷ interrupted ∷ []

-- A worker behind the first of its lines, and behind the second.
abbrev at_first : WorkerThread
at_first = record { line = at_start; queue = none; made = false; is_on = false }

abbrev with_queue : WorkerThread
with_queue = record { line = at_mark; queue = some 819200; made = true; is_on = false }

abbrev in_its_loop : WorkerThread
in_its_loop = record { line = in_loop; queue = some 819200; made = true; is_on = true }

abbrev both : WorkerThread → WorkerThread → Booting
both t u = record { worker_threads = t ∷ u ∷ []; accepting = false }

-- The second worker comes up first.
one_up : Threads.Reachable 2 (queue_size 100 2) (both at_first in_its_loop)
unfolding queue_size worker_line run_line
one_up =
    Threads.steps (both at_first with_queue) (both at_first in_its_loop)
      (Threads.steps (both at_first at_first) (both at_first with_queue) Threads.starts
        (works true (both at_first at_first) at_first (at_first ∷ []) [] refl))
      (works true (both at_first with_queue) with_queue (at_first ∷ []) [] refl)

up :
    Threads.Reachable 2
      (queue_size 100 2)
      (record { worker_threads = in_its_loop ∷ in_its_loop ∷ []; accepting = true })
unfolding queue_size worker_line run_line wait_round completed
up =
    Threads.steps (both in_its_loop in_its_loop) _
      (Threads.steps (both with_queue in_its_loop) (both in_its_loop in_its_loop)
        (Threads.steps (both at_first in_its_loop) (both with_queue in_its_loop) one_up
          (works true (both at_first in_its_loop) at_first [] (in_its_loop ∷ []) refl))
        (works true (both with_queue in_its_loop) with_queue [] (in_its_loop ∷ []) refl))
      (waits (both in_its_loop in_its_loop))

queue_example :
    (length (in_its_loop ∷ in_its_loop ∷ []) ≡ 2)
    × All (λ t. t.queue ≡ some (queue_size 100 2)) (in_its_loop ∷ in_its_loop ∷ [])
queue_example =
    accepting-HasQueue 2 100
      (record { worker_threads = in_its_loop ∷ in_its_loop ∷ []; accepting = true }) up refl

-- Two channels, the first of which is tried twice.
abbrev two_channels : ClientOptions
two_channels = record {
  server_ip = [];
  server_port = 10001;
  num_of_worker_thread = 2;
  num_of_using_worker_thread = 2;
  nagle_on = 1;
  reconnect = 1;
  num_of_session = 2;
}

abbrev at_second_try : ℕ → Answers
at_second_try id = record {
  socket_made = true;
  attempts = fails ∷ connects ∷ [];
  option_set = true;
  received = true;
}

abbrev channels_of : Started (List (Channel ⦃lib = lan⦄)) → List (Channel ⦃lib = lan⦄)
channels_of (channels cs) = cs
channels_of _ = []

abbrev opened : List (Channel ⦃lib = lan⦄)
opened = channels_of (start ⦃lib = lan⦄ true true at_second_try [] (some two_channels))

both_start : start ⦃lib = lan⦄ true true at_second_try [] (some two_channels) ≡ channels opened
unfolding start start_channels start_channel connect_attempts open_connected add_channel
    and_channels new_channel recv_post
both_start = refl

start_example : (length opened ≡ 2) × AreOpen ⦃lib = lan⦄ 0 opened
start_example =
    start-AreOpen ⦃lib = lan⦄ true true at_second_try [] two_channels opened refl (λ id. refl)
      both_start

-- Two workers, and a request that completes before Stop. One worker takes the packet of Stop, and
-- the other one what the first has posted.
abbrev two_workers : Workers
two_workers = record { running = 2; port = io ∷ []; crashed = false }

crash : Steps (stop two_workers) (record { running = 1; port = []; crashed = true })
unfolding stop worker_turn
crash =
    more (stop two_workers) (record { running = 1; port = nothing ∷ []; crashed = false }) _
      (more (stop two_workers) (record { running = 2; port = quits ∷ []; crashed = false }) _
        (more (stop two_workers) (stop two_workers) _ (none_yet (stop two_workers))
          (turns 1 io (quits ∷ []) (stop two_workers) refl refl refl))
        (turns 1 quits [] (record { running = 2; port = quits ∷ []; crashed = false }) refl refl
          refl))
      (turns 0 nothing [] (record { running = 1; port = nothing ∷ []; crashed = false }) refl refl
        refl)

no_packets : packets two_workers.port ≡ 0
unfolding packets
no_packets = omega arith

stop_example : (2 ≤ 1 + 1) × ((true ≡ true) ⊎ ((true ≡ false) × (packets [] ≡ 1)))
stop_example =
    stop-running two_workers (record { running = 1; port = []; crashed = true }) no_packets refl
      crash
