-- ===== src/Rio/Accept.antt =====
-- RIOServer::GetMinimumSessionThreadId, GetSessionRationInThisThread, CheckRebalancingSession,
-- GetNewSession, MakeNewSession, and one round of Accepter.
pub mod Balance
pub mod Ghost
use dding_game_server.Prelude.{
  ℕ, ◌+◌, ◌*◌, ◌/◌, ◌%◌, ◌^◌, Bool, true, false, Option, none, some, List, [], ◌∷◌, ltb, ◌==◌,
  if◌then◌else◌, set, get_or,
}
use dding_game_server.Prelude.Map
use dding_game_server.Prelude.Word.{inc32, inc64, u32}
use dding_game_server.Rio.Types.{
  RioLib, Session, Server, Effect, closes_socket, enters, io_none_sending, invalid_session_id,
}
use dding_game_server.Rio.Release.{
  write, emit, add_io, io_count_decrement, release_session, on_session_entered,
}
use dding_game_server.Rio.Recv.{Io, recv_post}

-- The loop over the worker threads from `i` on: the first idle one, or the least loaded so far.
unfoldable pub minimum_loop : List ℕ → ℕ → ℕ → ℕ → ℕ
minimum_loop [] i target minimum = target
minimum_loop (n ∷ ns) i target minimum =
    let lower = minimum_loop ns (i + 1) i n in
    let higher = minimum_loop ns (i + 1) target minimum in
    if n == 0 then i else if ltb n minimum then lower else higher

-- A sum of UINTs.
unfoldable pub count_loop : ℕ → List ℕ → ℕ
count_loop count [] = count
count_loop count (n ∷ ns) = count_loop ((count + n) % u32) ns

-- The quotient of UINTs before the cast to float; `none` for a division by 0.
unfoldable pub session_ratio : ℕ → List ℕ → Option ℕ
session_ratio t counts =
    let mine = get_or counts t 0 in if mine == 0 then none else some (count_loop 0 counts / mine)

unfoldable pub check_rebalancing : ℕ → List ℕ → Option Bool
check_rebalancing t counts = elim (session_ratio t counts) [
  | none ↦ none
  | some r ↦ some (ltb 50 r)
]

-- What the operating system answers while a session is made.
pub record Setup : Type 0 where
  -- RIOCreateRequestQueue
  pub queue_ok : Bool
  pub receive_ok : Bool

module _ ⦃lib : RioLib⦄ where
  unfoldable pub get_minimum_session_thread_id : Server → ℕ
  get_minimum_session_thread_id sv =
      minimum_loop sv.num_of_session_in_worker_thread 0 0 sv.max_client_count

  unfoldable pub new_session : ℕ → ℕ → ℕ → Session
  new_session socket id thread = record {
    socket = socket;
    session_id = id;
    send_disconnect = false;
    io_cancle = false;
    is_released_session = false;
    thread_id = thread;
    io_count = 0;
    recv_buffer = lib.empty_ring;
    send_item = record {
      send_queue = lib.empty_queue;
      reserved_buffer = none;
      io_mode = io_none_sending;
    };
    rio_recv_offset = 0;
  }

  -- The address of the new session, if there is one. `nextSessionId` moves on in either case.
  unfoldable pub get_new_session : ℕ → ℕ → Server → Option ℕ × Server
  get_new_session socket thread sv =
      let id = inc64 sv.next_session_id in
      let sv' = record sv { next_session_id = id } in
      let a = sv.next_address in
      if id == invalid_session_id
      then (none, sv')
      else (some a, record (write a (new_session socket id thread) sv') { next_address = a + 1 })

  -- `++numOfSessionInWorkerThread[threadId]`
  unfoldable pub join_thread : ℕ → List ℕ → List ℕ
  join_thread t counts = set counts t (inc32 (get_or counts t 0))

  -- MakeNewSession behind InitSession: into the map, and the first receive.
  unfoldable pub enter_session : Bool → ℕ → Server → Bool × Server
  enter_session taken a sv =
      let s = sv.heap a in
      let joined = record sv {
        num_of_session_in_worker_thread =
            join_thread s.thread_id sv.num_of_session_in_worker_thread;
      } in
      let entered = record joined { session_map = Map.insert s.session_id a sv.session_map } in
      let posted = io_count_decrement a (recv_post taken a entered).1 in
      elim (Map.find s.session_id sv.session_map) [
        | some _ ↦ (false, release_session a (io_count_decrement a joined))
        | none ↦ (true, emit (enters s.session_id) (on_session_entered s.session_id posted))
      ]

  -- MakeNewSession from InitSession on, if GetNewSession made an object.
  unfoldable pub start_session : Setup → Option ℕ × Server → Bool × Server
  start_session os (none, sv) = (false, sv)
  start_session os (some a, sv) =
      if os.queue_ok then enter_session os.receive_ok a (add_io a sv) else (false, add_io a sv)

  unfoldable pub make_new_session : Setup → ℕ → Server → Bool × Server
  make_new_session os socket sv =
      start_session os (get_new_session socket (get_minimum_session_thread_id sv) sv)

  -- Accepter counts the session that was made, or closes the socket.
  unfoldable pub count_session : ℕ → Bool × Server → Server
  count_session socket (true, sv) = record sv { session_count = inc32 sv.session_count }
  count_session socket (false, sv) = emit (closes_socket socket) sv

  -- What Accepter does with a socket that `accept` returned.
  unfoldable pub accept_socket : Setup → ℕ → Server → Server
  accept_socket os socket sv = count_session socket (make_new_session os socket sv)
