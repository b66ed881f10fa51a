-- ===== src/Tests/RioExamples.antt =====
-- The theorems on the sessions at a server with one session that receives.
use dding_game_server.Prelude.{
  false, ℕ, ◌+◌, ◌≤◌, ◌≡◌, refl, true, none, some, List, [], ◌∷◌, replicate, arith,
}
use dding_game_server.Rio.Types.{
  Server, SendItem, Copy, ok, err, invalid_parameter, max_send_buffer_size, op_recv, io_sending,
  invalid_send_buffer_size,
}
use dding_game_server.Prelude.Map
use dding_game_server.Rio.Release.{
  get_session, add_io, drop_io, io_count_decrement, on_session_entered,
}
use dding_game_server.Rio.Send.{Stream, make_send_stream, to_rsize}
use dding_game_server.Rio.Recv.{Io, HandledPacket, returns, recv_post, recv_context}
use dding_game_server.Rio.Accept.{
  Setup, accept_socket, get_minimum_session_thread_id, minimum_loop, get_new_session, new_session,
  start_session, make_new_session, enter_session, join_thread, count_session,
}
use dding_game_server.Rio.Worker.{RioResult, send_io_completed}
use dding_game_server.Rio.Steps.{started, Reachable, starts, steps, accepts}
use dding_game_server.Rio.Counting.Defs.{recv_out, send_out}
use dding_game_server.Rio.Counting.Reachable.{io_count_lem}
use dding_game_server.Prelude.SortedSet
use dding_game_server.Rio.Accept.Ghost.{enter_session-ghost}
use dding_game_server.Rio.Recv.Framing.{IsFrame}
use dding_game_server.Rio.Send.Streams.{
  make_send_stream-copies, make_send_stream-outside, make_send_stream-single, total_size,
  packet_copies, Inside,
}
use dding_game_server.Rio.Send.Wedge.{send_io_completed-wedge}
use dding_game_server.Tests.RioModel.{test_lib}

abbrev fine : Setup
fine = record { queue_ok = true; receive_ok = true }

-- Two worker threads, and the socket 7 accepted.
abbrev pub before : Server ⦃lib = test_lib⦄
before = started ⦃lib = test_lib⦄ 2 100

abbrev pub one_session : Server ⦃lib = test_lib⦄
one_session = accept_socket ⦃lib = test_lib⦄ fine 7 before

pub one_session-Reachable : Reachable ⦃lib = test_lib⦄ one_session
one_session-Reachable =
    steps before one_session (starts 2 100) (accepts fine 7 before (omega arith))

pub found : get_session ⦃lib = test_lib⦄ 2 one_session ≡ some 0
unfolding get_session accept_socket make_new_session get_minimum_session_thread_id minimum_loop
    get_new_session new_session start_session enter_session add_io recv_post recv_context
    join_thread io_count_decrement drop_io count_session on_session_entered Map.find Map.insert
found = refl

io_count_example :
    ((one_session.heap 0).io_count ≡ recv_out 2 one_session.posted + send_out 2 one_session.posted)
    × (1 ≤ (one_session.heap 0).io_count)
    × (recv_out 2 one_session.posted ≤ 1)
    × (send_out 2 one_session.posted ≤ 1)
    × ((one_session.heap 0).session_id ≡ 2)
io_count_example = io_count_lem ⦃lib = test_lib⦄ one_session 2 0 one_session-Reachable found

-- The kernel's one receive, completed with no bytes.
abbrev gone : RioResult
gone = record {
  context = record {
    owner_session_id = 2;
    io_type = op_recv;
    buffer_length = 8192;
    buffer_offset = 0;
  };
  transferred = 0;
  bytes = [];
}

abbrev quiet : List ℕ → HandledPacket ⦃lib = test_lib⦄
quiet p = returns []

abbrev answers : Io
answers = record { receive_ok = true; send_ok = true }

abbrev pub three_bytes : IsFrame ⦃lib = test_lib⦄ (119 ∷ 3 ∷ []) (10 ∷ 20 ∷ 30 ∷ [])
three_bytes = record { sized = refl; announced = refl; filled = omega arith; bounded = omega arith }

abbrev two_packets : SendItem ⦃lib = test_lib⦄
two_packets = record {
  send_queue = (1 ∷ 2 ∷ []) ∷ (3 ∷ []) ∷ [];
  reserved_buffer = none;
  io_mode = io_sending;
}

room_two : 2 ≤ to_rsize max_send_buffer_size (0 + 2) 2
unfolding to_rsize
room_two = omega arith

room_one : 1 ≤ to_rsize max_send_buffer_size (0 + 2 + 1) 1
unfolding to_rsize
room_one = omega arith

stream_example :
    (st : Stream ⦃lib = test_lib⦄) × (make_send_stream ⦃lib = test_lib⦄ two_packets ≡ ok st)
    × (st.size ≡ total_size ⦃lib = test_lib⦄ 0 two_packets.send_queue)
    × (st.written ≡ packet_copies ⦃lib = test_lib⦄ 0 two_packets.send_queue)
    × (st.item.send_queue ≡ [])
    × (st.item.reserved_buffer ≡ none)
stream_example =
    make_send_stream-copies ⦃lib = test_lib⦄ two_packets two_packets.send_queue refl refl
      (omega arith, room_two, (omega arith, room_one, tt))

outside_example :
    (st : Stream ⦃lib = test_lib⦄) × (make_send_stream ⦃lib = test_lib⦄ two_packets ≡ ok st)
    × ((first : Copy) × (second : Copy) × (st.written ≡ first ∷ second ∷ [])
        × (second.bytes ≡ 3 ∷ [])
        × (Inside ⦃lib = test_lib⦄ second → ⊥))
outside_example =
    make_send_stream-outside ⦃lib = test_lib⦄ two_packets (1 ∷ 2 ∷ []) (3 ∷ []) refl refl
      (omega arith) (omega arith) (omega arith)

-- Packets of eight kilobytes, a length that memcpy_s does not get room for.
abbrev eight_thousand : SendItem ⦃lib = test_lib⦄
eight_thousand = record two_packets { send_queue = replicate 8000 1 ∷ [] }

single_example :
    (q : List (List ℕ)) × (q ≡ [])
    × (make_send_stream ⦃lib = test_lib⦄ eight_thousand ≡ err invalid_parameter)
single_example =
    make_send_stream-single ⦃lib = test_lib⦄ eight_thousand (replicate 8000 1) refl refl
      (omega arith)

wedge_example :
    (sv' : Server ⦃lib = test_lib⦄) × (send_io_completed ⦃lib = test_lib⦄ answers 0 before
      ≡ ok (invalid_send_buffer_size, sv'))
    × ((sv'.heap 0).send_item.io_mode ≡ io_sending)
    × (sv'.posted ≡ [])
unfolding new_session
wedge_example = send_io_completed-wedge ⦃lib = test_lib⦄ answers 0 before refl refl refl

abbrev one_count : Server ⦃lib = test_lib⦄
one_count = record before { heap = λ a. record (before.heap a) { session_id = 5; io_count = 1 } }

ghost_example :
    let out = enter_session ⦃lib = test_lib⦄ false 0 one_count in
    (out.0 ≡ true)
    × (Map.find 5 out.1.session_map ≡ none)
    × (SortedSet.contains 5 out.1.session_id_set ≡ true)
unfolding Map.find
ghost_example = enter_session-ghost ⦃lib = test_lib⦄ 0 one_count refl refl
