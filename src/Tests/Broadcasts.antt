-- ===== src/Tests/Broadcasts.antt =====
-- A broadcast to a session that is sending.
use dding_game_server.Prelude.{
  ℕ, ◌≡◌, refl, sym, subst, ap, ◌∙◌, true, ◌&&◌, not, some, [], ◌∷◌, arith,
}
use dding_game_server.Prelude.Map
use dding_game_server.Prelude.SortedSet
use dding_game_server.Rio.Types.{Server, ok, err, io_sending}
use dding_game_server.Rio.Release.{
  get_session, add_io, drop_io, io_count_decrement, on_session_entered,
}
use dding_game_server.Rio.Send.{
  send_packet, send_post, send_post_loop, enqueue_packet, send_round, send_round_in, set_io_mode,
  make_send_stream, take_reserved, stream_loop, post_stream, rio_send, send_context,
  is_valid_packet_size, to_rsize,
}
use dding_game_server.Rio.Recv.{recv_post, recv_context}
use dding_game_server.Rio.Accept.{
  accept_socket, get_minimum_session_thread_id, minimum_loop, get_new_session, new_session,
  start_session, make_new_session, enter_session, join_thread, count_session,
}
use dding_game_server.Rio.Steps.{Reachable, steps, sends}
use dding_game_server.Rio.Broadcast.{braodcast_to_all_session}
use dding_game_server.Rio.Broadcast.Queues.{queued_if, braodcast_to_all_session-queued}
use dding_game_server.Tests.RioModel.{test_lib}
use dding_game_server.Tests.RioExamples.{one_session, one_session-Reachable, found}

-- The session's first packet is on its way.
abbrev sending : Server ⦃lib = test_lib⦄
sending = elim (send_packet ⦃lib = test_lib⦄ true (1 ∷ 2 ∷ []) 0 one_session) [
  | ok sv ↦ sv
  | err e ↦ one_session
]

sent : send_packet ⦃lib = test_lib⦄ true (1 ∷ 2 ∷ []) 0 one_session ≡ ok sending
unfolding accept_socket make_new_session get_minimum_session_thread_id minimum_loop get_new_session
    new_session start_session enter_session add_io recv_post recv_context join_thread
    io_count_decrement drop_io count_session on_session_entered Map.find Map.insert send_packet
    send_post send_post_loop enqueue_packet send_round send_round_in set_io_mode make_send_stream
    take_reserved stream_loop post_stream rio_send send_context is_valid_packet_size to_rsize
sent = refl

sending-Reachable : Reachable ⦃lib = test_lib⦄ sending
sending-Reachable =
    steps one_session sending one_session-Reachable
      (sends true (1 ∷ 2 ∷ []) 2 0 one_session sending found sent)

sending_lem :
    (sending.session_map ≡ (2, 0) ∷ [])
    × (sending.session_id_set ≡ 2 ∷ [])
    × ((sending.heap 0).send_item.io_mode ≡ io_sending)
unfolding accept_socket make_new_session get_minimum_session_thread_id minimum_loop get_new_session
    new_session start_session enter_session add_io recv_post recv_context join_thread
    io_count_decrement drop_io count_session on_session_entered Map.find Map.insert send_packet
    send_post send_post_loop enqueue_packet send_round send_round_in set_io_mode make_send_stream
    take_reserved stream_loop post_stream rio_send send_context is_valid_packet_size to_rsize
    SortedSet.insert
sending_lem = (refl, refl, refl)

one_entry : (id a : ℕ) → Map.find id ((2, 0) ∷ []) ≡ some a → a ≡ 0
unfolding Map.find
one_entry id a h = ground arith

one_busy :
    (id a : ℕ)
    → get_session ⦃lib = test_lib⦄ id sending ≡ some a
    → (sending.heap a).send_item.io_mode ≡ io_sending
unfolding get_session
one_busy id a h =
    let (entries, ids, mode) = sending_lem in
    let first : a ≡ 0 = one_entry id a (ap (Map.find id) (sym entries) ∙ h) in
    ap (λ b. (sending.heap b).send_item.io_mode) first ∙ mode

kept : get_session ⦃lib = test_lib⦄ 2 sending ≡ some 0
unfolding get_session Map.find
kept = ap (Map.find 2) sending_lem.0

broadcast_example :
    (sv' : Server ⦃lib = test_lib⦄) × (braodcast_to_all_session ⦃lib = test_lib⦄
        (λ id. true)
        (3 ∷ [])
        sending
      ≡ ok sv')
    × (sv'.posted ≡ sending.posted)
    × ((sv'.heap 0).send_item
        ≡ queued_if ⦃lib = test_lib⦄
            (3 ∷ [])
            (SortedSet.contains 2 sending.session_id_set
              && not (sending.heap 0).is_released_session)
            (sending.heap 0).send_item)
broadcast_example =
    braodcast_to_all_session-queued ⦃lib = test_lib⦄ (3 ∷ []) (λ id. true) sending 2 0
      sending-Reachable (subst SortedSet.IsIncreasing (sym sending_lem.1) tt) one_busy kept
