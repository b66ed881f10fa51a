-- ===== src/Rio/Send/Wedge.antt =====
-- A session whose send completes with nothing more to send.
use dding_game_server.Prelude.{ℕ, ◌≡◌, refl, ap, ◌∙◌, Bool, false, none, [], arith, length}
use dding_game_server.Rio.Types.{
  RioLib, Server, SendItem, ok, ◌>>=◌, io_sending, io_none_sending, IoPostError,
  invalid_send_buffer_size,
}
use dding_game_server.Rio.Send.{
  stream_loop, take_reserved, make_send_stream, set_io_mode, post_stream, returns, send_round,
  send_post_loop, send_post, enqueue_packet, send_packet,
}
use dding_game_server.Rio.Send.Rounds.{send_round_busy, send_round_idle, make_send_stream-none}
use dding_game_server.Rio.Recv.{Io}
use dding_game_server.Rio.Worker.{send_completed, send_io_completed}

module _ ⦃lib : RioLib⦄ where
  -- While a send is under way, or is taken to be, SendPacket only queues its packet.
  pub send_packet-busy :
      (sent : Bool) (p : lib.Packet) (a : ℕ) (sv : Server)
      → (sv.heap a).send_item.io_mode ≡ io_sending
      → send_packet sent p a sv ≡ ok (enqueue_packet p a sv)
  unfolding send_packet send_post send_post_loop enqueue_packet
  send_packet-busy sent p a sv busy =
      rw (send_round_busy sent a (enqueue_packet p a sv) still, send_post, send_post_loop) refl
    where
      still : ((enqueue_packet p a sv).heap a).send_item.io_mode ≡ io_sending
      still = ground arith

  nothing_to_send :
      (item : SendItem)
      → lib.contents item.send_queue ≡ []
      → item.reserved_buffer ≡ none
      → make_send_stream item ≡ ok (record { size = 0; item = item; written = [] })
  unfolding make_send_stream take_reserved stream_loop
  nothing_to_send item e n =
      make_send_stream-none item 0 n (lib.rest_size-contents item.send_queue ∙ ap length e)

  -- What a stream of no bytes leaves: the session stays in IO_SENDING and nothing is posted.
  empty_stream :
      (sent : Bool) (a : ℕ) (item : SendItem) (sv : Server)
      → item.io_mode ≡ io_sending
      → (sv' : Server) × (post_stream sent a (record { size = 0; item = item; written = [] }) sv
          ≡ returns invalid_send_buffer_size sv')
        × ((sv'.heap a).send_item.io_mode ≡ io_sending)
        × (sv'.posted ≡ sv.posted)
  unfolding post_stream
  empty_stream sent a item sv busy = (_, refl, ground arith, refl)

  set_busy_item :
      (a : ℕ) (sv : Server)
      → ((set_io_mode a io_sending sv).heap a).send_item
        ≡ record (sv.heap a).send_item { io_mode = io_sending }
  unfolding set_io_mode
  set_busy_item a sv = ground arith

  -- A round of SendPost with nothing to send takes the session to IO_SENDING and posts nothing.
  idle_round :
      (sent : Bool) (a : ℕ) (sv : Server)
      → (sv.heap a).send_item.io_mode ≡ io_none_sending
      → lib.contents (sv.heap a).send_item.send_queue ≡ []
      → (sv.heap a).send_item.reserved_buffer ≡ none
      → (sv' : Server) × (send_round sent a sv ≡ ok (returns invalid_send_buffer_size sv'))
        × ((sv'.heap a).send_item.io_mode ≡ io_sending)
        × (sv'.posted ≡ (set_io_mode a io_sending sv).posted)
  idle_round sent a sv idle empty none_reserved =
      let (sv', run, mode, posted) =
        empty_stream sent a (record (sv.heap a).send_item { io_mode = io_sending })
          (set_io_mode a io_sending sv) refl in
      (
        sv',
        send_round_idle sent a sv idle
            ∙ ap
                (λ item. make_send_stream item >>= λ st.
                  ok (post_stream sent a st (set_io_mode a io_sending sv)))
                (set_busy_item a sv)
            ∙ ap (λ m. m >>= λ st. ok (post_stream sent a st (set_io_mode a io_sending sv)))
                (nothing_to_send _ empty none_reserved)
            ∙ ap ok run,
        mode,
        posted,
      )

  send_post_returns :
      (sent : Bool) (a : ℕ) (sv t : Server) (e : IoPostError)
      → send_round sent a sv ≡ ok (returns e t)
      → send_post sent a sv ≡ ok (e, t)
  unfolding send_post send_post_loop
  send_post_returns sent a sv t e h = rw (h, send_post, send_post_loop) refl

  -- A send that completes for a session that is not to be disconnected, with no packet queued or
  -- reserved, makes SendPost return the error of an empty buffer: no request is posted, and the
  -- session stays in IO_SENDING.
  pub send_io_completed-wedge :
      (io : Io) (a : ℕ) (sv : Server)
      → (sv.heap a).send_disconnect ≡ false
      → lib.contents (sv.heap a).send_item.send_queue ≡ []
      → (sv.heap a).send_item.reserved_buffer ≡ none
      → (sv' : Server) × (send_io_completed io a sv ≡ ok (invalid_send_buffer_size, sv'))
        × ((sv'.heap a).send_item.io_mode ≡ io_sending)
        × (sv'.posted ≡ sv.posted)
  unfolding send_io_completed send_completed set_io_mode
  send_io_completed-wedge io a sv keeps empty none_reserved =
      let (sv', run, mode, posted) =
        idle_round io.send_ok a (set_io_mode a io_none_sending sv) (ground arith) (rw item empty)
          (rw item none_reserved) in
      (sv', completes _ kept ∙ send_post_returns _ _ _ _ _ run, mode, posted)
    where
      completes :
          (t : Server)
          → (t.heap a).send_disconnect ≡ false
          → send_completed io a t ≡ send_post io.send_ok a t
      completes t e = rw (e, send_completed) refl

      kept : ((set_io_mode a io_none_sending sv).heap a).send_disconnect ≡ false
      kept = ground arith

      item :
          ((set_io_mode a io_none_sending sv).heap a).send_item
          ≡ record (sv.heap a).send_item { io_mode = io_none_sending }
      item = ground arith
