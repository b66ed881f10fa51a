-- ===== src/Rio/Counting/Recv.antt =====
-- Receiving keeps the counts right: the frames' handlers, and the next receive.
use dding_game_server.Prelude.{
  ℕ, zero, suc, ◌+◌, ◌<◌, ◌≡◌, refl, Bool, true, false, inl, inr, List, [], ◌∷◌, ◌==◌, ltb,
  if◌then◌else◌, arith, Bool-cases, ltb→lt,
}
use dding_game_server.Rio.Types.{RioLib, Server, IoContext, Result, Ends, Ends-bind, op_recv}
use dding_game_server.Rio.Release.{add_io, release_session}
use dding_game_server.Rio.Recv.{
  Io, Frame, waits, is_broken, packet, Action, HandledPacket, returns, throws, sends,
  sends_and_disconnects, disconnects, next_frame, decode_frame, act, act_all, handle_recv_packet,
  set_recv_buffer, take_frame, recv_loop, recv_context, recv_post, advance_offset, recv_completed,
}
use dding_game_server.Rio.Worker.{gives_up}
use dding_game_server.Rio.Counting.Defs.{Running, recv_out, send_out, recv_one, send_one, is_recv}
use dding_game_server.Rio.Counting.Running.{
  touch-Running, add_io-Running, disconnect-Running, release_session-Running,
}
use dding_game_server.Rio.Counting.Send.{send_packet-Running, send_packet_and_disconnect-Running}

module _ ⦃lib : RioLib⦄ where
  act-Running :
      (sent : Bool) (x : Action) (me k a r : ℕ) (sv : Server)
      → k < 8
      → Running me k a r sv
      → Ends (Running me k a r) (act sent a x sv)
  unfolding act
  act-Running sent (sends p) me k a r sv small run =
      send_packet-Running sent p me k a r sv small run
  act-Running sent (sends_and_disconnects p) me k a r sv small run =
      send_packet_and_disconnect-Running sent p me k a r sv small run
  act-Running sent disconnects me k a r sv small run = disconnect-Running me k a r _ sv run

  act_all-Running :
      (sent : Bool) (xs : List Action) (me k a r : ℕ) (sv : Server)
      → k < 8
      → Running me k a r sv
      → Ends (Running me k a r) (act_all sent a xs sv)
  unfolding act_all
  act_all-Running sent [] me k a r sv small run = run
  act_all-Running sent (x ∷ xs) me k a r sv small run =
      Ends-bind _ _ (act sent a x sv) _ (act-Running sent x me k a r sv small run)
        (λ sv' h. act_all-Running sent xs me k a r sv' small h)

  handle_recv_packet-Running :
      (sent : Bool) (h : HandledPacket) (me k a r : ℕ) (sv : Server)
      → k < 8
      → Running me k a r sv
      → Ends (Running me k a r) (handle_recv_packet sent a h sv)
  unfolding handle_recv_packet
  handle_recv_packet-Running sent (returns xs) me k a r sv small run =
      act_all-Running sent xs me k a r sv small run
  handle_recv_packet-Running sent (throws xs) me k a r sv small run =
      Ends-bind _ _ (act_all sent a xs sv) _ (act_all-Running sent xs me k a r sv small run)
        (λ sv' h. tt)

  -- A packet takes its header, and so at least one byte, off the rest.
  pub next_frame-lt :
      (ring : lib.Ring) (rest : ℕ) (p : lib.Packet)
      → lib.header_size < rest
      → (next_frame ring rest).0 ≡ packet p
      → (next_frame ring rest).2 < rest
  unfolding next_frame decode_frame
  next_frame-lt ring rest p h e = ground (arith, lib.header_size_pos)

  module _ (handle : lib.Packet → HandledPacket) (sent : Bool) (me k a r : ℕ) (small : k < 8) where
    take_frame-Running :
        (frame : Frame lib.Packet) (next : Server → Result (Bool × Server)) (sv : Server)
        → Running me k a r sv
        → ((p : lib.Packet) (t : Server)
            → frame ≡ packet p
            → Running me k a r t
            → Ends (λ (bad, sv'). Running me k a r sv') (next t))
        → Ends (λ (bad, sv'). Running me k a r sv') (take_frame handle sent a frame next sv)
    unfolding take_frame
    take_frame-Running waits next sv run go = run
    take_frame-Running is_broken next sv run go = run
    take_frame-Running (packet p) next sv run go =
        Ends-bind _ _ (handle_recv_packet sent a (handle p) sv) _
          (handle_recv_packet-Running sent (handle p) me k a r sv small run) (λ t h. go p t refl h)

    -- The loop has fuel enough if it starts with more than the bytes that are left.
    recv_loop-Running :
        (fuel rest : ℕ) (sv : Server)
        → rest < fuel
        → Running me k a r sv
        → Ends (λ (bad, sv'). Running me k a r sv') (recv_loop handle sent a fuel rest sv)
    unfolding recv_loop set_recv_buffer
    recv_loop-Running zero rest sv h run = elim h [ ]
    recv_loop-Running (suc fuel) rest sv h run = elim (Bool-cases (ltb lib.header_size rest)) [
      | inl e ↦ rw e (
          take_frame-Running _ _ _ (touch-Running me k a r _ sv run refl refl refl) (λ p t f run'.
            recv_loop-Running fuel _ t (omega (arith, next_frame-lt _ rest p (ltb→lt _ _ e) f))
              run'))
      | inr e ↦ rw e run
    ]

  -- The kernel takes a receive of a session that has none under way.
  pub post_recv-Running :
      (me k a : ℕ) (c : IoContext) (sv : Server)
      → Running me (k + 1) a 0 sv
      → c.owner_session_id ≡ me
      → c.io_type ≡ op_recv
      → Running me k a 1 (record sv { posted = c ∷ sv.posted })
  unfolding recv_out send_out recv_one send_one is_recv
  post_recv-Running me k a c sv run owner type = record {
    counts = record {
      sound = λ id b h. elim (Bool-cases (id == me)) [
        | inl e ↦ ground (arith, run.counts.sound id b h, run.owns.only b, run.receives)
        | inr e ↦ ground (arith, run.counts.sound id b h)
      ];
      placed = run.counts.placed;
      young = run.counts.young;
      owners = λ id h. ground (arith, run.counts.owners id h, run.known);
    };
    owns = record { named = run.owns.named; only = run.owns.only };
    known = run.known;
    receives = ground (arith, run.receives);
  }

  -- RecvPost, whether the kernel takes the receive or not.
  pub recv_post-Running :
      (taken : Bool) (me k a : ℕ) (sv : Server)
      → k < 8
      → Running me k a 0 sv
      → (r : ℕ) × Running me k a r (recv_post taken a sv).1
  unfolding recv_post add_io recv_context
  recv_post-Running true me k a sv small run = (
    1,
    post_recv-Running me k a _ _ (add_io-Running me k a 0 sv (omega arith) run) run.owns.named refl,
  )
  recv_post-Running false me k a sv small run = (0, run)

  recv_post-gives_up :
      (taken : Bool) (a : ℕ) (sv : Server) → gives_up (recv_post taken a sv).0 ≡ true
  unfolding recv_post gives_up
  recv_post-gives_up true a sv = refl
  recv_post-gives_up false a sv = refl

  release_if-Running :
      (bad : Bool) (me k a : ℕ) (sv : Server)
      → ((r : ℕ) × Running me k a r sv)
      → (r : ℕ) × Running me k a r (if bad then release_session a sv else sv)
  release_if-Running true me k a sv (r, run) = (r, release_session-Running me k k a r sv run)
  release_if-Running false me k a sv run = run

  -- A completed receive, with its count still held, ends in a server whose counts are right.
  pub recv_completed-Running :
      (handle : lib.Packet → HandledPacket) (io : Io) (me k a : ℕ) (bytes : List ℕ) (sv : Server)
      → k < 8
      → Running me k a 0 sv
      → Ends
          (λ (e, sv'). ((r : ℕ) × Running me k a r sv') × (gives_up e ≡ true))
          (recv_completed handle io a bytes sv)
  unfolding recv_completed set_recv_buffer advance_offset
  recv_completed-Running handle io me k a bytes sv small run =
      Ends-bind _ _ (recv_loop handle io.send_ok a _ _ _) _
        (recv_loop-Running handle io.send_ok me k a 0 small _ _ _ (omega arith)
          (touch-Running me k a 0 _ sv run refl refl refl))
        λ (bad, sv') h. (
          release_if-Running bad me k a _ (
              recv_post-Running io.receive_ok me k a _ small
                (touch-Running me k a 0 _ sv' h refl refl refl)),
          recv_post-gives_up io.receive_ok a _,
        )
