-- ===== src/Rio/Counting/Send.antt =====
-- Sending keeps the counts right, and a second send is never handed to the kernel.
use dding_game_server.Prelude.{
  ℕ, zero, suc, ◌+◌, ◌≤◌, ◌<◌, ◌≡◌, refl, sym, ◌∙◌, ap, Bool, true, false, inl, inr, some, List, [],
  ◌∷◌, ◌==◌, leb, ltb, arith, Bool-cases, Option-cases, length,
}
use dding_game_server.Prelude.Map
use dding_game_server.Rio.Types.{
  RioLib, Server, SendItem, IoContext, ok, Ends, Ends-bind, io_sending, io_none_sending, op_send,
  copies, max_send_buffer_size,
}
use dding_game_server.Rio.Release.{write, emit, add_io}
use dding_game_server.Rio.Send.{
  Stream, stream_loop, take_reserved, make_send_stream, set_io_mode, Round, returns, continues,
  rio_send, send_context, post_stream, send_round, send_post_loop, send_post, enqueue_packet,
  send_packet, send_packet_and_disconnect, is_valid_packet_size, to_rsize,
}
use dding_game_server.Rio.Send.Rounds.{IoMode-cases, send_round_busy, send_round_idle}
use dding_game_server.Rio.Worker.{gives_up}
use dding_game_server.Rio.Counting.Defs.{Running, recv_out, send_out, recv_one, send_one, is_recv}
use dding_game_server.Rio.Counting.Running.{
  write-Running, touch-Running, emit-Running, add_io-Running, io_count_decrement-Running,
}

module _ ⦃lib : RioLib⦄ where
  -- A queue that holds something gives up its oldest packet.
  dequeue_some :
      (q : lib.Queue) (ps : List lib.Packet)
      → lib.contents q ≡ ps
      → 1 ≤ length ps
      → (p : lib.Packet) × (q' : lib.Queue) × (lib.dequeue q ≡ some (p, q'))
        × (length (lib.contents q') + 1 ≡ length ps)
  dequeue_some q [] e h = absurd (omega arith)
  dequeue_some q (p ∷ ps) e h =
      let (q', deq, rest) = lib.dequeue-cons q p ps e in (p, q', deq, omega (arith, ap length rest))

  -- As many rounds as the queue holds packets: none finds it empty.
  pub stream_loop-Ends :
      (i : ℕ) (st : Stream)
      → i ≤ length (lib.contents st.item.send_queue)
      → Ends (λ st'. st'.item.io_mode ≡ st.item.io_mode) (stream_loop i st)
  unfolding stream_loop
  stream_loop-Ends zero st h = refl
  stream_loop-Ends (suc i) st h =
      let (p, q', deq, rest) = dequeue_some st.item.send_queue _ refl (omega arith) in
      rw (deq, stream_loop)
        (elim (Bool-cases (is_valid_packet_size (lib.all_use_size p))) [
          | inl e ↦ rw e (elim (Bool-cases (leb 16384 (st.size + lib.all_use_size p))) [
            | inl full ↦ rw full refl
            | inr room ↦
                elim (Bool-cases (
                  ltb
                    (to_rsize max_send_buffer_size (st.size + lib.all_use_size p)
                      (lib.all_use_size p))
                    (lib.all_use_size p))) [
                      | inl short ↦ rw (room, short) tt
                      | inr long ↦ rw (room, long) (stream_loop-Ends i _ (omega arith))
                    ]
          ])
          | inr e ↦ rw e tt
        ])

  take_reserved-Ends :
      (item : SendItem)
      → Ends
          (λ st. (st.item.io_mode ≡ item.io_mode) × (st.item.send_queue ≡ item.send_queue))
          (take_reserved item)
  unfolding take_reserved
  take_reserved-Ends item = elim (Option-cases item.reserved_buffer) [
    | inl e ↦ rw (e, take_reserved) (refl, refl)
    | inr (p, e) ↦ elim (Bool-cases (is_valid_packet_size (lib.all_use_size p))) [
      | inl v ↦ rw (e, take_reserved) (rw v (refl, refl))
      | inr v ↦ rw (e, take_reserved) (rw v tt)
    ]
  ]

  pub make_send_stream-Ends :
      (item : SendItem) → Ends (λ st. st.item.io_mode ≡ item.io_mode) (make_send_stream item)
  unfolding make_send_stream
  make_send_stream-Ends item =
      Ends-bind _ _ (take_reserved item) _ (take_reserved-Ends item) λ st keeps. rw (← keeps.0) (
        stream_loop-Ends _ st (
          omega (
            arith,
            lib.rest_size-contents item.send_queue,
            ap (λ q. length (lib.contents q)) keeps.1,
          )))

  -- The kernel takes a send of a session that has none under way.
  post_send-Running :
      (me k a r : ℕ) (c : IoContext) (sv : Server)
      → Running me (k + 1) a r sv
      → (Map.find me sv.session_map ≡ some a → send_out me sv.posted ≡ 0)
      → (sv.heap a).send_item.io_mode ≡ io_sending
      → c.owner_session_id ≡ me
      → c.io_type ≡ op_send
      → Running me k a r (record sv { posted = c ∷ sv.posted })
  unfolding recv_out send_out recv_one send_one is_recv
  post_send-Running me k a r c sv run quiet busy owner type = record {
    counts = record {
      sound = λ id b h. elim (Bool-cases (id == me)) [
        | inl e ↦ ground (arith, run.counts.sound id b h, run.owns.only b, quiet)
        | inr e ↦ ground (arith, run.counts.sound id b h)
      ];
      placed = run.counts.placed;
      young = run.counts.young;
      owners = λ id h. ground (arith, run.counts.owners id h, run.known);
    };
    owns = record { named = run.owns.named; only = run.owns.only };
    known = run.known;
    receives = ground (arith, run.receives);
  }

  -- What a round of SendPost leaves, whether the call returns or goes on.
  abbrev RoundKeeps : ℕ → ℕ → ℕ → ℕ → Round → Type 0
  RoundKeeps me k a r (returns e sv) = Running me k a r sv × (gives_up e ≡ true)
  RoundKeeps me k a r (continues sv) =
      Running me k a r sv × ((sv.heap a).send_item.io_mode ≡ io_sending)

  rio_send-Running :
      (sent : Bool) (me k a r : ℕ) (c : IoContext) (sv : Server)
      → k < 9
      → Running me (k + 1) a r sv
      → (Map.find me sv.session_map ≡ some a → send_out me sv.posted ≡ 0)
      → (sv.heap a).send_item.io_mode ≡ io_sending
      → c.owner_session_id ≡ me
      → c.io_type ≡ op_send
      → RoundKeeps me k a r (rio_send sent a c sv)
  unfolding rio_send gives_up
  rio_send-Running true me k a r c sv small run quiet busy owner type =
      (post_send-Running me k a r c sv run quiet busy owner type, busy)
  rio_send-Running false me k a r c sv small run quiet busy owner type =
      (io_count_decrement-Running me k a r sv small run, refl)

  post_stream-Running :
      (sent : Bool) (me k a r : ℕ) (st : Stream) (sv : Server)
      → k < 8
      → Running me k a r sv
      → (Map.find me sv.session_map ≡ some a → send_out me sv.posted ≡ 0)
      → (sv.heap a).send_item.io_mode ≡ io_sending
      → st.item.io_mode ≡ io_sending
      → RoundKeeps me k a r (post_stream sent a st sv)
  unfolding post_stream gives_up
  post_stream-Running sent me k a r st sv small run quiet busy keeps =
      elim (Bool-cases (st.size == 0)) [
        | inl e ↦ rw (e, post_stream) (filled, refl)
        | inr e ↦
            rw (e, post_stream)
              (rio_send-Running sent me k a r _ _ (omega arith)
                (add_io-Running me k a r _ (omega arith) filled) (unfold add_io in quiet)
                (unfold add_io in ground arith) (unfold send_context in run.owns.named)
                (unfold send_context in refl))
      ]
    where
      filled :
          Running me k a r
            (emit (copies a st.written) (write a (record (sv.heap a) { send_item = st.item }) sv))
      filled =
          emit-Running me k a r _ _ (touch-Running me k a r _ sv run refl refl (keeps ∙ sym busy))

  set_busy-Running :
      (me k a r : ℕ) (sv : Server)
      → Running me k a r sv
      → Running me k a r (set_io_mode a io_sending sv)
  unfolding set_io_mode
  set_busy-Running me k a r sv run =
      write-Running me k k a r _ sv run run.owns.named
        (λ h. ground (arith, run.counts.sound me a h))

  set_busy_mode :
      (a : ℕ) (sv : Server) → ((set_io_mode a io_sending sv).heap a).send_item.io_mode ≡ io_sending
  unfolding set_io_mode
  set_busy_mode a sv = ground arith

  none_sent :
      (me k a r : ℕ) (sv : Server)
      → Running me k a r sv
      → (sv.heap a).send_item.io_mode ≡ io_none_sending
      → Map.find me (set_io_mode a io_sending sv).session_map ≡ some a
      → send_out me (set_io_mode a io_sending sv).posted ≡ 0
  unfolding set_io_mode
  none_sent me k a r sv run e h = (run.counts.sound me a h).idle e

  send_round-Running :
      (sent : Bool) (me k a r : ℕ) (sv : Server)
      → k < 8
      → Running me k a r sv
      → Ends (RoundKeeps me k a r) (send_round sent a sv)
  unfolding gives_up
  send_round-Running sent me k a r sv small run =
      elim (IoMode-cases (sv.heap a).send_item.io_mode) [
        | inl e ↦ rw (send_round_busy sent a sv e) (run, refl)
        | inr e ↦ rw (send_round_idle sent a sv e) (
            Ends-bind _ (RoundKeeps me k a r) _ _ (make_send_stream-Ends _) λ st keeps.
              post_stream-Running sent me k a r st _ small (set_busy-Running me k a r sv run)
                (none_sent me k a r sv run e) (set_busy_mode a sv) (keeps ∙ set_busy_mode a sv))
      ]

  -- Two rounds are enough: the second finds a send under way.
  pub send_post-Running :
      (sent : Bool) (me k a r : ℕ) (sv : Server)
      → k < 8
      → Running me k a r sv
      → Ends (λ (e, sv'). Running me k a r sv' × (gives_up e ≡ true)) (send_post sent a sv)
  unfolding send_post send_post_loop gives_up
  send_post-Running sent me k a r sv small run =
      Ends-bind (RoundKeeps me k a r) _ (send_round sent a sv) _
        (send_round-Running sent me k a r sv small run) second
    where
      second :
          (rd : Round)
          → RoundKeeps me k a r rd
          → Ends
              (λ (e, sv'). Running me k a r sv' × (gives_up e ≡ true))
              (elim rd [
                | returns e sv' ↦ ok (e, sv')
                | continues sv' ↦ send_post_loop 1 sent a sv'
              ])
      second (returns e sv') h = h
      second (continues sv') h = rw (send_round_busy sent a sv' h.1, send_post_loop) (h.0, refl)

  pub send_packet-Running :
      (sent : Bool) (p : lib.Packet) (me k a r : ℕ) (sv : Server)
      → k < 8
      → Running me k a r sv
      → Ends (Running me k a r) (send_packet sent p a sv)
  unfolding send_packet enqueue_packet
  send_packet-Running sent p me k a r sv small run =
      Ends-bind _ _ (send_post sent a (enqueue_packet p a sv)) _
        (send_post-Running sent me k a r _ small (touch-Running me k a r _ sv run refl refl refl))
        (λ (e, sv') h. h.0)

  pub send_packet_and_disconnect-Running :
      (sent : Bool) (p : lib.Packet) (me k a r : ℕ) (sv : Server)
      → k < 8
      → Running me k a r sv
      → Ends (Running me k a r) (send_packet_and_disconnect sent p a sv)
  unfolding send_packet_and_disconnect
  send_packet_and_disconnect-Running sent p me k a r sv small run =
      send_packet-Running sent p me k a r _ small (touch-Running me k a r _ sv run refl refl refl)
