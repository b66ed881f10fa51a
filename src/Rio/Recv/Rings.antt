-- ===== src/Rio/Recv/Rings.antt =====
-- What a packet's handler does to its session leaves the received bytes alone.
use dding_game_server.Prelude.{
  ℕ, zero, suc, ◌≡◌, refl, ◌∙◌, Bool, true, false, List, [], ◌∷◌, ◌==◌, arith, Bool-cases, inl, inr,
}
use dding_game_server.Rio.Types.{
  uncaught, RioLib, Server, Result, ok, err, ◌>>=◌, io_sending, io_none_sending, IoMode, IoContext,
  IoPostError, Session, copies,
}
use dding_game_server.Rio.Release.{
  write, emit, disconnect, io_count_decrement, release_session, drop_io, add_io, on_session_leaved,
  on_session_released,
}
use dding_game_server.Rio.Send.{
  Stream, Round, returns, continues, set_io_mode, rio_send, post_stream, send_round_in, send_round,
  send_post_loop, send_post, enqueue_packet, send_packet, send_packet_and_disconnect,
}
use dding_game_server.Rio.Recv.{
  HandledPacket, returns as comes_back, throws, handle_recv_packet, Action, sends,
  sends_and_disconnects, disconnects, act, act_all,
}

module _ ⦃lib : RioLib⦄ (a : ℕ) where
  -- The received bytes of the session at `a` are the same.
  abbrev pub SameRing : Server → Server → Type 0
  SameRing sv sv' = (sv'.heap a).recv_buffer ≡ (sv.heap a).recv_buffer

  disconnect-SameRing : (id : ℕ) (sv : Server) → SameRing sv (disconnect id sv)
  unfolding disconnect
  disconnect-SameRing id sv = ground arith

  io_count_decrement-SameRing : (sv : Server) → SameRing sv (io_count_decrement a sv)
  unfolding io_count_decrement drop_io release_session on_session_leaved on_session_released
  io_count_decrement-SameRing sv = ground arith

  abbrev RoundSameRing : Server → Round → Type 0
  RoundSameRing sv (returns e sv') = SameRing sv sv'
  RoundSameRing sv (continues sv') = SameRing sv sv'

  write_same :
      (f : Session) (sv : Server)
      → f.recv_buffer ≡ (sv.heap a).recv_buffer
      → SameRing sv (write a f sv)
  write_same f sv e = ground (arith, e)

  rio_send-SameRing :
      (sent : Bool) (c : IoContext) (sv : Server) → RoundSameRing sv (rio_send sent a c sv)
  unfolding rio_send
  rio_send-SameRing true c sv = refl
  rio_send-SameRing false c sv = io_count_decrement-SameRing sv

  RoundSameRing-after :
      (sv sv' : Server) (r : Round) → SameRing sv sv' → RoundSameRing sv' r → RoundSameRing sv r
  RoundSameRing-after sv sv' (returns e t) h k = k ∙ h
  RoundSameRing-after sv sv' (continues t) h k = k ∙ h

  add_io-SameRing : (sv : Server) → SameRing sv (add_io a sv)
  unfolding add_io
  add_io-SameRing sv = write_same _ sv refl

  post_stream-SameRing :
      (sent : Bool) (st : Stream) (sv : Server) → RoundSameRing sv (post_stream sent a st sv)
  unfolding post_stream
  post_stream-SameRing sent st sv =
      let sv' =
        emit (copies a st.written) (write a (record (sv.heap a) { send_item = st.item }) sv) in
      let kept : SameRing sv sv' =
        write_same (record (sv.heap a) { send_item = st.item }) sv refl in
      elim (Bool-cases (st.size == 0)) [
        | inl z ↦ rw z kept
        | inr n ↦ rw n (
            RoundSameRing-after sv (add_io a sv') _ (add_io-SameRing sv' ∙ kept)
              (rio_send-SameRing sent _ (add_io a sv')))
      ]

  -- If the call returns, the received bytes are the same behind it.
  abbrev pub Keeps {ℓ} : {A : Type ℓ} → (A → Server) → Server → Result A → Type 0
  Keeps server sv (ok x) = SameRing sv (server x)
  Keeps server sv (err e) = Unit

  abbrev pub same : Server → Server
  same sv = sv

  Keeps-after {ℓ} :
      {A : Type ℓ} (server : A → Server) (sv sv' : Server) (m : Result A)
      → SameRing sv sv'
      → Keeps server sv' m
      → Keeps server sv m
  Keeps-after server sv sv' (ok x) h k = k ∙ h
  Keeps-after server sv sv' (err e) h k = tt

  abbrev result_server : IoPostError × Server → Server
  result_server r = r.1

  abbrev RoundKeeps : Server → Result Round → Type 0
  RoundKeeps sv (ok r) = RoundSameRing sv r
  RoundKeeps sv (err e) = Unit

  send_round-SameRing : (sent : Bool) (sv : Server) → RoundKeeps sv (send_round sent a sv)
  unfolding send_round send_round_in set_io_mode
  send_round-SameRing sent sv = in_mode (sv.heap a).send_item.io_mode
    where
      stream_lem :
          (busy : Server) (m : Result Stream)
          → SameRing sv busy
          → RoundKeeps sv (m >>= λ st. ok (post_stream sent a st busy))
      stream_lem busy (ok st) h =
          RoundSameRing-after sv busy _ h (post_stream-SameRing sent st busy)
      stream_lem busy (err e) h = tt

      in_mode : (m : IoMode) → RoundKeeps sv (send_round_in m sent a sv)
      in_mode io_sending = refl
      in_mode io_none_sending =
          elim (Bool-cases (lib.rest_size (sv.heap a).send_item.send_queue == 0)) [
            | inl z ↦ rw z (stream_lem _ _ (write_same _ sv refl))
            | inr n ↦ rw n (stream_lem _ _ (write_same _ sv refl))
          ]

  -- What follows a round of the loop of SendPost.
  after_round :
      (sv : Server) (next : Server → Result (IoPostError × Server)) (m : Result Round)
      → ((sv' : Server) → SameRing sv sv' → Keeps result_server sv (next sv'))
      → RoundKeeps sv m
      → Keeps result_server sv
          (m >>= λ r. elim r [ returns e sv' ↦ ok (e, sv') | continues sv' ↦ next sv' ])
  after_round sv next (err e) k h = tt
  after_round sv next (ok (returns e sv')) k h = h
  after_round sv next (ok (continues sv')) k h = k sv' h

  send_post_loop-Keeps :
      (fuel : ℕ) (sent : Bool) (sv : Server)
      → Keeps result_server sv (send_post_loop fuel sent a sv)
  unfolding send_post_loop
  send_post_loop-Keeps zero sent sv = tt
  send_post_loop-Keeps (suc fuel) sent sv =
      after_round sv (send_post_loop fuel sent a) (send_round sent a sv)
        (λ sv' h. Keeps-after result_server sv sv' _ h (send_post_loop-Keeps fuel sent sv'))
        (send_round-SameRing sent sv)

  enqueue_packet-SameRing : (p : lib.Packet) (sv : Server) → SameRing sv (enqueue_packet p a sv)
  unfolding enqueue_packet
  enqueue_packet-SameRing p sv = ground arith

  send_packet-Keeps :
      (sent : Bool) (p : lib.Packet) (sv : Server) → Keeps same sv (send_packet sent p a sv)
  unfolding send_packet send_post
  send_packet-Keeps sent p sv =
      posted (enqueue_packet p a sv) _ (enqueue_packet-SameRing p sv)
        (send_post_loop-Keeps 2 sent (enqueue_packet p a sv))
    where
      posted :
          (sv' : Server) (m : Result (IoPostError × Server))
          → SameRing sv sv'
          → Keeps result_server sv' m
          → Keeps same sv (m >>= λ r. ok r.1)
      posted sv' (ok r) h k = k ∙ h
      posted sv' (err e) h k = tt

  act-Keeps : (sent : Bool) (x : Action) (sv : Server) → Keeps same sv (act sent a x sv)
  unfolding act send_packet_and_disconnect
  act-Keeps sent (sends p) sv = send_packet-Keeps sent p sv
  act-Keeps sent (sends_and_disconnects p) sv =
      let s = record (sv.heap a) { send_disconnect = true } in
      Keeps-after same sv (write a s sv) _ (write_same s sv refl)
        (send_packet-Keeps sent p (write a s sv))
  act-Keeps sent disconnects sv = disconnect-SameRing _ sv

  act_all-Keeps :
      (sent : Bool) (xs : List Action) (sv : Server) → Keeps same sv (act_all sent a xs sv)
  unfolding act_all
  act_all-Keeps sent [] sv = refl
  act_all-Keeps sent (x ∷ xs) sv =
      acted (act sent a x sv) (act-Keeps sent x sv) (λ sv'. act_all-Keeps sent xs sv')
    where
      acted :
          (m : Result Server)
          → Keeps same sv m
          → ((sv' : Server) → Keeps same sv' (act_all sent a xs sv'))
          → Keeps same sv (m >>= λ sv'. act_all sent a xs sv')
      acted (ok sv') h k = Keeps-after same sv sv' _ h (k sv')
      acted (err e) h k = tt

  pub handle_recv_packet-Keeps :
      (sent : Bool) (h : HandledPacket) (sv : Server)
      → Keeps same sv (handle_recv_packet sent a h sv)
  unfolding handle_recv_packet
  handle_recv_packet-Keeps sent (comes_back xs) sv = act_all-Keeps sent xs sv
  handle_recv_packet-Keeps sent (throws xs) sv = thrown (act_all sent a xs sv)
    where
      thrown : (m : Result Server) → Keeps same sv (m >>= λ sv'. err uncaught)
      thrown (ok sv') = tt
      thrown (err e) = tt
