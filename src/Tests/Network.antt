-- ===== src/Tests/Network.antt =====
-- The theorems on received bytes, channels and packets at small inputs.
use dding_game_server.Prelude.{
  ℕ, ◌≡◌, refl, ap, true, false, Option, none, some, List, [], ◌∷◌, ◌++◌, map, arith,
}
use dding_game_server.Prelude.Map
use dding_game_server.Rio.Types.{Server, err, uncaught}
use dding_game_server.Rio.Recv.{HandledPacket, returns, disconnects, recv_loop}
use dding_game_server.Rio.Recv.Streams.{
  IsStream, over, frame, in_header, deliver, ended, last_ring, recv_loop-IsStream,
}
use dding_game_server.Rio.Recv.Thrown.{session_on_recv_packet, recv_loop-session_on_recv_packet}
use dding_game_server.LanClient.Post.{
  Channel, PostRetval, post_err, complete, recv_post, send_post, send_packet, finish, give_up,
  wsa_send, post_batch, dequeue_all, batch_size,
}
use dding_game_server.LanClient.Receive.{recv_completed, on_recv_all}
use dding_game_server.LanClient.Receive.Framing.{IsFramed, recv_completed-IsFramed}
use dding_game_server.LanClient.Reconnect.{
  connects, fails, reconnect, reconnect-wedge, connect_loop, restart,
}
use dding_game_server.Core.Packets.{
  NetLib, Parameters, no_parameters, parameter, PacketType, PacketManager, packet_buffer, init,
  make_packet, get_packet_handler, on_recv_packet, throws_bad_any_cast, register_packet,
  register_packet_handler,
}
use dding_game_server.Core.Packets.Dispatch.{on_recv_packet_lem}
use dding_game_server.Tests.RioModel.{test_lib}
use dding_game_server.Tests.RioExamples.{before, three_bytes}
use dding_game_server.Tests.Servers.{lan, open_channel}

-- A frame of three bytes and the first byte of the next one, whose handler drops the session.
abbrev stream : List ℕ
stream = 119 ∷ 3 ∷ 10 ∷ 20 ∷ 30 ∷ 119 ∷ []

abbrev receiving : Server ⦃lib = test_lib⦄
receiving = record before { heap = λ a. record (before.heap a) { recv_buffer = stream } }

abbrev drops : List ℕ → HandledPacket ⦃lib = test_lib⦄
drops p = returns (disconnects ∷ [])

stream-IsStream : IsStream ⦃lib = test_lib⦄ stream ((10 ∷ 20 ∷ 30 ∷ []) ∷ []) (119 ∷ [])
stream-IsStream =
    frame (119 ∷ 3 ∷ []) (10 ∷ 20 ∷ 30 ∷ []) (119 ∷ []) (119 ∷ []) (10 ∷ 20 ∷ 30 ∷ []) []
      three_bytes refl (over (119 ∷ []) (in_header (119 ∷ []) (omega arith)))

stream_of_frames_example :
    (ds : List (List ℕ × List ℕ)) × (map (λ (d : List ℕ × List ℕ). d.0) ds
      ≡ (10 ∷ 20 ∷ 30 ∷ []) ∷ [])
    × (last_ring ⦃lib = test_lib⦄ drops true 0 stream ds ≡ 119 ∷ [])
    × (recv_loop ⦃lib = test_lib⦄ drops true 0 7 6 receiving
        ≡ deliver ⦃lib = test_lib⦄ drops true 0 ds
            (ended ⦃lib = test_lib⦄ drops true 0 (119 ∷ []))
            receiving)
stream_of_frames_example =
    recv_loop-IsStream ⦃lib = test_lib⦄ drops true 0 stream (119 ∷ []) ((10 ∷ 20 ∷ 30 ∷ []) ∷ [])
      receiving stream-IsStream refl

-- A packet that has a handler and a class.
thrown_example :
    (sv : Server ⦃lib = test_lib⦄) × ((sv.heap 0).recv_buffer ≡ 119 ∷ [])
    × (recv_loop ⦃lib = test_lib⦄
          (session_on_recv_packet ⦃lib = test_lib⦄ (λ p. true))
          true
          0
          7
          6
          receiving
        ≡ err uncaught)
thrown_example =
    recv_loop-session_on_recv_packet ⦃lib = test_lib⦄ (λ p. true) true 0 stream (119 ∷ [])
      ((10 ∷ 20 ∷ 30 ∷ []) ∷ []) receiving stream-IsStream refl

-- A payload of two bytes behind the byte that had come before, and a header that announces more.
abbrev half : Channel ⦃lib = lan⦄
half = record open_channel { ring = 2 ∷ [] }

framed_example :
    (ring : List ℕ) × (payloads : List (List ℕ)) × IsFramed ⦃lib = lan⦄
      (2 ∷ 0 ∷ 7 ∷ 8 ∷ 9 ∷ 0 ∷ [])
      payloads
      ring
    × (recv_completed ⦃lib = lan⦄ true (0 ∷ 7 ∷ 8 ∷ 9 ∷ 0 ∷ []) half
        ≡ some (
            finish ⦃lib = lan⦄ (
              recv_post ⦃lib = lan⦄ true
                (record half { ring = ring; events = on_recv_all ⦃lib = lan⦄ payloads [] }))))
framed_example =
    recv_completed-IsFramed ⦃lib = lan⦄ refl true (0 ∷ 7 ∷ 8 ∷ 9 ∷ 0 ∷ []) half (omega arith)
      (omega arith)

-- A channel with one packet to send, which fails, and then the reconnection.
abbrev queued : Channel ⦃lib = lan⦄
queued = record open_channel { send_q = 107 ∷ [] }

abbrev channel_of : Option (PostRetval × Channel ⦃lib = lan⦄) → Channel ⦃lib = lan⦄
channel_of none = open_channel
channel_of (some r) = r.1

abbrev failed : Channel ⦃lib = lan⦄
failed = channel_of (send_post ⦃lib = lan⦄ false queued)

abbrev channel_or : Option (Channel ⦃lib = lan⦄) → Channel ⦃lib = lan⦄
channel_or none = open_channel
channel_or (some c) = c

abbrev reconnected : Channel ⦃lib = lan⦄
reconnected = channel_or (reconnect ⦃lib = lan⦄ true true true (fails ∷ connects ∷ []) failed)

silent_example :
    (send_packet ⦃lib = lan⦄ true 9 reconnected
      ≡ some (complete, record reconnected { send_q = reconnected.send_q ++ 109 ∷ [] }))
    × (reconnected.ring ≡ failed.ring)
unfolding send_post post_batch dequeue_all batch_size wsa_send give_up reconnect restart
    connect_loop
silent_example =
    reconnect-wedge ⦃lib = lan⦄ queued failed reconnected post_err true true true true
      (fails ∷ connects ∷ []) 9 (λ e. omega (arith, e)) refl refl refl

-- A library that streams numbers alone.
abbrev Pair : Type 0
Pair = (t : Unit) × ℕ

abbrev first_number : List Pair → ℕ × List Pair
first_number [] = (0, [])
first_number (p ∷ ps) = (p.1, ps)

abbrev pub numbers : NetLib
numbers = record {
  Code = Unit;
  Value = λ t. ℕ;
  packet_id_code = tt;
  packet_id_value = λ n. n;
  packet_id_of = λ n. n;
  Buffer = List Pair;
  empty_buffer = [];
  write = λ t v b. b ++ (t, v) ∷ [];
  read = λ t b. first_number b;
  pending = λ b. b;
  packet_id_of-value = λ id. refl;
  pending-empty_buffer = refl;
  pending-write = λ t v b. refl;
  read-pending = λ t v b more e. (ap (λ c. (first_number c).0) e, ap (λ c. (first_number c).1) e);
}

abbrev two_numbers : PacketType ⦃lib = numbers⦄
two_numbers = record { packet_id = 6; parameter_types = tt ∷ tt ∷ [] }

abbrev three_and_four : Parameters ⦃lib = numbers⦄ (tt ∷ tt ∷ [])
three_and_four = parameter tt (tt ∷ []) 3 (parameter tt [] 4 no_parameters)

abbrev rest_of_packet : List Pair
rest_of_packet = (first_number (packet_buffer ⦃lib = numbers⦄ two_numbers three_and_four)).1

abbrev no_packets : PacketManager ⦃lib = numbers⦄
no_packets = record { packet_factory_function_map = []; packet_handler_map = [] }

abbrev one_packet : PacketManager ⦃lib = numbers⦄
one_packet = init ⦃lib = numbers⦄ (two_numbers ∷ []) no_packets

throws_example : on_recv_packet ⦃lib = numbers⦄ one_packet ((tt, 6) ∷ []) ≡ throws_bad_any_cast
unfolding get_packet_handler make_packet init register_packet register_packet_handler Map.find
    Map.put
throws_example = on_recv_packet_lem ⦃lib = numbers⦄ one_packet ((tt, 6) ∷ [])
