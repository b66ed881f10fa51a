-- ===== src/Rio/Recv.antt =====
-- RIOServer::RecvPost, RecvCompleted and GetPayloadLength. What the packet handlers do to their
-- session is a parameter, `handle`: the calls of RIOSession that they make, in order, and whether an
-- exception leaves OnRecvPacket behind them.
pub mod Framing
pub mod Rings
pub mod Streams
pub mod Thrown
use dding_game_server.Prelude.{
  ℕ, zero, suc, ◌+◌, ◌-◌, ◌%◌, ◌^◌, Bool, true, false, Option, none, some, List, [], ◌∷◌, ltb, leb,
  ◌==◌, if◌then◌else◌, length,
}
use dding_game_server.Prelude.Word.{u32}
use dding_game_server.Rio.Types.{
  RioLib, Session, Server, IoContext, Result, ok, err, out_of_fuel, uncaught, ◌>>=◌, IoPostError,
  success, failed_recv_post, op_recv,
}
use dding_game_server.Rio.Release.{write, disconnect, add_io, release_session}
use dding_game_server.Rio.Send.{send_packet, send_packet_and_disconnect}

-- The results of the system calls that a handler meets.
pub record Io : Type 0 where
  pub receive_ok : Bool
  pub send_ok : Bool

-- How far the loop over the received bytes got with one frame.
pub data Frame (P : Type 0) : Type 0 where
  -- too few bytes, a wrong header code or an empty payload: the loop ends
  waits : Frame P
  -- the payload is too large, or does not decode: the session is dropped
  is_broken : Frame P
  packet : P → Frame P

module _ ⦃lib : RioLib⦄ where
  pub data Action : Type 0 where
    sends sends_and_disconnects : lib.Packet → Action
    disconnects : Action

  -- What OnRecvPacket does before it returns, or before an exception leaves it.
  pub data HandledPacket : Type 0 where
    returns throws : List Action → HandledPacket

  unfoldable pub get_payload_length : List ℕ → ℕ → ℕ
  get_payload_length header rest =
      let (code, payload) = lib.read_header header in
      if code == lib.header_code
      then (if ltb rest (payload + lib.header_size) then 0 else payload)
      else 0

  -- Decode of the dequeued payload, and the ring behind it.
  unfoldable pub decode_frame : List ℕ → ℕ → List ℕ × lib.Ring → Frame lib.Packet × lib.Ring × ℕ
  decode_frame header rest (bytes, ring) = elim (lib.decode header bytes) [
    | none ↦ (is_broken, ring, rest)
    | some p ↦ (packet p, ring, rest - (length bytes + lib.header_size))
  ]

  -- One round of the loop: the frame, the ring behind it, and `restSize`.
  unfoldable pub next_frame : lib.Ring → ℕ → Frame lib.Packet × lib.Ring × ℕ
  next_frame ring rest =
      let header = lib.peek lib.header_size ring in
      let payload = get_payload_length header rest in
      if payload == 0
      then (waits, ring, rest)
      else if ltb lib.default_size payload
      then (is_broken, ring, rest)
      else decode_frame header rest
          (lib.ring_dequeue payload (lib.remove_data lib.header_size ring))

  unfoldable pub act : Bool → ℕ → Action → Server → Result Server
  act sent a (sends p) sv = send_packet sent p a sv
  act sent a (sends_and_disconnects p) sv = send_packet_and_disconnect sent p a sv
  act sent a disconnects sv = ok (disconnect (sv.heap a).session_id sv)

  unfoldable pub act_all : Bool → ℕ → List Action → Server → Result Server
  act_all sent a [] sv = ok sv
  act_all sent a (x ∷ xs) sv = do sv' ← act sent a x sv; act_all sent a xs sv'

  -- OnRecvPacket of the session.
  unfoldable pub handle_recv_packet : Bool → ℕ → HandledPacket → Server → Result Server
  handle_recv_packet sent a (returns xs) sv = act_all sent a xs sv
  handle_recv_packet sent a (throws xs) sv = do sv' ← act_all sent a xs sv; err uncaught

  unfoldable pub set_recv_buffer : ℕ → lib.Ring → Server → Server
  set_recv_buffer a ring sv = write a (record (sv.heap a) { recv_buffer = ring }) sv

  module _ (handle : lib.Packet → HandledPacket) (sent : Bool) (a : ℕ) where
    -- What a frame leads to; `next` is the rest of the loop.
    unfoldable pub take_frame :
        Frame lib.Packet → (Server → Result (Bool × Server)) → Server → Result (Bool × Server)
    take_frame waits next sv = ok (false, sv)
    take_frame is_broken next sv = ok (true, sv)
    take_frame (packet p) next sv = handle_recv_packet sent a (handle p) sv >>= next

    -- Returns `packetError` and the server.
    unfoldable pub recv_loop : ℕ → ℕ → Server → Result (Bool × Server)
    recv_loop zero rest sv = err out_of_fuel
    recv_loop (suc fuel) rest sv =
        let (frame, ring, rest') = next_frame (sv.heap a).recv_buffer rest in
        let next = λ (t : Server). recv_loop fuel rest' t in
        if ltb lib.header_size rest
        then take_frame frame next (set_recv_buffer a ring sv)
        else ok (false, sv)

  unfoldable pub recv_context : Session → IoContext
  recv_context s = record {
    owner_session_id = s.session_id;
    io_type = op_recv;
    buffer_length =
        (lib.not_broken_put_size s.recv_buffer + u32 - lib.not_broken_get_size s.recv_buffer) % u32;
    buffer_offset = s.rio_recv_offset % lib.ring_max;
  }

  unfoldable pub recv_post : Bool → ℕ → Server → IoPostError × Server
  recv_post taken a sv =
      if taken
      then (success, add_io a (record sv { posted = recv_context (sv.heap a) ∷ sv.posted }))
      else (failed_recv_post, sv)

  unfoldable pub advance_offset : ℕ → ℕ → Server → Server
  advance_offset a n sv =
      let s = sv.heap a in write a (record s { rio_recv_offset = (s.rio_recv_offset + n) % u32 }) sv

  unfoldable pub recv_completed :
      (lib.Packet → HandledPacket) → Io → ℕ → List ℕ → Server → Result (IoPostError × Server)
  recv_completed handle io a bytes sv = do
    let ring = lib.move_write_pos (length bytes) (lib.fill bytes (sv.heap a).recv_buffer)
    let rest = lib.use_size ring
    (bad, sv') ← recv_loop handle io.send_ok a (suc rest) rest (set_recv_buffer a ring sv)
    let (result, sv'') = recv_post io.receive_ok a (advance_offset a (length bytes) sv')
    ok (result, if bad then release_session a sv'' else sv'')
