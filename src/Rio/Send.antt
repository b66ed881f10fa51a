-- ===== src/Rio/Send.antt =====
-- RIOServer::SendPacket, SendPost, MakeSendStream and IsValidPacketSize.
pub mod Rounds
pub mod Streams
pub mod Wedge
use dding_game_server.Prelude.{
  ℕ, zero, suc, ◌+◌, ◌-◌, ◌*◌, ◌%◌, ◌^◌, Bool, true, false, ◌&&◌, Option, none, some, List, [], ◌∷◌,
  ◌++◌, ltb, leb, ◌==◌, if◌then◌else◌,
}
use dding_game_server.Rio.Types.{
  RioLib, SendItem, Session, Server, IoContext, Copy, copies, Result, ok, err, crash,
  invalid_parameter, uninitialised, out_of_fuel, ◌>>=◌, IoMode, io_none_sending, io_sending,
  IoPostError, success, failed_send_post, invalid_send_buffer_size, op_send, max_send_buffer_size,
  sizeof_send_rio_buffer,
}
use dding_game_server.Rio.Release.{write, emit, add_io, io_count_decrement}

-- `(rsize_t)(a - b - c)` of ints
unfoldable pub to_rsize : ℕ → ℕ → ℕ → ℕ
to_rsize a b c = (a + 2 ^ 64 - b - c) % 2 ^ 64

unfoldable pub is_valid_packet_size : ℕ → Bool
is_valid_packet_size size = ltb size max_send_buffer_size

module _ ⦃lib : RioLib⦄ where
  -- What MakeSendStream leaves behind: the size it returns, the send item, and its memcpy_s calls,
  -- oldest first.
  pub record Stream : Type 0 where
    pub size : ℕ
    pub item : SendItem
    pub written : List Copy

  -- the loop over the packets that were queued at its start; `i` counts those left. memcpy_s does not
  -- return where it is given less room than bytes
  unfoldable pub stream_loop : ℕ → Stream → Result Stream
  stream_loop zero st = ok st
  stream_loop (suc i) st = elim (lib.dequeue st.item.send_queue) [
    | none ↦ err uninitialised
    | some (p, rest) ↦
        let use_size = lib.all_use_size p in
        let total = st.size + use_size in
        let item = record st.item { send_queue = rest } in
        let full = record st { size = total; item = record item { reserved_buffer = some p } } in
        let copy : Copy = record {
          offset = (total - use_size) * sizeof_send_rio_buffer;
          room = to_rsize max_send_buffer_size total use_size;
          bytes = lib.buffer_bytes p;
        } in
        let next =
          stream_loop i (record { size = total; item = item; written = st.written ++ copy ∷ [] }) in
        if is_valid_packet_size use_size
        then (if leb max_send_buffer_size total
            then ok full
            else if ltb copy.room use_size
            then err invalid_parameter
            else next)
        else err crash
  ]

  -- the packet that the last stream had no room for goes first
  unfoldable pub take_reserved : SendItem → Result Stream
  take_reserved item = elim item.reserved_buffer [
    | none ↦ ok (record { size = 0; item = item; written = [] })
    | some p ↦
        if is_valid_packet_size (lib.all_use_size p)
        then ok (record {
          size = lib.all_use_size p;
          item = record item { reserved_buffer = none };
          written =
              record { offset = 0; room = max_send_buffer_size; bytes = lib.buffer_bytes p } ∷ [];
        })
        else err crash
  ]

  unfoldable pub make_send_stream : SendItem → Result Stream
  make_send_stream item = do st ← take_reserved item; stream_loop (lib.rest_size item.send_queue) st

  unfoldable pub set_io_mode : ℕ → IoMode → Server → Server
  set_io_mode a m sv =
      let s = sv.heap a in write a (record s { send_item = record s.send_item { io_mode = m } }) sv

  -- The test of `sendBuffer->rioSendBuffer` against nullptr: an array member has an address.
  abbrev pub send_buffer_is_null : Bool
  send_buffer_is_null = false

  -- One round of the loop of SendPost ends the call, or goes on to the next round.
  pub data Round : Type 0 where
    returns : IoPostError → Server → Round
    continues : Server → Round

  -- `RIOSend` with its result
  unfoldable pub rio_send : Bool → ℕ → IoContext → Server → Round
  rio_send true a c sv = continues (record sv { posted = c ∷ sv.posted })
  rio_send false a c sv = returns failed_send_post (io_count_decrement a sv)

  unfoldable pub send_context : Session → ℕ → IoContext
  send_context s size = record {
    owner_session_id = s.session_id;
    io_type = op_send;
    buffer_length = size;
    buffer_offset = 0;
  }

  unfoldable pub post_stream : Bool → ℕ → Stream → Server → Round
  post_stream sent a st sv =
      let s = sv.heap a in
      let sv' = emit (copies a st.written) (write a (record s { send_item = st.item }) sv) in
      if st.size == 0
      then returns invalid_send_buffer_size sv'
      else rio_send sent a (send_context s st.size) (add_io a sv')

  -- A round of the loop of SendPost, by what the exchange of `ioMode` found.
  unfoldable pub send_round_in : IoMode → Bool → ℕ → Server → Result Round
  send_round_in io_sending sent a sv = ok (returns success sv)
  send_round_in io_none_sending sent a sv =
      let queue = (sv.heap a).send_item.send_queue in
      let idle = set_io_mode a io_none_sending sv in
      let busy = set_io_mode a io_sending sv in
      if lib.rest_size queue == 0 && send_buffer_is_null
      then (if ltb 0 (lib.rest_size queue) then ok (continues idle) else ok (returns success idle))
      else (do st ← make_send_stream (busy.heap a).send_item; ok (post_stream sent a st busy))

  unfoldable pub send_round : Bool → ℕ → Server → Result Round
  send_round sent a sv = send_round_in (sv.heap a).send_item.io_mode sent a sv

  -- The loop of SendPost. A request that is taken leaves the mode at IO_SENDING, so the second
  -- round returns; `sent` is the result of the one RIOSend.
  unfoldable pub send_post_loop : ℕ → Bool → ℕ → Server → Result (IoPostError × Server)
  send_post_loop zero sent a sv = err out_of_fuel
  send_post_loop (suc fuel) sent a sv = do
    r ← send_round sent a sv
    elim r [ returns e sv' ↦ ok (e, sv') | continues sv' ↦ send_post_loop fuel sent a sv' ]

  unfoldable pub send_post : Bool → ℕ → Server → Result (IoPostError × Server)
  send_post sent a sv = send_post_loop 2 sent a sv

  unfoldable pub enqueue_packet : lib.Packet → ℕ → Server → Server
  enqueue_packet p a sv =
      let s = sv.heap a in
      let q = lib.enqueue (if lib.is_encoded p then p else lib.encode p) s.send_item.send_queue in
      write a (record s { send_item = record s.send_item { send_queue = q } }) sv

  unfoldable pub send_packet : Bool → lib.Packet → ℕ → Server → Result Server
  send_packet sent p a sv = do r ← send_post sent a (enqueue_packet p a sv); ok r.1

  -- RIOSession::SendPacketAndDisconnect
  unfoldable pub send_packet_and_disconnect : Bool → lib.Packet → ℕ → Server → Result Server
  send_packet_and_disconnect sent p a sv =
      send_packet sent p a (write a (record (sv.heap a) { send_disconnect = true }) sv)
