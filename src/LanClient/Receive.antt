-- ===== src/LanClient/Receive.antt =====
-- The part of CMultiLanClient::Worker that serves a completed receive.
pub mod Framing
use dding_game_server.Prelude.{
  ℕ, zero, suc, ◌+◌, ◌-◌, Bool, Option, none, some, List, [], ◌∷◌, ◌++◌, length, ltb, ◌==◌,
  if◌then◌else◌,
}
use dding_game_server.Prelude.Word.{dec32}
use dding_game_server.LanClient.Post.{
  LanLib, Channel, Event, on_recv, PostRetval, complete, recv_post, release_session, finish,
}

module _ ⦃lib : LanLib⦄ where
  -- One round of the loop takes a payload off the ring, or ends the loop.
  pub data Round : Type 0 where
    breaks : Round
    takes : List ℕ → lib.Ring → ℕ → Round

  -- The payload was dequeued; `rest` is RingBufferRestSize, of which its size and two bytes go.
  unfoldable pub taken : ℕ → List ℕ × lib.Ring → Round
  taken rest (payload, ring) = takes payload ring (rest - (length payload + 2))

  unfoldable pub recv_round : lib.Ring → ℕ → Round
  recv_round ring rest =
      let header = lib.peek lib.header_size ring in
      let payload_length = lib.payload_length header in
      if ltb (length header) lib.header_size
      then breaks
      else if ltb (lib.use_size ring) (payload_length + lib.header_size)
      then breaks
      else taken rest (lib.ring_dequeue payload_length (lib.remove_data (length header) ring))

  abbrev pub Received : Type 0
  Received = Option (lib.Ring × List (List ℕ))

  unfoldable pub prepend : List ℕ → Received → Received
  prepend payload none = none
  prepend payload (some (ring, payloads)) = some (ring, payload ∷ payloads)

  -- What a round leads to; `next` is the rest of the loop.
  unfoldable pub after_round : lib.Ring → (lib.Ring → ℕ → Received) → Round → Received
  after_round ring next breaks = some (ring, [])
  after_round ring next (takes payload ring' rest) = prepend payload (next ring' rest)

  -- The loop: the ring behind it, and the payloads that go to OnRecv, the first first; `none` where
  -- the fuel runs out.
  unfoldable pub recv_loop : ℕ → lib.Ring → ℕ → Received
  recv_loop zero ring rest = none
  recv_loop (suc fuel) ring rest =
      let looped = after_round ring (recv_loop fuel) (recv_round ring rest) in
      if ltb lib.header_size rest then looped else some (ring, [])

  abbrev pub on_recv_all : List (List ℕ) → List Event → List Event
  on_recv_all [] es = es
  on_recv_all (p ∷ ps) es = on_recv_all ps (on_recv p ∷ es)

  -- Worker behind the loop: RecvPost, and the count that the completion held.
  unfoldable pub receive_again : Bool → Received → Channel → Option Channel
  receive_again received none c = none
  receive_again received (some (ring, payloads)) c = some (
      finish
        (recv_post received (record c { ring = ring; events = on_recv_all payloads c.events })))

  -- Worker for a completed receive of these bytes; with none the other side has closed.
  unfoldable pub recv_completed : Bool → List ℕ → Channel → Option Channel
  recv_completed received bytes c =
      let ring = lib.receive bytes c.ring in
      let rest = lib.use_size ring in
      let closed = record c { io_count = dec32 c.io_count } in
      if length bytes == 0
      then some (if dec32 c.io_count == 0 then release_session closed else closed)
      else receive_again received (recv_loop (suc rest) ring rest) c
