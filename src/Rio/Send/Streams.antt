-- ===== src/Rio/Send/Streams.antt =====
-- What MakeSendStream copies into the send buffer, and where.
use dding_game_server.Prelude.{
  ℕ, suc, ◌+◌, ◌-◌, ◌*◌, ◌≤◌, ◌<◌, ◌≡◌, refl, sym, ap, ◌∙◌, true, false, none, some, List, [], ◌∷◌,
  ◌++◌, ltb, leb, ◌&&◌, if◌then◌else◌, Bool-cases, inl, inr, arith, length, append_assoc,
  append-nil,
}
use dding_game_server.Rio.Types.{
  RioLib, SendItem, Copy, ok, err, invalid_parameter, max_send_buffer_size, sizeof_send_rio_buffer,
}
use dding_game_server.Rio.Send.{
  Stream, stream_loop, take_reserved, make_send_stream, to_rsize, is_valid_packet_size,
}
use dding_game_server.Rio.Send.Rounds.{make_send_stream-none}

-- The room that a packet of `n` bytes finds behind `total` others.
room_lem :
    (total n : ℕ)
    → total + n * 3 ≤ max_send_buffer_size
    → n ≤ to_rsize max_send_buffer_size (total + n) n
unfolding to_rsize
room_lem total n h = omega (arith, h)

-- It is too small for more than a third of the buffer, until it is negative and so wraps around.
room_short :
    (n : ℕ)
    → n < max_send_buffer_size
    → ltb (to_rsize max_send_buffer_size (0 + n) n) n
      ≡ (ltb max_send_buffer_size (n * 3) && leb (n * 2) max_send_buffer_size)
unfolding to_rsize
room_short n h = elim (Bool-cases (leb (n * 2) max_send_buffer_size)) [
  | inl low ↦ elim (Bool-cases (ltb max_send_buffer_size (n * 3))) [
    | inl big ↦ rw (low, big) (ground (arith, low, big))
    | inr small ↦ rw small (ground (arith, small))
  ]
  | inr high ↦ ground (arith, high)
]

module _ ⦃lib : RioLib⦄ where
  -- Every packet is valid, the stream is still below the limit behind each of them, and memcpy_s is
  -- given room for it.
  abbrev pub Fits : ℕ → List lib.Packet → Type 0
  Fits total [] = Unit
  Fits total (p ∷ ps) =
      (total + lib.all_use_size p < max_send_buffer_size)
      × (lib.all_use_size p
          ≤ to_rsize max_send_buffer_size (total + lib.all_use_size p) (lib.all_use_size p))
      × Fits (total + lib.all_use_size p) ps

  abbrev pub total_size : ℕ → List lib.Packet → ℕ
  total_size total [] = total
  total_size total (p ∷ ps) = total_size (total + lib.all_use_size p) ps

  -- The copy of a packet behind `total` bytes.
  abbrev pub packet_copy : ℕ → lib.Packet → Copy
  packet_copy total p = record {
    offset = total * sizeof_send_rio_buffer;
    room = to_rsize max_send_buffer_size (total + lib.all_use_size p) (lib.all_use_size p);
    bytes = lib.buffer_bytes p;
  }

  abbrev pub packet_copies : ℕ → List lib.Packet → List Copy
  packet_copies total [] = []
  packet_copies total (p ∷ ps) = packet_copy total p ∷ packet_copies (total + lib.all_use_size p) ps

  -- What a stream is once it has taken all the packets.
  record Took (st : Stream) (ps : List lib.Packet) (st' : Stream) : Type 0 where
    size : st'.size ≡ total_size st.size ps
    written : st'.written ≡ st.written ++ packet_copies st.size ps
    queue : lib.contents st'.item.send_queue ≡ []
    reserved : st'.item.reserved_buffer ≡ st.item.reserved_buffer

  -- One round of the loop with a packet that fits.
  stream_loop_next :
      (p : lib.Packet) (q : lib.Queue) (n : ℕ) (st : Stream)
      → lib.dequeue st.item.send_queue ≡ some (p, q)
      → st.size + lib.all_use_size p < max_send_buffer_size
      → lib.all_use_size p
        ≤ to_rsize max_send_buffer_size (st.size + lib.all_use_size p) (lib.all_use_size p)
      → stream_loop (suc n) st
        ≡ stream_loop n (record {
          size = st.size + lib.all_use_size p;
          item = record st.item { send_queue = q };
          written = st.written ++ packet_copy st.size p ∷ [];
        })
  unfolding stream_loop is_valid_packet_size
  stream_loop_next p q n st deq low room = rw (deq, small, below, long, start, stream_loop) refl
    where
      small : ltb (lib.all_use_size p) max_send_buffer_size ≡ true
      small = ground arith

      below : leb max_send_buffer_size (st.size + lib.all_use_size p) ≡ false
      below = ground arith

      long :
          ltb
            (to_rsize max_send_buffer_size (st.size + lib.all_use_size p) (lib.all_use_size p))
            (lib.all_use_size p)
          ≡ false
      long = ground arith

      start : st.size + lib.all_use_size p - lib.all_use_size p ≡ st.size
      start = omega arith

  stream_loop-Took :
      (ps : List lib.Packet) (st : Stream)
      → lib.contents st.item.send_queue ≡ ps
      → Fits st.size ps
      → (st' : Stream) × (stream_loop (length ps) st ≡ ok st') × Took st ps st'
  unfolding stream_loop
  stream_loop-Took [] st e fits = (
    st,
    refl,
    record { size = refl; written = sym (append-nil st.written); queue = e; reserved = refl },
  )
  stream_loop-Took (p ∷ ps) st e (low, room, fits) =
      let (q, deq, rest) = lib.dequeue-cons st.item.send_queue p ps e in
      let (st', run, took) = stream_loop-Took ps _ rest fits in
      (
        st',
        stream_loop_next p q (length ps) st deq low room ∙ run,
        record {
          size = took.size;
          written = took.written ∙ append_assoc st.written _ _;
          queue = took.queue;
          reserved = took.reserved;
        },
      )

  -- With nothing reserved, while the packets in the queue fit the send buffer together and each call of
  -- memcpy_s is given at least as much room as bytes, MakeSendStream returns with a stream that
  -- takes them all in their order: the size is the sum of theirs, the queue is left empty with
  -- nothing reserved, and each packet is copied once, at the place and with the room that
  -- `packet_copies` gives it.
  pub make_send_stream-copies :
      (item : SendItem) (ps : List lib.Packet)
      → item.reserved_buffer ≡ none
      → lib.contents item.send_queue ≡ ps
      → Fits 0 ps
      → (st : Stream) × (make_send_stream item ≡ ok st)
        × (st.size ≡ total_size 0 ps)
        × (st.written ≡ packet_copies 0 ps)
        × (lib.contents st.item.send_queue ≡ [])
        × (st.item.reserved_buffer ≡ none)
  unfolding make_send_stream take_reserved
  make_send_stream-copies item ps empty e fits =
      let (st, run, took) =
        stream_loop-Took ps (record { size = 0; item = item; written = [] }) e fits in
      (st, start ∙ run, took.size, took.written, took.queue, took.reserved ∙ empty)
    where
      count : lib.rest_size item.send_queue ≡ length ps
      count = lib.rest_size-contents item.send_queue ∙ ap length e

      start :
          make_send_stream item
          ≡ stream_loop (length ps) (record { size = 0; item = item; written = [] })
      start = make_send_stream-none item (length ps) empty count

  -- A copy that starts inside the send buffer.
  abbrev pub Inside : Copy → Type 0
  Inside c = c.offset < max_send_buffer_size

  -- With two packets in the queue, the first of at least one byte and of at most a third of the send
  -- buffer, the second of at most a third of what the first leaves, MakeSendStream returns, and it has
  -- copied the second packet past the end of the buffer.
  pub make_send_stream-outside :
      (item : SendItem) (p q : lib.Packet)
      → item.reserved_buffer ≡ none
      → lib.contents item.send_queue ≡ p ∷ q ∷ []
      → 1 ≤ lib.all_use_size p
      → lib.all_use_size p * 3 ≤ max_send_buffer_size
      → lib.all_use_size p + lib.all_use_size q * 3 ≤ max_send_buffer_size
      → (st : Stream) × (make_send_stream item ≡ ok st)
        × ((first : Copy) × (second : Copy) × (st.written ≡ first ∷ second ∷ [])
            × (second.bytes ≡ lib.buffer_bytes q)
            × (Inside second → ⊥))
  make_send_stream-outside item p q empty e filled third low =
      let (st, run, size, written, rest, reserved) =
        make_send_stream-copies item (p ∷ q ∷ []) empty e (
          omega (arith, third),
          room_lem 0 (lib.all_use_size p) (omega (arith, third)),
          (
            omega (arith, low),
            room_lem (0 + lib.all_use_size p) (lib.all_use_size q) (omega (arith, low)),
            tt,
          ),
        ) in
      (st, run, (_, _, written, refl, λ inside. omega (arith, filled, inside)))

  -- With nothing reserved and a single packet in the queue, below the size of the send buffer:
  -- MakeSendStream does not return if the packet has more than a third of the buffer and at most half
  -- of it, since memcpy_s is then given less room than bytes and ends the process. For any other size
  -- it returns with the packet's size and has copied the packet.
  pub make_send_stream-single :
      (item : SendItem) (p : lib.Packet)
      → item.reserved_buffer ≡ none
      → lib.contents item.send_queue ≡ p ∷ []
      → lib.all_use_size p < max_send_buffer_size
      → (q : lib.Queue) × (lib.contents q ≡ [])
        × (make_send_stream item ≡ (
            if ltb max_send_buffer_size (lib.all_use_size p * 3)
              && leb (lib.all_use_size p * 2) max_send_buffer_size
            then err invalid_parameter
            else ok (record {
              size = lib.all_use_size p;
              item = record item { send_queue = q };
              written = packet_copy 0 p ∷ [];
            })))
  unfolding stream_loop is_valid_packet_size
  make_send_stream-single item p empty e low =
      let (q, deq, rest) = lib.dequeue-cons item.send_queue p [] e in
      let small : ltb (lib.all_use_size p) max_send_buffer_size ≡ true = ground arith in
      let below : leb max_send_buffer_size (0 + lib.all_use_size p) ≡ false = ground arith in
      let start : 0 + lib.all_use_size p - lib.all_use_size p ≡ 0 = omega arith in
      let alone : 0 + lib.all_use_size p ≡ lib.all_use_size p = omega arith in
      (
        q,
        rest,
        make_send_stream-none item 1 empty (lib.rest_size-contents item.send_queue ∙ ap length e)
            ∙ rw (deq, small, below, room_short (lib.all_use_size p) low, start, stream_loop) refl
            ∙ ap
                (λ k.
                  if ltb max_send_buffer_size (lib.all_use_size p * 3)
                    && leb (lib.all_use_size p * 2) max_send_buffer_size
                  then err invalid_parameter
                  else ok (record {
                    size = k;
                    item = record item { send_queue = q };
                    written = packet_copy 0 p ∷ [];
                  }))
                alone,
      )
