-- ===== src/Rio/Recv/Streams.antt =====
-- The loop of RecvCompleted over a stream of frames.
use dding_game_server.Prelude.{
  ℕ, zero, suc, ◌+◌, ◌≤◌, ◌<◌, ◌≡◌, refl, sym, ap, ◌∙◌, Bool, true, false, inl, inr, some, List, [],
  ◌∷◌, ◌++◌, map, ltb, arith, length, length-append, append_assoc, subst, Bool-cases, if◌then◌else◌,
}
use dding_game_server.Rio.Types.{RioLib, Server, Result, ok, err, ◌>>=◌}
use dding_game_server.Rio.Recv.{
  HandledPacket, Frame, waits, packet, next_frame, handle_recv_packet, set_recv_buffer, take_frame,
  recv_loop,
}
use dding_game_server.Rio.Recv.Framing.{
  IsFrame, next_frame-whole, peek-front, get_payload_length_partial,
}
use dding_game_server.Rio.Recv.Rings.{SameRing, Keeps, same, handle_recv_packet-Keeps}

module _ ⦃lib : RioLib⦄ where
  -- The beginning of a frame that is still to come: no more bytes than a header has, or a header
  -- and a part of what it announces.
  pub data IsBegun : List ℕ → Type 0 where
    in_header : (bytes : List ℕ) → length bytes ≤ lib.header_size → IsBegun bytes
    in_payload :
        (header payload front back : List ℕ) (x : ℕ)
        → IsFrame header payload
        → payload ≡ front ++ (x ∷ back)
        → IsBegun (header ++ front)

  -- The bytes of frames, the packets they carry, and the beginning of a frame behind them.
  pub data IsStream : List ℕ → List lib.Packet → List ℕ → Type 0 where
    over : (tail : List ℕ) → IsBegun tail → IsStream tail [] tail
    frame :
        (header payload more tail : List ℕ) (p : lib.Packet) (ps : List lib.Packet)
        → IsFrame header payload
        → lib.decode header payload ≡ some p
        → IsStream more ps tail
        → IsStream (header ++ (payload ++ more)) (p ∷ ps) tail

  module _ (handle : lib.Packet → HandledPacket) (sent : Bool) (a : ℕ) where
    -- The packets go to their handler one by one, each with what is left of the bytes behind it;
    -- `finish` is the end of the loop.
    abbrev pub deliver :
        List (lib.Packet × lib.Ring)
        → (Server → Result (Bool × Server))
        → Server
        → Result (Bool × Server)
    deliver [] finish sv = finish sv
    deliver ((p, ring) ∷ ds) finish sv =
        handle_recv_packet sent a (handle p) (set_recv_buffer a ring sv) >>= deliver ds finish

    -- A loop that waits writes back the buffer that it has not changed.
    abbrev pub ended : List ℕ → Server → Result (Bool × Server)
    ended tail sv = ok (
      false,
      if ltb lib.header_size (length tail)
          then set_recv_buffer a (sv.heap a).recv_buffer sv
          else sv,
    )

    -- One round of the loop, by what it finds.
    recv_loop-round :
        (fuel rest n : ℕ) (sv : Server) (f : Frame lib.Packet) (ring : lib.Ring)
        → next_frame (sv.heap a).recv_buffer rest ≡ (f, ring, n)
        → recv_loop handle sent a (suc fuel) rest sv ≡ (
            if ltb lib.header_size rest
            then take_frame handle sent a f
                (recv_loop handle sent a fuel n)
                (set_recv_buffer a ring sv)
            else ok (false, sv))
    unfolding recv_loop
    recv_loop-round fuel rest n sv f ring e =
        ap
          (λ (r : Frame lib.Packet × lib.Ring × ℕ).
            if ltb lib.header_size rest
            then take_frame handle sent a r.0 (λ t. recv_loop handle sent a fuel r.2 t)
                (set_recv_buffer a r.1 sv)
            else ok (false, sv))
          e

    waited :
        (fuel : ℕ) (tail : List ℕ) (sv : Server)
        → next_frame (sv.heap a).recv_buffer (length tail)
          ≡ (waits, (sv.heap a).recv_buffer, length tail)
        → recv_loop handle sent a (suc fuel) (length tail) sv ≡ ended tail sv
    unfolding take_frame
    waited fuel tail sv e =
        recv_loop-round fuel _ _ sv waits (sv.heap a).recv_buffer e
        ∙ (elim (Bool-cases (ltb lib.header_size (length tail))) [
          | inl more ↦ rw more refl
          | inr less ↦ rw less refl
        ])

    begun :
        (fuel : ℕ) (tail : List ℕ) (sv : Server)
        → IsBegun tail
        → lib.unread (sv.heap a).recv_buffer ≡ tail
        → recv_loop handle sent a (suc fuel) (length tail) sv ≡ ended tail sv
    unfolding recv_loop next_frame
    begun fuel _ sv (in_header bytes h) e =
        let small : ltb lib.header_size (length bytes) ≡ false = ground arith in
        rw (small, recv_loop) refl
    begun fuel _ sv (in_payload header payload front back x fr split) e =
        waited fuel (header ++ front) sv (
          rw
            (
              peek-front (sv.heap a).recv_buffer header front fr.sized e,
              get_payload_length_partial header payload fr _ short,
              next_frame,
            )
            refl)
      where
        short : length (header ++ front) < lib.header_size + length payload
        short = omega (
          arith,
          length-append header front,
          ap length split,
          length-append front (x ∷ back),
          fr.sized,
        )

    -- The ring that the last packet left behind.
    abbrev pub last_ring : lib.Ring → List (lib.Packet × lib.Ring) → lib.Ring
    last_ring ring [] = ring
    last_ring ring ((p, r) ∷ ds) = last_ring r ds

    -- Two ways on agree if they agree on the servers that have the same received bytes.
    bind_same :
        (sv : Server) (m : Result Server) (f g : Server → Result (Bool × Server))
        → Keeps a (same a) sv m
        → ((sv' : Server) → SameRing a sv sv' → f sv' ≡ g sv')
        → (m >>= f) ≡ (m >>= g)
    bind_same sv (ok sv') f g h k = k sv' h
    bind_same sv (err e) f g h k = refl

    pub set_recv_buffer-ring :
        (ring : lib.Ring) (sv : Server) → ((set_recv_buffer a ring sv).heap a).recv_buffer ≡ ring
    unfolding set_recv_buffer
    set_recv_buffer-ring ring sv = ground arith

    -- A round that finds a frame hands it over and goes on with what is left of the bytes.
    hands_over :
        (fuel rest n : ℕ) (sv : Server) (p : lib.Packet) (ring : lib.Ring)
        (go : Server → Result (Bool × Server))
        → lib.header_size < rest
        → next_frame (sv.heap a).recv_buffer rest ≡ (packet p, ring, n)
        → ((sv' : Server)
            → (sv'.heap a).recv_buffer ≡ ring
            → recv_loop handle sent a fuel n sv' ≡ go sv')
        → recv_loop handle sent a (suc fuel) rest sv
          ≡ (handle_recv_packet sent a (handle p) (set_recv_buffer a ring sv) >>= go)
    unfolding take_frame
    hands_over fuel rest n sv p ring go l e k =
        let more : ltb lib.header_size rest ≡ true = ground arith in
        recv_loop-round fuel rest n sv (packet p) ring e
        ∙ rw more (
            bind_same (set_recv_buffer a ring sv)
              (handle_recv_packet sent a (handle p) (set_recv_buffer a ring sv)) _ go
              (handle_recv_packet-Keeps a sent (handle p) (set_recv_buffer a ring sv))
              (λ sv' h. k sv' (h ∙ set_recv_buffer-ring ring sv)))

    -- The deliveries do not depend on the server.
    abbrev Delivers : ℕ → List ℕ → List lib.Packet → List ℕ → lib.Ring → Type 0
    Delivers fuel bytes ps tail ring =
        (ds : List (lib.Packet × lib.Ring)) × (map (λ d. d.0) ds ≡ ps)
        × (lib.unread (last_ring ring ds) ≡ tail)
        × ((sv : Server)
            → (sv.heap a).recv_buffer ≡ ring
            → recv_loop handle sent a fuel (length bytes) sv ≡ deliver ds (ended tail) sv)

    delivers :
        (fuel : ℕ) (bytes tail : List ℕ) (ps : List lib.Packet) (ring : lib.Ring)
        → IsStream bytes ps tail
        → lib.unread ring ≡ bytes
        → length bytes < fuel
        → Delivers fuel bytes ps tail ring
    delivers zero bytes tail ps ring s e f = absurd (omega arith)
    delivers (suc fuel) _ _ _ ring (over tail b) e f =
        ([], refl, e, λ sv h. begun fuel tail sv b (ap lib.unread h ∙ e))
    delivers (suc fuel) _ _ _ ring (frame header payload more tail p ps fr d s) e f =
        let (ring', next, left) = next_frame-whole ring header payload more fr p e d in
        let (ds, named, last, runs) =
          delivers fuel more tail ps ring' s left (omega (arith, whole)) in
        (
          (p, ring') ∷ ds,
          ap (λ qs. p ∷ qs) named,
          last,
          λ sv h.
              hands_over fuel _ (length more) sv p ring' (deliver ds (ended tail))
                (omega (arith, whole))
                (ap (λ r. next_frame r (length (header ++ (payload ++ more)))) h
                  ∙ ap (λ bs. next_frame ring (length bs)) (sym e)
                  ∙ next)
                runs,
        )
      where
        whole :
            length (header ++ (payload ++ more)) ≡ lib.header_size + (length payload + length more)
        whole =
            omega
              (arith, length-append header (payload ++ more), length-append payload more, fr.sized)

    -- When the received bytes are whole frames, whose payloads decode to packets, and behind them
    -- the beginning of a frame, the loop comes to the same as handing the packets to OnRecvPacket one
    -- by one, in their order, each with what is left of the bytes behind it: where one of these calls
    -- ends the process, or an exception leaves it, the loop ends with it; where all of them come
    -- back, the loop ends behind the last one, does not drop the session, and leaves the beginning of
    -- a frame in the buffer.
    pub recv_loop-IsStream :
        (bytes tail : List ℕ) (ps : List lib.Packet) (sv : Server)
        → IsStream bytes ps tail
        → lib.unread (sv.heap a).recv_buffer ≡ bytes
        → (ds : List (lib.Packet × lib.Ring)) × (map (λ d. d.0) ds ≡ ps)
          × (lib.unread (last_ring (sv.heap a).recv_buffer ds) ≡ tail)
          × (recv_loop handle sent a (suc (length bytes)) (length bytes) sv
              ≡ deliver ds (ended tail) sv)
    recv_loop-IsStream bytes tail ps sv s e =
        let (ds, named, last, runs) =
          delivers (suc (length bytes)) bytes tail ps (sv.heap a).recv_buffer s e (omega arith) in
        (ds, named, last, runs sv refl)

  -- How the bytes are cut into chunks does not matter: what one chunk leaves in the buffer, with the
  -- next chunk behind it, carries the packets that the chunks carry together behind those that are
  -- handed out already.
  pub IsStream-append :
      (bytes chunk tail tail' : List ℕ) (ps qs : List lib.Packet)
      → IsStream bytes ps tail
      → IsStream (tail ++ chunk) qs tail'
      → IsStream (bytes ++ chunk) (ps ++ qs) tail'
  IsStream-append _ chunk _ tail' _ qs (over tail b) s = s
  IsStream-append _ chunk tail tail' _ qs (frame header payload more _ p ps fr d t) s =
      subst (λ bs. IsStream bs (p ∷ (ps ++ qs)) tail')
        (sym (
          append_assoc header (payload ++ more) chunk
          ∙ ap (λ bs. header ++ bs) (append_assoc payload more chunk)))
        (frame header payload (more ++ chunk) tail' p (ps ++ qs) fr d
          (IsStream-append more chunk tail tail' ps qs t s))
