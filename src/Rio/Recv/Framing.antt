-- ===== src/Rio/Recv/Framing.antt =====
-- How a round of RecvCompleted's loop takes a frame off the received bytes.
use dding_game_server.Prelude.{
  ℕ, ◌+◌, ◌-◌, ◌≤◌, ◌<◌, ◌≡◌, ◌≢◌, refl, sym, ap, ◌∙◌, false, some, List, [], ◌∷◌, ◌++◌, ltb, ◌==◌,
  arith, length, take, drop, length-append,
}
use dding_game_server.Rio.Types.{RioLib}
use dding_game_server.Rio.Recv.{waits, packet, get_payload_length, decode_frame, next_frame}

take-append : {A : Type 0} (xs ys : List A) → take (length xs) (xs ++ ys) ≡ xs
take-append [] ys = refl
take-append (x ∷ xs) ys = ap (λ zs. x ∷ zs) (take-append xs ys)

drop-append : {A : Type 0} (xs ys : List A) → drop (length xs) (xs ++ ys) ≡ ys
drop-append [] ys = refl
drop-append (x ∷ xs) ys = drop-append xs ys

module _ ⦃lib : RioLib⦄ where
  decode_frame-some :
      {header : List ℕ} (p : lib.Packet) (rest n : ℕ) (d : List ℕ × lib.Ring)
      → lib.decode header d.0 ≡ some p
      → rest - (length d.0 + lib.header_size) ≡ n
      → decode_frame header rest d ≡ (packet p, d.1, n)
  unfolding decode_frame
  decode_frame-some p rest n (bytes, ring) h l = rw (h, l, decode_frame) refl

  pub peek-front :
      (ring : lib.Ring) (header more : List ℕ)
      → length header ≡ lib.header_size
      → lib.unread ring ≡ header ++ more
      → lib.peek lib.header_size ring ≡ header
  peek-front ring header more sized e =
      lib.peek-unread lib.header_size ring
      ∙ ap (take lib.header_size) e
      ∙ ap (λ n. take n (header ++ more)) (sym sized)
      ∙ take-append header more

  -- The bytes of a frame whose header announces `payload`.
  pub record IsFrame (header payload : List ℕ) : Type 0 where
    pub sized : length header ≡ lib.header_size
    pub announced : lib.read_header header ≡ (lib.header_code, length payload)
    pub filled : 1 ≤ length payload
    pub bounded : length payload ≤ lib.default_size

  module _ (header payload : List ℕ) (fr : IsFrame header payload) where
    get_payload_length_whole :
        (rest : ℕ)
        → lib.header_size + length payload ≤ rest
        → get_payload_length header rest ≡ length payload
    unfolding get_payload_length
    get_payload_length_whole rest h = rw (fr.announced, get_payload_length) (ground arith)

    pub get_payload_length_partial :
        (rest : ℕ) → rest < lib.header_size + length payload → get_payload_length header rest ≡ 0
    unfolding get_payload_length
    get_payload_length_partial rest h = rw (fr.announced, get_payload_length) (ground arith)

  module _ (ring : lib.Ring) (header payload more : List ℕ) (fr : IsFrame header payload) where
    peeked : lib.unread ring ≡ header ++ (payload ++ more) → lib.peek lib.header_size ring ≡ header
    peeked e = peek-front ring header (payload ++ more) fr.sized e

    behind_header :
        lib.unread ring ≡ header ++ (payload ++ more)
        → lib.unread (lib.remove_data lib.header_size ring) ≡ payload ++ more
    behind_header e =
        lib.unread-remove_data lib.header_size ring
        ∙ ap (drop lib.header_size) e
        ∙ ap (λ n. drop n (header ++ (payload ++ more))) (sym fr.sized)
        ∙ drop-append header (payload ++ more)

    -- A whole frame at the front of the ring, with its payload decoded to `p`, is taken off the
    -- ring and handed out as `p`, and the rest of the loop goes on with the bytes behind it.
    pub next_frame-whole :
        (p : lib.Packet)
        → lib.unread ring ≡ header ++ (payload ++ more)
        → lib.decode header payload ≡ some p
        → (ring' : lib.Ring) × (next_frame ring (length (lib.unread ring))
            ≡ (packet p, ring', length more))
          × (lib.unread ring' ≡ more)
    unfolding next_frame
    next_frame-whole p e d = (
      (lib.ring_dequeue (length payload) (lib.remove_data lib.header_size ring)).1,
      rw
          (
            peeked e,
            get_payload_length_whole header payload fr _ enough,
            filled,
            bounded,
            next_frame,
          )
          (decode_frame-some p _ _ _ (ap (lib.decode header) dequeued ∙ d)
            (ap (λ bs. length (lib.unread ring) - (length bs + lib.header_size)) dequeued ∙ left)),
      lib.unread-ring_dequeue (length payload) _
          ∙ ap (drop (length payload)) (behind_header e)
          ∙ drop-append payload more,
    )
      where
        whole : length (lib.unread ring) ≡ lib.header_size + (length payload + length more)
        whole =
            ap length e
            ∙ omega (
              arith,
              length-append header (payload ++ more),
              length-append payload more,
              fr.sized,
            )

        enough : lib.header_size + length payload ≤ length (lib.unread ring)
        enough = omega (arith, whole)

        filled : (length payload == 0) ≡ false
        filled = ground (arith, fr.filled)

        bounded : ltb lib.default_size (length payload) ≡ false
        bounded = ground (arith, fr.bounded)

        dequeued :
            (lib.ring_dequeue (length payload) (lib.remove_data lib.header_size ring)).0 ≡ payload
        dequeued =
            lib.ring_dequeue-bytes (length payload) _
            ∙ ap (take (length payload)) (behind_header e)
            ∙ take-append payload more

        left : length (lib.unread ring) - (length payload + lib.header_size) ≡ length more
        left = omega (arith, whole)

    -- While a part of a frame is still to come, the loop waits and leaves the ring as it is.
    next_frame-partial :
        (rest : ℕ)
        → lib.unread ring ≡ header ++ (payload ++ more)
        → rest < lib.header_size + length payload
        → next_frame ring rest ≡ (waits, ring, rest)
    unfolding next_frame
    next_frame-partial rest e h =
        rw (peeked e, get_payload_length_partial header payload fr rest h, next_frame) refl

  -- Once a header with a wrong code is at the front of the received bytes, no round of the loop
  -- takes anything off them, whatever comes behind it: the loop waits, and the session is not
  -- dropped.
  next_frame-stuck :
      (ring : lib.Ring) (header more : List ℕ) (rest : ℕ)
      → length header ≡ lib.header_size
      → (lib.read_header header).0 ≢ lib.header_code
      → lib.unread ring ≡ header ++ more
      → next_frame ring rest ≡ (waits, ring, rest)
  unfolding next_frame get_payload_length
  next_frame-stuck ring header more rest sized wrong e =
      rw (peek-front ring header more sized e, nothing, next_frame) refl
    where
      nothing : get_payload_length header rest ≡ 0
      nothing = ground arith
