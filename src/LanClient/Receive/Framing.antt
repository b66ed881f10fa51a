-- ===== src/LanClient/Receive/Framing.antt =====
-- The payloads that the loop takes off the received bytes.
use dding_game_server.Prelude.{
  ℕ, zero, suc, ◌+◌, ◌-◌, ◌≤◌, ◌<◌, ◌≡◌, refl, sym, ap, subst, ◌∙◌, Bool, true, false, ◌==◌, inl,
  inr, ◌⊎◌, some, List, [], ◌∷◌, ◌++◌, length, take, drop, ltb, arith, Bool-cases, take-append-drop,
  length-take, length-drop,
}
use dding_game_server.LanClient.Post.{LanLib, Channel, recv_post, give_up, finish, release_session}
use dding_game_server.LanClient.Receive.{
  breaks, takes, taken, recv_round, Received, prepend, after_round, recv_loop, on_recv_all,
  receive_again, recv_completed,
}

module _ ⦃lib : LanLib⦄ where
  -- The bytes are headers with the payloads that they announce, and behind them what is not to be
  -- taken yet: no more than a header, or less than its header announces.
  pub data IsFramed : List ℕ → List (List ℕ) → List ℕ → Type 0 where
    over :
        (tail : List ℕ)
        → (length tail ≤ lib.header_size)
          ⊎ (length tail < lib.payload_length (take lib.header_size tail) + lib.header_size)
        → IsFramed tail [] tail
    frame :
        (header payload more tail : List ℕ) (payloads : List (List ℕ))
        → length header ≡ lib.header_size
        → lib.payload_length header ≡ length payload
        → IsFramed more payloads tail
        → IsFramed (header ++ (payload ++ more)) (payload ∷ payloads) tail

  module _ (two : lib.header_size ≡ 2) where
    recv_round-breaks :
        (ring : lib.Ring) (rest : ℕ)
        → rest ≡ length (lib.unread ring)
        → rest < lib.payload_length (take lib.header_size (lib.unread ring)) + lib.header_size
        → recv_round ring rest ≡ breaks
    unfolding recv_round
    recv_round-breaks ring rest e h =
        rw (lib.peek-unread lib.header_size ring, lib.use_size-unread ring) (ground arith)

    -- What a round takes off the ring.
    abbrev payload_of : List ℕ → List ℕ
    payload_of bytes =
        take (lib.payload_length (take lib.header_size bytes)) (drop lib.header_size bytes)

    abbrev more_of : List ℕ → List ℕ
    more_of bytes =
        drop (lib.payload_length (take lib.header_size bytes)) (drop lib.header_size bytes)

    length-header :
        (bytes : List ℕ)
        → lib.header_size < length bytes
        → length (take lib.header_size bytes) ≡ lib.header_size
    length-header bytes h = omega (arith, length-take lib.header_size bytes)

    taken-payload :
        (rest n : ℕ) (payload : List ℕ) (d : List ℕ × lib.Ring)
        → d.0 ≡ payload
        → rest - (length payload + 2) ≡ n
        → taken rest d ≡ takes payload d.1 n
    unfolding taken
    taken-payload rest n payload (p, ring) e h = rw (e, h, taken) refl

    recv_round-takes :
        (ring : lib.Ring) (rest : ℕ)
        → rest ≡ length (lib.unread ring)
        → lib.header_size < rest
        → lib.payload_length (take lib.header_size (lib.unread ring)) + lib.header_size ≤ rest
        → (ring' : lib.Ring) × (recv_round ring rest
            ≡ takes (payload_of (lib.unread ring)) ring' (length (more_of (lib.unread ring))))
          × (lib.unread ring' ≡ more_of (lib.unread ring))
    unfolding recv_round taken
    recv_round-takes ring rest e more h = (
      behind,
      rw (lib.peek-unread lib.header_size ring, lib.use_size-unread ring, sized, whole, there)
          (taken-payload rest _ _ _ payload left),
      lib.unread-ring_dequeue _ _
          ∙ ap (drop (lib.payload_length header)) (lib.unread-remove_data lib.header_size ring),
    )
      where
        header : List ℕ
        header = take lib.header_size (lib.unread ring)

        removed : lib.Ring
        removed = lib.remove_data lib.header_size ring

        behind : lib.Ring
        behind = (lib.ring_dequeue (lib.payload_length header) removed).1

        sized : length header ≡ lib.header_size
        sized = length-header (lib.unread ring) (omega (arith, e))

        whole : ltb lib.header_size lib.header_size ≡ false
        whole = ground arith

        there : ltb (length (lib.unread ring)) (lib.payload_length header + lib.header_size) ≡ false
        there = ground (arith, e)

        payload :
            (lib.ring_dequeue (lib.payload_length header) removed).0 ≡ payload_of (lib.unread ring)
        payload =
            lib.ring_dequeue-bytes _ _
            ∙ ap (take (lib.payload_length header)) (lib.unread-remove_data lib.header_size ring)

        left :
            rest - (length (payload_of (lib.unread ring)) + 2) ≡ length (more_of (lib.unread ring))
        left = omega (
          arith,
          e,
          two,
          length-take (lib.payload_length header) (drop lib.header_size (lib.unread ring)),
          length-drop (lib.payload_length header) (drop lib.header_size (lib.unread ring)),
          length-drop lib.header_size (lib.unread ring),
        )

    -- Taken apart and put together again.
    rejoined :
        (bytes tail : List ℕ) (payloads : List (List ℕ))
        → lib.header_size < length bytes
        → lib.payload_length (take lib.header_size bytes) + lib.header_size ≤ length bytes
        → IsFramed (more_of bytes) payloads tail
        → IsFramed bytes (payload_of bytes ∷ payloads) tail
    rejoined bytes tail payloads more h f =
        subst (λ bs. IsFramed bs (payload_of bytes ∷ payloads) tail)
          (ap (λ bs. take lib.header_size bytes ++ bs)
              (take-append-drop _ (drop lib.header_size bytes))
            ∙ take-append-drop lib.header_size bytes)
          (frame (take lib.header_size bytes) (payload_of bytes) (more_of bytes) tail payloads
            (length-header bytes more) announced f)
      where
        announced : lib.payload_length (take lib.header_size bytes) ≡ length (payload_of bytes)
        announced = omega (
          arith,
          length-take (lib.payload_length (take lib.header_size bytes))
              (drop lib.header_size bytes),
          length-drop lib.header_size bytes,
        )

    -- What a call of the loop comes to.
    abbrev Framed : List ℕ → Received → Type 0
    Framed bytes r =
        (ring : lib.Ring) × (payloads : List (List ℕ)) × (r ≡ some (ring, payloads))
        × IsFramed bytes payloads (lib.unread ring)

    prepend-Framed :
        (bytes : List ℕ) (r : Received)
        → lib.header_size < length bytes
        → lib.payload_length (take lib.header_size bytes) + lib.header_size ≤ length bytes
        → Framed (more_of bytes) r
        → Framed bytes (prepend (payload_of bytes) r)
    unfolding prepend
    prepend-Framed bytes r more h (ring, payloads, e, f) = (
      ring,
      payload_of bytes ∷ payloads,
      rw (e, prepend) refl,
      rejoined bytes _ payloads more h f,
    )

    fewer :
        (ring : lib.Ring) (rest fuel : ℕ)
        → rest ≡ length (lib.unread ring)
        → rest < suc fuel
        → lib.header_size < rest
        → length (more_of (lib.unread ring)) < fuel
    fewer ring rest fuel e h more = omega (
      arith,
      two,
      length-drop (lib.payload_length (take lib.header_size (lib.unread ring)))
          (drop lib.header_size (lib.unread ring)),
      length-drop lib.header_size (lib.unread ring),
    )

    framed :
        (fuel : ℕ) (ring : lib.Ring) (rest : ℕ)
        → rest ≡ length (lib.unread ring)
        → rest < fuel
        → Framed (lib.unread ring) (recv_loop fuel ring rest)
    unfolding recv_loop after_round
    framed zero ring rest e h = absurd (omega arith)
    framed (suc fuel) ring rest e h = elim (Bool-cases (ltb lib.header_size rest)) [
      | inr few ↦ (ring, [], rw (few, recv_loop) refl, over _ (inl (ground (arith, few, e))))
      | inl more ↦
          elim (Bool-cases (
            ltb rest
              (lib.payload_length (take lib.header_size (lib.unread ring)) + lib.header_size))) [
                | inl short ↦ (
                  ring,
                  [],
                  rw
                      (
                        more,
                        recv_round-breaks ring rest e (ground (arith, short)),
                        recv_loop,
                        after_round,
                      )
                      refl,
                  over _ (inr (ground (arith, short, e))),
                )
                | inr whole ↦
                    let (ring', takes_it, left) =
                      recv_round-takes ring rest e (ground (arith, more)) (ground (arith, whole)) in
                    rw (more, takes_it, recv_loop, after_round)
                      (prepend-Framed (lib.unread ring) _ (ground (arith, more, e))
                        (ground (arith, whole, e))
                        (subst
                          (λ bs.
                            Framed bs (recv_loop fuel ring' (length (more_of (lib.unread ring)))))
                          left
                          (framed fuel ring' (length (more_of (lib.unread ring)))
                            (ap length (sym left))
                            (fewer ring rest fuel e h (ground (arith, more))))))
              ]
    ]

    -- With a header of two bytes, Worker serves every receive of at least one byte, and of no more
    -- than the ring has room for, without running out of fuel. The bytes that the ring held and
    -- behind them the received ones are headers with the payloads that they announce and a rest:
    -- OnRecv gets the payloads in their order, the rest stays in the ring, and then Worker calls
    -- RecvPost, which may fail, and gives up the completion's count as the result of it says.
    pub recv_completed-IsFramed :
        (received : Bool) (bytes : List ℕ) (c : Channel)
        → 1 ≤ length bytes
        → length bytes ≤ lib.free_size c.ring
        → (ring : lib.Ring) × (payloads : List (List ℕ)) × IsFramed
            (lib.unread c.ring ++ bytes)
            payloads
            (lib.unread ring)
          × (recv_completed received bytes c
              ≡ some (
                  finish (
                    recv_post received
                      (record c { ring = ring; events = on_recv_all payloads c.events }))))
    unfolding recv_completed receive_again
    recv_completed-IsFramed received bytes c some_bytes room =
        let ring = lib.receive bytes c.ring in
        let (ring', payloads, e, f) =
          framed (suc (lib.use_size ring)) ring (lib.use_size ring) (lib.use_size-unread ring)
            (omega arith) in
        let open_lem : (length bytes == 0) ≡ false = ground arith in
        (
          ring',
          payloads,
          subst (λ bs. IsFramed bs payloads (lib.unread ring'))
              (lib.unread-receive bytes c.ring room) f,
          rw (open_lem, e, recv_completed, receive_again) refl,
        )

  -- RecvPost gives a count up when the ring is full, and Worker gives up another one: with a send
  -- under way beside the receive that was served, the session is released although its send is still
  -- to complete.
  recv_post-full :
      (received : Bool) (c : Channel)
      → lib.is_full c.ring ≡ true
      → c.io_count ≡ 2
      → finish (recv_post received c) ≡ release_session (record c { io_count = 0 })
  unfolding recv_post give_up finish
  recv_post-full received c full two = rw (full, two, recv_post, give_up, finish) refl
