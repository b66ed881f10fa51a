-- ===== src/LanClient/Start/Channels.antt =====
-- The channels that Start leaves.
use dding_game_server.Prelude.{
  ℕ, zero, suc, ◌+◌, ◌≡◌, refl, ap, ◌∙◌, Bool, true, false, inl, inr, some, List, [], ◌∷◌, ◌++◌,
  arith, Bool-cases, length, ◌&&◌, ◌==◌, if◌then◌else◌,
}
use dding_game_server.Prelude.Word.{inc32}
use dding_game_server.LanClient.Post.{
  LanLib, Channel, opens_socket, closes_socket, recv_post, complete,
}
use dding_game_server.LanClient.Order.{Flow, opens}
use dding_game_server.LanClient.Order.Batches.{sent_all}
use dding_game_server.LanClient.Reconnect.{Attempt, fails, connects, is_connected, tell}
use dding_game_server.LanClient.Start.{
  Started, returns_false, still_connecting, started, Answers, ClientOptions, new_channel,
  connect_attempts, open_connected, start_channel, add_channel, and_channels, start_channels, start,
}

module _ ⦃lib : LanLib⦄ where
  -- A channel on which nothing was received or sent.
  record IsUnused (ring : lib.Ring) (c : Channel) : Type 0 where
    count : c.io_count ≡ 0
    queue : c.send_q ≡ lib.empty_queue
    nothing_sent : sent_all c.events ≡ []
    same_ring : c.ring ≡ ring

  new_channel-IsUnused :
      (ring : lib.Ring) (is_reconnect : Bool) → IsUnused ring (new_channel ring is_reconnect)
  unfolding new_channel
  new_channel-IsUnused ring r = record {
    count = refl;
    queue = refl;
    nothing_sent = refl;
    same_ring = refl;
  }

  tell_opens-IsUnused :
      (ring : lib.Ring) (c : Channel) → IsUnused ring c → IsUnused ring (tell opens_socket c)
  tell_opens-IsUnused ring c u = record {
    count = u.count;
    queue = u.queue;
    nothing_sent = u.nothing_sent;
    same_ring = u.same_ring;
  }

  tell_closes-IsUnused :
      (ring : lib.Ring) (c : Channel) → IsUnused ring c → IsUnused ring (tell closes_socket c)
  tell_closes-IsUnused ring c u = record {
    count = u.count;
    queue = u.queue;
    nothing_sent = u.nothing_sent;
    same_ring = u.same_ring;
  }

  -- What is said of the channel, if there is one.
  abbrev pub IfStarted {ℓ} : {A : Type 0} → (A → Type ℓ) → Started A → Type ℓ
  IfStarted P returns_false = Unit
  IfStarted P still_connecting = Unit
  IfStarted P (started a) = P a

  connect_attempts-IsUnused :
      (ring : lib.Ring) (as_made : List Attempt) (c : Channel)
      → IsUnused ring c
      → IfStarted (IsUnused ring) (connect_attempts as_made c)
  unfolding connect_attempts
  connect_attempts-IsUnused ring [] c u = tt
  connect_attempts-IsUnused ring (connects ∷ more) c u = u
  connect_attempts-IsUnused ring (fails ∷ more) c u = connect_attempts-IsUnused ring more c u
  connect_attempts-IsUnused ring (is_connected false ∷ more) c u = tt
  connect_attempts-IsUnused ring (is_connected true ∷ more) c u =
      connect_attempts-IsUnused ring more _
        (tell_opens-IsUnused ring _ (tell_closes-IsUnused ring c u))

  -- A channel that is connected under its id, and receives, with nothing sent.
  abbrev pub IsOpen : ℕ → Channel → Type 0
  IsOpen id c = (c.session_id ≡ id) × (c.is_connect ≡ true) × Flow true c []

  open_connected-IsOpen :
      (a : Answers) (id : ℕ) (ring : lib.Ring) (c : Channel)
      → lib.is_full ring ≡ false
      → a.received ≡ true
      → IsUnused ring c
      → IfStarted (IsOpen id) (open_connected a id (started c))
  unfolding open_connected recv_post
  open_connected-IsOpen a id ring c room r u = elim (Bool-cases a.option_set) [
    | inr n ↦ rw (n, open_connected) tt
    | inl y ↦
        let c' = record c { is_connect = true; store = []; sending = false; session_id = id } in
        let full : lib.is_full c.ring ≡ false = ap lib.is_full u.same_ring ∙ room in
        let posted : recv_post a.received c'
            ≡ (complete, record c' { io_count = inc32 c.io_count }) =
          rw (full, r, recv_post) refl in
        rw (y, posted, open_connected)
          (
            refl,
            refl,
            opens _ (ground (arith, u.count)) refl (
                ap (λ bs. bs ++ lib.contents c.send_q) u.nothing_sent
                ∙ ap lib.contents u.queue
                ∙ lib.contents-empty_queue),
          )
  ]

  start_channel-IsOpen :
      (a : Answers) (id : ℕ) (ring : lib.Ring) (c : Channel)
      → lib.is_full ring ≡ false
      → a.received ≡ true
      → IsUnused ring c
      → IfStarted (IsOpen id) (start_channel a id c)
  unfolding start_channel open_connected
  start_channel-IsOpen a id ring c room r u = elim (Bool-cases a.socket_made) [
    | inr n ↦ rw (n, start_channel) tt
    | inl y ↦
        rw (y, start_channel)
          (connected (connect_attempts a.attempts (tell opens_socket c)) (
            connect_attempts-IsUnused ring a.attempts (tell opens_socket c)
              (tell_opens-IsUnused ring c u)))
  ]
    where
      connected :
          (s : Started Channel)
          → IfStarted (IsUnused ring) s
          → IfStarted (IsOpen id) (open_connected a id s)
      connected returns_false h = tt
      connected still_connecting h = tt
      connected (started c') h = open_connected-IsOpen a id ring c' room r h

  -- The channels are open, the first under this id and each other under the next one.
  abbrev pub AreOpen : ℕ → List Channel → Type 0
  AreOpen id [] = Unit
  AreOpen id (c ∷ cs) = IsOpen id c × AreOpen (id + 1) cs

  and_channels-AreOpen :
      (id n : ℕ) (s : Started Channel) (rest : Started (List Channel))
      → IfStarted (IsOpen id) s
      → IfStarted (λ cs. (length cs ≡ n) × AreOpen (id + 1) cs) rest
      → IfStarted (λ cs. (length cs ≡ suc n) × AreOpen id cs) (and_channels s rest)
  unfolding and_channels add_channel
  and_channels-AreOpen id n returns_false rest h k = tt
  and_channels-AreOpen id n still_connecting rest h k = tt
  and_channels-AreOpen id n (started c) returns_false h k = tt
  and_channels-AreOpen id n (started c) still_connecting h k = tt
  and_channels-AreOpen id n (started c) (started cs) h k = (ap suc k.0, (h, k.1))

  start_channels-AreOpen :
      (answers : ℕ → Answers) (id n : ℕ) (ring : lib.Ring) (c : Channel)
      → lib.is_full ring ≡ false
      → ((i : ℕ) → (answers i).received ≡ true)
      → IsUnused ring c
      → IfStarted (λ cs. (length cs ≡ n) × AreOpen id cs) (start_channels answers id n c)
  unfolding start_channels
  start_channels-AreOpen answers id zero ring c room r u = (refl, tt)
  start_channels-AreOpen answers id (suc n) ring c room r u =
      and_channels-AreOpen id n (start_channel (answers id) id c) _
        (start_channel-IsOpen (answers id) id ring c room (r id) u)
        (start_channels-AreOpen answers (id + 1) n ring c room r u)

  -- While WSARecv takes what it is given and a new ring is not full: if Start returns true, it has
  -- opened as many channels as the option file says, each connected and under the id of its place in
  -- the list, by which Reconnecter looks it up; and each of them is at the beginning of a life in
  -- which Flow-order keeps its buffers in order and its count right.
  pub start-AreOpen :
      (wsa_started port_made : Bool) (answers : ℕ → Answers) (ring : lib.Ring) (o : ClientOptions)
      (cs : List Channel)
      → lib.is_full ring ≡ false
      → ((i : ℕ) → (answers i).received ≡ true)
      → start wsa_started port_made answers ring (some o) ≡ started cs
      → (length cs ≡ o.num_of_session) × AreOpen 0 cs
  unfolding start
  start-AreOpen wsa_started port_made answers ring o cs room r e =
      elim (Bool-cases (wsa_started && port_made)) [
        | inr n ↦ absurd (cc (rw (n, start) at e))
        | inl y ↦
            let c = new_channel ring (if o.reconnect == 0 then false else true) in
            let opened : start_channels answers 0 o.num_of_session c ≡ started cs =
              rw (y, start) at e in
            rw opened at (
              start_channels-AreOpen answers 0 o.num_of_session ring c room r
                (new_channel-IsUnused ring (if o.reconnect == 0 then false else true)))
      ]
