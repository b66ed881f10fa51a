-- ===== src/LanClient/Reconnect/Rounds.antt =====
-- CMultiLanClient::Reconnecter of DdingGameServer/RIO_Core/MultiLanClient.cpp: the outer loop, over all
-- sessions of the client.
use dding_game_server.Prelude.{
  ℕ, zero, suc, ◌≤◌, ◌<◌, ◌≡◌, refl, sym, ap, ◌∙◌, subst, Bool, true, false, ◌&&◌, Option, none,
  some, List, [], ◌∷◌, length, get_elem?, set, length-set, drop, map, if◌then◌else◌, arith, All,
}
use dding_game_server.Prelude.Word.{inc32}
use dding_game_server.LanClient.Post.{
  LanLib, Channel, on_connection_complete, recv_post, opens_socket, closes_socket,
}
use dding_game_server.LanClient.Reconnect.{
  Attempt, fails, connects, is_connected, tell, connect_loop, restart, reconnect,
}

-- What one round of the loop meets.
pub record Round : Type 0 where
  pub stop_client : Bool
  pub made : Bool
  pub attempts : List Attempt
  pub option_set : Bool
  pub received : Bool

-- The thread has returned, or it has used an index behind the end of sessionList, or it goes on.
pub data Turn (A : Type 0) : Type 0 where
  returns out_of_range : Turn A
  goes_on : A → Turn A

-- A try succeeds, and no new socket fails to be made before.
unfoldable pub comes_through : List Attempt → Bool
comes_through [] = false
comes_through (connects ∷ more) = true
comes_through (fails ∷ more) = comes_through more
comes_through (is_connected made ∷ more) = made && comes_through more

-- The client is not stopped, and the calls of the system succeed in the end.
abbrev pub IsGood : Round → Type 0
IsGood r =
    (r.stop_client ≡ false)
    × (r.made ≡ true)
    × (comes_through r.attempts ≡ true)
    × (r.option_set ≡ true)
    × (r.received ≡ true)

-- The flags of the sessions, once those with these ids are connected.
unfoldable pub with_connected : List ℕ → List Bool → List Bool
with_connected [] flags = flags
with_connected (id ∷ ids) flags = with_connected ids (set flags id true)

module _ ⦃lib : LanLib⦄ where
  -- sessionList and sessionReconnectIdList. A channel holds the second one while a call works on it.
  pub record Client : Type 0 where
    pub session_list : List Channel
    pub session_reconnect_id_list : List ℕ

  unfoldable pub put_back : ℕ → Client → Option Channel → Turn Client
  put_back id c none = returns
  put_back id c (some s) = goes_on (record {
    session_list = set c.session_list id s;
    session_reconnect_id_list = s.session_reconnect_id_list;
  })

  unfoldable pub reconnect_found : Round → ℕ → Client → Option Channel → Turn Client
  reconnect_found r id c none = out_of_range
  reconnect_found r id c (some s) = put_back id c (
      reconnect r.made r.option_set r.received r.attempts
        (record s { session_reconnect_id_list = c.session_reconnect_id_list }))

  unfoldable pub reconnect_first : Round → List ℕ → Client → Turn Client
  reconnect_first r [] c = goes_on c
  reconnect_first r (id ∷ ids) c = reconnect_found r id c (get_elem? c.session_list id)

  unfoldable pub round : Round → Client → Turn Client
  round r c =
      let passed = reconnect_first r c.session_reconnect_id_list c in
      if r.stop_client then returns else passed

  unfoldable pub reconnecter : List Round → Client → Turn Client
  reconnecter [] c = goes_on c
  reconnecter (r ∷ rs) c = elim (round r c) [
    | returns ↦ returns
    | out_of_range ↦ out_of_range
    | goes_on c' ↦ reconnecter rs c'
  ]

  -- What a reconnected session has kept, and what is new.
  record IsBack (s s' : Channel) : Type 0 where
    connected : s'.is_connect ≡ true
    ring : s'.ring ≡ s.ring
    sending : s'.sending ≡ s.sending
    popped : s'.session_reconnect_id_list ≡ drop 1 s.session_reconnect_id_list

  received-IsBack :
      (s : Channel)
      → lib.is_full s.ring ≡ false
      → (s' : Channel) × (restart true true (some s) ≡ some s') × IsBack s s'
  unfolding restart recv_post
  received-IsBack s room = rw room (
    record (tell on_connection_complete
        (record s { is_connect = true; io_count = inc32 s.io_count })) {
          session_reconnect_id_list = drop 1 s.session_reconnect_id_list;
        },
    refl,
    record { connected = refl; ring = refl; sending = refl; popped = refl },
  )

  connect_loop-IsBack :
      (attempts : List Attempt) (s : Channel)
      → comes_through attempts ≡ true
      → lib.is_full s.ring ≡ false
      → (s' : Channel) × (restart true true (connect_loop attempts s) ≡ some s') × IsBack s s'
  unfolding comes_through connect_loop
  connect_loop-IsBack [] s through room = absurd (cc through)
  connect_loop-IsBack (connects ∷ more) s through room = received-IsBack s room
  connect_loop-IsBack (fails ∷ more) s through room = connect_loop-IsBack more s through room
  connect_loop-IsBack (is_connected false ∷ more) s through room = absurd (cc through)
  connect_loop-IsBack (is_connected true ∷ more) s through room =
      let (s', e, back) =
        connect_loop-IsBack more (tell opens_socket (tell closes_socket s)) through room in
      (
        s',
        e,
        record {
          connected = back.connected;
          ring = back.ring;
          sending = back.sending;
          popped = back.popped;
        },
      )

  reconnect-IsBack :
      (r : Round) (s : Channel)
      → IsGood r
      → lib.is_full s.ring ≡ false
      → (s' : Channel) × (reconnect r.made r.option_set r.received r.attempts s ≡ some s')
        × IsBack s s'
  unfolding reconnect
  reconnect-IsBack r s (runs, made, through, option_set, received) room =
      let (s', e, back) = connect_loop-IsBack r.attempts (tell opens_socket s) through room in
      (
        s',
        rw (made, option_set, received, reconnect) e,
        record {
          connected = back.connected;
          ring = back.ring;
          sending = back.sending;
          popped = back.popped;
        },
      )

  map-set :
      {B : Type 0} (f : Channel → B) (ss : List Channel) (i : ℕ) (s : Channel)
      → map f (set ss i s) ≡ set (map f ss) i (f s)
  map-set f [] i s = refl
  map-set f (x ∷ ss) zero s = refl
  map-set f (x ∷ ss) (suc i) s = ap (◌∷◌ (f x)) (map-set f ss i s)

  map-set_same :
      {B : Type 0} (f : Channel → B) (ss : List Channel) (i : ℕ) (s s' : Channel)
      → get_elem? ss i ≡ some s
      → f s' ≡ f s
      → map f (set ss i s') ≡ map f ss
  map-set_same f [] i s s' at_i e = refl
  map-set_same f (x ∷ ss) zero s s' at_i e = ap (λ b. b ∷ map f ss) (e ∙ cc at_i)
  map-set_same f (x ∷ ss) (suc i) s s' at_i e = ap (◌∷◌ (f x)) (map-set_same f ss i s s' at_i e)

  abbrev pub HasRoom : Channel → Type 0
  HasRoom s = lib.is_full s.ring ≡ false

  All-set :
      (ss : List Channel) (i : ℕ) (s : Channel)
      → HasRoom s
      → All HasRoom ss
      → All HasRoom (set ss i s)
  All-set [] i s room a = tt
  All-set (x ∷ ss) zero s room (first, a) = (room, a)
  All-set (x ∷ ss) (suc i) s room (first, a) = (first, All-set ss i s room a)

  get_elem?-HasRoom :
      (ss : List Channel) (i : ℕ)
      → i < length ss
      → All HasRoom ss
      → (s : Channel) × (get_elem? ss i ≡ some s) × HasRoom s
  get_elem?-HasRoom [] i h a = absurd (omega arith)
  get_elem?-HasRoom (x ∷ ss) zero h (room, a) = (x, refl, room)
  get_elem?-HasRoom (x ∷ ss) (suc i) h (room, a) = get_elem?-HasRoom ss i (omega (arith, h)) a

  abbrev client : List Channel → List ℕ → Client
  client ss ids = record { session_list = ss; session_reconnect_id_list = ids }

  -- One round with an id in the list.
  record IsTurned (r : Round) (id : ℕ) (ids : List ℕ) (ss : List Channel) : Type 0 where
    s : Channel
    s' : Channel
    at_id : get_elem? ss id ≡ some s
    turns : round r (client ss (id ∷ ids)) ≡ goes_on (client (set ss id s') ids)
    connected : s'.is_connect ≡ true
    ring : s'.ring ≡ s.ring
    sending : s'.sending ≡ s.sending
    room : HasRoom s'

  round-IsTurned :
      (r : Round) (id : ℕ) (ids : List ℕ) (ss : List Channel)
      → IsGood r
      → id < length ss
      → All HasRoom ss
      → IsTurned r id ids ss
  unfolding round reconnect_first reconnect_found put_back
  round-IsTurned r id ids ss good inside rooms =
      let (s, at_id, room) = get_elem?-HasRoom ss id inside rooms in
      let (s', back, is_back) =
        reconnect-IsBack r (record s { session_reconnect_id_list = id ∷ ids }) good room in
      record {
        s = s;
        s' = s';
        at_id = at_id;
        turns =
            rw (good.0, at_id, round, reconnect_found, back, put_back)
              (ap (λ k. goes_on (client (set ss id s') k)) is_back.popped);
        connected = is_back.connected;
        ring = is_back.ring;
        sending = is_back.sending;
        room = ap lib.is_full is_back.ring ∙ room;
      }

  -- What has come back when the ids of the list are worked through.
  abbrev AreBack : List ℕ → List Channel → Client → Type 0
  AreBack ids ss c' =
      (c'.session_reconnect_id_list ≡ [])
      × (map (λ s. s.is_connect) c'.session_list ≡ with_connected ids (map (λ s. s.is_connect) ss))
      × (map (λ s. s.ring) c'.session_list ≡ map (λ s. s.ring) ss)
      × (map (λ s. s.sending) c'.session_list ≡ map (λ s. s.sending) ss)

  All-lt : (n m : ℕ) (ids : List ℕ) → n ≡ m → All (λ id. id < n) ids → All (λ id. id < m) ids
  All-lt n m ids e a = subst (λ k. All (λ id. id < k) ids) e a

  reconnecter-AreBack :
      (rs : List Round) (ids : List ℕ) (ss : List Channel)
      → length ids ≤ length rs
      → All IsGood rs
      → All (λ id. id < length ss) ids
      → All HasRoom ss
      → (c' : Client) × (reconnecter rs (client ss ids) ≡ goes_on c') × AreBack ids ss c'
  unfolding reconnecter round reconnect_first with_connected
  reconnecter-AreBack [] [] ss enough good inside rooms =
      (client ss [], refl, (refl, refl, refl, refl))
  reconnecter-AreBack [] (id ∷ ids) ss enough good inside rooms = absurd (omega (arith, enough))
  reconnecter-AreBack (r ∷ rs) [] ss enough (first, good) inside rooms =
      let (c', e, back) = reconnecter-AreBack rs [] ss (omega arith) good tt rooms in
      (c', rw (first.0, round, reconnect_first, reconnecter) e, back)
  reconnecter-AreBack (r ∷ rs) (id ∷ ids) ss enough (first, good) (in_first, inside) rooms =
      let t = round-IsTurned r id ids ss first in_first rooms in
      let (c', e, (list, flags, rings, modes)) =
        reconnecter-AreBack rs ids (set ss id t.s') (omega (arith, enough)) good
          (All-lt (length ss) (length (set ss id t.s')) ids (sym (length-set ss id t.s')) inside)
          (All-set ss id t.s' t.room rooms) in
      (
        c',
        rw (t.turns, reconnecter) e,
        (
          list,
          flags
              ∙ ap (with_connected ids) (
                  map-set (λ s. s.is_connect) ss id t.s'
                  ∙ ap (set (map (λ s. s.is_connect) ss) id) t.connected),
          rings ∙ map-set_same (λ s. s.ring) ss id t.s t.s' t.at_id t.ring,
          modes ∙ map-set_same (λ s. s.sending) ss id t.s t.s' t.at_id t.sending,
        ),
      )

  -- While the client is not stopped, each new socket is made and takes the option, connecting succeeds
  -- in the end, and each first receive is posted: with at least as many rounds as there are ids in the
  -- list of sessions to reconnect, all of them in sessionList, and with room in every ring, the list
  -- is empty behind the rounds. The sessions of those ids are connected, the others are as connected as
  -- they were; and every session has kept its IOMode and the bytes of its ring.
  pub reconnecter-connected :
      (rs : List Round) (c : Client)
      → length c.session_reconnect_id_list ≤ length rs
      → All IsGood rs
      → All (λ id. id < length c.session_list) c.session_reconnect_id_list
      → All HasRoom c.session_list
      → (c' : Client) × (reconnecter rs c ≡ goes_on c')
        × (c'.session_reconnect_id_list ≡ [])
        × (map (λ s. s.is_connect) c'.session_list
            ≡ with_connected c.session_reconnect_id_list (map (λ s. s.is_connect) c.session_list))
        × (map (λ s. s.ring) c'.session_list ≡ map (λ s. s.ring) c.session_list)
        × (map (λ s. s.sending) c'.session_list ≡ map (λ s. s.sending) c.session_list)
  reconnecter-connected rs c enough good inside rooms =
      let (c', e, (list, flags, rings, modes)) =
        reconnecter-AreBack rs c.session_reconnect_id_list c.session_list enough good inside
          rooms in
      (c', e, list, flags, rings, modes)
