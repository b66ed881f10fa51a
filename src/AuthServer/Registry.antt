-- ===== src/AuthServer/Registry.antt =====
-- AuthServer/AuthServer/PacketHandler.cpp (GameServerRegisterRequest, HandleGame2AuthPacket),
-- OnGameServerDisconnected of AuthServer.cpp, and GameServer/GameServer/AuthClient.cpp.
use dding_game_server.Prelude.{
  ℕ, ◌≡◌, ◌≢◌, refl, sym, subst, Bool, true, false, not, inl, inr, Option, none, some, List, [],
  ◌∷◌, ◌==◌, if◌then◌else◌, arith, Bool-cases, Option-cases, All,
}
use dding_game_server.Prelude.Map
use dding_game_server.Prelude.Map.{Map, find-erase, find-insert_cases, find-insert_present}

abbrev pub auth2game_register_success : ℕ
auth2game_register_success = 30000

abbrev pub game2auth_register : ℕ
game2auth_register = 40000

pub record UserInfo : Type 0 where
  pub user_id : ℕ
  pub now_in_server_id : ℕ

pub record AuthServer : Type 0 where
  -- the game server's id by session id
  pub game_server_map : Map ℕ
  pub user_info_map : List UserInfo

-- The loop over the map's values.
unfoldable pub is_duplicated : ℕ → Map ℕ → Bool
is_duplicated id [] = false
is_duplicated id ((_, other) ∷ m) =
    let rest = is_duplicated id m in if other == id then true else rest

-- The packet type and `isConnected` of the reply.
unfoldable pub game_server_register_request : ℕ → ℕ → AuthServer → (ℕ × Bool) × AuthServer
game_server_register_request session id sv =
    let is_connected = not (is_duplicated id sv.game_server_map) in
    (
      (auth2game_register_success, is_connected),
      if is_connected
          then record sv { game_server_map = Map.insert session id sv.game_server_map }
          else sv,
    )

-- HandleGame2AuthPacket: the reply, if there is one.
unfoldable pub handle_game2auth_packet : ℕ → ℕ → ℕ → AuthServer → Option (ℕ × Bool) × AuthServer
handle_game2auth_packet session packet_type id sv =
    let (reply, sv') = game_server_register_request session id sv in
    if packet_type == game2auth_register then (some reply, sv') else (none, sv)

-- The users who are not on the server.
unfoldable pub erase_users : ℕ → List UserInfo → List UserInfo
erase_users id [] = []
erase_users id (u ∷ us) =
    let rest = erase_users id us in if u.now_in_server_id == id then rest else u ∷ rest

unfoldable pub on_game_server_disconnected : ℕ → AuthServer → AuthServer
on_game_server_disconnected session sv = elim (Map.find session sv.game_server_map) [
  | none ↦ sv
  | some id ↦ record sv {
    game_server_map = Map.erase session sv.game_server_map;
    user_info_map = erase_users id sv.user_info_map;
  }
]

-- AuthClient::OnRecv on its `isConnected`; `none` is the crash.
unfoldable pub auth_client_on_recv : ℕ × Bool → Bool → Option Bool
auth_client_on_recv (packet_type, value) is_connected =
    if packet_type == game2auth_register
    then (if value then some true else none)
    else some is_connected

-- No two sessions have registered the same game server.
unfoldable pub IsUnique : Map ℕ → Type 0
IsUnique m = (s t id : ℕ) → Map.find s m ≡ some id → Map.find t m ≡ some id → s ≡ t

is_duplicated-found : (s id : ℕ) (m : Map ℕ) → Map.find s m ≡ some id → is_duplicated id m ≡ true
unfolding is_duplicated Map.find
is_duplicated-found s id [] h = absurd (ground arith)
is_duplicated-found s id ((k, v) ∷ m) h = ground (arith, is_duplicated-found s id m)

insert-IsUnique :
    (s id : ℕ) (m : Map ℕ) → is_duplicated id m ≡ false → IsUnique m → IsUnique (Map.insert s id m)
unfolding IsUnique
insert-IsUnique s id m fresh h = elim (Option-cases (Map.find s m)) [
  | inr (w, f) ↦ subst IsUnique (sym (find-insert_present s id w m f)) h
  | inl n ↦ λ t u j e e'. ground (
    arith,
    h t u j,
    is_duplicated-found t id m,
    is_duplicated-found u id m,
    find-insert_cases s t id j m n e,
    find-insert_cases s u id j m n e',
  )
]

-- Game servers that are registered under one session each stay so through every request, and a request whose
-- reply says that it is connected is for an id that no session had.
pub register_request-IsUnique :
    (session id : ℕ) (sv : AuthServer)
    → IsUnique sv.game_server_map
    → IsUnique (game_server_register_request session id sv).1.game_server_map
      × ((game_server_register_request session id sv).0.1 ≡ true
          → (s : ℕ) → Map.find s sv.game_server_map ≢ some id)
unfolding game_server_register_request
register_request-IsUnique session id sv h =
    elim (Bool-cases (is_duplicated id sv.game_server_map)) [
      | inl d ↦ rw (d, game_server_register_request) (h, λ e s f. ground arith)
      | inr d ↦
          rw (d, game_server_register_request)
            (
              insert-IsUnique session id sv.game_server_map d h,
              λ e s f. ground (arith, is_duplicated-found s id sv.game_server_map f),
            )
    ]

erase_users-All :
    (id : ℕ) (us : List UserInfo) → All (λ u. u.now_in_server_id ≢ id) (erase_users id us)
unfolding erase_users
erase_users-All id [] = tt
erase_users-All id (u ∷ us) = elim (Bool-cases (u.now_in_server_id == id)) [
  | inl e ↦ rw (e, erase_users) (erase_users-All id us)
  | inr e ↦ rw (e, erase_users) (λ same. ground arith, erase_users-All id us)
]

-- While no two sessions have the same game server: when the session of a registered one goes, no user is left on that server, no session
-- has its id any more, and the other sessions keep theirs.
pub on_game_server_disconnected_lem :
    (session id : ℕ) (sv : AuthServer)
    → IsUnique sv.game_server_map
    → Map.find session sv.game_server_map ≡ some id
    → let sv' = on_game_server_disconnected session sv in
      All (λ u. u.now_in_server_id ≢ id) sv'.user_info_map
      × ((s : ℕ) → Map.find s sv'.game_server_map ≢ some id)
      × ((s : ℕ) → s ≢ session → Map.find s sv'.game_server_map ≡ Map.find s sv.game_server_map)
unfolding on_game_server_disconnected IsUnique
on_game_server_disconnected_lem session id sv h f =
    rw (f, on_game_server_disconnected)
      (
        erase_users-All id sv.user_info_map,
        λ s e. ground (arith, find-erase session s sv.game_server_map, h s session id),
        λ s ne. ground (arith, find-erase session s sv.game_server_map),
      )

-- Whatever the server answers to a registration, the client that asked ignores it: it waits for
-- another packet type, and stays as connected or unconnected as it was.
auth_client_on_recv-ignored :
    (session id : ℕ) (sv : AuthServer) (is_connected : Bool)
    → auth_client_on_recv (game_server_register_request session id sv).0 is_connected
      ≡ some is_connected
unfolding auth_client_on_recv game_server_register_request
auth_client_on_recv-ignored session id sv is_connected = refl
