-- ===== src/AuthServer/Sessions.antt =====
-- AuthLanServer of AuthServer/AuthServer/AuthServer.cpp: what the sessions of game servers bring to the
-- registry, one call at a time.
use dding_game_server.Prelude.{ℕ, Bool, inl, inr, Option, [], ◌==◌, arith, Bool-cases, Option-cases}
use dding_game_server.Prelude.Map
use dding_game_server.Prelude.Map.{Map, Distinct, insert-Distinct, erase-Distinct}
use dding_game_server.AuthServer.Registry.{
  AuthServer, is_duplicated, game_server_register_request, handle_game2auth_packet,
  on_game_server_disconnected, IsUnique, register_request-IsUnique, game2auth_register,
}

-- A packet: its type, and the id that GameServerRegisterRequest reads behind it.
pub record Received : Type 0 where
  pub packet_type : ℕ
  pub game_server_id : ℕ

-- The reply goes to the session itself.
unfoldable pub on_recv : ℕ → Received → AuthServer → Option (ℕ × Bool) × AuthServer
on_recv session p sv = handle_game2auth_packet session p.packet_type p.game_server_id sv

unfoldable pub on_client_leave : ℕ → AuthServer → AuthServer
on_client_leave session sv = on_game_server_disconnected session sv

-- OnClientJoin does nothing, and no connection is refused.
pub data Step : AuthServer → AuthServer → Type 0 where
  joins : (session : ℕ) (sv : AuthServer) → Step sv sv
  receives : (session : ℕ) (p : Received) (sv : AuthServer) → Step sv (on_recv session p sv).1
  leaves : (session : ℕ) (sv : AuthServer) → Step sv (on_client_leave session sv)

abbrev pub no_servers : AuthServer
no_servers = record { game_server_map = []; user_info_map = [] }

pub data Reachable : AuthServer → Type 0 where
  starts : Reachable no_servers
  steps : (sv sv' : AuthServer) → Reachable sv → Step sv sv' → Reachable sv'

-- One entry for a session, and one session for a game server.
pub record IsRegistry (sv : AuthServer) : Type 0 where
  pub distinct : Distinct sv.game_server_map
  pub unique : IsUnique sv.game_server_map

no_servers-IsRegistry : IsRegistry no_servers
unfolding IsUnique Map.find
no_servers-IsRegistry = record { distinct = tt; unique = λ s t id f g. absurd (ground arith) }

register_request-IsRegistry :
    (session id : ℕ) (sv : AuthServer)
    → IsRegistry sv
    → IsRegistry (game_server_register_request session id sv).1
unfolding game_server_register_request
register_request-IsRegistry session id sv r = record {
  distinct = elim (Bool-cases (is_duplicated id sv.game_server_map)) [
    | inl d ↦ rw (d, game_server_register_request) r.distinct
    | inr d ↦
        rw (d, game_server_register_request)
          (insert-Distinct session id sv.game_server_map r.distinct)
  ];
  unique = (register_request-IsUnique session id sv r.unique).0;
}

on_recv-IsRegistry :
    (session : ℕ) (p : Received) (sv : AuthServer)
    → IsRegistry sv
    → IsRegistry (on_recv session p sv).1
unfolding on_recv handle_game2auth_packet
on_recv-IsRegistry session p sv r = elim (Bool-cases (p.packet_type == game2auth_register)) [
  | inl y ↦
      rw (y, on_recv, handle_game2auth_packet)
        (register_request-IsRegistry session p.game_server_id sv r)
  | inr n ↦ rw (n, on_recv, handle_game2auth_packet) r
]

erase-IsUnique : (session : ℕ) (m : Map ℕ) → IsUnique m → IsUnique (Map.erase session m)
unfolding IsUnique
erase-IsUnique session m u s t id f g =
    ground (arith, u s t id, Map.find-erase session s m, Map.find-erase session t m)

on_client_leave-IsRegistry :
    (session : ℕ) (sv : AuthServer) → IsRegistry sv → IsRegistry (on_client_leave session sv)
unfolding on_client_leave on_game_server_disconnected
on_client_leave-IsRegistry session sv r =
    elim (Option-cases (Map.find session sv.game_server_map)) [
      | inl n ↦ rw (n, on_client_leave, on_game_server_disconnected) r
      | inr (id, f) ↦
          rw (f, on_client_leave, on_game_server_disconnected)
            record {
              distinct = erase-Distinct session sv.game_server_map r.distinct;
              unique = erase-IsUnique session sv.game_server_map r.unique;
            }
    ]

Step-IsRegistry : (sv sv' : AuthServer) → Step sv sv' → IsRegistry sv → IsRegistry sv'
Step-IsRegistry sv _ (joins session _) r = r
Step-IsRegistry sv _ (receives session p _) r = on_recv-IsRegistry session p sv r
Step-IsRegistry sv _ (leaves session _) r = on_client_leave-IsRegistry session sv r

pub Reachable-IsRegistry : (sv : AuthServer) → Reachable sv → IsRegistry sv
Reachable-IsRegistry _ starts = no_servers-IsRegistry
Reachable-IsRegistry sv' (steps sv _ before s) =
    Step-IsRegistry sv sv' s (Reachable-IsRegistry sv before)
