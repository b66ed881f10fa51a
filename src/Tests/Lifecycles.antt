-- ===== src/Tests/Lifecycles.antt =====
-- Sessions, connections and the log, from their beginning to their end.
use dding_game_server.Prelude.{ℕ, ◌+◌, ◌*◌, ◌≡◌, refl, true, none, some, [], ◌∷◌, length}
use dding_game_server.Prelude.Map
use dding_game_server.Prelude.Int.{pos}
use dding_game_server.AuthServer.Registry.{AuthServer, UserInfo, game2auth_register}
use dding_game_server.AuthServer.Sessions.{Received, starts, steps, Reachable}
use dding_game_server.AuthServer.DbConnector.{
  AuthOptions, AuthConnector, Answers, main_start, start_auth_server, connect_db, connect_default,
  initialize_pool, initialize_loop,
}
use dding_game_server.AuthServer.DbConnector.Starts.{main_start-connection_list}
use dding_game_server.DbServer.Connections.{DbConnection, Connects, connect, pool_rounds}
use dding_game_server.DbServer.Calls.{sql_success, sql_is_success}
use dding_game_server.Core.Logger.{write_log}
use dding_game_server.Core.Logger.Running.{opened, Reachable-log_file}
use dding_game_server.Core.Logger.Running as Running

-- The session 4 registers the game server 2.
abbrev registers : Received
registers = record { packet_type = game2auth_register; game_server_id = 2 }

abbrev one_server : AuthServer
one_server = record { game_server_map = (4, 2) ∷ []; user_info_map = [] }

-- One user on that server, and one on another.
abbrev on_server : ℕ → UserInfo
on_server id = record { user_id = 7; now_in_server_id = id }

abbrev two_users : AuthServer
two_users = record one_server { user_info_map = on_server 2 ∷ on_server 3 ∷ [] }

-- A driver that gives the handles `n` and `n + 1`.
abbrev gives : ℕ → Connects
gives n = record { alloc_dbc = some n; driver_connect = sql_success; alloc_stmt = some (n + 1) }

abbrev gives_from : ℕ → Answers
gives_from n = record {
  env = record { alloc_env = true; set_env_attr = true };
  default_connects = λ text. gives n;
  pool_env = record { alloc_env = true; set_env_attr = true };
  pool_connects = λ text i. gives (n + 10 + i);
}

abbrev two_in_pool : AuthOptions
two_in_pool = record {
  dsn = [];
  uid = [];
  password = [];
  schema_name = [];
  catalog_name = [];
  driver = [];
  connection_pool_size = pos 2;
}

abbrev closed : AuthConnector
closed = record { default_connection = none; connection_list = [] }

comes_up :
    (main_start (gives_from 100) (gives_from 200) (some two_in_pool) true true closed).0 ≡ true
unfolding main_start start_auth_server connect_db connect_default initialize_pool initialize_loop
    connect pool_rounds sql_is_success
comes_up = refl

auth_start_example :
    let r = main_start (gives_from 100) (gives_from 200) (some two_in_pool) true true closed in
    (length r.1.connection_list ≡ 2 * pool_rounds (pos 2))
    × ((c : DbConnection) × (connect (gives 100) ≡ some c))
    × (r.1.default_connection ≡ connect (gives 200))
auth_start_example =
    main_start-connection_list (gives_from 100) (gives_from 200) two_in_pool true true closed refl
      comes_up

-- A line is written before the thread runs.
logged : Running.Reachable (3 ∷ []) (write_log 8 (opened (3 ∷ [])))
logged = Running.steps (opened (3 ∷ [])) _ Running.starts (Running.writes 8 (opened (3 ∷ [])))

log_example : (write_log 8 (opened (3 ∷ []))).log_file ≡ 3 ∷ []
log_example = Reachable-log_file (3 ∷ []) (write_log 8 (opened (3 ∷ []))) logged
