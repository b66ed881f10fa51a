-- ===== src/AuthServer/DbConnector.antt =====
-- AuthServer/AuthServer/AuthDBConnector.cpp: the connections to the accounts' database, and
-- StartAuthServer of AuthServer.cpp with main.cpp, which connect to it. A connection and the calls of
-- the driver for one are those of the database server, whose pool this file has a copy of.
pub mod Starts
use dding_game_server.Prelude.{
  ℕ, zero, suc, ◌+◌, Bool, true, false, ◌&&◌, Option, none, some, List, [], ◌∷◌, ◌++◌, ◌==◌,
  if◌then◌else◌, codes,
}
use dding_game_server.Prelude.Int.{ℤ, pos, negsuc}
use dding_game_server.DbServer.Calls.{SqlReturn, sql_is_success}
use dding_game_server.DbServer.Connections.{
  DbConnection, Connects, Environment, ◌>>=◌, connect, pool_rounds,
}

-- SendQuery: `answer` is that of SQLExecDirect.
unfoldable pub send_query : SqlReturn → Bool
send_query answer = sql_is_success answer

pub record AuthOptions : Type 0 where
  pub dsn : List ℕ
  pub uid : List ℕ
  pub password : List ℕ
  pub schema_name : List ℕ
  pub catalog_name : List ℕ
  pub driver : List ℕ
  pub connection_pool_size : ℤ

-- OptionParsing: a value that the parser does not find ends it.
unfoldable pub option_parsing :
    (List ℕ → Option (List ℕ)) → (List ℕ → Option ℤ) → Option AuthOptions
option_parsing text number = do
  dsn ← text (codes "DSN")
  uid ← text (codes "UID")
  password ← text (codes "PWD")
  schema_name ← text (codes "Schema")
  catalog_name ← text (codes "CATALOG_NAME")
  driver ← text (codes "DRIVER")
  size ← number (codes "SIZE")
  some (record {
    dsn = dsn;
    uid = uid;
    password = password;
    schema_name = schema_name;
    catalog_name = catalog_name;
    driver = driver;
    connection_pool_size = size;
  })

unfoldable pub get_db_connection_string : AuthOptions → List ℕ
get_db_connection_string o =
    codes "DRIVER="
    ++ o.driver
    ++ codes ";SERVER="
    ++ o.dsn
    ++ codes ";DATABASE="
    ++ o.catalog_name
    ++ codes ";UID="
    ++ o.uid
    ++ codes ";PWD="
    ++ o.password

-- AuthDBConnector: the default connection is not set before a call of ConnectDB sets it.
pub record AuthConnector : Type 0 where
  pub default_connection : Option DbConnection
  pub connection_list : List DbConnection

-- The loop of DBConnectionPool::Initialize for `n` connections from the `i`-th on: each goes to the
-- list's end.
unfoldable pub initialize_loop :
    (ℕ → Connects) → ℕ → ℕ → List DbConnection → Bool × List DbConnection
initialize_loop connects i zero pool = (true, pool)
initialize_loop connects i (suc n) pool = elim (connect (connects i)) [
  | none ↦ (false, pool)
  | some c ↦ initialize_loop connects (i + 1) n (pool ++ c ∷ [])
]

unfoldable pub initialize_pool :
    Environment → (ℕ → Connects) → ℤ → List DbConnection → Bool × List DbConnection
initialize_pool env connects size pool =
    let filled = initialize_loop connects 0 (pool_rounds size) pool in
    if env.alloc_env && env.set_env_attr then filled else (false, pool)

unfoldable pub get_pool_connection :
    (DbConnection → DbConnection) → List DbConnection → Option DbConnection × List DbConnection
get_pool_connection released [] = (none, [])
get_pool_connection released (c ∷ pool) = (some (released c), pool)

-- What the driver answers during one call of ConnectDB.
pub record Answers : Type 0 where
  pub env : Environment
  pub default_connects : List ℕ → Connects
  pub pool_env : Environment
  pub pool_connects : List ℕ → ℕ → Connects

unfoldable pub connect_default :
    Answers → AuthOptions → Option DbConnection → AuthConnector → Bool × AuthConnector
connect_default a options none o = (false, o)
connect_default a options (some c) o =
    let text = get_db_connection_string options in
    let (done, pool) =
      initialize_pool a.pool_env (a.pool_connects text) options.connection_pool_size
        o.connection_list in
    (done, record { default_connection = some c; connection_list = pool })

-- `options` is what OptionParsing reads, if it can.
unfoldable pub connect_db : Answers → Option AuthOptions → AuthConnector → Bool × AuthConnector
connect_db a none o = (false, o)
connect_db a (some options) o =
    let text = get_db_connection_string options in
    let connected = connect_default a options (connect (a.default_connects text)) o in
    if a.env.alloc_env && a.env.set_env_attr then connected else (false, o)

-- The two servers' answers to Start.
unfoldable pub start_auth_server :
    Answers → Option AuthOptions → (lan net : Bool) → AuthConnector → Bool × AuthConnector
start_auth_server a options lan net o =
    let (connected, o') = connect_db a options o in
    if connected then (lan && net, o') else (false, o')

-- main up to its loop. Both calls read the same option file.
unfoldable pub main_start :
    (first second : Answers)
    → Option AuthOptions
    → (lan net : Bool) → AuthConnector
    → Bool × AuthConnector
main_start first second options lan net o =
    let (connected, o') = connect_db first options o in
    let started = start_auth_server second options lan net o' in
    if connected then started else (false, o')
