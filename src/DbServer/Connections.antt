-- ===== src/DbServer/Connections.antt =====
-- DBConnectionPool and the connecting half of ODBCConnector, DBServer/DBServer/ODBCConnector.cpp.
-- The driver and the option file's parser are parameters.
pub mod Pool
use dding_game_server.Prelude.{
  ℕ, zero, suc, ◌+◌, Bool, true, false, ◌&&◌, Option, none, some, List, [], ◌∷◌, ◌++◌, ◌==◌,
  if◌then◌else◌, codes,
}
use dding_game_server.Prelude.Int.{ℤ, pos, negsuc}
use dding_game_server.DbServer.Calls.{SqlReturn, sql_is_success}

pub record DbConnection : Type 0 where
  pub dbc_handle : ℕ
  pub stmt_handle : ℕ

-- What the driver answers to the calls for one connection; `none` is a failure.
pub record Connects : Type 0 where
  pub alloc_dbc : Option ℕ
  pub driver_connect : SqlReturn
  pub alloc_stmt : Option ℕ

-- And to those for the environment.
pub record Environment : Type 0 where
  pub alloc_env : Bool
  pub set_env_attr : Bool

infixl 5 ◌>>=◌
abbrev pub ◌>>=◌ {ℓ κ} : {A : Type ℓ} {B : Type κ} → Option A → (A → Option B) → Option B
none >>= f = none
some a >>= f = f a

unfoldable pub connect : Connects → Option DbConnection
connect c = do
  dbc ← c.alloc_dbc
  stmt ← if sql_is_success c.driver_connect then c.alloc_stmt else none
  some (record { dbc_handle = dbc; stmt_handle = stmt })

-- The loop of DBConnectionPool::Initialize for `n` connections from the `i`-th on.
unfoldable pub fill : (ℕ → Connects) → ℕ → ℕ → List DbConnection → Bool × List DbConnection
fill connects i zero pool = (true, pool)
fill connects i (suc n) pool = elim (connect (connects i)) [
  | none ↦ (false, pool)
  | some c ↦ fill connects (i + 1) n (pool ++ c ∷ [])
]

-- `poolSize` is an int: 0 is taken for 1, and with a negative one the loop has no round.
unfoldable pub pool_rounds : ℤ → ℕ
pool_rounds (pos n) = if n == 0 then 1 else n
pool_rounds (negsuc n) = 0

unfoldable pub initialize :
    Environment → (ℕ → Connects) → ℤ → List DbConnection → Bool × List DbConnection
initialize env connects size pool =
    if env.alloc_env && env.set_env_attr
    then fill connects 0 (pool_rounds size) pool
    else (false, pool)

-- The element is read after it has left the list: `released` is what the read gives.
unfoldable pub get_connection :
    (DbConnection → DbConnection) → List DbConnection → Option DbConnection × List DbConnection
get_connection released [] = (none, [])
get_connection released (c ∷ pool) = (some (released c), pool)

unfoldable pub free_connection : DbConnection → List DbConnection → List DbConnection
free_connection c pool = pool ++ c ∷ []

pub record Options : Type 0 where
  pub dsn : List ℕ
  pub uid : List ℕ
  pub password : List ℕ
  pub catalog_name : List ℕ
  pub schema_name : List ℕ
  pub driver : List ℕ
  pub port : ℤ
  pub connection_pool_size : ℤ

-- OptionParsing: a value that the parser does not find ends it. Every section but the last value's
-- is "ODBC".
unfoldable pub option_parsing : (List ℕ → Option (List ℕ)) → (List ℕ → Option ℤ) → Option Options
option_parsing text number = do
  dsn ← text (codes "DSN")
  uid ← text (codes "UID")
  password ← text (codes "PWD")
  schema_name ← text (codes "Schema")
  catalog_name ← text (codes "CATALOG_NAME")
  driver ← text (codes "DRIVER")
  port ← number (codes "PORT")
  size ← number (codes "SIZE")
  some (record {
    dsn = dsn;
    uid = uid;
    password = password;
    catalog_name = catalog_name;
    schema_name = schema_name;
    driver = driver;
    port = port;
    connection_pool_size = size;
  })

unfoldable pub get_db_connection_string : Options → List ℕ
get_db_connection_string o =
    codes "DRIVER="
    ++ o.driver
    ++ codes ";SERVER="
    ++ o.dsn
    ++ codes ";DATABASE="
    ++ o.catalog_name
    ++ codes ";UID="
    ++ o.uid
    ++ codes ";PWD="
    ++ o.password

pub record Connector : Type 0 where
  pub default_connection : Option DbConnection
  pub connection_pool : List DbConnection

-- ConnectDB behind the default connection: the pool.
unfoldable pub connect_pool :
    Environment → (ℕ → Connects) → ℤ → Option DbConnection → Connector → Bool × Connector
connect_pool env connects size none o = (false, o)
connect_pool env connects size (some c) o =
    let r = initialize env connects size o.connection_pool in
    (r.0, record { default_connection = some c; connection_pool = r.1 })

-- And behind OptionParsing. `env` answers for the default connection, `pool_env` for the pool; what
-- connects depends on the connection string.
unfoldable pub connect_db :
    (env pool_env : Environment)
    → (List ℕ → Connects)
    → (List ℕ → ℕ → Connects)
    → Option Options
    → Connector
    → Bool × Connector
connect_db env pool_env one connects none o = (false, o)
connect_db env pool_env one connects (some options) o =
    let text = get_db_connection_string options in
    let connected =
      connect_pool pool_env (connects text) options.connection_pool_size (connect (one text)) o in
    if env.alloc_env && env.set_env_attr then connected else (false, o)
