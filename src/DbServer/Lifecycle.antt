-- ===== src/DbServer/Lifecycle.antt =====
-- ODBCConnector::InitDB, MakeProcedureFromDB and DisconnectDB and DBConnectionPool::Cleanup of
-- DBServer/DBServer/ODBCConnector.cpp, and main of DBServer/DBServer/main.cpp around them.
use dding_game_server.Prelude.{
  ℕ, ◌<◌, ◌≡◌, refl, sym, ap, subst, ◌∙◌, Bool, true, false, inl, inr, Option, some, none, List, [],
  ◌∷◌, map, length, ◌==◌, if◌then◌else◌, arith, All,
}
use dding_game_server.Prelude.Int.{pos}
use mathlib.Core.List.{Memᴰ}
use mathlib.Core.List.Memᴰ
use dding_game_server.DbServer.Metadata.{
  Driver, ProcedureInfo, MetaData, make_procedure_column_info_from_db, get_procedure_info,
}
use dding_game_server.DbServer.Metadata.Rounds.{described}
use dding_game_server.DbServer.Metadata.Load.{make_procedure_column_info_lem}
use dding_game_server.DbServer.ProcedureNames.{get_procedure_name_from_db}
use dding_game_server.DbServer.ProcedureNames.Cuts.{
  all_read, texts_read, Told, get_procedure_name_from_db_lem,
}
use dding_game_server.DbServer.Connections.{
  DbConnection, Connects, Environment, Options, Connector, connect_db, pool_rounds,
}
use dding_game_server.DbServer.Connections.Pool.{connect_db-pool}

-- What the driver answers to InitDB: for the statement and SQLProcedures, the rows, the switches of
-- autocommit, and for each procedure. A procedure's name is known by its number, `number`.
pub record Catalog : Type 0 where
  pub has_handle : Bool
  pub listed : Bool
  pub rows : List (Option (List ℕ))
  pub number : List ℕ → ℕ
  pub switches : Bool → Bool
  pub utf16 : ℕ → Option (List ℕ)
  pub driver : ℕ → Driver

abbrev pub fresh : MetaData
fresh = record { procedure_info_map = []; effects = [] }

-- Behind GetProcedureNameFromDB.
unfoldable pub make_column_info : Catalog → Bool × List (List ℕ) → MetaData → Bool × MetaData
make_column_info c (false, names) m = (false, m)
make_column_info c (true, names) m =
    make_procedure_column_info_from_db c.switches c.utf16 c.driver (map c.number names) m

-- `metaData` is not null: InitDB has made it.
unfoldable pub make_procedure_from_db : Catalog → MetaData → Bool × MetaData
make_procedure_from_db c m =
    make_column_info c (get_procedure_name_from_db c.has_handle c.listed c.rows []) m

-- Whatever `metaData` was.
unfoldable pub init_db : Catalog → MetaData → Bool × MetaData
init_db c m = make_procedure_from_db c fresh

-- A call ends, or the loop reads the element that it has taken out of the list.
pub data Ended (A : Type 0) : Type 0 where
  ended : A → Ended A
  reads_erased : Ended A

-- The handles that are freed, the last first.
unfoldable pub cleanup : List DbConnection → List DbConnection → Ended (List DbConnection)
cleanup [] freed = ended freed
cleanup (c ∷ pool) freed = reads_erased

unfoldable pub free_default :
    Option DbConnection → Ended (List DbConnection) → Ended (List DbConnection)
free_default none freed = freed
free_default (some c) reads_erased = reads_erased
free_default (some c) (ended freed) = ended (c ∷ freed)

unfoldable pub disconnect_db : Connector → Ended (List DbConnection)
disconnect_db o = free_default o.default_connection (cleanup o.connection_pool [])

-- `none` where getcwd fails; else what the migrator returns.
unfoldable pub try_db_migration : Option ℕ → Bool
try_db_migration none = false
try_db_migration (some result) = result == 0

-- main connects, initialises where it is connected, serves, whatever came of it, and disconnects; at
-- the end every connection is back in the pool. With its end come the procedures.
unfoldable pub main_run :
    Option ℕ → Bool × Connector → Catalog → MetaData → Ended (List DbConnection) × MetaData
main_run migrated connected c m =
    if try_db_migration migrated
    then (disconnect_db connected.1, if connected.0 then (init_db c m).1 else m)
    else (ended [], m)

map-All :
    {A B : Type 0} (P : B → Type 0) (f : A → B) (xs : List A) (x : A)
    → All P (map f xs)
    → Memᴰ x xs
    → P (f x)
map-All P f [] x all i = absurd (Memᴰ.not-nil i)
map-All P f (y ∷ ys) x (p, all) i = elim (Memᴰ.cases_cons i) [
  | inl e ↦ subst (λ z. P (f z)) (sym e) p
  | inr j ↦ map-All P f ys x all j
]

-- Behind GetProcedureNameFromDB, for a name that it gave.
column_info-entries :
    (c : Catalog) (name : List ℕ) (r : Bool × List (List ℕ))
    → c.switches ≡ (λ _. true)
    → (make_column_info c r fresh).0 ≡ true
    → Memᴰ name r.1
    → (r.0 ≡ true)
      × ((info entry : ProcedureInfo) × (described c.utf16 c.driver (c.number name) ≡ some info)
          × (get_procedure_info (c.number name) (make_column_info c r fresh).1 ≡ some entry))
unfolding make_column_info
column_info-entries c name (false, names) switches h i = absurd (cc h)
column_info-entries c name (true, names) switches h i =
    let loaded = (make_procedure_column_info_lem c.utf16 c.driver (map c.number names) fresh).1 in
    (
      refl,
      rw (switches, make_column_info)
          (map-All _ c.number names name (loaded (rw (switches, make_column_info) at h)) i),
    )

-- If InitDB returns true, where there is a statement handle and SQLProcedures succeeds, every row of
-- the catalogue could be read, and each procedure that a row tells of has an entry, whatever metadata
-- there was. SQLSetConnectAttr is taken to succeed.
init_db_lem :
    (c : Catalog) (m : MetaData) (name : List ℕ)
    → c.has_handle ≡ true
    → c.listed ≡ true
    → c.switches ≡ (λ _. true)
    → (init_db c m).0 ≡ true
    → Told (texts_read c.rows) name
    → (all_read c.rows ≡ true)
      × ((info entry : ProcedureInfo) × (described c.utf16 c.driver (c.number name) ≡ some info)
          × (get_procedure_info (c.number name) (init_db c m).1 ≡ some entry))
unfolding init_db make_procedure_from_db make_column_info
init_db_lem c m name handle listed switches h told =
    let r = get_procedure_name_from_db c.has_handle c.listed c.rows [] in
    let (read, names) = get_procedure_name_from_db_lem c.rows [] name in
    let same : r ≡ get_procedure_name_from_db true true c.rows [] =
      ap (λ b. get_procedure_name_from_db b c.listed c.rows []) handle
      ∙ ap (λ b. get_procedure_name_from_db true b c.rows []) listed in
    let (came, entry) =
      column_info-entries c name r switches h
        (subst (λ x. Memᴰ name x.1) (sym same) (names.1 (inr told))) in
    (sym read ∙ ap (λ x. x.0) (sym same) ∙ came, entry)

cleanup-reads_erased :
    (pool freed : List DbConnection) → 0 < length pool → cleanup pool freed ≡ reads_erased
unfolding cleanup
cleanup-reads_erased [] freed h = absurd (omega arith)
cleanup-reads_erased (c ∷ pool) freed h = refl

free_default-reads_erased : (o : Option DbConnection) → free_default o reads_erased ≡ reads_erased
unfolding free_default
free_default-reads_erased none = refl
free_default-reads_erased (some c) = refl

pool_rounds-positive : (n : ℕ) → 0 < pool_rounds (pos n)
unfolding pool_rounds
pool_rounds-positive n = ground arith

-- Once ConnectDB has succeeded, with a pool of any size that is not negative, main ends by reading
-- an element of the list that was taken out of it.
main_run-reads_erased :
    (env pool_env : Environment) (one : List ℕ → Connects) (connects : List ℕ → ℕ → Connects)
    (options : Options) (o : Connector) (size : ℕ) (c : Catalog) (m : MetaData)
    → options.connection_pool_size ≡ pos size
    → (connect_db env pool_env one connects (some options) o).0 ≡ true
    → (main_run (some 0) (connect_db env pool_env one connects (some options) o) c m).0
      ≡ reads_erased
unfolding main_run try_db_migration disconnect_db
main_run-reads_erased env pool_env one connects options o size c m s h =
    let r = connect_db env pool_env one connects (some options) o in
    let (default, full) = connect_db-pool env pool_env one connects options o h in
    let rounds : 0 < pool_rounds options.connection_pool_size =
      subst (λ z. 0 < pool_rounds z) (sym s) (pool_rounds-positive size) in
    ap (free_default r.1.default_connection)
      (cleanup-reads_erased r.1.connection_pool [] (omega (arith, full, rounds)))
    ∙ free_default-reads_erased r.1.default_connection
