-- ===== src/DbServer/Metadata.antt =====
-- DBServer/DBServer/ODBCMetaData.cpp: the columns and the SQL text of the stored procedures, read
-- from the database. Each answer of the ODBC driver is a parameter, `Driver`, one for a procedure;
-- `utf16` is UTF8ToUTF16, which is not in the repository.
pub mod Text
pub mod Rounds
pub mod Load
use Prim.Native.String.{String}
use dding_game_server.Prelude.{
  ℕ, zero, suc, ◌+◌, Bool, true, false, ◌&&◌, not, Option, none, some, List, [], ◌∷◌, ◌++◌,
  if◌then◌else◌, codes,
}
use dding_game_server.Prelude.Map
use dding_game_server.Prelude.Map.{Map}
use dding_game_server.DbServer.SqlTypes.{
  SqlType, sql_numeric, sql_decimal, sql_integer, sql_bigint, sql_float, sql_real, sql_w_varchar,
  sql_varchar, sql_bit, get_data_type_name,
}

-- What SQLProcedureColumns calls a column; `sql_param_input` is what the code asks for.
pub data ColumnKind : Type 0 where
  sql_param_input : ColumnKind
  other_column : ℕ → ColumnKind
  result_column : SqlType → ColumnKind

-- Wide strings are lists of code units.
pub record ColumnInfo : Type 0 where
  pub name : List ℕ
  pub column_type : ColumnKind
  pub data_type : SqlType
  pub data_type_name : List ℕ
  pub column_size : ℕ

pub record ProcedureInfo : Type 0 where
  pub input_column_info_list : List ColumnInfo
  pub result_column_info_list : List ColumnInfo
  pub sql : List ℕ

-- The columns that BindColumn binds.
pub data ColumnNumber : Type 0 where
  column_name column_type_number data_type_number data_type_name_number : ColumnNumber
  column_size_number : ColumnNumber

-- ResultColumnInfo, what SQLDescribeCol fills.
pub record ResultColumn : Type 0 where
  pub result_name : List ℕ
  pub result_type : SqlType
  pub result_size : ℕ

pub record Driver : Type 0 where
  pub procedure_columns : Bool
  pub bind_col : ColumnNumber → Bool
  -- the rows of columns that SQLFetch gives before it gives none
  pub rows : List ColumnInfo
  pub prepare : Bool
  pub bind_parameter : ℕ → Bool
  pub execute : Bool
  pub num_result_cols : Option ℕ
  pub describe_col : ℕ → Option ResultColumn

-- What GetDefaultValue allocates.
pub data DefaultValue : Type 0 where
  int_0 int64_0 float_0 wide_space narrow_space bool_false : DefaultValue

unfoldable pub get_default_value : SqlType → Option DefaultValue
get_default_value sql_numeric = some int_0
get_default_value sql_decimal = some int_0
get_default_value sql_integer = some int_0
get_default_value sql_bigint = some int64_0
get_default_value sql_float = some float_0
get_default_value sql_real = some float_0
get_default_value sql_w_varchar = some wide_space
get_default_value sql_varchar = some narrow_space
get_default_value sql_bit = some bool_false
get_default_value _ = none

-- The loop of SettingDefaultSPMaker from the parameter `cnt` on; with the result come the parameters
-- that were bound, in order.
unfoldable pub set_defaults :
    (ℕ → Bool) → ℕ → List ColumnInfo → Bool × List (ℕ × SqlType × DefaultValue)
set_defaults bind cnt [] = (true, [])
set_defaults bind cnt (c ∷ cs) =
    let rest = set_defaults bind (cnt + 1) cs in
    elim (get_default_value c.data_type) [
      | none ↦ (false, [])
      | some v ↦ if bind cnt then (rest.0, (cnt, c.data_type, v) ∷ rest.1) else (false, [])
    ]

unfoldable pub setting_default_sp_maker :
    (ℕ → Bool) → ProcedureInfo → Bool × List (ℕ × SqlType × DefaultValue)
setting_default_sp_maker bind info = set_defaults bind 1 info.input_column_info_list

unfoldable pub bind_column : (ColumnNumber → Bool) → Bool
bind_column bind =
    bind column_name
    && bind column_type_number
    && bind data_type_number
    && bind data_type_name_number
    && bind column_size_number

abbrev pub is_input : ColumnKind → Bool
is_input sql_param_input = true
is_input _ = false

-- The body of the loop over the rows, on `isFirstParam` and the procedure.
unfoldable pub add_row : ColumnInfo → Bool × ProcedureInfo → Bool × ProcedureInfo
add_row c (first, info) =
    if is_input c.column_type
    then (
      false,
      record info {
        input_column_info_list = info.input_column_info_list ++ c ∷ [];
        sql = (if first then info.sql else info.sql ++ codes ", ") ++ codes "?";
      },
    )
    else (first, info)

unfoldable pub add_rows : List ColumnInfo → Bool × ProcedureInfo → Bool × ProcedureInfo
add_rows [] st = st
add_rows (c ∷ cs) st = add_rows cs (add_row c st)

-- `none` where it returns false.
unfoldable pub make_input_column_to_procedure_info :
    Driver → List ℕ → ProcedureInfo → Option ProcedureInfo
make_input_column_to_procedure_info db name info =
    let opened = record info { sql = codes "{CALL " ++ name ++ codes "(" } in
    let read = (add_rows db.rows (true, opened)).1 in
    if db.procedure_columns && bind_column db.bind_col
    then some (record read { sql = read.sql ++ codes ")}" })
    else none

-- The loop of MakeOutputColumnToProcedureInfo, for the `n` columns from the `i`-th on.
unfoldable pub describe_cols :
    (ℕ → Option ResultColumn) → ℕ → ℕ → ProcedureInfo → Option ProcedureInfo
describe_cols describe zero i info = some info
describe_cols describe (suc n) i info = elim (describe i) [
  | none ↦ none
  | some c ↦ describe_cols describe n (i + 1) (record info {
    result_column_info_list =
        info.result_column_info_list
        ++ record {
          name = c.result_name;
          column_type = result_column c.result_type;
          data_type = c.result_type;
          data_type_name = codes (get_data_type_name c.result_type);
          column_size = c.result_size;
        }
          ∷ [];
  })
]

unfoldable pub make_output_column_to_procedure_info : Driver → ProcedureInfo → Option ProcedureInfo
make_output_column_to_procedure_info db info = elim db.num_result_cols [
  | none ↦ none
  | some n ↦ describe_cols db.describe_col n 1 info
]

-- The calls that change the database or the connection, the last first.
pub data Effect : Type 0 where
  autocommits : Bool → Effect
  executes : List ℕ → Effect
  rolls_back : Effect

pub record MetaData : Type 0 where
  pub procedure_info_map : Map ProcedureInfo
  pub effects : List Effect

abbrev pub empty_info : ProcedureInfo
empty_info = record { input_column_info_list = []; result_column_info_list = []; sql = [] }

-- MakeProcedureColumnInfoFromDB behind MakeOutputColumnToProcedureInfo.
unfoldable pub keep_procedure : ℕ → Option ProcedureInfo → MetaData → Bool × MetaData
keep_procedure name none m = (false, m)
keep_procedure name (some info) m = (
  true,
  record {
    procedure_info_map = Map.insert name info m.procedure_info_map;
    effects = rolls_back ∷ m.effects;
  },
)

-- And behind MakeInputColumnToProcedureInfo: SQLPrepare, the defaults, whose result is not looked
-- at, and SQLExecute. What the defaults bind is no part of the state.
unfoldable pub run_procedure : Driver → ℕ → Option ProcedureInfo → MetaData → Bool × MetaData
run_procedure db name none m = (false, m)
run_procedure db name (some info) m =
    let tried = record m { effects = executes info.sql ∷ m.effects } in
    let bound = setting_default_sp_maker db.bind_parameter info in
    if db.prepare
    then (if db.execute
        then keep_procedure name (make_output_column_to_procedure_info db info) tried
        else (false, tried))
    else (false, m)

-- And behind UTF8ToUTF16.
unfoldable pub read_procedure : Driver → ℕ → Option (List ℕ) → MetaData → Bool × MetaData
read_procedure db name none m = (false, m)
read_procedure db name (some text) m =
    run_procedure db name (make_input_column_to_procedure_info db text empty_info) m

-- The body of the loop over the names.
unfoldable pub load_procedure :
    (ℕ → Option (List ℕ)) → (ℕ → Driver) → ℕ → MetaData → Bool × MetaData
load_procedure utf16 db name m = read_procedure (db name) name (utf16 name) m

-- A call that returns false ends the loop or the function that made it.
unfoldable pub when_true : Bool × MetaData → (MetaData → Bool × MetaData) → Bool × MetaData
when_true (true, m) next = next m
when_true (false, m) next = (false, m)

unfoldable pub load_procedures :
    (ℕ → Option (List ℕ)) → (ℕ → Driver) → List ℕ → MetaData → Bool × MetaData
load_procedures utf16 db [] m = (true, m)
load_procedures utf16 db (name ∷ names) m =
    when_true (load_procedure utf16 db name m) (λ m'. load_procedures utf16 db names m')

-- SQLSetConnectAttr, with its answer and whether it was to switch autocommit on.
unfoldable pub set_autocommit : Bool → Bool → MetaData → Bool × MetaData
set_autocommit answer on m =
    if answer then (true, record m { effects = autocommits on ∷ m.effects }) else (false, m)

-- `switches` is what SQLSetConnectAttr answers, with and without autocommit.
unfoldable pub make_procedure_column_info_from_db :
    (Bool → Bool) → (ℕ → Option (List ℕ)) → (ℕ → Driver) → List ℕ → MetaData → Bool × MetaData
make_procedure_column_info_from_db switches utf16 db names m =
    when_true (set_autocommit (switches false) false m)
      λ m'. when_true (load_procedures utf16 db names m') (set_autocommit (switches true) true)

unfoldable pub get_procedure_info : ℕ → MetaData → Option ProcedureInfo
get_procedure_info name m = Map.find name m.procedure_info_map
