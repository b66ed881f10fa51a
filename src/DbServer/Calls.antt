-- ===== src/DbServer/Calls.antt =====
-- The calls of stored procedures of DBServer/DBServer: SettingSPMaker of ODBCMetaData.h, DBSendQuery
-- and DBSendQueryDirect of ODBCUtil.cpp, and the templates of ODBCConnector.h. The answers of the
-- ODBC driver are parameters.
pub mod Bounds
pub mod ByName
pub mod Results
use Prim.Native.String.{String}
use text.Mathlib.Text
use dding_game_server.Prelude.{
  ◌||◌, ℕ, zero, suc, ◌+◌, ◌-◌, Bool, true, false, Option, none, some, List, [], ◌∷◌, ◌++◌, ltb,
  if◌then◌else◌, length, get_elem?,
}
use dding_game_server.DbServer.SqlTypes.{
  CType, SqlType, CppType, Pointed, trait_c_type, trait_sql_type, get_pointer_from_t, get_c_type,
  get_sql_type, get_buffer_size, get_pointer_from_pointer_type_string,
}
use dding_game_server.DbServer.Metadata.{ProcedureInfo, MetaData, get_procedure_info}

pub data SqlReturn : Type 0 where
  sql_success sql_success_with_info sql_error : SqlReturn

unfoldable pub sql_is_success : SqlReturn → Bool
sql_is_success sql_success = true
sql_is_success sql_success_with_info = true
sql_is_success sql_error = false

abbrev pub is_sql_success : SqlReturn → Bool
is_sql_success sql_success = true
is_sql_success _ = false

-- A call returns, or reads an element behind the end of a vector.
pub data Outcome (A : Type 0) : Type 0 where
  returns : A → Outcome A
  reads_out_of_range : Outcome A

-- A call of SQLBindParameter.
pub record Binding : Type 0 where
  pub location : ℕ
  pub c_type : CType
  pub sql_type : SqlType
  pub pointed : Pointed

-- What runs on a statement: SQLExecute what was prepared on it before, SQLExecDirect a text.
pub data Query : Type 0 where
  prepared_before : Query
  direct : List ℕ → Query

pub record Statement : Type 0 where
  pub bindings : List Binding
  pub queries : List Query

-- What the driver answers.
pub record Answers : Type 0 where
  pub bind_parameter : ℕ → SqlReturn
  pub execute : SqlReturn
  pub exec_direct : List ℕ → SqlReturn

-- `if (call == false) return false;`, and on with `next`.
unfoldable pub and_then :
    Outcome Bool × Statement → (Statement → Outcome Bool × Statement) → Outcome Bool × Statement
and_then (returns true, st) next = next st
and_then (returns false, st) next = (returns false, st)
and_then (reads_out_of_range, st) next = (reads_out_of_range, st)

unfoldable pub bind_parameter : Answers → Binding → Statement → Outcome Bool × Statement
bind_parameter db b st =
    if sql_is_success (db.bind_parameter b.location)
    then (returns true, record st { bindings = st.bindings ++ b ∷ [] })
    else (returns false, st)

-- ODBCUtil::SettingSPMaker: it does not look at the types that it is given.
unfoldable pub odbc_setting_sp_maker : Answers → ℕ → CppType → Statement → Outcome Bool × Statement
odbc_setting_sp_maker db location t st =
    bind_parameter db
      (record {
        location = location;
        c_type = trait_c_type t;
        sql_type = trait_sql_type t;
        pointed = get_pointer_from_t t;
      })
      st

-- ProcedureInfo::SettingSPMaker with one argument, of type `t`; the first location is 1.
unfoldable pub set_parameter :
    Answers → ProcedureInfo → ℕ → CppType → Statement → Outcome Bool × Statement
set_parameter db info location t st =
    let index = location - 1 in
    if ltb (length info.input_column_info_list) index
    then (returns false, st)
    else if ltb index (length info.input_column_info_list)
    then odbc_setting_sp_maker db location t st
    else (reads_out_of_range, st)

-- And with more arguments behind it.
unfoldable pub setting_sp_maker :
    Answers → ProcedureInfo → ℕ → CppType → List CppType → Statement → Outcome Bool × Statement
setting_sp_maker db info location t [] st = set_parameter db info location t st
setting_sp_maker db info location t (u ∷ us) st =
    and_then (set_parameter db info location t st) (setting_sp_maker db info (location + 1) u us)

unfoldable pub db_send_query : Answers → Statement → Outcome Bool × Statement
db_send_query db st =
    (returns (is_sql_success db.execute), record st { queries = prepared_before ∷ st.queries })

unfoldable pub db_send_query_direct : Answers → List ℕ → Statement → Outcome Bool × Statement
db_send_query_direct db sql st =
    (returns (sql_is_success (db.exec_direct sql)), record st { queries = direct sql ∷ st.queries })

-- CallStoredProcedure of a name, behind GetProcedureInfo.
unfoldable pub call_prepared :
    Answers → Option ProcedureInfo → CppType → List CppType → Statement → Outcome Bool × Statement
call_prepared db none t ts st = (returns false, st)
call_prepared db (some info) t ts st =
    and_then (setting_sp_maker db info 1 t ts st) (db_send_query db)

unfoldable pub call_stored_procedure :
    Answers → MetaData → ℕ → CppType → List CppType → Statement → Outcome Bool × Statement
call_stored_procedure db m name t ts st = call_prepared db (get_procedure_info name m) t ts st

-- CallSPDirect of a ProcedureInfo; `none` is nullptr.
unfoldable pub call_sp_direct :
    Answers → Option ProcedureInfo → CppType → List CppType → Statement → Outcome Bool × Statement
call_sp_direct db none t ts st = (returns false, st)
call_sp_direct db (some info) t ts st =
    and_then (setting_sp_maker db info 1 t ts st) (db_send_query_direct db info.sql)

-- CallSPDirect of a name.
unfoldable pub call_sp_direct_by_name :
    Answers → MetaData → ℕ → CppType → List CppType → Statement → Outcome Bool × Statement
call_sp_direct_by_name db m name t ts st = call_sp_direct db (get_procedure_info name m) t ts st

-- The loop of CallSPDirectWithSPObject over the types' names of the properties; `pointers` is the
-- size of `realPointerList`.
unfoldable pub bind_properties :
    Answers → ℕ → ℕ → List String → Statement → Outcome Bool × Statement
bind_properties db pointers location [] st = (returns true, st)
bind_properties db pointers location (p ∷ ps) st =
    let bound =
      bind_parameter db
        (record {
          location = location;
          c_type = get_c_type p;
          sql_type = get_sql_type p;
          pointed = get_pointer_from_pointer_type_string p;
        })
        st in
    let done = and_then bound (bind_properties db pointers (location + 1) ps) in
    if ltb (location - 1) pointers then done else (reads_out_of_range, st)

unfoldable pub call_sp_direct_with_sp_object :
    Answers → Option ProcedureInfo → List String → ℕ → Statement → Outcome Bool × Statement
call_sp_direct_with_sp_object db none ps pointers st = (returns false, st)
call_sp_direct_with_sp_object db (some info) ps pointers st =
    and_then (bind_properties db pointers 1 ps st) (db_send_query_direct db info.sql)

-- SQLGetData of a row: the column's index from 1, the type, and the size of the buffer.
abbrev pub Row : Type 0 → Type 0
Row V = ℕ → CType → ℕ → Option V

-- `none` is nullopt.
abbrev pub Read : Type 0 → Type 0
Read V = Outcome (Option (List V))

unfoldable pub prepend : {V : Type 0} → V → Read V → Read V
prepend v (returns (some vs)) = returns (some (v ∷ vs))
prepend v r = r

-- What the copy of the result object keeps of a value. The text of an FWString or an FString was
-- written behind its end: the string's own size is still 0, and the copy is empty.
unfoldable pub copied : {V : Type 0} → V → String → V → V
copied empty_text name v =
    if Text.◌==◌ name "FWString" || Text.◌==◌ name "FString" then empty_text else v

-- The loop over the `n` columns from the `index`-th on.
unfoldable pub get_columns : {V : Type 0} → V → List String → Row V → ℕ → ℕ → Read V
get_columns empty_text names row zero index = returns (some [])
get_columns empty_text names row (suc n) index = elim (get_elem? names (index - 1)) [
  | none ↦ reads_out_of_range
  | some name ↦ elim (row index (get_c_type name) (get_buffer_size name)) [
    | none ↦ returns none
    | some v ↦ prepend (copied empty_text name v) (get_columns empty_text names row n (index + 1))
  ]
]

-- A row that was read, and the rows behind it.
unfoldable pub get_rows : {V : Type 0} → Read V → Read (List V) → Read (List V)
get_rows (returns (some vs)) rest = prepend vs rest
get_rows (returns none) rest = returns none
get_rows reads_out_of_range rest = reads_out_of_range

-- GetSPResult, over the rows that SQLFetch gives, for results of `n` columns; `empty_text` is an empty
-- string.
unfoldable pub get_sp_result : {V : Type 0} → V → List String → ℕ → List (Row V) → Read (List V)
get_sp_result empty_text names n [] = returns (some [])
get_sp_result empty_text names n (row ∷ rows) =
    get_rows (get_columns empty_text names row n 1) (get_sp_result empty_text names n rows)
