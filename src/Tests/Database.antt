-- ===== src/Tests/Database.antt =====
-- The theorems on the procedures and connections of DBServer, and on the data files of
-- ScriptToObject, at small inputs.
use dding_game_server.Prelude.{
  ℕ, ◌≡◌, refl, Bool, true, false, ◌⊎◌, Option, none, some, List, [], ◌∷◌, take, ◌==◌,
  if◌then◌else◌, arith, All, codes,
}
use dding_game_server.DbServer.SqlTypes.{int, sql_integer}
use dding_game_server.DbServer.Metadata.{
  ColumnInfo, sql_param_input, other_column, ProcedureInfo, Driver, MetaData, bind_column,
  empty_info, make_input_column_to_procedure_info, make_procedure_column_info_from_db,
  get_procedure_info,
}
use dding_game_server.DbServer.Metadata.Text.{make_input_column-text}
use dding_game_server.DbServer.Metadata.Rounds.{described, is_autocommit}
use dding_game_server.DbServer.Metadata.Load.{IsIn, make_procedure_column_info_lem}
use dding_game_server.DbServer.Calls.{
  Answers, Statement, sql_success, returns, reads_out_of_range, sql_is_success, setting_sp_maker,
  Row, get_sp_result,
}
use dding_game_server.DbServer.Calls.Bounds.{bindings_of, bound, setting_sp_maker_lem}
use dding_game_server.DbServer.Calls.Results.{get_sp_result_lem}

abbrev column : List ℕ → ColumnInfo
column name = record {
  name = name;
  column_type = sql_param_input;
  data_type = sql_integer;
  data_type_name = codes "int";
  column_size = 4;
}

abbrev two_inputs : Driver
two_inputs = record {
  procedure_columns = true;
  bind_col = λ c. true;
  rows =
      column (codes "id")
      ∷ record (column (codes "r")) { column_type = other_column 5 }
      ∷ column (codes "n")
      ∷ [];
  prepare = true;
  bind_parameter = λ i. true;
  execute = true;
  num_result_cols = some 0;
  describe_col = λ i. none;
}

text_example :
    make_input_column_to_procedure_info two_inputs (codes "f") empty_info
    ≡ some (record empty_info {
      input_column_info_list = column (codes "id") ∷ column (codes "n") ∷ [];
      sql = codes "{CALL f(?, ?)}";
    })
unfolding bind_column
text_example = make_input_column-text two_inputs (codes "f") empty_info

-- The driver cannot execute the procedure 2.
abbrev drivers : ℕ → Driver
drivers n = if n == 2 then record two_inputs { execute = false } else two_inputs

abbrev names_of : ℕ → Option (List ℕ)
names_of n = some (codes "f")

abbrev no_metadata : MetaData
no_metadata = record { procedure_info_map = []; effects = [] }

abbrev loaded : Bool × MetaData
loaded =
    make_procedure_column_info_from_db (λ b. true) names_of drivers (1 ∷ 2 ∷ 3 ∷ []) no_metadata

load_example :
    (is_autocommit loaded.1.effects ≡ loaded.0)
    × (loaded.0 ≡ true
        → All
            (λ name.
              (info : ProcedureInfo) × (entry : ProcedureInfo) × (described names_of drivers name
                ≡ some info)
              × (get_procedure_info name loaded.1 ≡ some entry))
            (1 ∷ 2 ∷ 3 ∷ []))
    × (loaded.0 ≡ false
        → (name : ℕ) × IsIn name (1 ∷ 2 ∷ 3 ∷ []) × (described names_of drivers name ≡ none))
    × ((name : ℕ) (info : ProcedureInfo)
        → get_procedure_info name loaded.1 ≡ some info
        → (get_procedure_info name no_metadata ≡ some info)
          ⊎ (described names_of drivers name ≡ some info))
load_example = make_procedure_column_info_lem names_of drivers (1 ∷ 2 ∷ 3 ∷ []) no_metadata

abbrev accepting : Answers
accepting = record {
  bind_parameter = λ i. sql_success;
  execute = sql_success;
  exec_direct = λ sql. sql_success;
}

accepts : (location : ℕ) → sql_is_success (accepting.bind_parameter location) ≡ true
unfolding sql_is_success
accepts location = refl

abbrev two_columns : ProcedureInfo
two_columns = record empty_info {
  input_column_info_list = column (codes "id") ∷ column (codes "n") ∷ [];
}

abbrev fresh : Statement
fresh = record { bindings = []; queries = [] }

bounds_example :
    setting_sp_maker accepting two_columns 1 int (int ∷ int ∷ []) fresh
    ≡ (reads_out_of_range, bound fresh (take 2 (bindings_of 1 (int ∷ int ∷ int ∷ []))))
bounds_example = setting_sp_maker_lem accepting two_columns int (int ∷ int ∷ []) fresh accepts

-- A row of the numbers of its columns.
abbrev numbered : Row ℕ
numbered index t size = some index

result_example :
    get_sp_result 0 ("int" ∷ "FWString" ∷ []) 2 (numbered ∷ numbered ∷ [])
    ≡ returns (some ((1 ∷ 0 ∷ []) ∷ (1 ∷ 0 ∷ []) ∷ []))
result_example =
    get_sp_result_lem 0 ("int" ∷ "FWString" ∷ []) 2 (numbered ∷ numbered ∷ []) (omega arith)
