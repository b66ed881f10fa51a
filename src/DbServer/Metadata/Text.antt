-- ===== src/DbServer/Metadata/Text.antt =====
-- The SQL text of a procedure call and its parameters.
use dding_game_server.Prelude.{
  ℕ, zero, suc, ◌≡◌, Bool, true, false, ◌&&◌, none, some, List, [], inl, inr, Bool-cases, ◌∷◌, ◌++◌,
  append_assoc, append-nil, if◌then◌else◌, length, codes,
}
use dding_game_server.DbServer.Metadata.{
  ColumnInfo, is_input, ProcedureInfo, Driver, bind_column, add_row, add_rows,
  make_input_column_to_procedure_info,
}

-- The rows that are input parameters.
abbrev pub inputs : List ColumnInfo → List ColumnInfo
inputs [] = []
inputs (c ∷ cs) = if is_input c.column_type then c ∷ inputs cs else inputs cs

abbrev more_marks : ℕ → List ℕ
more_marks zero = []
more_marks (suc n) = codes ", ?" ++ more_marks n

-- `n` question marks with ", " between them.
abbrev pub marks : ℕ → List ℕ
marks zero = []
marks (suc n) = codes "?" ++ more_marks n

abbrev marks_after : Bool → ℕ → List ℕ
marks_after first n = if first then marks n else more_marks n

add_rows_lem :
    (cs : List ColumnInfo) (first : Bool) (info : ProcedureInfo)
    → (add_rows cs (first, info)).1 ≡ record info {
      input_column_info_list = info.input_column_info_list ++ inputs cs;
      sql = info.sql ++ marks_after first (length (inputs cs));
    }
unfolding add_rows add_row
add_rows_lem [] true info = simp append-nil
add_rows_lem [] false info = simp append-nil
add_rows_lem (c ∷ cs) true info = elim (Bool-cases (is_input c.column_type)) [
  | inl y ↦ simp (y, add_row, add_rows_lem cs false, append_assoc)
  | inr n ↦ simp (n, add_row, add_rows_lem cs true)
]
add_rows_lem (c ∷ cs) false info = elim (Bool-cases (is_input c.column_type)) [
  | inl y ↦ simp (y, add_row, add_rows_lem cs false, append_assoc)
  | inr n ↦ simp (n, add_row, add_rows_lem cs false)
]

-- The text of a call with `n` parameters.
abbrev pub call_text : List ℕ → ℕ → List ℕ
call_text name n = codes "{CALL " ++ (name ++ (codes "(" ++ (marks n ++ codes ")}")))

-- When the driver answers the catalogue query and binds all five columns, the procedure has a
-- parameter for each row that is an input parameter, in the rows' order behind those it had, and
-- its SQL text calls it by its name with as many question marks as there are such rows. When a call
-- fails, the function returns false.
pub make_input_column-text :
    (db : Driver) (name : List ℕ) (info : ProcedureInfo)
    → make_input_column_to_procedure_info db name info ≡ (
        if db.procedure_columns && bind_column db.bind_col
        then some (record info {
          input_column_info_list = info.input_column_info_list ++ inputs db.rows;
          sql = call_text name (length (inputs db.rows));
        })
        else none)
unfolding make_input_column_to_procedure_info
make_input_column-text db name info = simp (add_rows_lem db.rows true, append_assoc)
