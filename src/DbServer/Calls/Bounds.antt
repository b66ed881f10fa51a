-- ===== src/DbServer/Calls/Bounds.antt =====
-- How many arguments a call may have.
use dding_game_server.Prelude.{
  leb, if◌then◌else◌, Bool-cases, inl, inr, ℕ, zero, suc, ◌+◌, ◌≤◌, ◌≡◌, refl, sym, ap, ◌∙◌, true,
  List, [], ◌∷◌, ◌++◌, append_assoc, append-nil, length, take, arith,
}
use dding_game_server.DbServer.SqlTypes.{CppType, trait_c_type, trait_sql_type, get_pointer_from_t}
use dding_game_server.DbServer.Metadata.{ProcedureInfo}
use dding_game_server.DbServer.Calls.{
  Answers, Binding, Statement, returns, reads_out_of_range, sql_is_success, and_then,
  bind_parameter, odbc_setting_sp_maker, set_parameter, setting_sp_maker,
}

-- The calls of SQLBindParameter for arguments of these types, from a location on.
abbrev pub bindings_of : ℕ → List CppType → List Binding
bindings_of location [] = []
bindings_of location (t ∷ ts) =
    record {
      location = location;
      c_type = trait_c_type t;
      sql_type = trait_sql_type t;
      pointed = get_pointer_from_t t;
    }
    ∷ bindings_of (location + 1) ts

abbrev pub bound : Statement → List Binding → Statement
bound st bs = record st { bindings = st.bindings ++ bs }

module _ (db : Answers) (info : ProcedureInfo)
    (accepts : (location : ℕ) → sql_is_success (db.bind_parameter location) ≡ true) where
  set_parameter-inside :
      (location : ℕ) (t : CppType) (st : Statement)
      → location ≤ length info.input_column_info_list
      → 1 ≤ location
      → set_parameter db info location t st
        ≡ (returns true, bound st (bindings_of location (t ∷ [])))
  unfolding set_parameter odbc_setting_sp_maker bind_parameter
  set_parameter-inside location t st h l = ground (arith, accepts location)

  set_parameter-behind :
      (location : ℕ) (t : CppType) (st : Statement)
      → location ≡ length info.input_column_info_list + 1
      → set_parameter db info location t st ≡ (reads_out_of_range, st)
  unfolding set_parameter
  set_parameter-behind location t st h = ground arith

  pub setting_sp_maker-inside :
      (location : ℕ) (t : CppType) (ts : List CppType) (st : Statement)
      → location + length ts ≤ length info.input_column_info_list
      → 1 ≤ location
      → setting_sp_maker db info location t ts st
        ≡ (returns true, bound st (bindings_of location (t ∷ ts)))
  unfolding setting_sp_maker and_then
  setting_sp_maker-inside location t [] st h l = set_parameter-inside location t st (omega arith) l
  setting_sp_maker-inside location t (u ∷ us) st h l =
      rw (set_parameter-inside location t st (omega arith) l, and_then)
        (rw
          (setting_sp_maker-inside (location + 1) u us (bound st (bindings_of location (t ∷ [])))
            (omega arith) (omega arith))
          (simp append_assoc))

  bound-nil : (st : Statement) → bound st [] ≡ st
  bound-nil st = simp append-nil

  -- The `k` columns from the location on take arguments, and the one behind them is read.
  setting_sp_maker-outside :
      (k location : ℕ) (t : CppType) (ts : List CppType) (st : Statement)
      → location + k ≡ length info.input_column_info_list + 1
      → k ≤ length ts
      → 1 ≤ location
      → setting_sp_maker db info location t ts st
        ≡ (reads_out_of_range, bound st (take k (bindings_of location (t ∷ ts))))
  unfolding setting_sp_maker and_then
  setting_sp_maker-outside zero location t [] st h s l =
      set_parameter-behind location t st (omega arith)
      ∙ ap (λ st'. (reads_out_of_range, st')) (sym (bound-nil st))
  setting_sp_maker-outside zero location t (u ∷ us) st h s l =
      rw (set_parameter-behind location t st (omega arith), and_then, bound-nil st) refl
  setting_sp_maker-outside (suc k) location t [] st h s l = absurd (omega arith)
  setting_sp_maker-outside (suc k) location t (u ∷ us) st h s l =
      rw (set_parameter-inside location t st (omega arith) l, and_then)
        (rw
          (setting_sp_maker-outside k (location + 1) u us (bound st (bindings_of location (t ∷ [])))
            (omega arith) (omega arith) (omega arith))
          (simp append_assoc))

-- While the driver accepts the parameters, SettingSPMaker binds as many arguments as the procedure
-- has input columns, each at its place and with the codes of its own type, and returns true. Of more
-- arguments than that it binds the first ones, as many as there are columns, and then reads a column
-- behind the last one: its test never returns false.
pub setting_sp_maker_lem :
    (db : Answers) (info : ProcedureInfo) (t : CppType) (ts : List CppType) (st : Statement)
    → ((location : ℕ) → sql_is_success (db.bind_parameter location) ≡ true)
    → (let columns = length info.input_column_info_list in
        setting_sp_maker db info 1 t ts st ≡ (
          if leb (length (t ∷ ts)) columns
          then (returns true, bound st (bindings_of 1 (t ∷ ts)))
          else (reads_out_of_range, bound st (take columns (bindings_of 1 (t ∷ ts))))))
setting_sp_maker_lem db info t ts st accepts =
    elim (Bool-cases (leb (length (t ∷ ts)) (length info.input_column_info_list))) [
      | inl y ↦
          rw y (setting_sp_maker-inside db info accepts 1 t ts st (ground (arith, y)) (omega arith))
      | inr n ↦ rw n (
          setting_sp_maker-outside db info accepts _ 1 t ts st (omega arith) (ground (arith, n))
            (omega arith))
    ]
