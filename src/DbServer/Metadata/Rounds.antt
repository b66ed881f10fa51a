-- ===== src/DbServer/Metadata/Rounds.antt =====
-- What one round of MakeProcedureColumnInfoFromDB comes to.
use dding_game_server.Prelude.{
  ℕ, ◌≡◌, refl, Bool, true, false, Option, none, some, List, [], if◌then◌else◌, ◌∷◌,
}
use dding_game_server.Prelude.Map
use dding_game_server.Prelude.Map.{
  find-insert_self, find-insert_ne, find-insert_present, find-insert_cases,
}
use dding_game_server.DbServer.Metadata.{
  ProcedureInfo, Driver, MetaData, autocommits, executes, rolls_back, run_procedure, keep_procedure,
  read_procedure, load_procedure, empty_info, make_input_column_to_procedure_info,
  make_output_column_to_procedure_info, Effect,
}

-- What the code learns of a procedure behind its input columns, if every call succeeds.
abbrev ran : Driver → Option ProcedureInfo → Option ProcedureInfo
ran db none = none
ran db (some info) =
    if db.prepare
    then (if db.execute then make_output_column_to_procedure_info db info else none)
    else none

abbrev named : Driver → Option (List ℕ) → Option ProcedureInfo
named db none = none
named db (some text) = ran db (make_input_column_to_procedure_info db text empty_info)

-- What the code learns of a procedure, if every call of the driver for it succeeds.
abbrev pub described : (ℕ → Option (List ℕ)) → (ℕ → Driver) → ℕ → Option ProcedureInfo
described utf16 db name = named (db name) (utf16 name)

-- Whether the connection commits by itself after these calls.
abbrev pub is_autocommit : List Effect → Bool
is_autocommit [] = true
is_autocommit (autocommits on ∷ es) = on
is_autocommit (executes sql ∷ es) = is_autocommit es
is_autocommit (rolls_back ∷ es) = is_autocommit es

-- One round of the loop: the procedure is described and kept, or not and the map is as it was.
pub data IsRound (o : Option ProcedureInfo) (name : ℕ) (m : MetaData)
    : Bool × MetaData → Type 0 where
  goes_on :
      (info : ProcedureInfo) (m' : MetaData)
      → o ≡ some info
      → m'.procedure_info_map ≡ Map.insert name info m.procedure_info_map
      → is_autocommit m'.effects ≡ is_autocommit m.effects
      → IsRound o name m (true, m')
  stops :
      (m' : MetaData)
      → o ≡ none
      → m'.procedure_info_map ≡ m.procedure_info_map
      → is_autocommit m'.effects ≡ is_autocommit m.effects
      → IsRound o name m (false, m')

keep_procedure-IsRound :
    (name : ℕ) (o : Option ProcedureInfo) (sql : List ℕ) (m : MetaData)
    → IsRound o name m (keep_procedure name o (record m { effects = executes sql ∷ m.effects }))
unfolding keep_procedure
keep_procedure-IsRound name none sql m = stops _ refl refl refl
keep_procedure-IsRound name (some info) sql m = goes_on info _ refl refl refl

-- A call of the driver that fails ends the round.
answered-IsRound :
    (answer : Bool) (o : Option ProcedureInfo) (name : ℕ) (m m' : MetaData) (r : Bool × MetaData)
    → m'.procedure_info_map ≡ m.procedure_info_map
    → is_autocommit m'.effects ≡ is_autocommit m.effects
    → IsRound o name m r
    → IsRound (if answer then o else none) name m (if answer then r else (false, m'))
answered-IsRound true o name m m' r e a h = h
answered-IsRound false o name m m' r e a h = stops m' refl e a

run_procedure-IsRound :
    (db : Driver) (name : ℕ) (o : Option ProcedureInfo) (m : MetaData)
    → IsRound (ran db o) name m (run_procedure db name o m)
unfolding run_procedure
run_procedure-IsRound db name none m = stops _ refl refl refl
run_procedure-IsRound db name (some info) m =
    answered-IsRound db.prepare _ name m m _ refl refl (
      answered-IsRound db.execute _ name m _ _ refl refl (keep_procedure-IsRound name _ info.sql m))

read_procedure-IsRound :
    (db : Driver) (name : ℕ) (o : Option (List ℕ)) (m : MetaData)
    → IsRound (named db o) name m (read_procedure db name o m)
unfolding read_procedure
read_procedure-IsRound db name none m = stops _ refl refl refl
read_procedure-IsRound db name (some text) m = run_procedure-IsRound db name _ m

pub load_procedure-IsRound :
    (utf16 : ℕ → Option (List ℕ)) (db : ℕ → Driver) (name : ℕ) (m : MetaData)
    → IsRound (described utf16 db name) name m (load_procedure utf16 db name m)
unfolding load_procedure
load_procedure-IsRound utf16 db name m = read_procedure-IsRound (db name) name (utf16 name) m
