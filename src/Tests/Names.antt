-- ===== src/Tests/Names.antt =====
-- The names of procedures, from the rows of a small database.
use dding_game_server.Prelude.{
  ℕ, ◌≡◌, ◌⊎◌, ◌↔◌, refl, false, true, Option, some, none, List, [], ◌∷◌,
}
use mathlib.Core.List.{Memᴰ}
use dding_game_server.DbServer.ProcedureNames.{
  get_procedure_name_from_db, fetch_names, insert_name, less, procedure_name,
}
use dding_game_server.DbServer.ProcedureNames.Cuts.{
  all_read, texts_read, Told, get_procedure_name_from_db_lem,
}

-- "b;1" and "a", and a row that cannot be read.
abbrev table : List (Option (List ℕ))
table = some (98 ∷ 59 ∷ 49 ∷ []) ∷ some (97 ∷ []) ∷ none ∷ some (99 ∷ []) ∷ []

fetched : get_procedure_name_from_db true true table [] ≡ (false, (97 ∷ []) ∷ (98 ∷ []) ∷ [])
unfolding get_procedure_name_from_db fetch_names insert_name less procedure_name
fetched = refl

names_example :
    ((get_procedure_name_from_db true true table []).0 ≡ all_read table)
    × (Memᴰ {A = List ℕ} (98 ∷ []) (get_procedure_name_from_db true true table []).1
        ↔ (Memᴰ {A = List ℕ} (98 ∷ []) [] ⊎ Told (texts_read table) (98 ∷ [])))
names_example = get_procedure_name_from_db_lem table [] (98 ∷ [])
