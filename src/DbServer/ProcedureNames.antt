-- ===== src/DbServer/ProcedureNames.antt =====
-- DBServer/DBServer/ODBCMetaData.cpp, GetProcedureNameFromDB: the names of the procedures in a
-- std::set of strings, which is a list of texts in strictly increasing order.
pub mod Cuts
use dding_game_server.Prelude.{
  ℕ, Bool, true, false, ◌&&◌, Option, none, some, List, [], ◌∷◌, ltb, ◌==◌, if◌then◌else◌,
}

-- `operator<` of std::string
unfoldable pub less : List ℕ → List ℕ → Bool
less [] [] = false
less [] (y ∷ ys) = true
less (x ∷ xs) [] = false
less (x ∷ xs) (y ∷ ys) =
    let rest = less xs ys in if ltb x y then true else if x == y then rest else false

-- std::set's `insert`
unfoldable pub insert_name : List ℕ → List (List ℕ) → List (List ℕ)
insert_name k [] = k ∷ []
insert_name k (x ∷ xs) =
    let rest = insert_name k xs in
    if less k x then k ∷ x ∷ xs else if less x k then x ∷ rest else x ∷ xs

abbrev pub semicolon : ℕ
semicolon = 59

-- `procInfo.substr(0, procInfo.find(';'))`; without a semicolon this is the whole text.
unfoldable pub procedure_name : List ℕ → List ℕ
procedure_name [] = []
procedure_name (c ∷ cs) = let rest = procedure_name cs in if c == semicolon then [] else c ∷ rest

-- The loop over the rows that SQLFetch gives, each with the text that SQLGetData reads, if it does.
unfoldable pub fetch_names : List (Option (List ℕ)) → List (List ℕ) → Bool × List (List ℕ)
fetch_names [] names = (true, names)
fetch_names (none ∷ rows) names = (false, names)
fetch_names (some text ∷ rows) names = fetch_names rows (insert_name (procedure_name text) names)

-- `has_handle`: there is a statement handle; `listed`: SQLProcedures returns SQL_SUCCESS.
unfoldable pub get_procedure_name_from_db :
    (has_handle listed : Bool) → List (Option (List ℕ)) → List (List ℕ) → Bool × List (List ℕ)
get_procedure_name_from_db has_handle listed rows names =
    let fetched = fetch_names rows names in if has_handle && listed then fetched else (false, names)
