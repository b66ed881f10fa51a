-- ===== src/DbServer/Calls/Results.antt =====
-- What GetSPResult reads of a result.
use Prim.Native.String.{String}
use text.Mathlib.Text
use dding_game_server.Prelude.{
  ◌||◌, if◌then◌else◌, ℕ, zero, suc, ◌+◌, ◌-◌, ◌≤◌, ◌<◌, ◌≡◌, refl, ap, ◌∙◌, inl, inr, Option, none,
  some, List, [], ◌∷◌, map, length, take, drop, get_elem?, arith, Option-cases,
}
use dding_game_server.DbServer.SqlTypes.{get_c_type, get_buffer_size}
use dding_game_server.DbServer.Calls.{
  Row, returns, prepend, copied, get_columns, get_rows, get_sp_result,
}

drop-get_elem? :
    {A : Type 0} (i : ℕ) (xs : List A)
    → i < length xs
    → (x : A) × (get_elem? xs i ≡ some x) × (drop i xs ≡ x ∷ drop (suc i) xs)
drop-get_elem? i [] h = absurd (omega arith)
drop-get_elem? zero (x ∷ xs) h = (x, refl, refl)
drop-get_elem? (suc i) (x ∷ xs) h = drop-get_elem? i xs (omega arith)

-- All the values, if each is there.
abbrev pub all_some : {A : Type 0} → List (Option A) → Option (List A)
all_some [] = some []
all_some (none ∷ os) = none
all_some (some a ∷ os) = elim (all_some os) [ none ↦ none | some rest ↦ some (a ∷ rest) ]

-- A value that was read, as the copy has it.
abbrev pub kept : {V : Type 0} → V → String → Option V → Option V
kept empty_text name none = none
kept empty_text name (some v) =
    some (if Text.◌==◌ name "FWString" || Text.◌==◌ name "FString" then empty_text else v)

-- The cells of a row by the names of the columns' types, from the `index`-th on, without the texts of
-- the two string classes.
abbrev pub cells : {V : Type 0} → V → Row V → ℕ → List String → List (Option V)
cells empty_text row index [] = []
cells empty_text row index (name ∷ names) =
    kept empty_text name (row index (get_c_type name) (get_buffer_size name))
    ∷ cells empty_text row (index + 1) names

prepend-all_some :
    {A : Type 0} (a : A) (os : List (Option A))
    → prepend a (returns (all_some os)) ≡ returns (all_some (some a ∷ os))
unfolding prepend
prepend-all_some a os = elim (Option-cases (all_some os)) [
  | inl n ↦ rw (n, prepend) refl
  | inr (rest, s) ↦ rw (s, prepend) refl
]

get_columns-cells :
    {V : Type 0} (empty_text : V) (names : List String) (row : Row V) (n i index : ℕ)
    → i + n ≤ length names
    → index ≡ i + 1
    → get_columns empty_text names row n index
      ≡ returns (all_some (cells empty_text row index (take n (drop i names))))
unfolding get_columns copied
get_columns-cells empty_text names row zero i index h e = refl
get_columns-cells empty_text names row (suc n) i index h e =
    let (name, at_i, more) = drop-get_elem? i names (omega arith) in
    let there : get_elem? names (index - 1) ≡ some name =
      ap (get_elem? names) (omega (arith, e)) ∙ at_i in
    rw (there, more, get_columns)
      (elim (Option-cases (row index (get_c_type name) (get_buffer_size name))) [
        | inl unread ↦ rw unread refl
        | inr (v, s) ↦
            rw
              (
                s,
                get_columns-cells empty_text names row n (suc i) (index + 1) (omega arith)
                    (omega arith),
              )
              (prepend-all_some (copied empty_text name v)
                (cells empty_text row (index + 1) (take n (drop (suc i) names))))
      ])

get_rows-all_some :
    {A : Type 0} (o : Option (List A)) (os : List (Option (List A)))
    → get_rows (returns o) (returns (all_some os)) ≡ returns (all_some (o ∷ os))
unfolding get_rows
get_rows-all_some none os = refl
get_rows-all_some (some vs) os = prepend-all_some vs os

-- For results of no more columns than there are property names, GetSPResult reads nothing out of
-- range: it gives, row by row, the values of the columns in their order, each read as the type of
-- the property at its place, but for the properties of the two string classes, whose texts come out
-- empty; and it gives nullopt if any of the columns cannot be read.
pub get_sp_result_lem :
    {V : Type 0} (empty_text : V) (names : List String) (n : ℕ) (rows : List (Row V))
    → n ≤ length names
    → get_sp_result empty_text names n rows
      ≡ returns (all_some (map (λ row. all_some (cells empty_text row 1 (take n names))) rows))
unfolding get_sp_result
get_sp_result_lem empty_text names n [] h = refl
get_sp_result_lem empty_text names n (row ∷ rows) h =
    rw
      (
        get_columns-cells empty_text names row n 0 1 (omega arith) refl,
        get_sp_result_lem empty_text names n rows h,
      )
      (get_rows-all_some (all_some (cells empty_text row 1 (take n names))) _)
