-- ===== src/DbServer/Odbc.antt =====
-- IsSameType of DBServer/DBServer/ODBCUtil.cpp, and TypeInfo of TypeInfo.cpp.
use dding_game_server.Prelude.{
  ℕ, ◌+◌, ◌≡◌, refl, sym, ap, ◌∙◌, Bool, true, false, inl, inr, ◌⊎◌, ◌≢◌, Option-cases, none, some,
  List, [], ◌∷◌, ◌++◌, length, length-append,
}
use dding_game_server.Prelude.Map
use dding_game_server.Prelude.Map.{Map, length-insert}

-- The names that IsSameType knows; `int64` is "__int64".
pub data TypeName : Type 0 where
  f_string varchar f_w_string nvarchar int64 bigint : TypeName
  other : ℕ → TypeName

unfoldable pub is_same_type : TypeName → TypeName → Bool
is_same_type f_string varchar = true
is_same_type varchar f_string = true
is_same_type f_w_string nvarchar = true
is_same_type nvarchar f_w_string = true
is_same_type int64 bigint = true
is_same_type _ _ = false

abbrev pub IsInt64 : TypeName → Type 0
IsInt64 int64 = Unit
IsInt64 _ = ⊥

abbrev pub IsBigint : TypeName → Type 0
IsBigint bigint = Unit
IsBigint _ = ⊥

-- IsSameType does not look at the order of its arguments but for one pair: "__int64" is the same
-- type as "bigint", and "bigint" is not the same type as "__int64".
is_same_type-sym :
    (a b : TypeName)
    → is_same_type a b ≢ is_same_type b a
    → (IsInt64 a × IsBigint b) ⊎ (IsInt64 b × IsBigint a)
unfolding is_same_type
is_same_type-sym int64 bigint h = inl (tt, tt)
is_same_type-sym bigint int64 h = inr (tt, tt)
is_same_type-sym f_string varchar h = absurd (h refl)
is_same_type-sym varchar f_string h = absurd (h refl)
is_same_type-sym f_w_string nvarchar h = absurd (h refl)
is_same_type-sym nvarchar f_w_string h = absurd (h refl)
is_same_type-sym (other x) f_string h = absurd (h refl)
is_same_type-sym _ _ h = absurd (h refl)

-- TypeInfo: the properties by name, and their types' names in the order of their coming.
pub record TypeInfo (N : Type 0) : Type 0 where
  pub property_map : Map N
  pub property_type_name_list : List N

unfoldable pub add_property : {N : Type 0} → ℕ → N → TypeInfo N → TypeInfo N
add_property name t i = elim (Map.find name i.property_map) [
  | some _ ↦ i
  | none ↦ record {
    property_map = Map.insert name t i.property_map;
    property_type_name_list = i.property_type_name_list ++ t ∷ [];
  }
]

unfoldable pub get_num_of_property : {N : Type 0} → TypeInfo N → ℕ
get_num_of_property i = length i.property_map

unfoldable pub get_all_property_type_name : {N : Type 0} → TypeInfo N → List N
get_all_property_type_name i = i.property_type_name_list

abbrev pub add_all : {N : Type 0} → List (ℕ × N) → TypeInfo N → TypeInfo N
add_all [] i = i
add_all ((name, t) ∷ ps) i = add_all ps (add_property name t i)

add_property-length :
    {N : Type 0} (name : ℕ) (t : N) (i : TypeInfo N)
    → length i.property_type_name_list ≡ length i.property_map
    → length (add_property name t i).property_type_name_list
      ≡ length (add_property name t i).property_map
unfolding add_property
add_property-length name t i h = elim (Option-cases (Map.find name i.property_map)) [
  | inr (u, f) ↦ rw (f, add_property) h
  | inl n ↦
      rw (n, add_property)
        (length-append i.property_type_name_list (t ∷ [])
          ∙ ap (λ k. k + 1) h
          ∙ sym (length-insert name t i.property_map n))
]

-- However properties are added to a table where it is so, with names again and again, there are as many type names in the
-- list as properties in the map.
get_num_of_property-length :
    {N : Type 0} (ps : List (ℕ × N)) (i : TypeInfo N)
    → length i.property_type_name_list ≡ length i.property_map
    → length (get_all_property_type_name (add_all ps i)) ≡ get_num_of_property (add_all ps i)
unfolding get_num_of_property get_all_property_type_name
get_num_of_property-length [] i h = h
get_num_of_property-length ((name, t) ∷ ps) i h =
    get_num_of_property-length ps (add_property name t i) (add_property-length name t i h)
