-- ===== src/DbServer/Calls/ByName.antt =====
-- CallSPDirectWithSPObject, which goes by the names of the properties' types, against CallSPDirect,
-- which goes by the types.
use Prim.Native.String.{String}
use dding_game_server.Prelude.{
  ℕ, suc, ◌+◌, ◌-◌, ◌≤◌, ◌≡◌, refl, sym, ap, ◌∙◌, true, inl, inr, some, List, [], ◌∷◌, append_assoc,
  append-nil, length, ltb, arith,
}
use dding_game_server.DbServer.SqlTypes.{
  CppType, get_c_type, get_sql_type, trait_c_type, trait_sql_type, get_pointer_from_t,
  get_pointer_from_pointer_type_string,
}
use dding_game_server.DbServer.SqlTypes.Names.{
  IsNameOf, HasOtherPointer, get_c_type-IsNameOf, get_pointer-IsNameOf,
}
use dding_game_server.DbServer.Metadata.{ProcedureInfo}
use dding_game_server.DbServer.Calls.{
  Answers, Binding, Statement, returns, sql_is_success, and_then, bind_parameter, bind_properties,
  call_sp_direct, call_sp_direct_with_sp_object, db_send_query_direct,
}
use dding_game_server.DbServer.Calls.Bounds.{bindings_of, bound, setting_sp_maker-inside}

-- The names of a list of types, each type one of those that both ways pass by the same pointer.
pub data AreNames : List String → List CppType → Type 0 where
  no_names : AreNames [] []
  one_more :
      (name : String) (t : CppType) (names : List String) (ts : List CppType)
      → IsNameOf name t
      → ¬ HasOtherPointer t
      → AreNames names ts
      → AreNames (name ∷ names) (t ∷ ts)

abbrev binding_by_name : ℕ → String → Binding
binding_by_name location name = record {
  location = location;
  c_type = get_c_type name;
  sql_type = get_sql_type name;
  pointed = get_pointer_from_pointer_type_string name;
}

abbrev binding_by_type : ℕ → CppType → Binding
binding_by_type location t = record {
  location = location;
  c_type = trait_c_type t;
  sql_type = trait_sql_type t;
  pointed = get_pointer_from_t t;
}

by_name-binding :
    (location : ℕ) (name : String) (t : CppType)
    → IsNameOf name t
    → ¬ HasOtherPointer t
    → binding_by_name location name ≡ binding_by_type location t
by_name-binding location name t h same_way = elim (get_pointer-IsNameOf name t h) [
  | inr other ↦ absurd (same_way other)
  | inl same ↦ rw ((get_c_type-IsNameOf name t h).0, (get_c_type-IsNameOf name t h).1, same) refl
]

length-AreNames :
    {names : List String} {ts : List CppType} → AreNames names ts → length names ≡ length ts
length-AreNames no_names = refl
length-AreNames (one_more name t names ts i same_way rest) = ap suc (length-AreNames rest)

module _ (db : Answers)
    (accepts : (location : ℕ) → sql_is_success (db.bind_parameter location) ≡ true) where
  bind_properties-all :
      (pointers location : ℕ) (names : List String) (ts : List CppType) (st : Statement)
      → AreNames names ts
      → location + length names ≤ pointers + 1
      → 1 ≤ location
      → bind_properties db pointers location names st
        ≡ (returns true, bound st (bindings_of location ts))
  unfolding bind_properties and_then bind_parameter
  bind_properties-all pointers location _ _ st no_names h l = simp append-nil
  bind_properties-all pointers location _ _ st (one_more name t names ts i same_way rest) h l =
      rw (inside, accepts location, by_name-binding location name t i same_way, and_then)
        (rw
          (bind_properties-all pointers (location + 1) names ts
            (bound st (binding_by_type location t ∷ [])) rest (omega arith) (omega arith))
          (simp append_assoc))
    where
      inside : ltb (location - 1) pointers ≡ true
      inside = ground arith

-- While the driver accepts the parameters, calling a procedure by the names of its object's
-- property types binds and runs what calling it by the types does, if the procedure has as many
-- input columns and the object as many pointers as there are properties, and no type is
-- std::wstring, const WCHAR*, FWString or FString.
pub call_sp_direct_with_sp_object_lem :
    (db : Answers) (info : ProcedureInfo) (name : String) (names : List String) (t : CppType)
    (ts : List CppType) (pointers : ℕ) (st : Statement)
    → ((location : ℕ) → sql_is_success (db.bind_parameter location) ≡ true)
    → AreNames (name ∷ names) (t ∷ ts)
    → length (name ∷ names) ≤ pointers
    → length (name ∷ names) ≤ length info.input_column_info_list
    → call_sp_direct_with_sp_object db (some info) (name ∷ names) pointers st
      ≡ call_sp_direct db (some info) t ts st
unfolding call_sp_direct_with_sp_object call_sp_direct
call_sp_direct_with_sp_object_lem db info name names t ts pointers st accepts h p c =
    ap (λ r. and_then r (db_send_query_direct db info.sql))
      (bind_properties-all db accepts pointers 1 (name ∷ names) (t ∷ ts) st h (omega arith)
          (omega arith)
        ∙ sym (
            setting_sp_maker-inside db info accepts 1 t ts st (omega (arith, length-AreNames h))
              (omega arith)))
