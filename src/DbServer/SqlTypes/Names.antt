-- ===== src/DbServer/SqlTypes/Names.antt =====
-- The tables by name against the tables by C++ type.
use Prim.Native.String.{String}
use dding_game_server.Prelude.{◌≡◌, refl, ◌⊎◌, inl, inr}
use dding_game_server.DbServer.SqlTypes.{
  CppType, bool, short, int, float, double, long_long, wstring, wchar_array, wchar_pointer,
  f_w_string, f_string, trait_c_type, trait_sql_type, c_type_map, sql_type_map, look_up, get_c_type,
  get_sql_type, get_pointer_from_t, get_pointer_from_pointer_type_string,
}

-- How a C++ type is spelled in the tables by name.
pub data IsNameOf : String → CppType → Type 0 where
  names_bool : IsNameOf "bool" bool
  names_short : IsNameOf "short" short
  names_int : IsNameOf "int" int
  names_float : IsNameOf "float" float
  names_double : IsNameOf "double" double
  names_long_long : IsNameOf "long long" long_long
  names_int64 : IsNameOf "__int64" long_long
  names_wstring : IsNameOf "std::wstring" wstring
  names_wchar_array : IsNameOf "WCHAR[]" wchar_array
  names_wchar_pointer : IsNameOf "const WCHAR*" wchar_pointer
  names_f_w_string : IsNameOf "FWString" f_w_string
  names_f_string : IsNameOf "FString" f_string

pub get_c_type-IsNameOf :
    (name : String) (t : CppType)
    → IsNameOf name t
    → (get_c_type name ≡ trait_c_type t) × (get_sql_type name ≡ trait_sql_type t)
unfolding get_c_type get_sql_type look_up c_type_map sql_type_map trait_c_type trait_sql_type
get_c_type-IsNameOf _ _ names_bool = (refl, refl)
get_c_type-IsNameOf _ _ names_short = (refl, refl)
get_c_type-IsNameOf _ _ names_int = (refl, refl)
get_c_type-IsNameOf _ _ names_float = (refl, refl)
get_c_type-IsNameOf _ _ names_double = (refl, refl)
get_c_type-IsNameOf _ _ names_long_long = (refl, refl)
get_c_type-IsNameOf _ _ names_int64 = (refl, refl)
get_c_type-IsNameOf _ _ names_wstring = (refl, refl)
get_c_type-IsNameOf _ _ names_wchar_array = (refl, refl)
get_c_type-IsNameOf _ _ names_wchar_pointer = (refl, refl)
get_c_type-IsNameOf _ _ names_f_w_string = (refl, refl)
get_c_type-IsNameOf _ _ names_f_string = (refl, refl)

-- The types whose two pointers differ: by name the object itself is passed, not its text, or by type
-- there is no pointer.
abbrev pub HasOtherPointer : CppType → Type 0
HasOtherPointer wstring = Unit
HasOtherPointer wchar_pointer = Unit
HasOtherPointer f_w_string = Unit
HasOtherPointer f_string = Unit
HasOtherPointer _ = ⊥

pub get_pointer-IsNameOf :
    (name : String) (t : CppType)
    → IsNameOf name t
    → (get_pointer_from_pointer_type_string name ≡ get_pointer_from_t t) ⊎ HasOtherPointer t
unfolding get_pointer_from_pointer_type_string get_pointer_from_t
get_pointer-IsNameOf _ _ names_wstring = inr tt
get_pointer-IsNameOf _ _ names_wchar_pointer = inr tt
get_pointer-IsNameOf _ _ names_bool = inl refl
get_pointer-IsNameOf _ _ names_short = inl refl
get_pointer-IsNameOf _ _ names_int = inl refl
get_pointer-IsNameOf _ _ names_float = inl refl
get_pointer-IsNameOf _ _ names_double = inl refl
get_pointer-IsNameOf _ _ names_long_long = inl refl
get_pointer-IsNameOf _ _ names_int64 = inl refl
get_pointer-IsNameOf _ _ names_wchar_array = inl refl
get_pointer-IsNameOf _ _ names_f_w_string = inr tt
get_pointer-IsNameOf _ _ names_f_string = inr tt
