-- ===== src/DbServer/SqlTypes.antt =====
-- The type tables of DBServer/DBServer/ODBCUtil.h, by C++ type and by the type's name, and
-- GetDataTypeName of ODBCUtil.cpp. The codes of sqlext.h are constructors.
pub mod Names
use Prim.Native.String.{String}
use text.Mathlib.Text
use dding_game_server.Prelude.{
  ℕ, Bool, true, false, Option, none, some, List, [], ◌∷◌, if◌then◌else◌,
}

-- The codes of C types; `no_c_type` is 0.
pub data CType : Type 0 where
  no_c_type sql_c_bit sql_c_s_short sql_c_s_long sql_c_float sql_c_double : CType
  sql_c_s_bigint sql_wchar sql_char : CType

-- The codes of SQL types; `no_sql_type` is 0.
pub data SqlType : Type 0 where
  no_sql_type sql_bit sql_is_small_int sql_integer sql_real sql_double sql_bigint : SqlType
  sql_w_varchar sql_varchar sql_numeric sql_decimal sql_float : SqlType
  other_sql_type : ℕ → SqlType

-- The C++ types of parameters. `class_type` is one that no table knows.
pub data CppType : Type 0 where
  bool short int float double long_long : CppType
  wstring string wchar_array wchar_pointer f_w_string f_string : CppType
  class_type : ℕ → CppType

-- ODBCTypeTraitor<T>::GetCType
unfoldable pub trait_c_type : CppType → CType
trait_c_type bool = sql_c_bit
trait_c_type short = sql_c_s_short
trait_c_type int = sql_c_s_long
trait_c_type float = sql_c_float
trait_c_type double = sql_c_double
trait_c_type long_long = sql_c_s_bigint
trait_c_type wstring = sql_wchar
trait_c_type wchar_array = sql_wchar
trait_c_type wchar_pointer = sql_wchar
trait_c_type f_w_string = sql_wchar
trait_c_type f_string = sql_char
trait_c_type _ = no_c_type

-- ODBCTypeTraitor<T>::GetSQLType
unfoldable pub trait_sql_type : CppType → SqlType
trait_sql_type bool = sql_bit
trait_sql_type short = sql_is_small_int
trait_sql_type int = sql_integer
trait_sql_type float = sql_real
trait_sql_type double = sql_double
trait_sql_type long_long = sql_bigint
trait_sql_type wstring = sql_w_varchar
trait_sql_type wchar_array = sql_w_varchar
trait_sql_type wchar_pointer = sql_w_varchar
trait_sql_type f_w_string = sql_w_varchar
trait_sql_type f_string = sql_varchar
trait_sql_type _ = no_sql_type

abbrev pub sql_string_length : ℕ
sql_string_length = 128

-- What a parameter points to: its own storage, the text of a string object, or, for a pointer, what
-- it holds.
pub data Pointed : Type 0 where
  its_storage its_text its_target does_not_compile : Pointed

-- GetPointerFromT. For FWString and FString it asks for a `c_str` that they do not have, so that there is
-- no such function.
unfoldable pub get_pointer_from_t : CppType → Pointed
get_pointer_from_t wchar_pointer = its_target
get_pointer_from_t wstring = its_text
get_pointer_from_t f_w_string = does_not_compile
get_pointer_from_t string = its_text
get_pointer_from_t f_string = does_not_compile
get_pointer_from_t _ = its_storage

-- The map that the constructor of SQLTypeGetterFromString fills, name by name.
abbrev pub Table {ℓ} : Type ℓ → Type ℓ
Table A = List (String × A)

-- `find`, and the end of the map is the default.
unfoldable pub look_up {ℓ} : {A : Type ℓ} → A → String → Table A → A
look_up d name [] = d
look_up d name ((key, a) ∷ table) = if Text.◌==◌ key name then a else look_up d name table

unfoldable pub c_type_map : Table CType
c_type_map =
    ("bool", sql_c_bit)
    ∷ ("short", sql_c_s_short)
    ∷ ("int", sql_c_s_long)
    ∷ ("float", sql_c_float)
    ∷ ("double", sql_c_double)
    ∷ ("long long", sql_c_s_bigint)
    ∷ ("__int64", sql_c_s_bigint)
    ∷ ("std::wstring", sql_wchar)
    ∷ ("WCHAR[]", sql_wchar)
    ∷ ("const WCHAR*", sql_wchar)
    ∷ ("FWString", sql_wchar)
    ∷ ("FString", sql_char)
    ∷ []

unfoldable pub sql_type_map : Table SqlType
sql_type_map =
    ("bool", sql_bit)
    ∷ ("short", sql_is_small_int)
    ∷ ("int", sql_integer)
    ∷ ("float", sql_real)
    ∷ ("double", sql_double)
    ∷ ("long long", sql_bigint)
    ∷ ("__int64", sql_bigint)
    ∷ ("std::wstring", sql_w_varchar)
    ∷ ("WCHAR[]", sql_w_varchar)
    ∷ ("const WCHAR*", sql_w_varchar)
    ∷ ("FWString", sql_w_varchar)
    ∷ ("FString", sql_varchar)
    ∷ []

-- The sizes are those of the 64-bit Windows compiler.
unfoldable pub column_size_map : Table ℕ
column_size_map =
    ("bool", 1)
    ∷ ("short", 2)
    ∷ ("int", 4)
    ∷ ("float", 4)
    ∷ ("double", 8)
    ∷ ("long long", 8)
    ∷ ("__int64", 8)
    ∷ ("std::wstring", sql_string_length)
    ∷ ("WCHAR[]", sql_string_length)
    ∷ ("const WCHAR*", sql_string_length)
    ∷ ("FWString", sql_string_length)
    ∷ ("FString", sql_string_length)
    ∷ []

unfoldable pub get_c_type : String → CType
get_c_type name = look_up no_c_type name c_type_map

unfoldable pub get_sql_type : String → SqlType
get_sql_type name = look_up no_sql_type name sql_type_map

unfoldable pub get_buffer_size : String → ℕ
get_buffer_size name = look_up 0 name column_size_map

-- GetPointerFromPointerTypeString
unfoldable pub get_pointer_from_pointer_type_string : String → Pointed
get_pointer_from_pointer_type_string name =
    if Text.◌==◌ name "FWString"
    then its_text
    else if Text.◌==◌ name "FString"
    then its_text
    else its_storage

unfoldable pub get_data_type_name : SqlType → String
get_data_type_name sql_bigint = "int64"
get_data_type_name sql_numeric = "int"
get_data_type_name sql_decimal = "int"
get_data_type_name sql_integer = "int"
get_data_type_name sql_float = "float"
get_data_type_name sql_real = "float"
get_data_type_name sql_w_varchar = "nvarchar"
get_data_type_name sql_varchar = "string"
get_data_type_name sql_bit = "bool"
get_data_type_name _ = ""
