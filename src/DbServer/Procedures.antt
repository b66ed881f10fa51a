-- ===== src/DbServer/Procedures.antt =====
-- The stored procedures' classes, DBServer/DBServer/StoredProcedure.h, and the classes of their
-- results, ProcedureType.h: what their members' REGISTER_PROPERTY (PropertyMacro.h, Property.h) tells
-- TypeInfo, and what INPUT_REAL_POINTER puts into realPointerList. What `typeid(…).name()` gives is
-- a parameter.
use Prim.Native.String.{String}
use Prim.Native.Char.{code}
use dding_game_server.Prelude.{ℕ, Option, none, some, List, [], ◌∷◌, ◌==◌, if◌then◌else◌}
use dding_game_server.DbServer.SqlTypes.{CppType, int, long_long, f_w_string}
use dding_game_server.DbServer.Odbc.{TypeInfo, add_property}

pub data StoredProcedure : Type 0 where
  test update_test string_test_proc input_test select_test select_test_2 : StoredProcedure

pub data ResultType : Type 0 where
  db_ignore_type test_reulst_type f_w_string_result_type select_test_2_result_type : ResultType

-- The members' names, each by a number.
pub data MemberName : Type 0 where
  id3 teststring member_id its_test item item2 id no its_string tablename : MemberName

unfoldable pub number : MemberName → ℕ
number id3 = 0
number teststring = 1
number member_id = 2
number its_test = 3
number item = 4
number item2 = 5
number id = 6
number no = 7
number its_string = 8
number tablename = 9

abbrev pub Member : Type 0
Member = MemberName × CppType

-- The members with REGISTER_PROPERTY, in order.
unfoldable pub registered : StoredProcedure → List Member
registered test = (id3, int) ∷ (teststring, f_w_string) ∷ []
registered update_test = (member_id, long_long) ∷ []
registered string_test_proc = (its_test, f_w_string) ∷ []
registered input_test = (item, int) ∷ (item2, int) ∷ []
registered select_test = (id, long_long) ∷ []
registered select_test_2 = (id, long_long) ∷ []

-- The members that the constructor points to, in order.
unfoldable pub real_pointer_list : StoredProcedure → List MemberName
real_pointer_list test = id3 ∷ teststring ∷ []
real_pointer_list update_test = member_id ∷ []
real_pointer_list string_test_proc = its_test ∷ []
real_pointer_list input_test = item ∷ item2 ∷ []
real_pointer_list select_test = id ∷ []
real_pointer_list select_test_2 = id ∷ []

unfoldable pub result_type : StoredProcedure → ResultType
result_type test = db_ignore_type
result_type update_test = db_ignore_type
result_type string_test_proc = db_ignore_type
result_type input_test = db_ignore_type
result_type select_test = f_w_string_result_type
result_type select_test_2 = select_test_2_result_type

unfoldable pub result_registered : ResultType → List Member
result_registered db_ignore_type = []
result_registered test_reulst_type = (id, int) ∷ (no, int) ∷ []
result_registered f_w_string_result_type = (its_string, f_w_string) ∷ []
result_registered select_test_2_result_type = (no, int) ∷ (tablename, f_w_string) ∷ []

unfoldable pub result_pointer_list : ResultType → List MemberName
result_pointer_list db_ignore_type = []
result_pointer_list test_reulst_type = id ∷ no ∷ []
result_pointer_list f_w_string_result_type = its_string ∷ []
result_pointer_list select_test_2_result_type = no ∷ tablename ∷ []

-- The text behind a prefix.
unfoldable pub after : String → String → Option String
after String.[] s = some s
after (String.◌∷◌ c p) String.[] = none
after (String.◌∷◌ c p) (String.◌∷◌ d s) =
    let rest = after p s in if code c == code d then rest else none

-- std::string::find and erase: without the first place where the prefix stands.
unfoldable pub erase_first : String → String → String
erase_first prefix String.[] = String.[]
erase_first prefix (String.◌∷◌ c s) =
    let rest = erase_first prefix s in
    elim (after prefix (String.◌∷◌ c s)) [ some end ↦ end | none ↦ String.◌∷◌ c rest ]

abbrev pub class_prefix : String
class_prefix = "class "

-- PropertyRegister of a member.
unfoldable pub property_register : (CppType → String) → Member → TypeInfo String → TypeInfo String
property_register typeid_name (name, t) i =
    add_property (number name) (erase_first class_prefix (typeid_name t)) i

-- One after the other, as the static members are made.
unfoldable pub register_all : (CppType → String) → List Member → TypeInfo String → TypeInfo String
register_all typeid_name [] i = i
register_all typeid_name (m ∷ ms) i =
    register_all typeid_name ms (property_register typeid_name m i)

unfoldable pub static_type_info : (CppType → String) → List Member → TypeInfo String
static_type_info typeid_name ms =
    register_all typeid_name ms (record { property_map = []; property_type_name_list = [] })
