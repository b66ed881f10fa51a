-- ===== src/ScriptToObject.antt =====
-- ScriptToObject/ScriptToObject: DataUtil.h and JsonUtil.h, the objects that the game reads from JSON
-- files. The file system, the JSON parser and what LoadFromJson makes of a JSON value are parameters.
pub mod Loading
pub mod Scripts
pub mod Zones
use dding_game_server.Prelude.{ℕ, Bool, true, false, ◌&&◌, Option, none, some, List, [], ◌∷◌}
use dding_game_server.Prelude.Map
use dding_game_server.Prelude.Map.{Map}

-- DataObjectGenerator: the constructors, each named by a number, by the names of their classes.
abbrev pub Generator : Type 0
Generator = Map ℕ

unfoldable pub add_data_class : ℕ → ℕ → Generator → Bool × Generator
add_data_class name constructor_id g = elim (Map.find name g) [
  | some _ ↦ (false, g)
  | none ↦ (true, Map.insert name constructor_id g)
]

unfoldable pub make_data_object : ℕ → Generator → Option ℕ
make_data_object name g = Map.find name g

-- What a file gives.
pub data JsonFile (J : Type 0) : Type 0 where
  does_not_open does_not_parse : JsonFile J
  holds : List J → JsonFile J

-- How loading ends: nullopt, the objects, or the end of the process: a call through the null pointer of
-- a class that the generator does not know, or LoadFromJson of a JSON value that is not what it asks
-- for, whose exception nothing catches (`none`).
pub data Loaded (A : Type 0) : Type 0 where
  fails crashes : Loaded A
  loads : A → Loaded A

module _ {J Object : Type 0} (load_from_json : ℕ → J → Option Object) where
  unfoldable pub make_objects : Option ℕ → List J → Loaded (List Object)
  make_objects made [] = loads []
  make_objects none (j ∷ js) = crashes
  make_objects (some constructor_id) (j ∷ js) = elim (load_from_json constructor_id j) [
    | none ↦ crashes
    | some o ↦ elim (make_objects (some constructor_id) js) [
      | loads os ↦ loads (o ∷ os)
      | fails ↦ fails
      | crashes ↦ crashes
    ]
  ]

  unfoldable pub load_from_json_file : ℕ → Generator → JsonFile J → Loaded (List Object)
  load_from_json_file name g does_not_open = fails
  load_from_json_file name g does_not_parse = fails
  load_from_json_file name g (holds js) = make_objects (make_data_object name g) js

module _ {Object : Type 0} where
  -- DataContainer
  unfoldable pub find_data : ℕ → Map Object → Option Object
  find_data key m = Map.find key m

  unfoldable pub add_data : ℕ → Object → Map Object → Bool × Map Object
  add_data key o m = elim (Map.find key m) [
    | some _ ↦ (false, m)
    | none ↦ (true, Map.insert key o m)
  ]

  -- `later` is `returnValue` behind the objects that are still to come.
  unfoldable pub with_result : Bool → Bool × Map Object → Bool × Map Object
  with_result added (later, m) = (added && later, m)

  -- The loop of AddToDataContainerFromJsonFile; `key` is the member that SET_DATA_OBJECT names.
  unfoldable pub add_objects : (Object → ℕ) → List Object → Map Object → Bool × Map Object
  add_objects key [] m = (true, m)
  add_objects key (o ∷ os) m =
      let (added, m') = add_data (key o) o m in with_result added (add_objects key os m')

  unfoldable pub add_loaded :
      (Object → ℕ) → Loaded (List Object) → Map Object → Loaded (Bool × Map Object)
  add_loaded key fails m = loads (false, m)
  add_loaded key crashes m = crashes
  add_loaded key (loads os) m = loads (add_objects key os m)

  -- PostLoad of a container, in the map's order.
  unfoldable pub post_load : (Object → Bool) → Map Object → Bool
  post_load post [] = true
  post_load post ((key, o) ∷ m) = let rest = post_load post m in post o && rest

unfoldable pub add_to_data_container_from_json_file :
    {J Object : Type 0}
    → (ℕ → J → Option Object)
    → (Object → ℕ)
    → ℕ
    → Generator
    → JsonFile J
    → Map Object
    → Loaded (Bool × Map Object)
add_to_data_container_from_json_file load_json key name g file m =
    add_loaded key (load_from_json_file load_json name g file) m
