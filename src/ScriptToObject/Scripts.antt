-- ===== src/ScriptToObject/Scripts.antt =====
-- LoadAllDataScript and GetCurrentFolder of ScriptToObject/ScriptToObject/JsonUtil.cpp, and
-- LoadConfiguration of Config.h. The files, the JSON of the configuration and the path of the
-- running module are parameters.
use dding_game_server.Prelude.{
  ℕ, ◌≡◌, refl, Bool, true, false, inl, inr, Option, none, some, List, ◌++◌, codes, if◌then◌else◌,
  Bool-cases, All,
}
use dding_game_server.Prelude.Map.{Map}
use dding_game_server.ScriptToObject.{
  Generator, JsonFile, holds, Loaded, fails, crashes, loads, make_data_object, post_load, find_data,
  add_objects, add_loaded, load_from_json_file, add_to_data_container_from_json_file,
}
use dding_game_server.ScriptToObject.Loading.{
  add_objects-IsAdded, all_objects, make_objects-all_objects,
}

-- The configuration: one JSON value.
pub data ConfigFile (J : Type 0) : Type 0 where
  does_not_open does_not_parse : ConfigFile J
  reads : J → ConfigFile J

-- Config's jsonScriptFolderPath; `folder` is the string at "ScriptFolderPath", and where there is
-- none, nlohmann::json throws what is not caught.
unfoldable pub load_configuration :
    {J : Type 0} → (J → Option (List ℕ)) → ConfigFile J → List ℕ → Loaded (Bool × List ℕ)
load_configuration folder does_not_open path = loads (false, path)
load_configuration folder does_not_parse path = loads (false, path)
load_configuration folder (reads j) path = elim (folder j) [
  | none ↦ crashes
  | some text ↦ loads (true, text)
]

module _ {J Object : Type 0} (load_from_json : ℕ → J → Option Object) (key : Object → ℕ)
    (post : Object → Bool) (name : ℕ) (g : Generator) where
  -- POST_LOAD prints what failed, and goes on.
  unfoldable pub post_loaded : Loaded (Bool × Map Object) → Loaded (Bool × Map Object)
  post_loaded fails = fails
  post_loaded crashes = crashes
  post_loaded (loads (false, m)) = loads (false, m)
  post_loaded (loads (true, m)) = if post_load post m then loads (true, m) else loads (true, m)

  -- Behind LoadConfiguration: ADD_TO_CONTAINER of the class, from the file of its name.
  unfoldable pub load_scripts :
      (List ℕ → JsonFile J)
      → List ℕ
      → Loaded (Bool × List ℕ)
      → Map Object
      → Loaded (Bool × Map Object)
  load_scripts files current_folder fails m = fails
  load_scripts files current_folder crashes m = crashes
  load_scripts files current_folder (loads (false, folder)) m = loads (false, m)
  load_scripts files current_folder (loads (true, folder)) m = post_loaded (
      add_to_data_container_from_json_file load_from_json key name g
        (files (current_folder ++ folder ++ codes "ZoneData" ++ codes ".json")) m)

  -- `current_folder` is what GetModuleFileNameA gives: the path with the program's own name.
  unfoldable pub load_all_data_script :
      {C : Type 0}
      → (C → Option (List ℕ))
      → ConfigFile C
      → (List ℕ → JsonFile J)
      → (current_folder old_path : List ℕ) → Map Object
      → Loaded (Bool × Map Object)
  load_all_data_script folder config files current_folder old_path m =
      load_scripts files current_folder (load_configuration folder config old_path) m

  post_loaded_lem : (b : Bool) (m : Map Object) → post_loaded (loads (b, m)) ≡ loads (b, m)
  unfolding post_loaded
  post_loaded_lem false m = refl
  post_loaded_lem true m = elim (Bool-cases (post_load post m)) [
    | inl y ↦ rw (y, post_loaded) refl
    | inr n ↦ rw (n, post_loaded) refl
  ]

  -- With a configuration that names the folder, a file of the class's name in it that parses, a class
  -- that the generator knows, and JSON values each of which LoadFromJson takes, LoadAllDataScript
  -- ends, and what it returns and leaves does not depend on what the objects' PostLoad returns. If it
  -- returns true, every object of the file is found under its key; either way some object is found
  -- under each of those keys, and what was there stays.
  pub load_all_data_script_lem :
      {C : Type 0} (folder : C → Option (List ℕ)) (c : C) (files : List ℕ → JsonFile J)
      (current_folder old_path path : List ℕ) (js : List J) (constructor_id : ℕ) (m : Map Object)
      (os : List Object)
      → folder c ≡ some path
      → files (current_folder ++ path ++ codes "ZoneData" ++ codes ".json") ≡ holds js
      → make_data_object name g ≡ some constructor_id
      → all_objects (load_from_json constructor_id) js ≡ some os
      → (let r = add_objects key os m in
          (load_all_data_script folder (reads c) files current_folder old_path m ≡ loads r)
          × (r.0 ≡ true → All (λ o. find_data (key o) r.1 ≡ some o) os)
          × All (λ o. (v : Object) × (find_data (key o) r.1 ≡ some v)) os
          × ((k : ℕ) (o : Object) → find_data k m ≡ some o → find_data k r.1 ≡ some o))
  unfolding load_all_data_script load_scripts load_configuration load_from_json_file add_loaded
      add_to_data_container_from_json_file find_data
  load_all_data_script_lem folder c files current_folder old_path path js constructor_id m os f file
        known made =
      let a = add_objects-IsAdded key os m in
      (
        rw
            (
              f,
              load_all_data_script,
              load_scripts,
              load_configuration,
              file,
              add_to_data_container_from_json_file,
              load_from_json_file,
              known,
              make_objects-all_objects load_from_json constructor_id js os made,
              add_loaded,
            )
            (post_loaded_lem (add_objects key os m).0 (add_objects key os m).1),
        a.own,
        a.there,
        a.keeps,
      )
