-- ===== src/Tests/Zones.antt =====
-- LoadAllDataScript of ScriptToObject/ScriptToObject/JsonUtil.cpp with a file of zones.
use dding_game_server.Prelude.{ℕ, ◌≡◌, refl, true, Option, none, some, List, [], ◌∷◌, codes, All}
use dding_game_server.Prelude.Map
use dding_game_server.Prelude.Int.{ℤ, pos}
use dding_game_server.ScriptToObject.{
  JsonFile, holds, loads, make_data_object, find_data, add_objects,
}
use dding_game_server.ScriptToObject.Loading.{all_objects}
use dding_game_server.ScriptToObject.Scripts.{
  ConfigFile, reads, load_all_data_script, load_all_data_script_lem,
}
use dding_game_server.ScriptToObject.Zones.{
  Member, id, zone_name, min_position, max_position, x, y, JsonLib, ZoneData, from_json,
  load_zone_from_json, post_load_zone, zone_key,
}

-- The JSON of a zone with this id, and of its members.
data Json : Type 0 where
  zone : ℕ → Json
  number : ℕ → Json
  text : Json
  place : Json

abbrev json_member : Json → Member → Option Json
json_member (zone n) id = some (number n)
json_member (zone n) zone_name = some text
json_member (zone n) min_position = some place
json_member (zone n) max_position = some place
json_member place x = some (number 3)
json_member place y = some (number 4)
json_member _ _ = none

abbrev json_int : Json → Option ℤ
json_int (number n) = some (pos n)
json_int _ = none

abbrev json_uint : Json → Option ℕ
json_uint (number n) = some n
json_uint _ = none

abbrev json_string : Json → Option (List ℕ)
json_string text = some (codes "town")
json_string _ = none

abbrev json_lib : JsonLib
json_lib = record {
  Json = Json;
  member = json_member;
  as_int = json_int;
  as_uint = json_uint;
  as_string = json_string;
}

abbrev zone_of : ℕ → ZoneData
zone_of n = record {
  zone_id = pos n;
  name = codes "town";
  min_of = record { x_of = 3; y_of = 4 };
  max_of = record { x_of = 3; y_of = 4 };
}

abbrev load_zone : ℕ → Json → Option ZoneData
load_zone constructor_id j = load_zone_from_json ⦃lib = json_lib⦄ j

-- Two zones have the same id.
abbrev zone_file : List ℕ → JsonFile Json
zone_file path = holds (zone 4 ∷ zone 5 ∷ zone 4 ∷ [])

abbrev zones : List ZoneData
zones = zone_of 4 ∷ zone_of 5 ∷ zone_of 4 ∷ []

zones_load : all_objects (load_zone 6) (zone 4 ∷ zone 5 ∷ zone 4 ∷ []) ≡ some zones
unfolding load_zone_from_json from_json
zones_load = refl

knows : make_data_object 1 ((1, 6) ∷ []) ≡ some 6
unfolding make_data_object Map.find
knows = refl

abbrev config : ConfigFile ℕ
config = reads 0

script_example :
    let r = add_objects zone_key zones [] in
    (load_all_data_script load_zone zone_key post_load_zone 1
        ((1, 6) ∷ [])
        (λ c. some (codes "/s/"))
        config
        zone_file
        (codes "/g")
        []
        []
      ≡ loads r)
    × (r.0 ≡ true → All (λ o. find_data (zone_key o) r.1 ≡ some o) zones)
    × All (λ o. (v : ZoneData) × (find_data (zone_key o) r.1 ≡ some v)) zones
    × ((k : ℕ) (o : ZoneData)
        → find_data {Object = ZoneData} k [] ≡ some o
        → find_data k r.1 ≡ some o)
script_example =
    load_all_data_script_lem load_zone zone_key post_load_zone 1 ((1, 6) ∷ []) {C = ℕ}
      (λ c. some (codes "/s/")) 0 zone_file (codes "/g") [] (codes "/s/")
      (zone 4 ∷ zone 5 ∷ zone 4 ∷ []) 6 [] zones refl refl knows zones_load
