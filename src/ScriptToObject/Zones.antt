-- ===== src/ScriptToObject/Zones.antt =====
-- ZoneData.h and FromJsonFunction.cpp of ScriptToObject/ScriptToObject: LoadFromJson of a zone. The JSON
-- library is a parameter.
use dding_game_server.Prelude.{ℕ, ◌+◌, ◌*◌, Bool, true, Option, some, List}
use dding_game_server.Prelude.Int.{ℤ, pos, negsuc}
use dding_game_server.DbServer.Connections.{◌>>=◌}

-- The names that the two functions ask a JSON value for.
pub data Member : Type 0 where
  id zone_name min_position max_position x y : Member

-- nlohmann::json: a member of a value, and what a value is as a C++ type. `none` where the library throws
-- or, for the constant `[]` of a member that is not there, says nothing of what happens.
pub record JsonLib : Type 1 where
  pub Json : Type 0
  pub member : Json → Member → Option Json
  pub as_int : Json → Option ℤ
  pub as_uint : Json → Option ℕ
  pub as_string : Json → Option (List ℕ)

pub record Position : Type 0 where
  pub x_of : ℕ
  pub y_of : ℕ

pub record ZoneData : Type 0 where
  pub zone_id : ℤ
  pub name : List ℕ
  pub min_of : Position
  pub max_of : Position

module _ ⦃lib : JsonLib⦄ where
  unfoldable pub from_json : lib.Json → Option Position
  from_json j = do
    x_json ← lib.member j x
    x_value ← lib.as_uint x_json
    y_json ← lib.member j y
    y_value ← lib.as_uint y_json
    some (record { x_of = x_value; y_of = y_value })

  unfoldable pub load_zone_from_json : lib.Json → Option ZoneData
  load_zone_from_json j = do
    id_json ← lib.member j id
    id_value ← lib.as_int id_json
    name_json ← lib.member j zone_name
    name_value ← lib.as_string name_json
    min_json ← lib.member j min_position
    min_value ← from_json min_json
    max_json ← lib.member j max_position
    max_value ← from_json max_json
    some (record { zone_id = id_value; name = name_value; min_of = min_value; max_of = max_value })

-- PostLoad of a zone.
unfoldable pub post_load_zone : ZoneData → Bool
post_load_zone z = true

-- The containers go by natural numbers: a different one for each id.
unfoldable pub zone_key_of : ℤ → ℕ
zone_key_of (pos n) = 2 * n
zone_key_of (negsuc n) = 2 * n + 1

-- The key that SET_DATA_OBJECT names.
unfoldable pub zone_key : ZoneData → ℕ
zone_key z = zone_key_of z.zone_id
