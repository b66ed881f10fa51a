-- ===== src/GameServer/Objects.antt =====
-- GameServer/GameServer/GameObjectManager.cpp, GameObjectManager.h and ZoneManager.cpp: the objects by id,
-- and the zones by id with what is logged.
use dding_game_server.Prelude.{
  ℕ, ◌+◌, ◌^◌, ◌<◌, ◌≡◌, ◌≢◌, refl, sym, inl, inr, Option, none, some, List, [], ◌∷◌, arith,
  Option-cases,
}
use dding_game_server.Prelude.Map
use dding_game_server.Prelude.Map.{
  Map, find-erase, find-insert_self, find-insert_ne, find-insert_present, find-insert_key,
}
use dding_game_server.Prelude.Word.{inc64}

-- GameObjectManager; `A` stands for what an object is beside its id.
pub record GameObjectManager (A : Type 0) : Type 0 where
  pub object_id_generator : ℕ
  pub object_map : Map A

module _ {A : Type 0} where
  abbrev pub no_objects : GameObjectManager A
  no_objects = record { object_id_generator = 1; object_map = [] }

  unfoldable pub generate_object_id : GameObjectManager A → ℕ × GameObjectManager A
  generate_object_id m =
      (inc64 m.object_id_generator, record m { object_id_generator = inc64 m.object_id_generator })

  unfoldable pub insert_game_object : ℕ → A → GameObjectManager A → GameObjectManager A
  insert_game_object id x m = record m { object_map = Map.insert id x m.object_map }

  unfoldable pub erase_game_object : ℕ → GameObjectManager A → GameObjectManager A
  erase_game_object id m = record m { object_map = Map.erase id m.object_map }

  unfoldable pub find_object : ℕ → GameObjectManager A → Option A
  find_object id m = Map.find id m.object_map

  -- Every object of the map has an id that was generated.
  unfoldable pub IsGenerated : GameObjectManager A → Type 0
  IsGenerated m =
      (id : ℕ) (x : A) → Map.find id m.object_map ≡ some x → id < m.object_id_generator + 1

  -- An object that is inserted under the next generated id is found there, and every other object
  -- is found as before, until the ids come round; the ids of the map are generated ones again.
  insert_game_object-fresh :
      (x : A) (m : GameObjectManager A)
      → m.object_id_generator + 1 < 2 ^ 64
      → IsGenerated m
      → let g = generate_object_id m in
        let m' = insert_game_object g.0 x g.1 in
        (find_object g.0 m' ≡ some x)
        × ((id : ℕ) → id ≢ g.0 → find_object id m' ≡ find_object id m)
        × IsGenerated m'
  unfolding generate_object_id insert_game_object find_object IsGenerated
  insert_game_object-fresh x m room h = (
    find-insert_self _ x m.object_map unused,
    λ id ne. find-insert_ne _ id x m.object_map (λ e. ne (sym e)),
    λ id y f. elim (find-insert_key _ id x y m.object_map f) [
      | inl e ↦ omega (arith, e)
      | inr old ↦ omega (arith, h id y old)
    ],
  )
    where
      unused : Map.find (inc64 m.object_id_generator) m.object_map ≡ none
      unused = elim (Option-cases (Map.find (inc64 m.object_id_generator) m.object_map)) [
        | inl n ↦ n
        | inr (y, f) ↦ absurd (omega (arith, h _ y f))
      ]

-- The literal that a log line is made of. The source adds the zone's id to the literal's address,
-- so that the id says how many of its characters are left out.
pub data ZoneLog : Type 0 where
  duplicate_zone zone_inserted zone_delete_failed zone_delete_successed : ℕ → ZoneLog

pub record ZoneManager (Z : Type 0) : Type 0 where
  pub zone_map : Map Z
  -- the last first
  pub logs : List ZoneLog

module _ {Z : Type 0} where
  unfoldable pub get_zone : ℕ → ZoneManager Z → Option Z
  get_zone id m = Map.find id m.zone_map

  unfoldable pub insert_zone : ℕ → Z → ZoneManager Z → ZoneManager Z
  insert_zone id z m = elim (Map.find id m.zone_map) [
    | some _ ↦ record m { logs = duplicate_zone id ∷ m.logs }
    | none ↦ record m { zone_map = Map.insert id z m.zone_map; logs = zone_inserted id ∷ m.logs }
  ]

  -- The line is written in each branch, and once more behind them.
  unfoldable pub delete_zone : ℕ → ZoneManager Z → ZoneManager Z
  delete_zone id m = elim (Map.find id m.zone_map) [
    | none ↦ record m { logs = zone_delete_failed id ∷ zone_delete_failed id ∷ m.logs }
    | some _ ↦ record m {
      zone_map = Map.erase id m.zone_map;
      logs = zone_delete_successed id ∷ zone_delete_successed id ∷ m.logs;
    }
  ]

  insert_zone-new :
      (id : ℕ) (z : Z) (m : ZoneManager Z)
      → Map.find id m.zone_map ≡ none
      → insert_zone id z m
        ≡ record m { zone_map = Map.insert id z m.zone_map; logs = zone_inserted id ∷ m.logs }
  unfolding insert_zone
  insert_zone-new id z m n = rw (n, insert_zone) refl

  insert_zone-taken :
      (id : ℕ) (z w : Z) (m : ZoneManager Z)
      → Map.find id m.zone_map ≡ some w
      → insert_zone id z m ≡ record m { logs = duplicate_zone id ∷ m.logs }
  unfolding insert_zone
  insert_zone-taken id z w m f = rw (f, insert_zone) refl

  delete_zone-there :
      (id : ℕ) (w : Z) (m : ZoneManager Z)
      → Map.find id m.zone_map ≡ some w
      → delete_zone id m ≡ record m {
        zone_map = Map.erase id m.zone_map;
        logs = zone_delete_successed id ∷ zone_delete_successed id ∷ m.logs;
      }
  unfolding delete_zone
  delete_zone-there id w m f = rw (f, delete_zone) refl

  -- The first zone of an id stays until it is deleted: a second insertion changes the log alone.
  -- Behind a deletion the id has no zone, the others stay, and two lines more are logged.
  insert_zone-first :
      (id : ℕ) (z z' : Z) (m : ZoneManager Z)
      → get_zone id m ≡ none
      → let once = insert_zone id z m in
        let twice = insert_zone id z' once in
        let gone = delete_zone id twice in
        (get_zone id twice ≡ some z)
        × (twice.zone_map ≡ once.zone_map)
        × (get_zone id gone ≡ none)
        × ((other : ℕ) → other ≢ id → get_zone other gone ≡ get_zone other m)
        × (gone.logs
            ≡ zone_delete_successed id
              ∷ zone_delete_successed id
              ∷ duplicate_zone id
              ∷ zone_inserted id
              ∷ m.logs)
  unfolding get_zone
  insert_zone-first id z z' m n =
      rw
        (
          insert_zone-new id z m n,
          insert_zone-taken id z' z once found,
          delete_zone-there id z twice found,
        )
        (
          found,
          refl,
          ground (arith, find-erase id id (Map.insert id z m.zone_map)),
          λ other ne. ground (
            arith,
            find-erase id other (Map.insert id z m.zone_map),
            find-insert_ne id other z m.zone_map,
          ),
          refl,
        )
    where
      once : ZoneManager Z
      once = record m { zone_map = Map.insert id z m.zone_map; logs = zone_inserted id ∷ m.logs }

      twice : ZoneManager Z
      twice = record once { logs = duplicate_zone id ∷ once.logs }

      found : Map.find id (Map.insert id z m.zone_map) ≡ some z
      found = find-insert_self id z m.zone_map n
