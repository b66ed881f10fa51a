-- ===== src/GameServer/PcManager.antt =====
-- GameServer/GameServer/PCManager.cpp: the player characters by session id and by database id.
use dding_game_server.Prelude.{ℕ, ◌≡◌, refl, Option, none, some, List, ◌∷◌, arith}
use dding_game_server.Prelude.Map
use dding_game_server.Prelude.Map.{
  Map, find-erase, find-insert_self, find-insert_ne, find-insert_cases,
}

-- What identifies a PC: its session, and its database id.
pub record Pc : Type 0 where
  pub session_id : ℕ
  pub pc_id : ℕ

pub record PcManager : Type 0 where
  pub session_id_to_pc_map : Map Pc
  pub pc_id_to_pc_map : Map Pc
  -- the sessions that were told to disconnect, the last first
  pub disconnected : List ℕ

unfoldable pub find_pc_by_session_id : ℕ → PcManager → Option Pc
find_pc_by_session_id id m = Map.find id m.session_id_to_pc_map

unfoldable pub find_pc_by_pc_id : ℕ → PcManager → Option Pc
find_pc_by_pc_id id m = Map.find id m.pc_id_to_pc_map

-- InsertPC behind the insertion by session: the old PC of the same database id, if there is one.
unfoldable pub insert_by_pc_id : Pc → Option Pc → PcManager → PcManager
insert_by_pc_id pc none m = record m { pc_id_to_pc_map = Map.insert pc.pc_id pc m.pc_id_to_pc_map }
insert_by_pc_id pc (some old) m = record m {
  disconnected = pc.session_id ∷ old.session_id ∷ m.disconnected;
}

-- `none` is the crash on a session id that is there already.
unfoldable pub insert_pc : Pc → PcManager → Option PcManager
insert_pc pc m = elim (Map.find pc.session_id m.session_id_to_pc_map) [
  | some _ ↦ none
  | none ↦ some (
      insert_by_pc_id pc (Map.find pc.pc_id m.pc_id_to_pc_map)
        (record m { session_id_to_pc_map = Map.insert pc.session_id pc m.session_id_to_pc_map }))
]

-- The second half of the two erasing functions does nothing for a missing key.
unfoldable pub erase_pc_by_session_id : ℕ → PcManager → PcManager
erase_pc_by_session_id id m = elim (Map.find id m.session_id_to_pc_map) [
  | none ↦ m
  | some pc ↦ record m {
    session_id_to_pc_map = Map.erase id m.session_id_to_pc_map;
    pc_id_to_pc_map = elim (Map.find pc.pc_id m.pc_id_to_pc_map) [
      | none ↦ m.pc_id_to_pc_map
      | some _ ↦ Map.erase pc.pc_id m.pc_id_to_pc_map
    ];
  }
]

unfoldable pub erase_pc_by_pc_id : ℕ → PcManager → PcManager
erase_pc_by_pc_id id m = elim (Map.find id m.pc_id_to_pc_map) [
  | none ↦ m
  | some pc ↦ record m {
    pc_id_to_pc_map = Map.erase id m.pc_id_to_pc_map;
    session_id_to_pc_map = elim (Map.find pc.session_id m.session_id_to_pc_map) [
      | none ↦ m.session_id_to_pc_map
      | some _ ↦ Map.erase pc.session_id m.session_id_to_pc_map
    ];
  }
]

-- Each map holds a PC under its own id, and the two maps hold the same PCs.
pub record IsPaired (m : PcManager) : Type 0 where
  pub to_pc :
      (id : ℕ) (pc : Pc)
      → Map.find id m.session_id_to_pc_map ≡ some pc
      → (pc.session_id ≡ id) × (Map.find pc.pc_id m.pc_id_to_pc_map ≡ some pc)
  pub to_session :
      (id : ℕ) (pc : Pc)
      → Map.find id m.pc_id_to_pc_map ≡ some pc
      → (pc.pc_id ≡ id) × (Map.find pc.session_id m.session_id_to_pc_map ≡ some pc)

-- While the two maps hold the same PCs, a PC that is erased under its session's id is found under
-- neither of its ids afterwards, and the two maps still hold the same PCs.
erase_pc_by_session_id-IsPaired :
    (id : ℕ) (pc : Pc) (m : PcManager)
    → IsPaired m
    → find_pc_by_session_id id m ≡ some pc
    → IsPaired (erase_pc_by_session_id id m)
      × (find_pc_by_session_id id (erase_pc_by_session_id id m) ≡ none)
      × (find_pc_by_pc_id pc.pc_id (erase_pc_by_session_id id m) ≡ none)
unfolding find_pc_by_session_id find_pc_by_pc_id erase_pc_by_session_id
erase_pc_by_session_id-IsPaired id pc m h f =
    rw (f, (h.to_pc id pc f).1, erase_pc_by_session_id)
      (
        record {
          to_pc = λ j q e. ground (
            arith,
            find-erase pc.pc_id q.pc_id m.pc_id_to_pc_map,
            find-erase id j m.session_id_to_pc_map,
            h.to_pc j q,
            h.to_pc id pc f,
          );
          to_session = λ j q e. ground (
            arith,
            find-erase pc.pc_id j m.pc_id_to_pc_map,
            find-erase id q.session_id m.session_id_to_pc_map,
            h.to_session j q,
            h.to_pc id pc f,
          );
        },
        ground (arith, find-erase id id m.session_id_to_pc_map),
        ground (arith, find-erase pc.pc_id pc.pc_id m.pc_id_to_pc_map),
      )

-- Erasing by the database id is erasing by the session id of the PC that is found, as long as the
-- two maps hold the same PCs.
erase_pc_by_pc_id-erase_pc_by_session_id :
    (id : ℕ) (pc : Pc) (m : PcManager)
    → IsPaired m
    → find_pc_by_pc_id id m ≡ some pc
    → erase_pc_by_pc_id id m ≡ erase_pc_by_session_id pc.session_id m
unfolding find_pc_by_pc_id erase_pc_by_pc_id erase_pc_by_session_id
erase_pc_by_pc_id-erase_pc_by_session_id id pc m h f = simp (
  f,
  (h.to_session id pc f).1,
  (h.to_session id pc f).0,
  erase_pc_by_pc_id,
  erase_pc_by_session_id,
)

-- While the two maps hold the same PCs, a PC whose session id and database id are both new is found
-- under both once it is inserted, and the two maps still hold the same PCs.
insert_pc-IsPaired :
    (pc : Pc) (m : PcManager)
    → IsPaired m
    → find_pc_by_session_id pc.session_id m ≡ none
    → find_pc_by_pc_id pc.pc_id m ≡ none
    → (m' : PcManager) × (insert_pc pc m ≡ some m')
      × IsPaired m'
      × (find_pc_by_session_id pc.session_id m' ≡ some pc)
      × (find_pc_by_pc_id pc.pc_id m' ≡ some pc)
unfolding find_pc_by_session_id find_pc_by_pc_id insert_pc insert_by_pc_id
insert_pc-IsPaired pc m h n n' = (
  record m {
    session_id_to_pc_map = Map.insert pc.session_id pc m.session_id_to_pc_map;
    pc_id_to_pc_map = Map.insert pc.pc_id pc m.pc_id_to_pc_map;
  },
  rw (n, n', insert_pc, insert_by_pc_id) refl,
  record {
    to_pc = λ j q e. ground (
      arith,
      find-insert_cases pc.session_id j pc q m.session_id_to_pc_map n e,
      h.to_pc j q,
      find-insert_self pc.pc_id pc m.pc_id_to_pc_map n',
      find-insert_ne pc.pc_id q.pc_id pc m.pc_id_to_pc_map,
    );
    to_session = λ j q e. ground (
      arith,
      find-insert_cases pc.pc_id j pc q m.pc_id_to_pc_map n' e,
      h.to_session j q,
      find-insert_self pc.session_id pc m.session_id_to_pc_map n,
      find-insert_ne pc.session_id q.session_id pc m.session_id_to_pc_map,
    );
  },
  find-insert_self pc.session_id pc m.session_id_to_pc_map n,
  find-insert_self pc.pc_id pc m.pc_id_to_pc_map n',
)

-- While the two maps hold the same PCs, a PC with a new session whose database id is taken already
-- is found under its session once it is inserted, and both sessions are told to disconnect. When
-- the new session then leaves, the old PC is no more found under its database id, and is still
-- found under its session.
pub insert_pc-duplicate :
    (pc old : Pc) (m : PcManager)
    → IsPaired m
    → find_pc_by_session_id pc.session_id m ≡ none
    → find_pc_by_pc_id pc.pc_id m ≡ some old
    → (m' : PcManager) × (insert_pc pc m ≡ some m')
      × (m'.disconnected ≡ pc.session_id ∷ old.session_id ∷ m.disconnected)
      × (find_pc_by_session_id pc.session_id m' ≡ some pc)
      × (find_pc_by_pc_id pc.pc_id (erase_pc_by_session_id pc.session_id m') ≡ none)
      × (find_pc_by_session_id old.session_id (erase_pc_by_session_id pc.session_id m') ≡ some old)
unfolding find_pc_by_session_id find_pc_by_pc_id insert_pc insert_by_pc_id erase_pc_by_session_id
insert_pc-duplicate pc old m h n f = (
  record m {
    session_id_to_pc_map = Map.insert pc.session_id pc m.session_id_to_pc_map;
    disconnected = pc.session_id ∷ old.session_id ∷ m.disconnected;
  },
  rw (n, f, insert_pc, insert_by_pc_id) refl,
  refl,
  found,
  rw (found, f, erase_pc_by_session_id)
      (ground (arith, find-erase pc.pc_id pc.pc_id m.pc_id_to_pc_map)),
  rw (found, erase_pc_by_session_id)
      (ground (
        arith,
        find-erase pc.session_id old.session_id
            (Map.insert pc.session_id pc m.session_id_to_pc_map),
        find-insert_ne pc.session_id old.session_id pc m.session_id_to_pc_map,
        (h.to_session pc.pc_id old f).1,
      )),
)
  where
    found : Map.find pc.session_id (Map.insert pc.session_id pc m.session_id_to_pc_map) ≡ some pc
    found = find-insert_self pc.session_id pc m.session_id_to_pc_map n
