-- ===== src/Tests/Tables.antt =====
-- The theorems on the tables of player characters and of game servers at small states of theirs.
use dding_game_server.Prelude.{◌≡◌, refl, none, some, [], ◌∷◌, arith}
use dding_game_server.Prelude.Map
use dding_game_server.GameServer.PcManager.{
  Pc, PcManager, IsPaired, insert_pc, find_pc_by_session_id, find_pc_by_pc_id,
  erase_pc_by_session_id, insert_pc-duplicate,
}

abbrev knight : Pc
knight = record { session_id = 1; pc_id = 70 }

abbrev pcs : PcManager
pcs = record {
  session_id_to_pc_map = (1, knight) ∷ [];
  pc_id_to_pc_map = (70, knight) ∷ [];
  disconnected = [];
}

pcs-IsPaired : IsPaired pcs
unfolding Map.find
pcs-IsPaired = record { to_pc = λ id pc f. ground arith; to_session = λ id pc f. ground arith }

duplicate_example :
    (m : PcManager) × (insert_pc (record { session_id = 2; pc_id = 70 }) pcs ≡ some m)
    × (m.disconnected ≡ 2 ∷ 1 ∷ [])
    × (find_pc_by_session_id 2 m ≡ some (record { session_id = 2; pc_id = 70 }))
    × (find_pc_by_pc_id 70 (erase_pc_by_session_id 2 m) ≡ none)
    × (find_pc_by_session_id 1 (erase_pc_by_session_id 2 m) ≡ some knight)
unfolding find_pc_by_session_id find_pc_by_pc_id Map.find
duplicate_example =
    insert_pc-duplicate (record { session_id = 2; pc_id = 70 }) knight pcs pcs-IsPaired refl refl
