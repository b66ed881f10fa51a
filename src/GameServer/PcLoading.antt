-- ===== src/GameServer/PcLoading.antt =====
-- GameServer/GameServer/PCDBLoader.cpp, the loading of a PC from the database, PC.h's two counts of the
-- procedures to wait for, and PCPacketHandler.cpp, the answer to a ping.
use dding_game_server.Prelude.{
  ℕ, ◌≡◌, ◌<◌, ◌⊎◌, ◌↔◌, refl, sym, ap, ◌∙◌, Bool, true, false, inl, inr, Option, none, some, List,
  ◌∷◌, ◌++◌, codes, drop, length, ltb, ◌==◌, if◌then◌else◌, arith, Bool-cases,
}
use dding_game_server.Prelude.Map
use dding_game_server.GameServer.PcManager.{
  Pc, PcManager, insert_pc, insert_by_pc_id, find_pc_by_session_id,
}

abbrev pub total_db_load_count : ℕ
total_db_load_count = 0

abbrev pub total_db_finalize_load_count : ℕ
total_db_finalize_load_count = 0

-- A call returns, with the log's lines, the last first, or reads behind the end of a literal.
pub data Loading (A : Type 0) : Type 0 where
  returns : A → List (List ℕ) → Loading A
  reads_out_of_range : Loading A

-- `"PC " + pcDBID`: the literal from that place on. Behind its terminator there is nothing of it.
unfoldable pub pc_text : ℕ → Option (List ℕ)
pc_text pc_db_id =
    let literal = codes "PC " in
    if ltb (length literal) pc_db_id then none else some (drop pc_db_id literal)

unfoldable pub write_log : ℕ → List ℕ → List (List ℕ) → Loading Bool
write_log pc_db_id text log = elim (pc_text pc_db_id) [
  | none ↦ reads_out_of_range
  | some pc ↦ returns true ((pc ++ text) ∷ log)
]

-- `return next();` behind the log.
unfoldable pub and_then : Loading Bool → (List (List ℕ) → Loading Bool) → Loading Bool
and_then (returns b log) next = next log
and_then reads_out_of_range next = reads_out_of_range

unfoldable pub on_finalize_load_from_db : ℕ → List (List ℕ) → Loading Bool
on_finalize_load_from_db pc_db_id log =
    write_log pc_db_id (codes " is finalize load completed from db") log

unfoldable pub finalize_load_from_db : ℕ → List (List ℕ) → Loading Bool
finalize_load_from_db pc_db_id log =
    if total_db_finalize_load_count == 0
    then on_finalize_load_from_db pc_db_id log
    else returns true log

unfoldable pub on_load_from_db : ℕ → List (List ℕ) → Loading Bool
on_load_from_db pc_db_id log =
    and_then (write_log pc_db_id (codes " is load completed from db") log)
      (finalize_load_from_db pc_db_id)

unfoldable pub load_from_db : ℕ → List (List ℕ) → Loading Bool
load_from_db pc_db_id log =
    if total_db_load_count == 0 then on_load_from_db pc_db_id log else returns true log

-- `none` is InsertPC's crash.
unfoldable pub on_db_load_completed : Pc → PcManager → Option PcManager
on_db_load_completed pc m = insert_pc pc m

-- HandlePacket of a Ping: the session that a Pong is sent to, and what it returns.
unfoldable pub handle_ping : ℕ → PcManager → Bool × Option ℕ
handle_ping session_id m = elim (find_pc_by_session_id session_id m) [
  | none ↦ (false, none)
  | some pc ↦ (true, some pc.session_id)
]

-- Loading a PC reads behind the end of the literal "PC " exactly if the PC's database id is
-- greater than 3. Otherwise it returns true, behind two lines of the log that begin with what the
-- id leaves of the literal, and do not name the id.
load_from_db_lem :
    (pc_db_id : ℕ) (log : List (List ℕ))
    → ((load_from_db pc_db_id log ≡ reads_out_of_range) ↔ (3 < pc_db_id))
      × ((3 < pc_db_id)
          ⊎ (load_from_db pc_db_id log
              ≡ returns true (
                  (drop pc_db_id (codes "PC ") ++ codes " is finalize load completed from db")
                  ∷ (drop pc_db_id (codes "PC ") ++ codes " is load completed from db")
                  ∷ log)))
unfolding load_from_db on_load_from_db finalize_load_from_db on_finalize_load_from_db write_log
    and_then pc_text
load_from_db_lem pc_db_id log = elim (Bool-cases (ltb 3 pc_db_id)) [
  | inl y ↦
      let out : pc_text pc_db_id ≡ none = rw (y, pc_text) refl in
      rw (out, load_from_db, on_load_from_db, write_log, and_then)
        ((λ _. ground (arith, y), λ _. refl), inl (ground (arith, y)))
  | inr n ↦
      let inside : pc_text pc_db_id ≡ some (drop pc_db_id (codes "PC ")) = rw (n, pc_text) refl in
      rw
        (
          inside, load_from_db, on_load_from_db, write_log, and_then, finalize_load_from_db,
          on_finalize_load_from_db,
        )
        ((λ e. absurd (cc e), λ h. absurd (ground (arith, n, h))), inr refl)
]

insert_by_pc_id-session_map :
    (pc : Pc) (old : Option Pc) (m : PcManager)
    → (insert_by_pc_id pc old m).session_id_to_pc_map ≡ m.session_id_to_pc_map
unfolding insert_by_pc_id
insert_by_pc_id-session_map pc none m = refl
insert_by_pc_id-session_map pc (some old) m = refl

insert_pc-find :
    (pc : Pc) (m m' : PcManager)
    → Map.find pc.session_id m.session_id_to_pc_map ≡ none
    → insert_pc pc m ≡ some m'
    → Map.find pc.session_id m'.session_id_to_pc_map ≡ some pc
unfolding insert_pc
insert_pc-find pc m m' n e =
    let added = record m {
      session_id_to_pc_map = Map.insert pc.session_id pc m.session_id_to_pc_map;
    } in
    let made : some (insert_by_pc_id pc (Map.find pc.pc_id m.pc_id_to_pc_map) added) ≡ some m' =
      rw (n, insert_pc) at e in
    ap (Map.find pc.session_id) (
      ap (λ o. (of_some m' o).session_id_to_pc_map) (sym made)
      ∙ insert_by_pc_id-session_map pc (Map.find pc.pc_id m.pc_id_to_pc_map) added)
    ∙ Map.find-insert_self pc.session_id pc m.session_id_to_pc_map n
  where
    of_some : PcManager → Option PcManager → PcManager
    of_some d none = d
    of_some d (some x) = x

-- A ping is answered only for a session whose PC was inserted: from a state without the session, it
-- is refused, and once the PC's load is completed, it is answered to that session.
on_db_load_completed-handle_ping :
    (pc : Pc) (m m' : PcManager)
    → Map.find pc.session_id m.session_id_to_pc_map ≡ none
    → on_db_load_completed pc m ≡ some m'
    → (handle_ping pc.session_id m ≡ (false, none))
      × (handle_ping pc.session_id m' ≡ (true, some pc.session_id))
unfolding on_db_load_completed handle_ping find_pc_by_session_id
on_db_load_completed-handle_ping pc m m' n e =
    (rw (n, handle_ping) refl, rw (insert_pc-find pc m m' n e, handle_ping) refl)
