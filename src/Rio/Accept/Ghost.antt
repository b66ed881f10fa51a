-- ===== src/Rio/Accept/Ghost.antt =====
-- A session whose first receive fails.
use dding_game_server.Prelude.{ℕ, ◌≡◌, refl, ◌∙◌, true, false, none, ◌==◌, arith}
use dding_game_server.Prelude.Map
use dding_game_server.Prelude.Map.{find-erase}
use dding_game_server.Prelude.SortedSet
use dding_game_server.Prelude.SortedSet.{contains-insert}
use dding_game_server.Rio.Types.{RioLib, Server}
use dding_game_server.Rio.Release.{
  drop_io, io_count_decrement, release_session, on_session_entered, on_session_leaved,
  on_session_released, leave_thread,
}
use dding_game_server.Rio.Recv.{recv_post}
use dding_game_server.Rio.Accept.{enter_session}

module _ ⦃lib : RioLib⦄ where
  last_zero :
      (a : ℕ) (sv : Server)
      → (sv.heap a).io_count ≡ 1
      → (((drop_io a sv).heap a).io_count == 0) ≡ true
  unfolding drop_io
  last_zero a sv one = ground arith

  drop_io-id : (a : ℕ) (sv : Server) → ((drop_io a sv).heap a).session_id ≡ (sv.heap a).session_id
  unfolding drop_io
  drop_io-id a sv = ground arith

  -- The last count of a session goes, and the session with it.
  last_gone :
      (a : ℕ) (sv : Server)
      → (sv.heap a).io_count ≡ 1
      → Map.find (sv.heap a).session_id (io_count_decrement a sv).session_map ≡ none
  unfolding io_count_decrement release_session on_session_leaved on_session_released leave_thread
  last_gone a sv one =
      rw (last_zero a sv one, io_count_decrement)
        (ground (
          arith,
          drop_io-id a sv,
          find-erase ((drop_io a sv).heap a).session_id (sv.heap a).session_id
              (drop_io a sv).session_map,
        ))

  -- When the first receive fails of a session that is new to the map and has only the count that
  -- MakeNewSession holds, MakeNewSession still returns true: the map has no session with the id,
  -- and the broadcaster's set has the id.
  pub enter_session-ghost :
      (a : ℕ) (sv : Server)
      → (sv.heap a).io_count ≡ 1
      → Map.find (sv.heap a).session_id sv.session_map ≡ none
      → let out = enter_session false a sv in
        (out.0 ≡ true)
        × (Map.find (sv.heap a).session_id out.1.session_map ≡ none)
        × (SortedSet.contains (sv.heap a).session_id out.1.session_id_set ≡ true)
  unfolding enter_session on_session_entered recv_post
  enter_session-ghost a sv one n =
      rw (n, enter_session)
        (
          refl,
          last_gone a _ one,
          contains-insert (sv.heap a).session_id (sv.heap a).session_id _ ∙ ground arith,
        )
