-- ===== src/Rio/Release.antt =====
-- Sessions in the server's map, and how they leave it: RIOServer::GetSession, Disconnect,
-- ReleaseSession and IOCountDecrement, with RIOSession::OnSessionReleased and the Broadcaster's
-- OnSessionEntered and OnSessionLeaved.
use dding_game_server.Prelude.{ℕ, Option, none, some, List, ◌∷◌, ◌==◌, if◌then◌else◌, set, get_or}
use dding_game_server.Prelude.Map
use dding_game_server.Prelude.SortedSet
use dding_game_server.Prelude.Word.{inc32, dec32}
use dding_game_server.Rio.Types.{
  RioLib, Session, Server, Effect, closes_socket, shuts_down, frees_recv_buffer, frees_send_buffer,
  invalid_socket,
}

module _ ⦃lib : RioLib⦄ where
  abbrev pub write : ℕ → Session → Server → Server
  write a s sv = record sv { heap = λ b. if b == a then s else sv.heap b }

  abbrev pub emit : Effect → Server → Server
  emit e sv = record sv { effects = e ∷ sv.effects }

  unfoldable pub get_session : ℕ → Server → Option ℕ
  get_session id sv = Map.find id sv.session_map

  unfoldable pub get_session_count : Server → ℕ
  get_session_count sv = sv.session_count

  unfoldable pub disconnect : ℕ → Server → Server
  disconnect id sv = elim (Map.find id sv.session_map) [
    | none ↦ sv
    | some a ↦ emit (shuts_down (sv.heap a).socket) sv
  ]

  unfoldable pub on_session_entered : ℕ → Server → Server
  on_session_entered id sv = record sv { session_id_set = SortedSet.insert id sv.session_id_set }

  unfoldable pub on_session_leaved : ℕ → Server → Server
  on_session_leaved id sv = record sv { session_id_set = SortedSet.erase id sv.session_id_set }

  -- both buffers of the session at the address go back to their pools
  unfoldable pub on_session_released : ℕ → Server → Server
  on_session_released a sv = emit (frees_send_buffer a) (emit (frees_recv_buffer a) sv)

  -- `--numOfSessionInWorkerThread[threadId]`
  unfoldable pub leave_thread : ℕ → List ℕ → List ℕ
  leave_thread t counts = set counts t (dec32 (get_or counts t 0))

  unfoldable pub release_session : ℕ → Server → Server
  unfolding on_session_released leave_thread
  release_session a sv =
      let s = sv.heap a in
      write a (record s { socket = invalid_socket })
        (on_session_released a (record sv {
          num_of_session_in_worker_thread =
              leave_thread s.thread_id sv.num_of_session_in_worker_thread;
          session_count = dec32 sv.session_count;
          session_map = Map.erase s.session_id sv.session_map;
          effects = closes_socket s.socket ∷ sv.effects;
        }))

  -- `++session.ioCount` and `--session.ioCount` alone
  unfoldable pub add_io : ℕ → Server → Server
  add_io a sv = write a (record (sv.heap a) { io_count = inc32 (sv.heap a).io_count }) sv

  unfoldable pub drop_io : ℕ → Server → Server
  drop_io a sv = write a (record (sv.heap a) { io_count = dec32 (sv.heap a).io_count }) sv

  unfoldable pub io_count_decrement : ℕ → Server → Server
  io_count_decrement a sv =
      let sv' = drop_io a sv in
      if (sv'.heap a).io_count == 0
      then release_session a (on_session_leaved (sv'.heap a).session_id sv')
      else sv'
