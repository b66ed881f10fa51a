-- ===== src/Rio/Broadcast.antt =====
-- DdingGameServer/RIO_Core/Broadcaster.cpp: a packet to every session. The set of the session ids is
-- part of the server's state, and the packet's buffer is one that Alloc could give.
pub mod Queues
use dding_game_server.Prelude.{ℕ, Bool, Option, none, some, List, [], ◌∷◌, if◌then◌else◌}
use dding_game_server.Rio.Types.{RioLib, Server, Result, ok, ◌>>=◌}
use dding_game_server.Rio.Release.{get_session}
use dding_game_server.Rio.Send.{send_packet}

module _ ⦃lib : RioLib⦄ where
  -- The body of the loop, on what GetSession gave. The buffer is encoded once: a second session gets
  -- what the first one got.
  unfoldable pub send_to : Bool → lib.Packet → Option ℕ → Server → Result Server
  send_to sent p none sv = ok sv
  send_to sent p (some a) sv =
      if (sv.heap a).is_released_session then ok sv else send_packet sent p a sv

  -- `sent` says for each session what RIOSend answers.
  unfoldable pub send_to_each : (ℕ → Bool) → lib.Packet → List ℕ → Server → Result Server
  send_to_each sent p [] sv = ok sv
  send_to_each sent p (id ∷ ids) sv =
      send_to (sent id) p (get_session id sv) sv >>= send_to_each sent p ids

  unfoldable pub braodcast_to_all_session : (ℕ → Bool) → lib.Packet → Server → Result Server
  braodcast_to_all_session sent p sv = send_to_each sent p sv.session_id_set sv
