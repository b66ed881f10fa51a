-- ===== src/Rio/Steps.antt =====
-- The server as a transition system: Accepter takes a socket, Worker serves a completed request, and
-- the program sends and disconnects. Each step is one call to its end; how the steps of the
-- threads follow each other is free.
use dding_game_server.Prelude.{ℕ, ◌+◌, ◌^◌, ◌<◌, ◌≡◌, Bool, some, List, [], ◌∷◌, ◌++◌, replicate}
use dding_game_server.Rio.Types.{RioLib, Server, IoContext, ok, invalid_session_id, invalid_socket}
use dding_game_server.Rio.Release.{get_session, disconnect}
use dding_game_server.Rio.Send.{send_packet, send_packet_and_disconnect}
use dding_game_server.Rio.Broadcast.{braodcast_to_all_session}
use dding_game_server.Rio.Recv.{Io, HandledPacket}
use dding_game_server.Rio.Accept.{Setup, accept_socket, new_session}
use dding_game_server.Rio.Worker.{RioResult, work}

module _ ⦃lib : RioLib⦄ where
  -- The server that RIOServer::StartServer leaves for `threads` worker threads.
  abbrev pub started : ℕ → ℕ → Server
  started threads max_clients = record {
    heap = λ _. new_session invalid_socket invalid_session_id 0;
    next_address = 0;
    session_map = [];
    session_count = 0;
    num_of_session_in_worker_thread = replicate threads 0;
    next_session_id = invalid_session_id + 1;
    max_client_count = max_clients;
    session_id_set = [];
    posted = [];
    effects = [];
  }

  -- The kernel gives back a request that it held.
  abbrev pub completed : List IoContext → Server → Server
  completed rest sv = record sv { posted = rest }

  pub data Step : Server → Server → Type 0 where
    -- before the 64-bit id comes round
    accepts :
        (os : Setup) (socket : ℕ) (sv : Server)
        → sv.next_session_id + 1 < 2 ^ 64
        → Step sv (accept_socket os socket sv)
    works :
        (handle : lib.Packet → HandledPacket) (io : Io) (r : RioResult) (xs ys : List IoContext)
        (sv sv' : Server)
        → sv.posted ≡ xs ++ r.context ∷ ys
        → work handle io r (completed (xs ++ ys) sv) ≡ ok sv'
        → Step sv sv'
    sends :
        (sent : Bool) (p : lib.Packet) (id a : ℕ) (sv sv' : Server)
        → get_session id sv ≡ some a
        → send_packet sent p a sv ≡ ok sv'
        → Step sv sv'
    sends_and_disconnects :
        (sent : Bool) (p : lib.Packet) (id a : ℕ) (sv sv' : Server)
        → get_session id sv ≡ some a
        → send_packet_and_disconnect sent p a sv ≡ ok sv'
        → Step sv sv'
    disconnects : (id : ℕ) (sv : Server) → Step sv (disconnect id sv)
    broadcasts :
        (sent : ℕ → Bool) (p : lib.Packet) (sv sv' : Server)
        → braodcast_to_all_session sent p sv ≡ ok sv'
        → Step sv sv'

  pub data Reachable : Server → Type 0 where
    starts : (threads max_clients : ℕ) → Reachable (started threads max_clients)
    steps : (sv sv' : Server) → Reachable sv → Step sv sv' → Reachable sv'
