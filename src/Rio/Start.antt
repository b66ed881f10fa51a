-- ===== src/Rio/Start.antt =====
-- DdingGameServer/RIO_Core/RIOServer.cpp: ServerOptionParsing, StartServer, SetSocketOption,
-- InitializeRIO, RunThreads and StopServer. The option file's parser and the system are parameters.
pub mod Threads
pub mod Started
pub mod Frames
pub mod Accepter
pub mod Buffers
pub mod Stop
use dding_game_server.Prelude.{
  ℕ, zero, suc, ◌+◌, Bool, true, false, Option, none, some, List, [], ◌∷◌, ◌++◌, codes, ◌==◌,
  if◌then◌else◌,
}
use dding_game_server.DbServer.Connections.{◌>>=◌}
use dding_game_server.Rio.Types.{RioLib, Server, invalid_session_id, invalid_socket}
use dding_game_server.Rio.Accept.{new_session}

pub record ServerOptions : Type 0 where
  pub num_of_worker_thread : ℕ
  pub nagle_on : Bool
  pub port : ℕ
  pub max_client_count : ℕ
  pub header_code : ℕ
  pub xor_code : ℕ

-- A value that the parser does not find ends it.
unfoldable pub server_option_parsing :
    (byte short int : List ℕ → List ℕ → Option ℕ) → Option ServerOptions
server_option_parsing byte short int = do
  threads ← byte (codes "RIO_SERVER") (codes "THREAD_COUNT")
  nagle ← byte (codes "RIO_SERVER") (codes "NAGLE_ON")
  port ← short (codes "RIO_SERVER") (codes "PORT")
  clients ← int (codes "RIO_SERVER") (codes "MAX_CLIENT_COUNT")
  code ← byte (codes "SERIALIZEBUF") (codes "PACKET_CODE")
  key ← byte (codes "SERIALIZEBUF") (codes "PACKET_KEY")
  some (record {
    num_of_worker_thread = threads;
    nagle_on = if nagle == 0 then false else true;
    port = port;
    max_client_count = clients;
    header_code = code;
    xor_code = key;
  })

-- Which of the calls that StartServer makes of winsock succeed.
pub record Winsock : Type 0 where
  pub started_up : Bool
  pub made_socket : Bool
  pub bound : Bool
  pub listens : Bool
  pub set_no_delay : Bool
  pub set_linger : Bool
  pub got_function_table : Bool

-- The names that PrintError is given.
pub data Failure : Type 0 where
  parsing_failed startup_failed socket_failed bind_failed listen_failed : Failure
  setsockopt_nagle_failed setsockopt_linger_failed ioctl_failed : Failure

-- `none` where all is well.
unfoldable pub set_socket_option : Winsock → ServerOptions → Option Failure
set_socket_option w o =
    if o.nagle_on
    then if w.set_no_delay
      then if w.set_linger then none else some setsockopt_linger_failed
      else some setsockopt_nagle_failed
    else if w.set_linger
    then none
    else some setsockopt_linger_failed

-- The loop of InitializeRIO: one more count of sessions for each thread.
unfoldable pub add_counts : ℕ → List ℕ → List ℕ
add_counts zero counts = counts
add_counts (suc n) counts = add_counts n (counts ++ 0 ∷ [])

module _ ⦃lib : RioLib⦄ where
  -- The members of RIOServer.h, and of a Broadcaster, before StartServer.
  abbrev pub constructed : Server
  constructed = record {
    heap = λ _. new_session invalid_socket invalid_session_id 0;
    next_address = 0;
    session_map = [];
    session_count = 0;
    num_of_session_in_worker_thread = [];
    next_session_id = invalid_session_id + 1;
    max_client_count = 0;
    session_id_set = [];
    posted = [];
    effects = [];
  }

  -- The counts are there even where the call of WSAIoctl fails.
  unfoldable pub initialize_rio : Winsock → ServerOptions → Server → Option Failure × Server
  initialize_rio w o sv =
      let counts = add_counts o.num_of_worker_thread sv.num_of_session_in_worker_thread in
      (
        if w.got_function_table then none else some ioctl_failed,
        record sv { num_of_session_in_worker_thread = counts },
      )

  unfoldable pub initialize_options : Winsock → ServerOptions → Server → Option Failure × Server
  initialize_options w o sv = elim (set_socket_option w o) [
    | some f ↦ (some f, sv)
    | none ↦ initialize_rio w o sv
  ]

  -- StartServer up to ReserveRIOBuffer; what it prints where it returns false. The options that a
  -- parser has read before it fails are not part of the state.
  unfoldable pub start_server : Winsock → Option ServerOptions → Server → Option Failure × Server
  start_server w none sv = (some parsing_failed, sv)
  start_server w (some o) sv =
      let sv' = record sv { max_client_count = o.max_client_count } in
      if w.started_up
      then if w.made_socket
        then if w.bound
          then if w.listens then initialize_options w o sv' else (some listen_failed, sv')
          else (some bind_failed, sv')
        else (some socket_failed, sv')
      else (some startup_failed, sv')
