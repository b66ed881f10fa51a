-- ===== src/LanClient/Start.antt =====
-- DdingGameServer/RIO_Core/MultiLanClient.cpp: LanClientOptionParsing, and Start, which opens one
-- channel after the other. The option file's parser and the system are parameters; the threads that
-- Start makes beside the channels are no part of what it gives.
pub mod Channels
use dding_game_server.Prelude.{
  ℕ, zero, suc, ◌+◌, Bool, true, false, ◌&&◌, Option, none, some, List, [], ◌∷◌, codes, ◌==◌,
  if◌then◌else◌,
}
use dding_game_server.DbServer.Connections.{◌>>=◌}
use dding_game_server.LanClient.Post.{
  LanLib, Channel, opens_socket, closes_socket, on_connection_complete, recv_post,
}
use dding_game_server.LanClient.Reconnect.{Attempt, fails, connects, is_connected, tell}

pub record ClientOptions : Type 0 where
  pub server_ip : List ℕ
  pub server_port : ℕ
  pub num_of_worker_thread : ℕ
  pub num_of_using_worker_thread : ℕ
  pub nagle_on : ℕ
  pub reconnect : ℕ
  pub num_of_session : ℕ

-- A value that the parser does not find ends it.
unfoldable pub lan_client_option_parsing :
    (text : List ℕ → Option (List ℕ)) → (short byte : List ℕ → Option ℕ) → Option ClientOptions
lan_client_option_parsing text short byte = do
  ip ← text (codes "SERVER_IP")
  port ← short (codes "SERVER_PORT")
  workers ← byte (codes "WORKER_THREAD")
  using_workers ← byte (codes "USE_IOCPWORKER")
  nagle ← byte (codes "NAGLE_ON")
  reconnect ← byte (codes "RECONNECT")
  sessions ← byte (codes "SESSION_COUNT")
  some (record {
    server_ip = ip;
    server_port = port;
    num_of_worker_thread = workers;
    num_of_using_worker_thread = using_workers;
    nagle_on = nagle;
    reconnect = reconnect;
    num_of_session = sessions;
  })

-- How Start ends: it returns false, it is still trying to connect, or it goes on.
pub data Started (A : Type 0) : Type 0 where
  returns_false still_connecting : Started A
  started : A → Started A

-- What the system answers for one session.
pub record Answers : Type 0 where
  pub socket_made : Bool
  pub attempts : List Attempt
  pub option_set : Bool
  pub received : Bool

module _ ⦃lib : LanLib⦄ where
  -- Session's members, with a ring that has been read by nobody. IOMode has no value before Start
  -- gives it one.
  unfoldable pub new_channel : lib.Ring → Bool → Channel
  new_channel ring is_reconnect = record {
    is_connect = false;
    io_count = 0;
    session_id = 0;
    ring = ring;
    sending = false;
    store = [];
    send_q = lib.empty_queue;
    is_reconnect = is_reconnect;
    session_reconnect_id_list = [];
    events = [];
  }

  -- The loop around connect.
  unfoldable pub connect_attempts : List Attempt → Channel → Started Channel
  connect_attempts [] c = still_connecting
  connect_attempts (connects ∷ more) c = started c
  connect_attempts (fails ∷ more) c = connect_attempts more c
  connect_attempts (is_connected made ∷ more) c =
      let retried = connect_attempts more (tell opens_socket (tell closes_socket c)) in
      if made then retried else returns_false

  -- Behind the loop. The result of RecvPost is not looked at.
  unfoldable pub open_connected : Answers → ℕ → Started Channel → Started Channel
  open_connected a id returns_false = returns_false
  open_connected a id still_connecting = still_connecting
  open_connected a id (started c) =
      let c' = record c { is_connect = true; store = []; sending = false; session_id = id } in
      if a.option_set
      then started (tell on_connection_complete (recv_post a.received c').1)
      else returns_false

  unfoldable pub start_channel : Answers → ℕ → Channel → Started Channel
  start_channel a id c =
      let opened = open_connected a id (connect_attempts a.attempts (tell opens_socket c)) in
      if a.socket_made then opened else returns_false

  unfoldable pub add_channel : Channel → Started (List Channel) → Started (List Channel)
  add_channel c returns_false = returns_false
  add_channel c still_connecting = still_connecting
  add_channel c (started cs) = started (c ∷ cs)

  -- `rest` is what the loop over the sessions does behind this one.
  unfoldable pub and_channels : Started Channel → Started (List Channel) → Started (List Channel)
  and_channels returns_false rest = returns_false
  and_channels still_connecting rest = still_connecting
  and_channels (started c) rest = add_channel c rest

  -- The loop over `n` sessions, the `id`-th first: an id is what the generator stands at.
  unfoldable pub start_channels : (ℕ → Answers) → ℕ → ℕ → Channel → Started (List Channel)
  start_channels answers id zero c = started []
  start_channels answers id (suc n) c =
      and_channels (start_channel (answers id) id c) (start_channels answers (id + 1) n c)

  unfoldable pub start :
      (wsa_started port_made : Bool)
      → (ℕ → Answers)
      → lib.Ring
      → Option ClientOptions
      → Started (List Channel)
  start wsa_started port_made answers ring none = returns_false
  start wsa_started port_made answers ring (some o) =
      let opened =
        start_channels answers 0 o.num_of_session
          (new_channel ring (if o.reconnect == 0 then false else true)) in
      if wsa_started && port_made then opened else returns_false
