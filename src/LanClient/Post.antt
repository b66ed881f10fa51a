-- ===== src/LanClient/Post.antt =====
-- CMultiLanClient::RecvPost, SendPost, SendPacketImpl, ReleaseSession, and the part of Worker that serves a
-- completed send. CSerializationBuf, CLockFreeQueue and CRingbuffer are parameters.
use dding_game_server.Prelude.{
  ℕ, zero, suc, ◌≤◌, ◌≡◌, Bool, true, false, Option, none, some, List, [], ◌∷◌, ◌++◌, length, take,
  drop, ltb, ◌==◌, if◌then◌else◌,
}
use dding_game_server.Prelude.Word.{inc32, dec32}

abbrev pub iocp_one_send_wsabuf_max : ℕ
iocp_one_send_wsabuf_max = 200

pub data PostRetval : Type 0 where
  err_session_deleted post_err complete : PostRetval

pub record LanLib : Type 1 where
  pub Buffer : Type 0
  -- the payload's size written in front of it
  pub seal : Buffer → Buffer
  -- CLockFreeQueue, a FIFO; `contents` is what it holds, oldest first
  pub Queue : Type 0
  pub empty_queue : Queue
  pub enqueue : Buffer → Queue → Queue
  pub dequeue : Queue → Option (Buffer × Queue)
  pub rest_size : Queue → ℕ
  pub contents : Queue → List Buffer
  pub Ring : Type 0
  pub is_full : Ring → Bool
  -- a FIFO of bytes; `unread` is what it holds, oldest first
  pub unread : Ring → List ℕ
  -- the bytes that the system wrote behind the write position, then `MoveWritePos`
  pub receive : List ℕ → Ring → Ring
  -- the room that WSARecv is given
  pub free_size : Ring → ℕ
  pub use_size : Ring → ℕ
  pub peek : ℕ → Ring → List ℕ
  pub remove_data : ℕ → Ring → Ring
  pub ring_dequeue : ℕ → Ring → List ℕ × Ring
  -- HEADER_SIZE, and the WORD that is read off a header
  pub header_size : ℕ
  pub payload_length : List ℕ → ℕ
  -- documented behaviour
  pub contents-empty_queue : contents empty_queue ≡ []
  pub contents-enqueue : (b : Buffer) (q : Queue) → contents (enqueue b q) ≡ contents q ++ b ∷ []
  pub rest_size-contents : (q : Queue) → rest_size q ≡ length (contents q)
  pub dequeue-cons :
      (q : Queue) (b : Buffer) (bs : List Buffer)
      → contents q ≡ b ∷ bs
      → (q' : Queue) × (dequeue q ≡ some (b, q')) × (contents q' ≡ bs)
  pub unread-receive :
      (bs : List ℕ) (r : Ring) → length bs ≤ free_size r → unread (receive bs r) ≡ unread r ++ bs
  pub use_size-unread : (r : Ring) → use_size r ≡ length (unread r)
  pub peek-unread : (n : ℕ) (r : Ring) → peek n r ≡ take n (unread r)
  pub unread-remove_data : (n : ℕ) (r : Ring) → unread (remove_data n r) ≡ drop n (unread r)
  pub ring_dequeue-bytes : (n : ℕ) (r : Ring) → (ring_dequeue n r).0 ≡ take n (unread r)
  pub unread-ring_dequeue : (n : ℕ) (r : Ring) → unread (ring_dequeue n r).1 ≡ drop n (unread r)

module _ ⦃lib : LanLib⦄ where
  -- What the client tells the system and the program, the last first.
  pub data Event : Type 0 where
    on_disconnect on_send closes_socket opens_socket on_connection_complete : Event
    on_recv : List ℕ → Event
    frees sends : List lib.Buffer → Event
    on_error : Event

  -- A channel with the client's members that its calls use. `sending` is IOMode, and `store` the
  -- first `buffer_count` places of the session's array of buffers.
  pub record Channel : Type 0 where
    pub is_connect : Bool
    pub io_count : ℕ
    pub session_id : ℕ
    pub ring : lib.Ring
    pub sending : Bool
    pub store : List lib.Buffer
    pub send_q : lib.Queue
    pub is_reconnect : Bool
    pub session_reconnect_id_list : List ℕ
    pub events : List Event

  unfoldable pub release_session : Channel → Channel
  release_session c = record c {
    is_connect = false;
    send_q = lib.empty_queue;
    session_reconnect_id_list =
        if c.is_reconnect
        then c.session_reconnect_id_list ++ c.session_id ∷ []
        else c.session_reconnect_id_list;
    events =
        closes_socket ∷ frees (lib.contents c.send_q) ∷ frees c.store ∷ on_disconnect ∷ c.events;
  }

  -- `InterlockedDecrement(&session.m_IOCount) == 0` and what follows
  unfoldable pub give_up : PostRetval → Channel → PostRetval × Channel
  give_up kept c =
      let c' = record c { io_count = dec32 c.io_count } in
      if dec32 c.io_count == 0 then (err_session_deleted, release_session c') else (kept, c')

  -- The error is reported only where the session is not released.
  unfoldable pub post_failed : Channel → PostRetval × Channel
  post_failed c =
      let c' = record c { io_count = dec32 c.io_count } in
      if dec32 c.io_count == 0
      then (err_session_deleted, release_session c')
      else (post_err, record c' { events = on_error ∷ c.events })

  -- `received` is false where WSARecv fails with anything but ERROR_IO_PENDING.
  unfoldable pub recv_post : Bool → Channel → PostRetval × Channel
  recv_post received c =
      let c' = record c { io_count = inc32 c.io_count } in
      if lib.is_full c.ring
      then give_up post_err c
      else if received
      then (complete, c')
      else post_failed c'

  -- The first `n` buffers off the queue; `none` where it has fewer.
  unfoldable pub dequeue_all : ℕ → lib.Queue → Option (List lib.Buffer × lib.Queue)
  dequeue_all zero q = some ([], q)
  dequeue_all (suc n) q = elim (lib.dequeue q) [
    | none ↦ none
    | some (b, q') ↦ elim (dequeue_all n q') [ none ↦ none | some (bs, q'') ↦ some (b ∷ bs, q'') ]
  ]

  unfoldable pub batch_size : lib.Queue → ℕ
  batch_size q =
      if ltb iocp_one_send_wsabuf_max (lib.rest_size q)
      then iocp_one_send_wsabuf_max
      else lib.rest_size q

  -- WSASend; an error reports itself before the count is given up, and WSAENOBUFS crashes.
  unfoldable pub wsa_send : Bool → List lib.Buffer → Channel → PostRetval × Channel
  wsa_send true bs c =
      (complete, record c { io_count = inc32 c.io_count; events = sends bs ∷ c.events })
  wsa_send false bs c =
      give_up post_err (record c { io_count = inc32 c.io_count; events = on_error ∷ c.events })

  -- SendPost: what it does behind the exchange of IOMode. A send that is taken leaves the loop's
  -- next round to find IOMode at SENDING, and to return.
  unfoldable pub post_batch :
      Bool → Option (List lib.Buffer × lib.Queue) → Channel → Option (PostRetval × Channel)
  post_batch sent none c = none
  post_batch sent (some (bs, q)) c =
      some (wsa_send sent bs (record c { sending = true; store = bs; send_q = q }))

  unfoldable pub send_post : Bool → Channel → Option (PostRetval × Channel)
  send_post sent c =
      if c.sending
      then some (complete, c)
      else if lib.rest_size c.send_q == 0
      then some (complete, c)
      else post_batch sent (dequeue_all (batch_size c.send_q) c.send_q) c

  -- SendPacketImpl with a buffer.
  unfoldable pub send_packet : Bool → lib.Buffer → Channel → Option (PostRetval × Channel)
  send_packet sent b c = send_post sent (record c { send_q = lib.enqueue (lib.seal b) c.send_q })

  -- What Worker does behind the call that served the completion.
  unfoldable pub finish : PostRetval × Channel → Channel
  finish (err_session_deleted, c) = c
  finish (post_err, c) = (give_up post_err c).1
  finish (complete, c) = (give_up complete c).1

  -- Worker for a completed send.
  unfoldable pub send_completed : Bool → Channel → Option Channel
  send_completed sent c =
      elim (send_post sent
        (record c { store = []; sending = false; events = on_send ∷ frees c.store ∷ c.events })) [
          | none ↦ none
          | some r ↦ some (finish r)
        ]
