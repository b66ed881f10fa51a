-- ===== src/Rio/Types.antt =====
-- EnumType.h, DefineType.h, the structs of RIOSession.h and the members of RIOServer.h.
-- CRingbuffer, CLockFreeQueue and NetBuffer come from libraries outside the repository: `RioLib`.
use dding_game_server.Prelude.{
  ℕ, ◌^◌, ◌≤◌, ◌-◌, ◌≡◌, Bool, Option, some, List, [], ◌∷◌, ◌++◌, length, take, drop,
}
use dding_game_server.Prelude.Map.{Map}

pub data RioOperationType : Type 0 where
  op_error op_recv op_send op_send_request : RioOperationType

pub data IoMode : Type 0 where
  io_none_sending io_sending : IoMode

pub data IoPostError : Type 0 where
  success is_deleted_session failed_recv_post failed_send_post : IoPostError
  invalid_operation_type invalid_send_buffer_size : IoPostError

abbrev pub invalid_session_id : ℕ
invalid_session_id = 0

abbrev pub max_send_buffer_size : ℕ
max_send_buffer_size = 16384

-- `sizeof(SendRIOBuffer)`: the array, and a pointer-sized RIO_BUFFERID.
abbrev pub sizeof_send_rio_buffer : ℕ
sizeof_send_rio_buffer = 16392

-- `INVALID_SOCKET` of winsock, `(SOCKET)(~0)`.
abbrev pub invalid_socket : ℕ
invalid_socket = 2 ^ 64 - 1

-- What the code uses of the libraries, and what it relies on.
pub record RioLib : Type 1 where
  -- NetBuffer
  pub Packet : Type 0
  pub is_encoded : Packet → Bool
  pub encode : Packet → Packet
  pub all_use_size : Packet → ℕ
  pub buffer_bytes : Packet → List ℕ
  pub header_code : ℕ
  pub header_size : ℕ
  pub default_size : ℕ
  -- `buffer >> code >> payloadLength`
  pub read_header : List ℕ → ℕ × ℕ
  -- `Decode` of the header and the payload; `none` where it returns false
  pub decode : List ℕ → List ℕ → Option Packet
  -- CLockFreeQueue<NetBuffer*>, a FIFO; `contents` is what it holds, oldest first
  pub Queue : Type 0
  pub empty_queue : Queue
  pub enqueue : Packet → Queue → Queue
  pub dequeue : Queue → Option (Packet × Queue)
  pub rest_size : Queue → ℕ
  pub contents : Queue → List Packet
  -- CRingbuffer, a FIFO of bytes; `unread` is what it holds, oldest first
  pub Ring : Type 0
  -- `DEFAULT_RINGBUFFER_MAX`
  pub ring_max : ℕ
  pub empty_ring : Ring
  -- the bytes that the network card wrote behind the write position, then `MoveWritePos`
  pub fill : List ℕ → Ring → Ring
  pub move_write_pos : ℕ → Ring → Ring
  pub use_size : Ring → ℕ
  pub free_size : Ring → ℕ
  pub peek : ℕ → Ring → List ℕ
  pub remove_data : ℕ → Ring → Ring
  pub ring_dequeue : ℕ → Ring → List ℕ × Ring
  pub not_broken_get_size : Ring → ℕ
  pub not_broken_put_size : Ring → ℕ
  pub unread : Ring → List ℕ
  -- documented behaviour
  pub header_size_pos : 1 ≤ header_size
  pub contents-empty_queue : contents empty_queue ≡ []
  pub contents-enqueue : (p : Packet) (q : Queue) → contents (enqueue p q) ≡ contents q ++ p ∷ []
  pub rest_size-contents : (q : Queue) → rest_size q ≡ length (contents q)
  pub dequeue-cons :
      (q : Queue) (p : Packet) (ps : List Packet)
      → contents q ≡ p ∷ ps
      → (q' : Queue) × (dequeue q ≡ some (p, q')) × (contents q' ≡ ps)
  pub unread-empty_ring : unread empty_ring ≡ []
  pub unread-fill :
      (bs : List ℕ) (r : Ring)
      → length bs ≤ free_size r
      → unread (move_write_pos (length bs) (fill bs r)) ≡ unread r ++ bs
  pub use_size-unread : (r : Ring) → use_size r ≡ length (unread r)
  pub peek-unread : (n : ℕ) (r : Ring) → peek n r ≡ take n (unread r)
  pub unread-remove_data : (n : ℕ) (r : Ring) → unread (remove_data n r) ≡ drop n (unread r)
  pub ring_dequeue-bytes : (n : ℕ) (r : Ring) → (ring_dequeue n r).0 ≡ take n (unread r)
  pub unread-ring_dequeue : (n : ℕ) (r : Ring) → unread (ring_dequeue n r).1 ≡ drop n (unread r)

-- A call of memcpy_s into the send buffer: the byte offset from its start, the size of the
-- destination as `rsize_t`, and the bytes.
pub record Copy : Type 0 where
  pub offset : ℕ
  pub room : ℕ
  pub bytes : List ℕ

-- The fields of IOContext and RIO_BUF that the code sets.
pub record IoContext : Type 0 where
  pub owner_session_id : ℕ
  pub io_type : RioOperationType
  pub buffer_length : ℕ
  pub buffer_offset : ℕ

-- The calls of the operating system and of the memory pools, in order.
pub data Effect : Type 0 where
  closes_socket shuts_down : ℕ → Effect
  frees_recv_buffer frees_send_buffer : ℕ → Effect
  copies : ℕ → List Copy → Effect
  enters leaves : ℕ → Effect

-- How a call can end other than by returning.
pub data Fault : Type 0 where
  -- `g_Dump.Crash()`
  crash : Fault
  -- memcpy_s finds too little room and calls the handler that ends the process
  invalid_parameter : Fault
  -- an exception that nothing catches, which ends the process
  uncaught : Fault
  -- a pointer that no successful `Dequeue` has set is read
  uninitialised : Fault
  -- the model's fuel has run out
  out_of_fuel : Fault

pub data Result {ℓ} (A : Type ℓ) : Type ℓ where
  ok : A → Result A
  err : Fault → Result A

infixl 5 ◌>>=◌
abbrev pub ◌>>=◌ {ℓ κ} : {A : Type ℓ} {B : Type κ} → Result A → (A → Result B) → Result B
ok a >>= f = f a
err e >>= f = err e

-- The call returns with `P`, or the process ends in it: by a crash dump, in memcpy_s or by an
-- exception. It reads no wild pointer and has fuel enough.
abbrev pub Ends {ℓ} : {A : Type ℓ} → (A → Type 0) → Result A → Type 0
Ends P (ok a) = P a
Ends P (err crash) = Unit
Ends P (err invalid_parameter) = Unit
Ends P (err uncaught) = Unit
Ends P (err uninitialised) = ⊥
Ends P (err out_of_fuel) = ⊥

pub Ends-bind {ℓ κ} :
    {A : Type ℓ} {B : Type κ} (P : A → Type 0) (Q : B → Type 0) (m : Result A) (f : A → Result B)
    → Ends P m
    → ((a : A) → P a → Ends Q (f a))
    → Ends Q (m >>= f)
Ends-bind P Q (ok a) f h k = k a h
Ends-bind P Q (err crash) f h k = tt
Ends-bind P Q (err invalid_parameter) f h k = tt
Ends-bind P Q (err uncaught) f h k = tt
Ends-bind P Q (err uninitialised) f h k = absurd h
Ends-bind P Q (err out_of_fuel) f h k = absurd h

pub Ends-mono {ℓ} :
    {A : Type ℓ} (P Q : A → Type 0) (m : Result A) → Ends P m → ((a : A) → P a → Q a) → Ends Q m
Ends-mono P Q (ok a) h k = k a h
Ends-mono P Q (err crash) h k = tt
Ends-mono P Q (err invalid_parameter) h k = tt
Ends-mono P Q (err uncaught) h k = tt
Ends-mono P Q (err uninitialised) h k = absurd h
Ends-mono P Q (err out_of_fuel) h k = absurd h

module _ ⦃lib : RioLib⦄ where
  -- SendItem
  pub record SendItem : Type 0 where
    pub send_queue : lib.Queue
    pub reserved_buffer : Option lib.Packet
    pub io_mode : IoMode

  -- RIOSession. `io_count` is a LONG, kept as the 32-bit pattern that the Interlocked calls change.
  pub record Session : Type 0 where
    pub socket : ℕ
    pub session_id : ℕ
    pub send_disconnect : Bool
    pub io_cancle : Bool
    pub is_released_session : Bool
    pub thread_id : ℕ
    pub io_count : ℕ
    pub recv_buffer : lib.Ring
    pub send_item : SendItem
    pub rio_recv_offset : ℕ

  -- RIOServer with the Broadcaster's set. A session is a shared_ptr: `heap` holds the objects by
  -- address, `session_map` the addresses by session id, and `posted` the requests that the kernel
  -- has taken and not completed.
  pub record Server : Type 0 where
    pub heap : ℕ → Session
    pub next_address : ℕ
    pub session_map : Map ℕ
    pub session_count : ℕ
    pub num_of_session_in_worker_thread : List ℕ
    pub next_session_id : ℕ
    pub max_client_count : ℕ
    pub session_id_set : List ℕ
    pub posted : List IoContext
    pub effects : List Effect
