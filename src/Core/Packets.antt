-- ===== src/Core/Packets.antt =====
-- DdingGameServer/RIO_Core/Protocol.h, PacketManager.h and PacketManager.cpp, and the part of
-- RIOSession.cpp that makes a buffer of a packet and a packet of a buffer. NetBuffer comes from a
-- library outside the repository: `NetLib`.
pub mod RoundTrip
pub mod Dispatch
pub mod Replies
pub mod Classes
use dding_game_server.Prelude.{ℕ, ◌≡◌, Bool, Option, none, some, List, [], ◌∷◌, ◌++◌}
use dding_game_server.Prelude.Map
use dding_game_server.Prelude.Map.{Map}

-- A type that NetBuffer has operators for, with a value of it.
pub record NetLib : Type 1 where
  pub Code : Type 0
  pub Value : Code → Type 0
  -- the code of PacketId, an unsigned int
  pub packet_id_code : Code
  pub packet_id_value : ℕ → Value packet_id_code
  pub packet_id_of : Value packet_id_code → ℕ
  pub Buffer : Type 0
  pub empty_buffer : Buffer
  -- `buffer << value` and `buffer >> value`
  pub write : (t : Code) → Value t → Buffer → Buffer
  pub read : (t : Code) → Buffer → Value t × Buffer
  -- the values that were written and not read, oldest first
  pub pending : Buffer → List ((t : Code) × Value t)
  -- documented behaviour
  pub packet_id_of-value : (id : ℕ) → packet_id_of (packet_id_value id) ≡ id
  pub pending-empty_buffer : pending empty_buffer ≡ []
  pub pending-write :
      (t : Code) (v : Value t) (b : Buffer) → pending (write t v b) ≡ pending b ++ (t, v) ∷ []
  pub read-pending :
      (t : Code) (v : Value t) (b : Buffer) (more : List ((t : Code) × Value t))
      → pending b ≡ (t, v) ∷ more
      → ((read t b).0 ≡ v) × (pending (read t b).1 ≡ more)

module _ ⦃lib : NetLib⦄ where
  -- The members of a packet that SET_PARAMETERS lists, of these types.
  pub data Parameters : List lib.Code → Type 0 where
    no_parameters : Parameters []
    parameter :
        (t : lib.Code) (ts : List lib.Code) → lib.Value t → Parameters ts → Parameters (t ∷ ts)

  -- SetParametersToBuffer. A packet without the macro writes nothing, as IGameAndClientPacket does.
  unfoldable pub set_parameters_to_buffer :
      (ts : List lib.Code) → Parameters ts → lib.Buffer → lib.Buffer
  set_parameters_to_buffer _ no_parameters b = b
  set_parameters_to_buffer _ (parameter t ts v ps) b =
      set_parameters_to_buffer ts ps (lib.write t v b)

  unfoldable pub read_first :
      (t : lib.Code) (ts : List lib.Code)
      → (lib.Buffer → Parameters ts × lib.Buffer)
      → lib.Value t × lib.Buffer
      → Parameters (t ∷ ts) × lib.Buffer
  read_first t ts next (v, b) = let (ps, b') = next b in (parameter t ts v ps, b')

  -- SetBufferToParameters
  unfoldable pub set_buffer_to_parameters :
      (ts : List lib.Code) → lib.Buffer → Parameters ts × lib.Buffer
  set_buffer_to_parameters [] b = (no_parameters, b)
  set_buffer_to_parameters (t ∷ ts) b = read_first t ts (set_buffer_to_parameters ts) (lib.read t b)

  -- A class of packets: what its GetPacketId returns, and the types of its parameters.
  pub record PacketType : Type 0 where
    pub packet_id : ℕ
    pub parameter_types : List lib.Code

  -- RIOSession::SendPacket of a packet, up to the call of the server.
  unfoldable pub packet_buffer : (p : PacketType) → Parameters p.parameter_types → lib.Buffer
  packet_buffer p ps =
      set_parameters_to_buffer p.parameter_types ps
        (lib.write lib.packet_id_code (lib.packet_id_value p.packet_id) lib.empty_buffer)

  pub record PacketManager : Type 0 where
    pub packet_factory_function_map : Map PacketType
    pub packet_handler_map : Map PacketType

  unfoldable pub register_packet : PacketType → PacketManager → PacketManager
  register_packet p m = record m {
    packet_factory_function_map = Map.put p.packet_id p m.packet_factory_function_map;
  }

  unfoldable pub register_packet_handler : PacketType → PacketManager → PacketManager
  register_packet_handler p m = record m {
    packet_handler_map = Map.put p.packet_id p m.packet_handler_map;
  }

  -- Init, the REGISTER_PACKET of each class of REGISTER_PACKET_LIST.
  unfoldable pub init : List PacketType → PacketManager → PacketManager
  init [] m = m
  init (p ∷ ps) m = init ps (register_packet_handler p (register_packet p m))

  -- The class of the packet that MakePacket makes, and the one that the handler is made for.
  unfoldable pub make_packet : ℕ → PacketManager → Option PacketType
  make_packet id m = Map.find id m.packet_factory_function_map

  unfoldable pub get_packet_handler : ℕ → PacketManager → Option PacketType
  get_packet_handler id m = Map.find id m.packet_handler_map

  -- The static type of the pointer that a std::any holds, which `any_cast` asks for exactly.
  pub data PointerType : Type 0 where
    i_packet_pointer i_game_and_client_packet_pointer : PointerType

  -- How OnRecvPacket ends.
  pub data Handled : Type 0 where
    is_ignored : Handled
    throws_bad_any_cast : Handled
    -- HandlePacket of a class, with the packet's parameters
    handles : (p : PacketType) → Parameters p.parameter_types → Handled

  -- The lambda of RegisterPacketHandler for the class `p`, on a packet that an `any` holds by
  -- this pointer.
  unfoldable pub packet_handler : PacketType → PointerType → lib.Buffer → Handled
  packet_handler p i_packet_pointer b = throws_bad_any_cast
  packet_handler p i_game_and_client_packet_pointer b =
      handles p (set_buffer_to_parameters p.parameter_types b).0

  -- `std::any(packet.get())` of the shared_ptr<IPacket> that MakePacket returns.
  abbrev pub any_packet : PointerType
  any_packet = i_packet_pointer

  unfoldable pub dispatch : Option PacketType → Option PacketType → lib.Buffer → Handled
  dispatch none made b = is_ignored
  dispatch (some handler) none b = is_ignored
  dispatch (some handler) (some p) b = packet_handler handler any_packet b

  unfoldable pub on_recv_packet : PacketManager → lib.Buffer → Handled
  on_recv_packet m b =
      let (value, b') = lib.read lib.packet_id_code b in
      let id = lib.packet_id_of value in dispatch (get_packet_handler id m) (make_packet id m) b'
