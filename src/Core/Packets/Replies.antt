-- ===== src/Core/Packets/Replies.antt =====
-- ProcedureReplyHandler: SPReplyHandle and GetPacketHandler of ProcedureReplyHandler.cpp and
-- RegisterPacketHandler of ProcedureReplyHandler.h, up to the call of AssemblePacket.
use dding_game_server.Prelude.{
  ℕ, ◌≡◌, ◌≢◌, refl, ◌∙◌, Option, none, some, List, [], ◌∷◌, arith, All,
}
use dding_game_server.Prelude.Map
use dding_game_server.Prelude.Map.{Map, find-put}
use dding_game_server.Core.Packets.{
  NetLib, PacketType, PacketManager, register_packet, register_packet_handler, init, make_packet,
}

-- The handlers, each named by the packet id of its class.
abbrev pub ReplyHandlers : Type 0
ReplyHandlers = Map ℕ

unfoldable pub register_reply_handler : ℕ → ReplyHandlers → ReplyHandlers
register_reply_handler id handlers = Map.put id id handlers

-- Initialize, REGISTER_ALL_DB_REPLY_HANDLER.
unfoldable pub initialize : List ℕ → ReplyHandlers → ReplyHandlers
initialize [] handlers = handlers
initialize (id ∷ ids) handlers = initialize ids (register_reply_handler id handlers)

unfoldable pub get_reply_handler : ℕ → ReplyHandlers → Option ℕ
get_reply_handler id handlers = Map.find id handlers

module _ ⦃lib : NetLib⦄ where
  -- How SPReplyHandle ends.
  pub data Replied : Type 0 where
    is_dropped : Replied
    -- AssemblePacket of the handler's class, on the packet that was made
    assembles : ℕ → PacketType → Replied

  unfoldable pub assemble : Option ℕ → Option PacketType → Replied
  assemble none made = is_dropped
  assemble (some handler) none = is_dropped
  assemble (some handler) (some p) = assembles handler p

  unfoldable pub sp_reply_handle : ℕ → ReplyHandlers → PacketManager → Replied
  sp_reply_handle id handlers m = assemble (get_reply_handler id handlers) (make_packet id m)

  make_packet-init :
      (ps : List PacketType) (m : PacketManager) (id : ℕ)
      → All (λ p. p.packet_id ≢ id) ps
      → make_packet id m ≡ none
      → make_packet id (init ps m) ≡ none
  unfolding init make_packet register_packet register_packet_handler
  make_packet-init [] m id h n = n
  make_packet-init (p ∷ ps) m id (other, h) n =
      make_packet-init ps (register_packet_handler p (register_packet p m)) id h
        (find-put p.packet_id id p m.packet_factory_function_map ∙ ground (arith, n, other))

  dropped :
      (handler : Option ℕ) (made : Option PacketType)
      → made ≡ none
      → assemble handler made ≡ is_dropped
  unfolding assemble
  dropped none made e = refl
  dropped (some handler) none e = refl
  dropped (some handler) (some p) e = absurd (cc e)

  -- A reply whose id is that of none of the classes that PacketManager registers is dropped,
  -- whatever handlers are registered for replies: no packet can be made for it.
  sp_reply_handle-dropped :
      (id : ℕ) (handlers : ReplyHandlers) (ps : List PacketType) (m : PacketManager)
      → All (λ p. p.packet_id ≢ id) ps
      → make_packet id m ≡ none
      → sp_reply_handle id handlers (init ps m) ≡ is_dropped
  unfolding sp_reply_handle
  sp_reply_handle-dropped id handlers ps m others n =
      dropped (get_reply_handler id handlers) (make_packet id (init ps m))
        (make_packet-init ps m id others n)
