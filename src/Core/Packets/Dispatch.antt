-- ===== src/Core/Packets/Dispatch.antt =====
-- Which packets reach their handlers.
use dding_game_server.Prelude.{
  Bool, true, false, ◌&&◌, ℕ, ◌≡◌, refl, sym, ap, ◌∙◌, Option, none, some, List, [], ◌∷◌, ◌==◌,
  if◌then◌else◌,
}
use dding_game_server.Prelude.Map.{find-put}
use dding_game_server.Core.Packets.{
  NetLib, PacketType, PacketManager, register_packet, register_packet_handler, init, make_packet,
  get_packet_handler, is_ignored, throws_bad_any_cast, packet_handler, dispatch, on_recv_packet,
}

module _ ⦃lib : NetLib⦄ where
  -- The two tables have the same class under every id.
  abbrev pub Agree : PacketManager → Type 0
  Agree m = (id : ℕ) → make_packet id m ≡ get_packet_handler id m

  register-Agree :
      (p : PacketType) (m : PacketManager)
      → Agree m
      → Agree (register_packet_handler p (register_packet p m))
  unfolding make_packet get_packet_handler register_packet register_packet_handler
  register-Agree p m h id =
      find-put p.packet_id id p m.packet_factory_function_map
      ∙ ap (λ o. if p.packet_id == id then some p else o) (h id)
      ∙ sym (find-put p.packet_id id p m.packet_handler_map)

  -- Whatever classes are registered, and under whatever ids, from tables that agree: the handler that
  -- is found for a packet id is always the one of the class whose packet is made for it, so that its
  -- cast of the packet is to the packet's own class.
  init-Agree :
      (ps : List PacketType) (m : PacketManager)
      → ((id : ℕ) → make_packet id m ≡ get_packet_handler id m)
      → (id : ℕ) → make_packet id (init ps m) ≡ get_packet_handler id (init ps m)
  unfolding init
  init-Agree [] m h id = h id
  init-Agree (p ∷ ps) m h id =
      init-Agree ps (register_packet_handler p (register_packet p m)) (register-Agree p m h) id

  abbrev pub is_some : Option PacketType → Bool
  is_some none = false
  is_some (some p) = true

  dispatch_lem :
      (handler made : Option PacketType) (b : lib.Buffer)
      → dispatch handler made b
        ≡ (if is_some handler && is_some made then throws_bad_any_cast else is_ignored)
  unfolding dispatch packet_handler
  dispatch_lem none made b = refl
  dispatch_lem (some p) none b = refl
  dispatch_lem (some p) (some q) b = refl

  -- No packet is ever handled: OnRecvPacket throws on a packet whose id has a handler and a class in
  -- the tables, since the handler asks the std::any for a pointer to IGameAndClientPacket and it
  -- holds one to IPacket, and ignores every other packet.
  pub on_recv_packet_lem :
      (m : PacketManager) (b : lib.Buffer)
      → (let id = lib.packet_id_of (lib.read lib.packet_id_code b).0 in
          on_recv_packet m b ≡ (
            if is_some (get_packet_handler id m) && is_some (make_packet id m)
            then throws_bad_any_cast
            else is_ignored))
  unfolding on_recv_packet
  on_recv_packet_lem m b = dispatch_lem _ _ _
