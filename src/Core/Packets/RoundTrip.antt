-- ===== src/Core/Packets/RoundTrip.antt =====
-- What PacketToBuffer writes, BufferToPacket reads.
use dding_game_server.Prelude.{
  ◌≡◌, refl, sym, ap, ◌∙◌, List, [], ◌∷◌, ◌++◌, append_assoc, append-nil,
}
use dding_game_server.Core.Packets.{
  NetLib, Parameters, no_parameters, parameter, set_parameters_to_buffer, set_buffer_to_parameters,
  read_first, PacketType, packet_buffer, packet_handler, handles, i_game_and_client_packet_pointer,
}

module _ ⦃lib : NetLib⦄ where
  -- The values of the parameters, in order.
  abbrev values : (ts : List lib.Code) → Parameters ts → List ((t : lib.Code) × lib.Value t)
  values _ no_parameters = []
  values _ (parameter t ts v ps) = (t, v) ∷ values ts ps

  pending-set_parameters_to_buffer :
      (ts : List lib.Code) (ps : Parameters ts) (b : lib.Buffer)
      → lib.pending (set_parameters_to_buffer ts ps b) ≡ lib.pending b ++ values ts ps
  unfolding set_parameters_to_buffer
  pending-set_parameters_to_buffer _ no_parameters b = sym (append-nil _)
  pending-set_parameters_to_buffer _ (parameter t ts v ps) b =
      pending-set_parameters_to_buffer ts ps (lib.write t v b)
      ∙ ap (λ vs. vs ++ values ts ps) (lib.pending-write t v b)
      ∙ append_assoc (lib.pending b) ((t, v) ∷ []) (values ts ps)

  -- From a buffer that holds the values of the parameters in front of something, the parameters are
  -- read back, and what stands behind them is left.
  reads_back :
      (ts : List lib.Code) (ps : Parameters ts) (b : lib.Buffer)
      (more : List ((t : lib.Code) × lib.Value t))
      → lib.pending b ≡ values ts ps ++ more
      → ((set_buffer_to_parameters ts b).0 ≡ ps)
        × (lib.pending (set_buffer_to_parameters ts b).1 ≡ more)
  unfolding set_buffer_to_parameters read_first
  reads_back _ no_parameters b more e = (refl, e)
  reads_back _ (parameter t ts v ps) b more e =
      let (first, left) = lib.read-pending t v b (values ts ps ++ more) e in
      let (rest, behind) = reads_back ts ps (lib.read t b).1 more left in
      (
        ap (λ w. parameter t ts w (set_buffer_to_parameters ts (lib.read t b).1).0) first
            ∙ ap (parameter t ts v) rest,
        behind,
      )

  -- The buffer that SendPacket makes of a packet gives its packet id first. What is left then gives
  -- the packet's parameters back to a handler of its class that gets a pointer of the type that it
  -- asks for.
  packet_buffer-packet_handler :
      (p : PacketType) (ps : Parameters p.parameter_types)
      → (let (value, b) = lib.read lib.packet_id_code (packet_buffer p ps) in
          (lib.packet_id_of value ≡ p.packet_id)
          × (packet_handler p i_game_and_client_packet_pointer b ≡ handles p ps))
  unfolding packet_buffer packet_handler
  packet_buffer-packet_handler p ps =
      let id = lib.packet_id_value p.packet_id in
      let head = lib.write lib.packet_id_code id lib.empty_buffer in
      let headed : lib.pending head ≡ (lib.packet_id_code, id) ∷ [] =
        lib.pending-write lib.packet_id_code id lib.empty_buffer
        ∙ ap (λ vs. vs ++ (lib.packet_id_code, id) ∷ []) lib.pending-empty_buffer in
      let (first, left) =
        lib.read-pending lib.packet_id_code id (packet_buffer p ps) (values p.parameter_types ps) (
          pending-set_parameters_to_buffer p.parameter_types ps head
          ∙ ap (λ vs. vs ++ values p.parameter_types ps) headed) in
      (
        ap lib.packet_id_of first ∙ lib.packet_id_of-value p.packet_id,
        ap (handles p) (reads_back p.parameter_types ps _ [] (left ∙ sym (append-nil _))).0,
      )
