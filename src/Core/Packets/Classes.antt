-- ===== src/Core/Packets/Classes.antt =====
-- The packets of DdingGameServer/RIO_Core/Protocol.h with their ids, PACKET_ID of EnumType.h; the
-- buffer that the constructor of DBJob (DBJob.h) fills with a packet, MakeProcedurePacket of
-- DBHelper.cpp, and what DBServer::OnRecv (DBServer/DBServer/DBServer.cpp) and HandlePacket
-- (PakcetHandler.cpp) read of it. The buffer is one of `NetLib`, with types for the key, for a session's
-- id and for an unsigned int.
use dding_game_server.Prelude.{ℕ, ◌≡◌, ap, ◌∙◌, [], ◌∷◌, ◌++◌}
use dding_game_server.Core.Packets.{NetLib}

pub data PacketId : Type 0 where
  invalid_packet echo_string_pacekt ping_id pong_id game2db_batched_db_job : PacketId
  db2game_batched_db_job bunch_packet_begin_id bunch_packet_end_id bunch_packet_id : PacketId

unfoldable pub packet_id_number : PacketId → ℕ
packet_id_number invalid_packet = 0
packet_id_number echo_string_pacekt = 1
packet_id_number ping_id = 2
packet_id_number pong_id = 3
packet_id_number game2db_batched_db_job = 4
packet_id_number db2game_batched_db_job = 5
packet_id_number bunch_packet_begin_id = 6
packet_id_number bunch_packet_end_id = 7
packet_id_number bunch_packet_id = 8

-- The classes, with the members of those that have some.
pub data Packet : Type 0 where
  ping pong bunch_packet_begin bunch_packet_end bunch_packet : Packet
  -- sessionId and batchSize
  db_job_start : (session_id batch_size : ℕ) → Packet
  -- jobKey, and isSuccessed as a number
  db_job_reply : (job_key is_successed : ℕ) → Packet

unfoldable pub get_packet_id : Packet → PacketId
get_packet_id ping = ping_id
get_packet_id pong = pong_id
get_packet_id bunch_packet_begin = bunch_packet_begin_id
get_packet_id bunch_packet_end = bunch_packet_end_id
get_packet_id bunch_packet = bunch_packet_id
get_packet_id (db_job_start session_id batch_size) = game2db_batched_db_job
get_packet_id (db_job_reply job_key is_successed) = db2game_batched_db_job

module _ ⦃lib : NetLib⦄ (key_code session_code uint_code : lib.Code) where
  -- No class has SET_PARAMETERS or SET_PARAMETERS_TO_BUFFER_DB_PACKET: each has the PacketToBuffer of
  -- its base class, which does nothing.
  unfoldable pub packet_to_buffer : Packet → lib.Buffer → lib.Buffer
  packet_to_buffer p b = b

  abbrev pub write_packet_id : ℕ → lib.Buffer → lib.Buffer
  write_packet_id id b = lib.write lib.packet_id_code (lib.packet_id_value id) b

  -- The place of the key is left out by MoveWritePos: `unset` is what stands there.
  unfoldable pub make_db_job : lib.Value key_code → Packet → lib.Buffer
  make_db_job unset p = packet_to_buffer p (
      lib.write key_code unset
        (write_packet_id (packet_id_number (get_packet_id p)) lib.empty_buffer))

  -- The key that is written is 0.
  unfoldable pub make_procedure_packet : lib.Value key_code → ℕ → lib.Buffer
  make_procedure_packet zero_key packet_id =
      lib.write key_code zero_key (write_packet_id packet_id lib.empty_buffer)

  -- SendPacketToFixedChannel of a packet, up to the call of the client.
  unfoldable pub fixed_channel_buffer : lib.Value key_code → Packet → lib.Buffer
  fixed_channel_buffer zero_key p =
      packet_to_buffer p (make_procedure_packet zero_key (packet_id_number (get_packet_id p)))

  -- DBServer::OnRecv, and HandlePacket up to its branches: the id, the key and what is left.
  unfoldable pub on_recv : lib.Buffer → ℕ × lib.Value key_code × lib.Buffer
  on_recv b =
      let (id, b') = lib.read lib.packet_id_code b in
      let (key, b'') = lib.read key_code b' in (lib.packet_id_of id, key, b'')

  pending-make_db_job :
      (unset : lib.Value key_code) (p : Packet)
      → lib.pending (make_db_job unset p)
        ≡ (lib.packet_id_code, lib.packet_id_value (packet_id_number (get_packet_id p)))
          ∷ (key_code, unset)
          ∷ []
  unfolding make_db_job packet_to_buffer
  pending-make_db_job unset p =
      let id = lib.packet_id_value (packet_id_number (get_packet_id p)) in
      let head = lib.write lib.packet_id_code id lib.empty_buffer in
      lib.pending-write key_code unset head
      ∙ ap (λ vs. vs ++ (key_code, unset) ∷ [])
          (lib.pending-write lib.packet_id_code id lib.empty_buffer
            ∙ ap (λ vs. vs ++ (lib.packet_id_code, id) ∷ []) lib.pending-empty_buffer)

  -- The id, the key, and nothing: for the packet of any class.
  on_recv-empty :
      (unset : lib.Value key_code) (p : Packet)
      → (let r = on_recv (make_db_job unset p) in
          (r.0 ≡ packet_id_number (get_packet_id p)) × (r.1 ≡ unset) × (lib.pending r.2 ≡ []))
  unfolding on_recv
  on_recv-empty unset p =
      let id = lib.packet_id_value (packet_id_number (get_packet_id p)) in
      let (first, left) =
        lib.read-pending lib.packet_id_code id (make_db_job unset p) _
          (pending-make_db_job unset p) in
      let (key, behind) = lib.read-pending key_code unset _ [] left in
      (ap lib.packet_id_of first ∙ lib.packet_id_of-value _, key, behind)
