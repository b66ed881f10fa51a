-- ===== src/Rio/Worker.antt =====
-- RIOServer::GetIOCompletedContext, IOCompleted, RecvIOCompleted, SendIOCompleted,
-- InvalidIOCompleted, SendCompleted, and what Worker does with one result of its queue.
use dding_game_server.Prelude.{
  ℕ, Bool, true, false, ◌||◌, Option, none, some, List, ◌==◌, if◌then◌else◌,
}
use dding_game_server.Rio.Types.{
  RioLib, Server, IoContext, Result, ok, ◌>>=◌, IoPostError, success, is_deleted_session,
  invalid_operation_type, op_error, op_recv, op_send, op_send_request, io_none_sending,
}
use dding_game_server.Rio.Release.{get_session, disconnect, io_count_decrement}
use dding_game_server.Rio.Send.{set_io_mode, send_post}
use dding_game_server.Rio.Recv.{Io, HandledPacket, recv_completed}

-- RIORESULT: the request's context, and what was transferred. For a receive `bytes` are what the
-- card wrote; `transferred` is their number.
pub record RioResult : Type 0 where
  pub context : IoContext
  pub transferred : ℕ
  pub bytes : List ℕ

-- Whether Worker gives up the completed request's count.
unfoldable pub gives_up : IoPostError → Bool
gives_up invalid_operation_type = false
gives_up is_deleted_session = false
gives_up _ = true

module _ ⦃lib : RioLib⦄ where
  -- The address of the context's session, where there is something to do with it.
  unfoldable pub get_io_completed_context : RioResult → Server → Option ℕ × Server
  get_io_completed_context r sv = elim (get_session r.context.owner_session_id sv) [
    | none ↦ (none, sv)
    | some a ↦
        if r.transferred == 0 || (sv.heap a).io_cancle
        then (none, io_count_decrement a sv)
        else (some a, sv)
  ]

  unfoldable pub send_completed : Io → ℕ → Server → Result (IoPostError × Server)
  send_completed io a sv =
      if (sv.heap a).send_disconnect
      then ok (success, disconnect (sv.heap a).session_id sv)
      else send_post io.send_ok a sv

  unfoldable pub send_io_completed : Io → ℕ → Server → Result (IoPostError × Server)
  send_io_completed io a sv = send_completed io a (set_io_mode a io_none_sending sv)

  unfoldable pub invalid_io_completed : IoContext → Server → Server
  invalid_io_completed c sv = elim (get_session c.owner_session_id sv) [
    | none ↦ sv
    | some a ↦ io_count_decrement a sv
  ]

  module _ (handle : lib.Packet → HandledPacket) (io : Io) where
    unfoldable pub io_completed : RioResult → ℕ → Server → Result (IoPostError × Server)
    io_completed r a sv = elim r.context.io_type [
      | op_recv ↦ recv_completed handle io a r.bytes sv
      | op_send ↦ send_io_completed io a sv
      | op_error ↦ ok (invalid_operation_type, invalid_io_completed r.context sv)
      | op_send_request ↦ ok (invalid_operation_type, invalid_io_completed r.context sv)
    ]

    -- What Worker does with the session that the context leads to.
    unfoldable pub serve : RioResult → Option ℕ × Server → Result Server
    serve r (none, sv) = ok sv
    serve r (some a, sv) = do
      (result, sv') ← io_completed r a sv
      ok (if gives_up result then io_count_decrement a sv' else sv')

    -- The body of Worker's loop over the dequeued results.
    unfoldable pub work : RioResult → Server → Result Server
    work r sv = serve r (get_io_completed_context r sv)
