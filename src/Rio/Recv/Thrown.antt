-- ===== src/Rio/Recv/Thrown.antt =====
-- The loop of RecvCompleted with RIOSession::OnRecvPacket as it is.
use dding_game_server.Prelude.{
  ℕ, suc, ◌≡◌, refl, ap, ◌∙◌, Bool, false, ◌||◌, inl, inr, List, [], ◌∷◌, map, ltb, length,
  Bool-cases, if◌then◌else◌,
}
use dding_game_server.Rio.Types.{RioLib, Server, Result, ok, err, uncaught}
use dding_game_server.Rio.Recv.{
  HandledPacket, returns, throws, act_all, handle_recv_packet, set_recv_buffer, recv_loop,
}
use dding_game_server.Rio.Recv.Streams.{
  IsStream, deliver, ended, last_ring, set_recv_buffer-ring, recv_loop-IsStream,
}

module _ ⦃lib : RioLib⦄ where
  -- OnRecvPacket as it is: it passes over the packets whose ids have no handler or no class, and
  -- throws on the others.
  abbrev pub session_on_recv_packet : (lib.Packet → Bool) → lib.Packet → HandledPacket
  session_on_recv_packet known p = if known p then throws [] else returns []

  abbrev pub any_known : (lib.Packet → Bool) → List lib.Packet → Bool
  any_known known [] = false
  any_known known (p ∷ ps) = known p || any_known known ps

  module _ (known : lib.Packet → Bool) (sent : Bool) (a : ℕ) where
    -- The buffer behind every packet is written back.
    after_all : List (lib.Packet × lib.Ring) → Server → Server
    after_all [] sv = sv
    after_all ((p, ring) ∷ ds) sv = after_all ds (set_recv_buffer a ring sv)

    deliver-after_all :
        (ds : List (lib.Packet × lib.Ring)) (finish : Server → Result (Bool × Server)) (sv : Server)
        → deliver (session_on_recv_packet known) sent a ds finish sv
          ≡ (if any_known known (map (λ d. d.0) ds) then err uncaught else finish (after_all ds sv))
    unfolding after_all handle_recv_packet act_all
    deliver-after_all [] finish sv = refl
    deliver-after_all ((p, ring) ∷ ds) finish sv = elim (Bool-cases (known p)) [
      | inl y ↦ rw y refl
      | inr n ↦ rw n (deliver-after_all ds finish (set_recv_buffer a ring sv))
    ]

    after_all-ring :
        (ds : List (lib.Packet × lib.Ring)) (ring : lib.Ring) (sv : Server)
        → (sv.heap a).recv_buffer ≡ ring
        → ((after_all ds sv).heap a).recv_buffer
          ≡ last_ring (session_on_recv_packet known) sent a ring ds
    unfolding after_all
    after_all-ring [] ring sv e = e
    after_all-ring ((p, r) ∷ ds) ring sv e =
        after_all-ring ds r (set_recv_buffer a r sv)
          (set_recv_buffer-ring (session_on_recv_packet known) sent a r sv)

    -- The server that `ended` leaves.
    over_lem :
        (tail : List ℕ) (sv : Server)
        → lib.unread (sv.heap a).recv_buffer ≡ tail
        → (sv' : Server) × (ended (session_on_recv_packet known) sent a tail sv ≡ ok (false, sv'))
          × (lib.unread (sv'.heap a).recv_buffer ≡ tail)
    over_lem tail sv e = elim (Bool-cases (ltb lib.header_size (length tail))) [
      | inr n ↦ (sv, rw n refl, e)
      | inl y ↦ (
        set_recv_buffer a (sv.heap a).recv_buffer sv,
        rw y refl,
        ap lib.unread (
              set_recv_buffer-ring (session_on_recv_packet known) sent a (sv.heap a).recv_buffer sv)
            ∙ e,
      )
    ]

    -- With the OnRecvPacket that there is, and received bytes that are whole frames, whose payloads
    -- decode to packets, with the beginning of a frame behind them: an exception ends the process if
    -- any of the packets has an id with a handler and a class. If none of them has, the loop
    -- passes over them, does not drop the session, and leaves the beginning of a frame in the buffer.
    pub recv_loop-session_on_recv_packet :
        (bytes tail : List ℕ) (ps : List lib.Packet) (sv : Server)
        → IsStream bytes ps tail
        → lib.unread (sv.heap a).recv_buffer ≡ bytes
        → (sv' : Server) × (lib.unread (sv'.heap a).recv_buffer ≡ tail)
          × (recv_loop (session_on_recv_packet known) sent a (suc (length bytes)) (length bytes) sv
              ≡ (if any_known known ps then err uncaught else ok (false, sv')))
    recv_loop-session_on_recv_packet bytes tail ps sv s e =
        let (ds, named, last, runs) =
          recv_loop-IsStream (session_on_recv_packet known) sent a bytes tail ps sv s e in
        let (sv', over_all, left) =
          over_lem tail (after_all ds sv)
            (ap lib.unread (after_all-ring ds (sv.heap a).recv_buffer sv refl) ∙ last) in
        (
          sv',
          left,
          runs
              ∙ deliver-after_all ds (ended (session_on_recv_packet known) sent a tail) sv
              ∙ ap
                  (λ qs.
                    if any_known known qs
                    then err uncaught
                    else ended (session_on_recv_packet known) sent a tail (after_all ds sv))
                  named
              ∙ ap (λ r. if any_known known ps then err uncaught else r) over_all,
        )
