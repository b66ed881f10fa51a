-- ===== src/Rio/Counting/Reachable.antt =====
-- In every reachable state `ioCount` is the number of requests that the kernel holds for the session.
use dding_game_server.Prelude.{
  ℕ, ◌+◌, ◌≤◌, ◌≡◌, refl, inl, inr, some, List, ◌∷◌, arith, Option-cases, Bool-cases, Bool, [],
}
use dding_game_server.Prelude.Map
use dding_game_server.Rio.Types.{RioLib, Server, Result, ok, Ends, Ends-bind, Ends-mono}
use dding_game_server.Rio.Release.{get_session, disconnect}
use dding_game_server.Rio.Send.{send_packet}
use dding_game_server.Rio.Broadcast.{send_to, send_to_each, braodcast_to_all_session}
use dding_game_server.Rio.Recv.{HandledPacket, HandledPacket}
use dding_game_server.Rio.Steps.{
  Step, accepts, works, sends, sends_and_disconnects, disconnects, broadcasts, Reachable, starts,
  steps, started,
}
use dding_game_server.Rio.Counting.Defs.{Counted, Running, recv_out, send_out}
use dding_game_server.Rio.Counting.Send.{send_packet-Running, send_packet_and_disconnect-Running}
use dding_game_server.Rio.Counting.Work.{Counted-any, work-Counted}
use dding_game_server.Rio.Counting.Enter.{accept_socket-Counted}

-- What a call that ended well has left.
ended : {A : Type 0} (P : A → Type 0) (m : Result A) (a : A) → Ends P m → m ≡ ok a → P a
ended P m a h e = rw e at h

module _ ⦃lib : RioLib⦄ where
  started-Counted : (threads max_clients : ℕ) → Counted 0 0 (started threads max_clients)
  unfolding Map.find recv_out send_out
  started-Counted threads max_clients = record {
    sound = λ id a h. absurd (ground arith);
    placed = λ id a h. absurd (ground arith);
    young = λ id a h. absurd (ground arith);
    owners = λ id h. (refl, refl);
  }

  -- The program calls the server for a session that it found in the map.
  found-Running :
      (id a : ℕ) (sv : Server)
      → Counted 0 0 sv
      → Map.find id sv.session_map ≡ some a
      → Running id 0 a (recv_out id sv.posted) sv
  found-Running id a sv c h = record {
    counts = Counted-any 0 id sv c;
    owns = record { named = (c.sound id a h).named; only = λ b h'. ground arith };
    known = c.young id a h;
    receives = refl;
  }

  disconnect-Counted : (id : ℕ) (sv : Server) → Counted 0 0 sv → Counted 0 0 (disconnect id sv)
  unfolding disconnect
  disconnect-Counted id sv c = elim (Option-cases (Map.find id sv.session_map)) [
    | inl n ↦ rw (n, disconnect) c
    | inr (a, h) ↦
        rw (h, disconnect)
          record { sound = c.sound; placed = c.placed; young = c.young; owners = c.owners }
  ]

  send_to-Counted :
      (sent : Bool) (p : lib.Packet) (id : ℕ) (sv : Server)
      → Counted 0 0 sv
      → Ends (Counted 0 0) (send_to sent p (get_session id sv) sv)
  unfolding get_session send_to
  send_to-Counted sent p id sv c = elim (Option-cases (Map.find id sv.session_map)) [
    | inl n ↦ rw (n, send_to) c
    | inr (a, h) ↦ elim (Bool-cases (sv.heap a).is_released_session) [
      | inl r ↦ rw (h, send_to, r) c
      | inr l ↦
          rw (h, send_to, l)
            (Ends-mono _ (Counted 0 0) (send_packet sent p a sv)
              (send_packet-Running sent p id 0 a _ sv (omega arith) (found-Running id a sv c h))
              (λ sv' run. Counted-any id 0 sv' run.counts))
    ]
  ]

  each-Counted :
      (sent : ℕ → Bool) (p : lib.Packet) (ids : List ℕ) (sv : Server)
      → Counted 0 0 sv
      → Ends (Counted 0 0) (send_to_each sent p ids sv)
  unfolding send_to_each
  each-Counted sent p [] sv c = c
  each-Counted sent p (id ∷ ids) sv c =
      Ends-bind (Counted 0 0) (Counted 0 0) (send_to (sent id) p (get_session id sv) sv) _
        (send_to-Counted (sent id) p id sv c) (each-Counted sent p ids)

  Step-Counted : (sv sv' : Server) → Step sv sv' → Counted 0 0 sv → Counted 0 0 sv'
  unfolding get_session braodcast_to_all_session
  Step-Counted sv _ (accepts os socket _ room) c = accept_socket-Counted os socket sv room c
  Step-Counted sv sv' (works handle io r xs ys _ _ e w) c =
      ended (Counted 0 0) _ sv' (work-Counted handle io r sv xs ys e c) w
  Step-Counted sv sv' (sends sent p id a _ _ h w) c =
      Counted-any id 0 sv'
        (ended (Running id 0 a _) _ sv'
          (send_packet-Running sent p id 0 a _ sv (omega arith) (found-Running id a sv c h))
          w).counts
  Step-Counted sv sv' (sends_and_disconnects sent p id a _ _ h w) c =
      Counted-any id 0 sv'
        (ended (Running id 0 a _) _ sv'
          (send_packet_and_disconnect-Running sent p id 0 a _ sv (omega arith)
            (found-Running id a sv c h))
          w).counts
  Step-Counted sv _ (disconnects id _) c = disconnect-Counted id sv c
  Step-Counted sv sv' (broadcasts sent p _ _ w) c =
      ended (Counted 0 0) _ sv' (each-Counted sent p sv.session_id_set sv c) w

  Reachable-Counted : (sv : Server) → Reachable sv → Counted 0 0 sv
  Reachable-Counted _ (starts threads max_clients) = started-Counted threads max_clients
  Reachable-Counted sv' (steps sv _ before s) = Step-Counted sv sv' s (Reachable-Counted sv before)

  -- In a reachable state, the I/O count of a session of the map is the number of receives and sends
  -- that the kernel holds for it; there is at most one of each kind and at least one in all, and
  -- the session's own id is the one it is kept under.
  pub io_count_lem :
      (sv : Server) (id a : ℕ)
      → Reachable sv
      → get_session id sv ≡ some a
      → ((sv.heap a).io_count ≡ recv_out id sv.posted + send_out id sv.posted)
        × (1 ≤ (sv.heap a).io_count)
        × (recv_out id sv.posted ≤ 1)
        × (send_out id sv.posted ≤ 1)
        × ((sv.heap a).session_id ≡ id)
  unfolding get_session
  io_count_lem sv id a before h = ground (arith, (Reachable-Counted sv before).sound id a h)
