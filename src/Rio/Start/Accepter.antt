-- ===== src/Rio/Start/Accepter.antt =====
-- RIOServer::Accepter of DdingGameServer/RIO_Core/RIOServer.cpp: its loop over what `accept` returns.
use dding_game_server.Prelude.{
  ℕ, ◌+◌, ◌^◌, ◌<◌, ◌≡◌, refl, sym, ◌∙◌, subst, Bool, true, false, inl, inr, none, some, Option,
  List, [], ◌∷◌, length, arith, Bool-cases, Option-cases,
}
use dding_game_server.Prelude.Map
use dding_game_server.Prelude.Word.{inc64}
use dding_game_server.Rio.Types.{RioLib, Server}
use dding_game_server.Rio.Release.{
  io_count_decrement, release_session, on_session_entered, on_session_leaved, drop_io, add_io,
}
use dding_game_server.Rio.Recv.{recv_post}
use dding_game_server.Rio.Accept.{
  Setup, get_new_session, enter_session, start_session, make_new_session, count_session,
  accept_socket, get_minimum_session_thread_id,
}
use dding_game_server.Rio.Steps.{Reachable, accepts, steps}

-- What `accept` returns: a socket, with what its session meets, INVALID_SOCKET with WSAEINTR, or
-- with another error, which is printed.
pub data Accepted : Type 0 where
  enters : Setup → ℕ → Accepted
  interrupted other_error : Accepted

module _ ⦃lib : RioLib⦄ where
  -- Whether it goes on, and the server. Where the list ends, it waits in `accept`.
  unfoldable pub accepter : List Accepted → Server → Bool × Server
  accepter [] sv = (true, sv)
  accepter (enters os socket ∷ more) sv = accepter more (accept_socket os socket sv)
  accepter (interrupted ∷ more) sv = (false, sv)
  accepter (other_error ∷ more) sv = accepter more sv

  next_id-decrement :
      (a : ℕ) (sv : Server) → (io_count_decrement a sv).next_session_id ≡ sv.next_session_id
  unfolding io_count_decrement drop_io release_session on_session_leaved
  next_id-decrement a sv = ground arith

  next_id-recv :
      (taken : Bool) (a : ℕ) (sv : Server)
      → (recv_post taken a sv).1.next_session_id ≡ sv.next_session_id
  unfolding recv_post add_io
  next_id-recv true a sv = refl
  next_id-recv false a sv = refl

  next_id-enter :
      (taken : Bool) (a : ℕ) (sv : Server)
      → (enter_session taken a sv).1.next_session_id ≡ sv.next_session_id
  unfolding enter_session on_session_entered release_session
  next_id-enter taken a sv = elim (Option-cases (Map.find (sv.heap a).session_id sv.session_map)) [
    | inl n ↦ rw (n, enter_session) (next_id-decrement a _ ∙ next_id-recv taken a _)
    | inr (b, e) ↦ rw (e, enter_session) (next_id-decrement a _)
  ]

  next_id-start :
      (os : Setup) (o : Option ℕ) (sv : Server)
      → (start_session os (o, sv)).1.next_session_id ≡ sv.next_session_id
  unfolding start_session add_io
  next_id-start os none sv = refl
  next_id-start os (some a) sv = elim (Bool-cases os.queue_ok) [
    | inl y ↦ rw (y, start_session) (next_id-enter os.receive_ok a (add_io a sv))
    | inr n ↦ rw (n, start_session) refl
  ]

  next_id-count :
      (socket : ℕ) (b : Bool) (sv : Server)
      → (count_session socket (b, sv)).next_session_id ≡ sv.next_session_id
  unfolding count_session
  next_id-count socket true sv = refl
  next_id-count socket false sv = refl

  next_id-accept :
      (os : Setup) (socket : ℕ) (sv : Server)
      → (accept_socket os socket sv).next_session_id ≡ inc64 sv.next_session_id
  unfolding accept_socket make_new_session get_new_session
  next_id-accept os socket sv =
      let new = get_new_session socket (get_minimum_session_thread_id sv) sv in
      let made = start_session os (new.0, new.1) in
      next_id-count socket made.0 made.1 ∙ next_id-start os new.0 new.1 ∙ ground arith

  -- Whatever `accept` answers, and however often, Accepter leaves a reachable server reachable, while
  -- the 64-bit ids do not come round.
  accepter-Reachable :
      (answers : List Accepted) (sv : Server)
      → Reachable sv
      → sv.next_session_id + length answers < 2 ^ 64
      → Reachable (accepter answers sv).1
  unfolding accepter
  accepter-Reachable [] sv r room = r
  accepter-Reachable (interrupted ∷ more) sv r room = r
  accepter-Reachable (other_error ∷ more) sv r room = accepter-Reachable more sv r (omega arith)
  accepter-Reachable (enters os socket ∷ more) sv r room =
      accepter-Reachable more (accept_socket os socket sv)
        (steps sv _ r (accepts os socket sv (omega arith)))
        (subst (λ n. n + length more < 2 ^ 64) (sym (next_id-accept os socket sv)) (omega arith))
