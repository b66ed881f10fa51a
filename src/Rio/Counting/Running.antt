-- ===== src/Rio/Counting/Running.antt =====
-- The same for a call that is under way: what it knows of its session stays true.
use dding_game_server.Prelude.{ℕ, ◌+◌, ◌<◌, ◌≡◌, refl, inl, inr, some, arith, Option-cases}
use dding_game_server.Prelude.Map
use dding_game_server.Prelude.Map.{find-erase}
use dding_game_server.Rio.Types.{RioLib, Session, Server, Effect}
use dding_game_server.Rio.Release.{
  write, emit, add_io, drop_io, disconnect, release_session, io_count_decrement, on_session_leaved,
}
use dding_game_server.Rio.Counting.Defs.{Sound, Running}
use dding_game_server.Rio.Counting.Moves.{
  write-Counted, write-Owns, add_io-Counted, Counted-Others, release_session-Counted,
  release_session-Owns, io_count_decrement_cases, io_count_decrement-Counted,
  io_count_decrement-Owns,
}

module _ ⦃lib : RioLib⦄ where
  pub write-Running :
      (me k k' a r : ℕ) (s : Session) (sv : Server)
      → Running me k a r sv
      → s.session_id ≡ me
      → (Map.find me sv.session_map ≡ some a → Sound k' me s sv.posted)
      → Running me k' a r (write a s sv)
  write-Running me k k' a r s sv run mine fits = record {
    counts = write-Counted me k k' a s sv run.counts run.owns mine fits;
    owns = write-Owns me a s sv run.owns mine;
    known = run.known;
    receives = run.receives;
  }

  -- A change of the fields that the counts do not mention.
  pub touch-Running :
      (me k a r : ℕ) (s : Session) (sv : Server)
      → Running me k a r sv
      → s.session_id ≡ (sv.heap a).session_id
      → s.io_count ≡ (sv.heap a).io_count
      → s.send_item.io_mode ≡ (sv.heap a).send_item.io_mode
      → Running me k a r (write a s sv)
  touch-Running me k a r s sv run same count mode =
      write-Running me k k a r s sv run (ground (arith, run.owns.named))
        (λ h. ground (arith, run.counts.sound me a h))

  pub emit-Running :
      (me k a r : ℕ) (e : Effect) (sv : Server) → Running me k a r sv → Running me k a r (emit e sv)
  emit-Running me k a r e sv run = record {
    counts = record {
      sound = run.counts.sound;
      placed = run.counts.placed;
      young = run.counts.young;
      owners = run.counts.owners;
    };
    owns = record { named = run.owns.named; only = run.owns.only };
    known = run.known;
    receives = run.receives;
  }

  pub disconnect-Running :
      (me k a r id : ℕ) (sv : Server) → Running me k a r sv → Running me k a r (disconnect id sv)
  unfolding disconnect
  disconnect-Running me k a r id sv run = elim (Option-cases (Map.find id sv.session_map)) [
    | inl e ↦ rw (e, disconnect) run
    | inr (b, e) ↦ rw (e, disconnect) (emit-Running me k a r _ sv run)
  ]

  pub add_io-Running :
      (me k a r : ℕ) (sv : Server)
      → k < 9
      → Running me k a r sv
      → Running me (k + 1) a r (add_io a sv)
  unfolding add_io
  add_io-Running me k a r sv small run = record {
    counts = unfold add_io in add_io-Counted me k a sv small run.counts run.owns;
    owns = write-Owns me a _ sv run.owns run.owns.named;
    known = run.known;
    receives = run.receives;
  }

  -- Neither a release nor a decrement reaches the requests or the ids given out.
  posted-decrement :
      (a : ℕ) (sv : Server)
      → ((io_count_decrement a sv).posted ≡ sv.posted)
        × ((io_count_decrement a sv).next_session_id ≡ sv.next_session_id)
  unfolding drop_io release_session on_session_leaved
  posted-decrement a sv =
      io_count_decrement_cases
        (λ t. (t.posted ≡ sv.posted) × (t.next_session_id ≡ sv.next_session_id)) a sv (refl, refl)
        (λ h. (refl, refl))

  pub release_session-Running :
      (me k k' a r : ℕ) (sv : Server)
      → Running me k a r sv
      → Running me k' a r (release_session a sv)
  release_session-Running me k k' a r sv run = record {
    counts = release_session-Counted me k' a sv (Counted-Others me k sv run.counts) run.owns;
    owns = release_session-Owns me a sv run.owns;
    known = unfold release_session in run.known;
    receives = unfold release_session in run.receives;
  }

  pub io_count_decrement-Running :
      (me k a r : ℕ) (sv : Server)
      → k < 9
      → Running me (k + 1) a r sv
      → Running me k a r (io_count_decrement a sv)
  io_count_decrement-Running me k a r sv small run = record {
    counts = io_count_decrement-Counted me k a sv small run.counts run.owns;
    owns = io_count_decrement-Owns me a sv run.owns;
    known = rw (posted-decrement a sv).1 run.known;
    receives = rw (posted-decrement a sv).0 run.receives;
  }
