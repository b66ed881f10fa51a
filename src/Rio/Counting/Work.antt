-- ===== src/Rio/Counting/Work.antt =====
-- A completed request, and a new session, keep the counts right.
use dding_game_server.Prelude.{
  ℕ, ◌+◌, ◌<◌, ◌≡◌, refl, ◌∙◌, ap, true, ◌||◌, inl, inr, none, some, List, ◌∷◌, ◌++◌, ◌==◌,
  if◌then◌else◌, arith, Bool-cases, Option-cases,
}
use dding_game_server.Prelude.Map
use dding_game_server.Prelude.Map.{find-insert_self, find-insert_ne}
use dding_game_server.Rio.Types.{
  RioLib, Server, IoContext, Ends, Ends-bind, Ends-mono, RioOperationType, op_error, op_recv,
  op_send, op_send_request, IoPostError, invalid_operation_type, io_none_sending,
}
use dding_game_server.Rio.Release.{get_session, io_count_decrement}
use dding_game_server.Rio.Send.{set_io_mode, send_post}
use dding_game_server.Rio.Recv.{HandledPacket, Io, HandledPacket, recv_completed}
use dding_game_server.Rio.Worker.{
  RioResult, get_io_completed_context, send_completed, send_io_completed, invalid_io_completed,
  io_completed, gives_up, serve, work,
}
use dding_game_server.Rio.Steps.{completed}
use dding_game_server.Rio.Counting.Defs.{
  Counted, Running, recv_out, send_out, recv_one, send_one, is_recv, recv_out-middle,
  send_out-middle,
}
use dding_game_server.Rio.Counting.Running.{
  write-Running, disconnect-Running, io_count_decrement-Running,
}
use dding_game_server.Rio.Counting.Send.{send_post-Running}
use dding_game_server.Rio.Counting.Recv.{recv_completed-Running}

module _ ⦃lib : RioLib⦄ where
  -- With nothing held, no session is special.
  pub Counted-any : (me me' : ℕ) (sv : Server) → Counted me 0 sv → Counted me' 0 sv
  Counted-any me me' sv c = record {
    sound = λ id a h. ground (arith, c.sound id a h);
    placed = c.placed;
    young = c.young;
    owners = c.owners;
  }

  module _ (me : ℕ) (sv : Server) (c : IoContext) (xs ys : List IoContext)
      (e : sv.posted ≡ xs ++ c ∷ ys) (counts : Counted me 0 sv) where
    out_middle :
        (id : ℕ)
        → (recv_out id sv.posted ≡ recv_one id c + recv_out id (xs ++ ys))
          × (send_out id sv.posted ≡ send_one id c + send_out id (xs ++ ys))
    out_middle id = (
      ap (recv_out id) e ∙ recv_out-middle id c xs ys,
      ap (send_out id) e ∙ send_out-middle id c xs ys,
    )

    -- The request that the kernel gives back leaves its count to the call that serves it.
    completed-Counted : Counted c.owner_session_id 1 (completed (xs ++ ys) sv)
    unfolding recv_one send_one
    completed-Counted = record {
      sound = λ id b h. ground (arith, counts.sound id b h, out_middle id);
      placed = counts.placed;
      young = counts.young;
      owners = λ id h. ground (arith, counts.owners id h, out_middle id);
    }

    completed-Running :
        (a : ℕ)
        → Map.find c.owner_session_id sv.session_map ≡ some a
        → Running c.owner_session_id 1 a
            (recv_out c.owner_session_id (xs ++ ys))
            (completed (xs ++ ys) sv)
    completed-Running a h = record {
      counts = completed-Counted;
      owns = record { named = (counts.sound _ a h).named; only = λ b h'. ground arith };
      known = counts.young _ a h;
      receives = refl;
    }

    module _ (a : ℕ) (h : Map.find c.owner_session_id sv.session_map ≡ some a) where
      -- A session has one receive and one send under way at most, so none is left of its kind.
      recv_done : c.io_type ≡ op_recv → recv_out c.owner_session_id (xs ++ ys) ≡ 0
      unfolding recv_one is_recv
      recv_done t =
          ground (arith, counts.sound c.owner_session_id a h, out_middle c.owner_session_id)

      send_done : c.io_type ≡ op_send → send_out c.owner_session_id (xs ++ ys) ≡ 0
      unfolding send_one is_recv
      send_done t =
          ground (arith, counts.sound c.owner_session_id a h, out_middle c.owner_session_id)

  send_completed-Running :
      (io : Io) (me k a r : ℕ) (sv : Server)
      → k < 8
      → Running me k a r sv
      → Ends
          (λ (e, sv'). ((q : ℕ) × Running me k a q sv') × (gives_up e ≡ true))
          (send_completed io a sv)
  unfolding send_completed gives_up
  send_completed-Running io me k a r sv small run = elim (Bool-cases (sv.heap a).send_disconnect) [
    | inl e ↦ rw (e, send_completed) ((r, disconnect-Running me k a r _ sv run), refl)
    | inr e ↦
        rw (e, send_completed)
          (Ends-mono _ _ (send_post io.send_ok a sv)
            (send_post-Running io.send_ok me k a r sv small run) (λ (x, t) q. ((r, q.0), q.1)))
  ]

  set_none-Running :
      (me k a r : ℕ) (sv : Server)
      → Running me k a r sv
      → send_out me sv.posted ≡ 0
      → Running me k a r (set_io_mode a io_none_sending sv)
  unfolding set_io_mode
  set_none-Running me k a r sv run quiet =
      write-Running me k k a r _ sv run run.owns.named
        (λ h. ground (arith, run.counts.sound me a h))

  -- What Worker does after the completion: its count is still held, or was given up inside.
  abbrev Settled : ℕ → ℕ → IoPostError × Server → Type 0
  Settled me a (e, sv) = (r : ℕ) × Running me (if gives_up e then 1 else 0) a r sv

  settle :
      (me a : ℕ) (e : IoPostError) (sv : Server)
      → Settled me a (e, sv)
      → Counted me 0 (if gives_up e then io_count_decrement a sv else sv)
  settle me a e sv (r, run) = elim (Bool-cases (gives_up e)) [
    | inl y ↦ rw y (io_count_decrement-Running me 0 a r sv (omega arith) (rw y at run)).counts
    | inr n ↦ rw n (rw n at run).counts
  ]

  given_up :
      (me a : ℕ) (p : IoPostError × Server)
      → ((r : ℕ) × Running me 1 a r p.1) × (gives_up p.0 ≡ true)
      → Settled me a p
  given_up me a (e, sv) (run, y) = rw y run

  refused :
      (c : IoContext) (a q : ℕ) (sv : Server)
      → Running c.owner_session_id 1 a q sv
      → Map.find c.owner_session_id sv.session_map ≡ some a
      → Settled c.owner_session_id a (invalid_operation_type, invalid_io_completed c sv)
  unfolding invalid_io_completed get_session gives_up
  refused c a q sv run h =
      rw (h, invalid_io_completed)
        (q, io_count_decrement-Running c.owner_session_id 0 a q sv (omega arith) run)

  module _ (handle : lib.Packet → HandledPacket) (io : Io) where
    io_completed-Settled :
        (r : RioResult) (a q : ℕ) (sv : Server)
        → Running r.context.owner_session_id 1 a q sv
        → Map.find r.context.owner_session_id sv.session_map ≡ some a
        → (r.context.io_type ≡ op_recv → q ≡ 0)
        → (r.context.io_type ≡ op_send → send_out r.context.owner_session_id sv.posted ≡ 0)
        → (t : RioOperationType) → r.context.io_type ≡ t
        → Ends (Settled r.context.owner_session_id a) (io_completed handle io r a sv)
    unfolding io_completed send_io_completed invalid_io_completed
    io_completed-Settled r a q sv run h none_recv none_send op_recv e = rw e (
        Ends-mono _ _ (recv_completed handle io a r.bytes sv)
          (recv_completed-Running handle io r.context.owner_session_id 1 a r.bytes sv (omega arith)
            (rw (none_recv e) at run))
          (given_up r.context.owner_session_id a))
    io_completed-Settled r a q sv run h none_recv none_send op_send e = rw e (
        Ends-mono _ _ (send_completed io a _)
          (send_completed-Running io r.context.owner_session_id 1 a q _ (omega arith)
            (set_none-Running r.context.owner_session_id 1 a q sv run (none_send e)))
          (given_up r.context.owner_session_id a))
    io_completed-Settled r a q sv run h none_recv none_send op_error e =
        rw e (refused r.context a q sv run h)
    io_completed-Settled r a q sv run h none_recv none_send op_send_request e =
        rw e (refused r.context a q sv run h)

    -- What GetIOCompletedContext answers, by the session it finds.
    context_gone :
        (r : RioResult) (sv : Server)
        → Map.find r.context.owner_session_id sv.session_map ≡ none
        → get_io_completed_context r sv ≡ (none, sv)
    unfolding get_io_completed_context get_session
    context_gone r sv n = rw (n, get_io_completed_context) refl

    context_found :
        (r : RioResult) (sv : Server) (a : ℕ)
        → Map.find r.context.owner_session_id sv.session_map ≡ some a
        → get_io_completed_context r sv ≡ (
            if r.transferred == 0 || (sv.heap a).io_cancle
            then (none, io_count_decrement a sv)
            else (some a, sv))
    unfolding get_io_completed_context get_session
    context_found r sv a h = rw (h, get_io_completed_context) refl

    nobody :
        (me : ℕ) (sv : Server)
        → Counted me 1 sv
        → Map.find me sv.session_map ≡ none
        → Counted 0 0 sv
    nobody me sv counts n = record {
      sound = λ id a h. ground (arith, counts.sound id a h);
      placed = counts.placed;
      young = counts.young;
      owners = counts.owners;
    }

    -- The Worker's turn: the kernel gives a request back, and Worker serves it.
    pub work-Counted :
        (r : RioResult) (sv : Server) (xs ys : List IoContext)
        → sv.posted ≡ xs ++ r.context ∷ ys
        → Counted 0 0 sv
        → Ends (Counted 0 0) (work handle io r (completed (xs ++ ys) sv))
    unfolding work serve
    work-Counted r sv xs ys e counts = elim (Option-cases (Map.find me sv.session_map)) [
      | inl n ↦
          rw (context_gone r sv' n)
            (nobody me sv' (completed-Counted 0 sv r.context xs ys e counts) n)
      | inr (a, h) ↦ elim (Bool-cases (r.transferred == 0 || (sv.heap a).io_cancle)) [
        | inl c ↦
            rw (context_found r sv' a h, c)
              (Counted-any me 0 _
                (io_count_decrement-Running me 0 a _ sv' (omega arith) (run a h)).counts)
        | inr c ↦
            rw (context_found r sv' a h, c)
              (Ends-bind _ _ (io_completed handle io r a sv') _
                (io_completed-Settled r a _ sv' (run a h) h
                  (recv_done 0 sv r.context xs ys e counts a h)
                  (send_done 0 sv r.context xs ys e counts a h) r.context.io_type refl)
                (λ (x, t) s. Counted-any me 0 _ (settle me a x t s)))
      ]
    ]
      where
        me : ℕ
        me = r.context.owner_session_id

        sv' : Server
        sv' = completed (xs ++ ys) sv

        run :
            (a : ℕ)
            → Map.find me sv.session_map ≡ some a
            → Running me 1 a (recv_out me (xs ++ ys)) sv'
        run a h = completed-Running 0 sv r.context xs ys e counts a h
