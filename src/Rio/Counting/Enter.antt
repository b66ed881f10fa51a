-- ===== src/Rio/Counting/Enter.antt =====
-- A session that Accepter makes starts with the counts right.
use dding_game_server.Prelude.{
  ℕ, ◌+◌, ◌^◌, ◌≤◌, ◌<◌, ◌≡◌, refl, ◌⊎◌, Bool, true, false, inl, inr, none, some, List, ◌==◌, arith,
  Bool-cases, Option-cases,
}
use dding_game_server.Prelude.Map
use dding_game_server.Prelude.Map.{find-insert_cases}
use dding_game_server.Prelude.Word.{inc64}
use dding_game_server.Rio.Types.{RioLib, Server, Effect, io_none_sending}
use dding_game_server.Rio.Release.{write, add_io, io_count_decrement, on_session_entered}
use dding_game_server.Rio.Recv.{recv_post}
use dding_game_server.Rio.Accept.{
  Setup, get_minimum_session_thread_id, new_session, get_new_session, enter_session, start_session,
  make_new_session, count_session, accept_socket, join_thread,
}
use dding_game_server.Rio.Counting.Defs.{Sound, Counted, Running, held, recv_out, send_out}
use dding_game_server.Rio.Counting.Running.{io_count_decrement-Running}
use dding_game_server.Rio.Counting.Recv.{recv_post-Running}
use dding_game_server.Rio.Counting.Work.{Counted-any}

module _ ⦃lib : RioLib⦄ where
  -- A new object, at a fresh address and with a fresh id, not yet in the map.
  record Fresh (id a : ℕ) (sv : Server) : Type 0 where
    named : (sv.heap a).session_id ≡ id
    counted : (sv.heap a).io_count ≡ 1
    mode : (sv.heap a).send_item.io_mode ≡ io_none_sending
    unknown : Map.find id sv.session_map ≡ none
    known : id ≤ sv.next_session_id
    below : a < sv.next_address
    apart : (j b : ℕ) → Map.find j sv.session_map ≡ some b → b < a
    silent : (recv_out id sv.posted ≡ 0) × (send_out id sv.posted ≡ 0)

  -- The server with the new object, before it is in the map.
  abbrev made : ℕ → ℕ → Server → Server
  made socket thread sv =
      record (write sv.next_address (new_session socket (sv.next_session_id + 1) thread)
        (record sv { next_session_id = sv.next_session_id + 1 })) {
          next_address = sv.next_address + 1;
        }

  inc64_lem : (n : ℕ) → n + 1 < 2 ^ 64 → inc64 n ≡ n + 1
  inc64_lem n h = omega arith

  get_new_session-made :
      (socket thread : ℕ) (sv : Server)
      → sv.next_session_id + 1 < 2 ^ 64
      → get_new_session socket thread sv ≡ (some sv.next_address, made socket thread sv)
  unfolding get_new_session
  get_new_session-made socket thread sv room =
      rw (inc64_lem sv.next_session_id room, zero_lem, get_new_session) refl
    where
      zero_lem : (sv.next_session_id + 1 == 0) ≡ false
      zero_lem = ground arith

  made-Counted :
      (socket thread : ℕ) (sv : Server)
      → Counted 0 0 sv
      → Counted 0 0 (add_io sv.next_address (made socket thread sv))
  unfolding add_io
  made-Counted socket thread sv c = record {
    sound = λ id b h. ground (arith, c.sound id b h, c.placed id b h);
    placed = λ id b h. ground (arith, c.placed id b h);
    young = λ id b h. ground (arith, c.young id b h);
    owners = λ id h. c.owners id (omega arith);
  }

  made-Fresh :
      (socket thread : ℕ) (sv : Server)
      → Counted 0 0 sv
      → Fresh
          (sv.next_session_id + 1)
          sv.next_address
          (add_io sv.next_address (made socket thread sv))
  unfolding add_io new_session
  made-Fresh socket thread sv c = record {
    named = ground arith;
    counted = ground arith;
    mode = ground arith;
    unknown = elim (Option-cases (Map.find (sv.next_session_id + 1) sv.session_map)) [
      | inl n ↦ n
      | inr (a, h) ↦ absurd (omega (arith, c.young _ a h))
    ];
    known = omega arith;
    below = omega arith;
    apart = λ j b h. c.placed j b h;
    silent = c.owners _ (omega arith);
  }

  -- The object goes into the map, with the count that MakeNewSession holds.
  insert-Running :
      (id a : ℕ) (threads : List ℕ) (sv : Server)
      → Counted 0 0 sv
      → Fresh id a sv
      → Running id 1 a 0 (record sv {
        num_of_session_in_worker_thread = threads;
        session_map = Map.insert id a sv.session_map;
      })
  insert-Running id a threads sv c f = record {
    counts = record {
      sound = λ j b h. elim (cases j b h) [
        | inl (ej, eb) ↦ rw (ej, eb) itself
        | inr old ↦ others j b old
      ];
      placed =
          λ j b h. elim (cases j b h) [ inl (ej, eb) ↦ rw eb f.below | inr old ↦ c.placed j b old ];
      young =
          λ j b h. elim (cases j b h) [ inl (ej, eb) ↦ rw ej f.known | inr old ↦ c.young j b old ];
      owners = λ j h. c.owners j h;
    };
    owns = record {
      named = f.named;
      only = λ b h. elim (cases id b h) [
        | inl (ej, eb) ↦ eb
        | inr old ↦ absurd (ground (arith, f.unknown))
      ];
    };
    known = f.known;
    receives = f.silent.0;
  }
    where
      cases :
          (j b : ℕ)
          → Map.find j (Map.insert id a sv.session_map) ≡ some b
          → ((j ≡ id) × (b ≡ a)) ⊎ (Map.find j sv.session_map ≡ some b)
      cases j b = find-insert_cases id j a b sv.session_map f.unknown

      itself : Sound (held id 1 id) id (sv.heap a) sv.posted
      itself = record {
        named = f.named;
        counted = ground (arith, f.counted, f.silent);
        one_recv = omega (arith, f.silent.0);
        one_send = omega (arith, f.silent.1);
        idle = λ _. f.silent.1;
        kept = ground arith;
      }

      others :
          (j b : ℕ)
          → Map.find j sv.session_map ≡ some b
          → Sound (held id 1 j) j (sv.heap b) sv.posted
      others j b h = ground (arith, c.sound j b h, f.unknown)

  -- What the invariant does not read.
  counts_only :
      (me k n : ℕ) (ids : List ℕ) (es : List Effect) (sv : Server)
      → Counted me k sv
      → Counted me k (record sv { session_count = n; session_id_set = ids; effects = es })
  counts_only me k n ids es sv c = record {
    sound = c.sound;
    placed = c.placed;
    young = c.young;
    owners = c.owners;
  }

  enter_session-Counted :
      (taken : Bool) (a : ℕ) (sv : Server)
      → Counted 0 0 sv
      → Fresh (sv.heap a).session_id a sv
      → ((enter_session taken a sv).0 ≡ true) × Counted 0 0 (enter_session taken a sv).1
  unfolding enter_session on_session_entered
  enter_session-Counted taken a sv c f =
      rw (f.unknown, enter_session) (refl, counts_only 0 0 _ _ _ _ left)
    where
      id : ℕ
      id = (sv.heap a).session_id

      entered : Server
      entered = record sv {
        num_of_session_in_worker_thread =
            join_thread (sv.heap a).thread_id sv.num_of_session_in_worker_thread;
        session_map = Map.insert id a sv.session_map;
      }

      left : Counted 0 0 (io_count_decrement a (recv_post taken a entered).1)
      left =
          let (r, run) =
            recv_post-Running taken id 1 a entered (omega arith) (insert-Running id a _ sv c f) in
          Counted-any id 0 _ (io_count_decrement-Running id 0 a r _ (omega arith) run).counts

  start_session-Counted :
      (os : Setup) (a : ℕ) (sv : Server)
      → Counted 0 0 (add_io a sv)
      → Fresh ((add_io a sv).heap a).session_id a (add_io a sv)
      → Counted 0 0 (start_session os (some a, sv)).1
  unfolding start_session
  start_session-Counted os a sv c f = elim (Bool-cases os.queue_ok) [
    | inl e ↦ rw (e, start_session) (enter_session-Counted os.receive_ok a (add_io a sv) c f).1
    | inr e ↦ rw (e, start_session) c
  ]

  count_session-Counted :
      (socket : ℕ) (p : Bool × Server) → Counted 0 0 p.1 → Counted 0 0 (count_session socket p)
  unfolding count_session
  count_session-Counted socket (true, sv) c = counts_only 0 0 _ _ _ sv c
  count_session-Counted socket (false, sv) c = counts_only 0 0 _ _ _ sv c

  -- A socket that Accepter takes, with any answers of the operating system.
  pub accept_socket-Counted :
      (os : Setup) (socket : ℕ) (sv : Server)
      → sv.next_session_id + 1 < 2 ^ 64
      → Counted 0 0 sv
      → Counted 0 0 (accept_socket os socket sv)
  unfolding accept_socket make_new_session
  accept_socket-Counted os socket sv room c = count_session-Counted socket _ (
      rw (get_new_session-made socket thread sv room, make_new_session)
        (start_session-Counted os sv.next_address (made socket thread sv)
          (made-Counted socket thread sv c) (rw f.named f)))
    where
      thread : ℕ
      thread = get_minimum_session_thread_id sv

      f :
          Fresh
            (sv.next_session_id + 1)
            sv.next_address
            (add_io sv.next_address (made socket thread sv))
      f = made-Fresh socket thread sv c
