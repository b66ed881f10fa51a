-- ===== src/Rio/Counting/Moves.antt =====
-- The elementary changes of the server keep its counts right.
use dding_game_server.Prelude.{ℕ, ◌+◌, ◌≤◌, ◌<◌, ◌≡◌, ◌≢◌, inl, inr, some, ◌==◌, arith, Bool-cases}
use dding_game_server.Prelude.Map
use dding_game_server.Prelude.Map.{find-erase}
use dding_game_server.Rio.Types.{RioLib, Session, Server}
use dding_game_server.Rio.Release.{
  write, add_io, drop_io, release_session, io_count_decrement, on_session_leaved,
}
use dding_game_server.Rio.Counting.Defs.{Sound, Counted, Owns, recv_out, send_out}

module _ ⦃lib : RioLib⦄ where
  -- A session object changes, whether it is in the map or not; only its own counts may differ.
  pub write-Counted :
      (me k k' a : ℕ) (s : Session) (sv : Server)
      → Counted me k sv
      → Owns me a sv
      → s.session_id ≡ me
      → (Map.find me sv.session_map ≡ some a → Sound k' me s sv.posted)
      → Counted me k' (write a s sv)
  write-Counted me k k' a s sv c o mine fits = record {
    sound = λ id b h. elim (Bool-cases (id == me)) [
      | inl e ↦ ground (arith, o.only b, fits)
      | inr e ↦ ground (arith, c.sound id b h, o.named)
    ];
    placed = c.placed;
    young = c.young;
    owners = c.owners;
  }

  pub write-Owns :
      (me a : ℕ) (s : Session) (sv : Server)
      → Owns me a sv
      → s.session_id ≡ me
      → Owns me a (write a s sv)
  write-Owns me a s sv o mine = record { named = ground arith; only = o.only }

  -- The counts of a session in the map stay small.
  pub io_count-lt :
      (me k a : ℕ) (sv : Server)
      → Counted me k sv
      → Map.find me sv.session_map ≡ some a
      → (sv.heap a).io_count < k + 3
  io_count-lt me k a sv c h = ground (arith, c.sound me a h)

  pub add_io-Counted :
      (me k a : ℕ) (sv : Server)
      → k < 9
      → Counted me k sv
      → Owns me a sv
      → Counted me (k + 1) (add_io a sv)
  unfolding add_io
  add_io-Counted me k a sv small c o =
      write-Counted me k (k + 1) a _ sv c o o.named (λ h. ground (arith, c.sound me a h))

  pub drop_io-Counted :
      (me k a : ℕ) (sv : Server)
      → k < 9
      → Counted me (k + 1) sv
      → Owns me a sv
      → ((drop_io a sv).heap a).io_count ≢ 0
      → Counted me k (drop_io a sv)
  unfolding drop_io
  drop_io-Counted me k a sv small c o pos =
      write-Counted me (k + 1) k a _ sv c o o.named (λ h. ground (arith, c.sound me a h))

  -- The counts of every session but one.
  pub record Others (me : ℕ) (sv : Server) : Type 0 where
    pub sound :
        (id a : ℕ)
        → id ≢ me
        → Map.find id sv.session_map ≡ some a
        → Sound 0 id (sv.heap a) sv.posted
    pub placed : (id a : ℕ) → Map.find id sv.session_map ≡ some a → a < sv.next_address
    pub young : (id a : ℕ) → Map.find id sv.session_map ≡ some a → id ≤ sv.next_session_id
    pub owners :
        (id : ℕ)
        → sv.next_session_id < id
        → (recv_out id sv.posted ≡ 0) × (send_out id sv.posted ≡ 0)

  pub Others-of_Counted :
      (me k a : ℕ) (s : Session) (sv : Server)
      → Counted me k sv
      → Owns me a sv
      → Others me (write a s sv)
  Others-of_Counted me k a s sv c o = record {
    sound = λ id b ne h. ground (arith, c.sound id b h, o.named);
    placed = c.placed;
    young = c.young;
    owners = c.owners;
  }

  pub Counted-Others : (me k : ℕ) (sv : Server) → Counted me k sv → Others me sv
  Counted-Others me k sv c = record {
    sound = λ id b ne h. ground (arith, c.sound id b h);
    placed = c.placed;
    young = c.young;
    owners = c.owners;
  }

  -- A release takes the session out of the map, whatever its own counts are.
  pub release_session-Counted :
      (me k a : ℕ) (sv : Server) → Others me sv → Owns me a sv → Counted me k (release_session a sv)
  unfolding release_session
  release_session-Counted me k a sv c o = record {
    sound = λ id b h.
        ground (arith, find-erase (sv.heap a).session_id id sv.session_map, o.named, c.sound id b);
    placed = λ id b h.
        ground (arith, find-erase (sv.heap a).session_id id sv.session_map, c.placed id b);
    young =
        λ id b h. ground (arith, find-erase (sv.heap a).session_id id sv.session_map, c.young id b);
    owners = c.owners;
  }

  pub release_session-Owns :
      (me a : ℕ) (sv : Server) → Owns me a sv → Owns me a (release_session a sv)
  unfolding release_session
  release_session-Owns me a sv o = record {
    named = ground (arith, o.named);
    only = λ b h. ground (arith, find-erase (sv.heap a).session_id me sv.session_map, o.only b);
  }

  -- The Broadcaster's set plays no part in the counts.
  leaved-Others : (me id : ℕ) (sv : Server) → Others me sv → Others me (on_session_leaved id sv)
  unfolding on_session_leaved
  leaved-Others me id sv c = record {
    sound = c.sound;
    placed = c.placed;
    young = c.young;
    owners = c.owners;
  }

  leaved-Owns : (me a id : ℕ) (sv : Server) → Owns me a sv → Owns me a (on_session_leaved id sv)
  unfolding on_session_leaved
  leaved-Owns me a id sv o = record { named = o.named; only = o.only }

  -- A property of what a decrement leaves, from its two cases.
  pub io_count_decrement_cases :
      (P : Server → Type 0) (a : ℕ) (sv : Server)
      → P (release_session a (on_session_leaved ((drop_io a sv).heap a).session_id (drop_io a sv)))
      → (((drop_io a sv).heap a).io_count ≢ 0 → P (drop_io a sv))
      → P (io_count_decrement a sv)
  unfolding io_count_decrement
  io_count_decrement_cases P a sv last more =
      elim (Bool-cases (((drop_io a sv).heap a).io_count == 0)) [
        | inl e ↦ rw (e, io_count_decrement) last
        | inr e ↦ rw (e, io_count_decrement) (more (λ z. ground arith))
      ]

  drop_io-Owns : (me a : ℕ) (sv : Server) → Owns me a sv → Owns me a (drop_io a sv)
  unfolding drop_io
  drop_io-Owns me a sv o = write-Owns me a _ sv o o.named

  drop_io-Others :
      (me k a : ℕ) (sv : Server) → Counted me k sv → Owns me a sv → Others me (drop_io a sv)
  unfolding drop_io
  drop_io-Others me k a sv c o = Others-of_Counted me k a _ sv c o

  -- Giving up a held count releases the session exactly when it was the last.
  pub io_count_decrement-Counted :
      (me k a : ℕ) (sv : Server)
      → k < 9
      → Counted me (k + 1) sv
      → Owns me a sv
      → Counted me k (io_count_decrement a sv)
  io_count_decrement-Counted me k a sv small c o =
      io_count_decrement_cases (Counted me k) a sv
        (release_session-Counted me k a _
          (leaved-Others me _ _ (drop_io-Others me (k + 1) a sv c o))
          (leaved-Owns me a _ _ (drop_io-Owns me a sv o)))
        (drop_io-Counted me k a sv small c o)

  pub io_count_decrement-Owns :
      (me a : ℕ) (sv : Server) → Owns me a sv → Owns me a (io_count_decrement a sv)
  io_count_decrement-Owns me a sv o =
      io_count_decrement_cases (Owns me a) a sv
        (release_session-Owns me a _ (leaved-Owns me a _ _ (drop_io-Owns me a sv o)))
        (λ h. drop_io-Owns me a sv o)
