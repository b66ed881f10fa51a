-- ===== src/Tests/Pools.antt =====
-- RIOServer::ReserveRIOBuffer of DdingGameServer/RIO_Core/RIOServer.cpp, with pools that are lists of
-- buffers.
use dding_game_server.Prelude.{
  ◌+◌, ◌≡◌, ◌↔◌, refl, ap, Bool, true, false, none, List, [], ◌∷◌, length, arith,
}
use dding_game_server.Rio.Start.Buffers.{
  Buffer, PoolLib, returns, reserve_rio_buffer, IsStocked, HasAnswer, reserve_rio_buffer-IsStocked,
}

abbrev is_none : List Buffer → Bool
is_none [] = true
is_none (b ∷ bs) = false

is_none-length : (bs : List Buffer) → (is_none bs ≡ true) ↔ (length bs ≡ 0)
is_none-length [] = (λ e. refl, λ e. refl)
is_none-length (b ∷ bs) = (λ e. absurd (cc e), λ e. absurd (omega (arith, e)))

-- A pool without a buffer makes one.
abbrev first : List Buffer → Buffer × List Buffer
first [] = (record { number = 0; buffer_id = none }, [])
first (b ∷ bs) = (b, bs)

first-cons :
    (p : List Buffer) (b : Buffer) (bs : List Buffer)
    → p ≡ b ∷ bs
    → ((first p).0 ≡ b) × ((first p).1 ≡ bs)
first-cons p b bs e = (ap (λ q. (first q).0) e, ap (λ q. (first q).1) e)

abbrev stack_lib : PoolLib
stack_lib = record {
  Pool = List Buffer;
  is_empty = is_none;
  alloc = first;
  free = ◌∷◌;
  contents = λ p. p;
  is_empty-contents = is_none-length;
  alloc-contents = first-cons;
  free-contents = λ b p. ([], p, refl, refl);
}

abbrev new_buffers : List Buffer
new_buffers = record { number = 4; buffer_id = none } ∷ record { number = 5; buffer_id = none } ∷ []

-- The ids that the calls of RIORegisterBuffer answer.
reserve_example :
    (p q : List Buffer) × (reserve_rio_buffer ⦃lib = stack_lib⦄ 3 2
        (λ i. 10 + i)
        (λ i. 20 + i)
        new_buffers
        new_buffers
      ≡ returns (p, q))
    × IsStocked ⦃lib = stack_lib⦄ (HasAnswer ⦃lib = stack_lib⦄ (λ i. 10 + i) 2) 2 p
    × IsStocked ⦃lib = stack_lib⦄ (HasAnswer ⦃lib = stack_lib⦄ (λ i. 20 + i) 2) 2 q
reserve_example =
    reserve_rio_buffer-IsStocked ⦃lib = stack_lib⦄ 3 2 (λ i. 10 + i) (λ i. 20 + i) new_buffers
      new_buffers refl refl (omega arith)
