-- ===== src/Rio/Start/Buffers.antt =====
-- RIOServer::ReserveRIOBuffer of DdingGameServer/RIO_Core/RIOServer.cpp. CTLSMemoryPool is a library
-- outside the repository: `PoolLib`.
use dding_game_server.Prelude.{
  ℕ, zero, suc, ◌+◌, ◌≤◌, ◌<◌, ◌≡◌, refl, sym, ap, subst, Bool, true, ◌↔◌, inl, inr, Option, none,
  some, List, [], ◌∷◌, ◌++◌, length, get_elem?, length-append, if◌then◌else◌, arith, Bool-cases,
  All,
}

-- A buffer of the pool: what it is, and the id that RIORegisterBuffer has answered for it, which is
-- RIO_INVALID_BUFFERID where it has failed.
pub record Buffer : Type 0 where
  pub number : ℕ
  pub buffer_id : Option ℕ

pub record PoolLib : Type 1 where
  pub Pool : Type 0
  pub is_empty : Pool → Bool
  pub alloc : Pool → Buffer × Pool
  pub free : Buffer → Pool → Pool
  -- the buffers that are there, in the order in which Alloc gives them
  pub contents : Pool → List Buffer
  -- documented behaviour
  pub is_empty-contents : (p : Pool) → (is_empty p ≡ true) ↔ (length (contents p) ≡ 0)
  pub alloc-contents :
      (p : Pool) (b : Buffer) (bs : List Buffer)
      → contents p ≡ b ∷ bs
      → ((alloc p).0 ≡ b) × (contents (alloc p).1 ≡ bs)
  pub free-contents :
      (b : Buffer) (p : Pool)
      → (xs ys : List Buffer) × (contents p ≡ xs ++ ys) × (contents (free b p) ≡ xs ++ b ∷ ys)

pub data Reserved (A : Type 0) : Type 0 where
  returns : A → Reserved A
  -- an element behind the end of a vector
  reads_out_of_range : Reserved A
  out_of_fuel : Reserved A

module _ ⦃lib : PoolLib⦄ where
  -- The loop that takes every buffer out; `ids` is what RIORegisterBuffer answers for each one.
  unfoldable pub take_all :
      ℕ → (ℕ → ℕ) → ℕ → lib.Pool → List Buffer → Reserved (List Buffer × lib.Pool)
  take_all zero ids i p taken = out_of_fuel
  take_all (suc fuel) ids i p taken =
      let (b, p') = lib.alloc p in
      let rest =
        take_all fuel ids (i + 1) p' (taken ++ record b { buffer_id = some (ids i) } ∷ []) in
      if lib.is_empty p then returns (taken, p) else rest

  -- The loop that gives them back: `n` of each pool, from the `i`-th on.
  unfoldable pub give_back :
      ℕ → ℕ → (recv send : List Buffer) → lib.Pool → lib.Pool → Reserved (lib.Pool × lib.Pool)
  give_back zero i recv send p q = returns (p, q)
  give_back (suc n) i recv send p q = elim (get_elem? recv i) [
    | none ↦ reads_out_of_range
    | some b ↦ elim (get_elem? send i) [
      | none ↦ reads_out_of_range
      | some c ↦ give_back n (i + 1) recv send (lib.free b p) (lib.free c q)
    ]
  ]

  unfoldable pub give_both :
      ℕ
      → Reserved (List Buffer × lib.Pool)
      → Reserved (List Buffer × lib.Pool)
      → Reserved (lib.Pool × lib.Pool)
  give_both total (returns (recv, p)) (returns (send, q)) = give_back total 0 recv send p q
  give_both total (returns recv) reads_out_of_range = reads_out_of_range
  give_both total (returns recv) out_of_fuel = out_of_fuel
  give_both total reads_out_of_range send = reads_out_of_range
  give_both total out_of_fuel send = out_of_fuel

  -- `total` is totalBufferSize, what the pools were asked for.
  unfoldable pub reserve_rio_buffer :
      (fuel total : ℕ)
      → (recv_ids send_ids : ℕ → ℕ) → lib.Pool
      → lib.Pool
      → Reserved (lib.Pool × lib.Pool)
  reserve_rio_buffer fuel total recv_ids send_ids p q =
      give_both total (take_all fuel recv_ids 0 p []) (take_all fuel send_ids 0 q [])

  -- The buffer has the answer of one of the first `n` calls of RIORegisterBuffer.
  abbrev pub HasAnswer : (ℕ → ℕ) → ℕ → Buffer → Type 0
  HasAnswer ids n b = (i : ℕ) × (i < n) × (b.buffer_id ≡ some (ids i))

  module _ (P : Buffer → Type 0) where
    -- What the first loop comes to.
    record IsTaken (n : ℕ) (r : Reserved (List Buffer × lib.Pool)) : Type 0 where
      taken : List Buffer
      left : lib.Pool
      ends : r ≡ returns (taken, left)
      size : length taken ≡ n
      registered : All P taken
      empty : lib.contents left ≡ []

    All-append : (xs ys : List Buffer) → All P xs → All P ys → All P (xs ++ ys)
    All-append [] ys a b = b
    All-append (x ∷ xs) ys (p, a) b = (p, All-append xs ys a b)

    take_all-IsTaken :
        (ids : ℕ → ℕ) (total : ℕ)
        → ((b : Buffer) (j : ℕ) → j < total → P (record b { buffer_id = some (ids j) }))
        → (fuel i : ℕ) (p : lib.Pool) (taken bs : List Buffer) → lib.contents p ≡ bs
        → i + length bs ≤ total
        → length bs < fuel
        → All P taken
        → IsTaken (length taken + length bs) (take_all fuel ids i p taken)
    unfolding take_all
    take_all-IsTaken ids total stamped zero i p taken bs e inside enough a =
        absurd (omega (arith, enough))
    take_all-IsTaken ids total stamped (suc fuel) i p taken [] e inside enough a =
        let empty : lib.is_empty p ≡ true = (lib.is_empty-contents p).1 (ap length e) in
        record {
          taken = taken;
          left = p;
          ends = rw empty refl;
          size = omega arith;
          registered = a;
          empty = e;
        }
    take_all-IsTaken ids total stamped (suc fuel) i p taken (b ∷ bs) e inside enough a =
        elim (Bool-cases (lib.is_empty p)) [
          | inl y ↦ absurd (omega (arith, (lib.is_empty-contents p).0 y, ap length e))
          | inr n ↦
              let (first, left) = lib.alloc-contents p b bs e in
              let made = record (lib.alloc p).0 { buffer_id = some (ids i) } in
              rw n (
                subst
                  (λ k. IsTaken k (take_all fuel ids (i + 1) (lib.alloc p).1 (taken ++ made ∷ [])))
                  (omega (arith, length-append taken (made ∷ [])))
                  (take_all-IsTaken ids total stamped fuel (i + 1) (lib.alloc p).1
                    (taken ++ made ∷ []) bs left (omega (arith, inside)) (omega (arith, enough))
                    (All-append taken (made ∷ []) a
                      (stamped (lib.alloc p).0 i (omega (arith, inside)), tt))))
        ]

    -- The pool has this many buffers, with this of each of them.
    pub record IsStocked (n : ℕ) (p : lib.Pool) : Type 0 where
      pub size : length (lib.contents p) ≡ n
      pub registered : All P (lib.contents p)

    All-split : (xs ys : List Buffer) → All P (xs ++ ys) → All P xs × All P ys
    All-split [] ys a = (tt, a)
    All-split (x ∷ xs) ys (p, a) = let (l, r) = All-split xs ys a in ((p, l), r)

    free-IsStocked :
        (n : ℕ) (b : Buffer) (p : lib.Pool) → P b → IsStocked n p → IsStocked (n + 1) (lib.free b p)
    free-IsStocked n b p registered s =
        let (xs, ys, before, after) = lib.free-contents b p in
        let (l, r) = All-split xs ys (subst (All P) before s.registered) in
        record {
          size = omega (
            arith,
            s.size,
            ap length before,
            ap length after,
            length-append xs ys,
            length-append xs (b ∷ ys),
          );
          registered = subst (All P) (sym after) (All-append xs (b ∷ ys) l (registered, r));
        }

    get_elem?-holds :
        (bs : List Buffer) (i : ℕ)
        → i < length bs
        → All P bs
        → (b : Buffer) × (get_elem? bs i ≡ some b) × P b
    get_elem?-holds [] i h a = absurd (omega arith)
    get_elem?-holds (b ∷ bs) zero h (r, a) = (b, refl, r)
    get_elem?-holds (b ∷ bs) (suc i) h (r, a) = get_elem?-holds bs i (omega (arith, h)) a

    nothing-IsStocked : (p : lib.Pool) → lib.contents p ≡ [] → IsStocked 0 p
    nothing-IsStocked p e = record { size = ap length e; registered = subst (All P) (sym e) tt }

  module _ (P Q : Buffer → Type 0) where
    give_back-IsStocked :
        (n i : ℕ) (recv send : List Buffer) (p q : lib.Pool)
        → i + n ≤ length recv
        → i + n ≤ length send
        → All P recv
        → All Q send
        → IsStocked P i p
        → IsStocked Q i q
        → (p' q' : lib.Pool) × (give_back n i recv send p q ≡ returns (p', q'))
          × IsStocked P (i + n) p'
          × IsStocked Q (i + n) q'
    unfolding give_back
    give_back-IsStocked zero i recv send p q hr hs ar as_ sp sq = (
      p,
      q,
      refl,
      subst (λ k. IsStocked P k p) (omega arith) sp,
      subst (λ k. IsStocked Q k q) (omega arith) sq,
    )
    give_back-IsStocked (suc n) i recv send p q hr hs ar as_ sp sq =
        let (b, at_b, rb) = get_elem?-holds P recv i (omega (arith, hr)) ar in
        let (c, at_c, rc) = get_elem?-holds Q send i (omega (arith, hs)) as_ in
        let (p', q', e, fp, fq) =
          give_back-IsStocked n (i + 1) recv send (lib.free b p) (lib.free c q) (omega (arith, hr))
            (omega (arith, hs)) ar as_ (free-IsStocked P i b p rb sp)
            (free-IsStocked Q i c q rc sq) in
        (
          p',
          q',
          rw (at_b, at_c, give_back) e,
          subst (λ k. IsStocked P k p') (omega arith) fp,
          subst (λ k. IsStocked Q k q') (omega arith) fq,
        )

    give_both-IsStocked :
        (total : ℕ) (r s : Reserved (List Buffer × lib.Pool))
        → IsTaken P total r
        → IsTaken Q total s
        → (p' q' : lib.Pool) × (give_both total r s ≡ returns (p', q'))
          × IsStocked P total p'
          × IsStocked Q total q'
    unfolding give_both
    give_both-IsStocked total r s t u =
        let (p', q', e, fp, fq) =
          give_back-IsStocked total 0 t.taken u.taken t.left u.left (omega (arith, t.size))
            (omega (arith, u.size)) t.registered u.registered (nothing-IsStocked P t.left t.empty)
            (nothing-IsStocked Q u.left u.empty) in
        (
          p',
          q',
          rw (t.ends, u.ends, give_both) e,
          subst (λ k. IsStocked P k p') (omega arith) fp,
          subst (λ k. IsStocked Q k q') (omega arith) fq,
        )

  take_all-total :
      (ids : ℕ → ℕ) (fuel total : ℕ) (p : lib.Pool)
      → length (lib.contents p) ≡ total
      → total < fuel
      → IsTaken (HasAnswer ids total) total (take_all fuel ids 0 p [])
  take_all-total ids fuel total p n enough =
      subst (λ k. IsTaken (HasAnswer ids total) k (take_all fuel ids 0 p [])) (omega (arith, n))
        (take_all-IsTaken (HasAnswer ids total) ids total (λ b j h. (j, h, refl)) fuel 0 p []
          (lib.contents p) refl (omega (arith, n)) (omega (arith, n, enough)) tt)

  -- Where both pools come with as many buffers as they were asked for, the two loops that empty them
  -- end, with more fuel than there are buffers; none of the two vectors is read behind its end; and
  -- each pool has as many buffers behind the call as before, every one of them with an id that
  -- RIORegisterBuffer has answered for a buffer of its pool, also where that is RIO_INVALID_BUFFERID.
  pub reserve_rio_buffer-IsStocked :
      (fuel total : ℕ) (recv_ids send_ids : ℕ → ℕ) (p q : lib.Pool)
      → length (lib.contents p) ≡ total
      → length (lib.contents q) ≡ total
      → total < fuel
      → (p' q' : lib.Pool) × (reserve_rio_buffer fuel total recv_ids send_ids p q
          ≡ returns (p', q'))
        × IsStocked (HasAnswer recv_ids total) total p'
        × IsStocked (HasAnswer send_ids total) total q'
  unfolding reserve_rio_buffer
  reserve_rio_buffer-IsStocked fuel total recv_ids send_ids p q np nq enough =
      give_both-IsStocked (HasAnswer recv_ids total) (HasAnswer send_ids total) total
        (take_all fuel recv_ids 0 p []) (take_all fuel send_ids 0 q [])
        (take_all-total recv_ids fuel total p np enough)
        (take_all-total send_ids fuel total q nq enough)
