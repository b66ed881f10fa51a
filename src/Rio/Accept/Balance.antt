-- ===== src/Rio/Accept/Balance.antt =====
-- Which worker thread GetMinimumSessionThreadId gives a new session.
use dding_game_server.Prelude.{
  ℕ, ◌+◌, ◌≤◌, ◌≡◌, refl, true, false, ◌⊎◌, inl, inr, some, List, [], ◌∷◌, ltb, ◌==◌, arith,
  Bool-cases, All, get_elem?,
}
use dding_game_server.Rio.Types.{RioLib, Server}
use dding_game_server.Rio.Accept.{minimum_loop, get_minimum_session_thread_id}

-- `v` is the least of `m` and the list, and `r` says where it stands: it is `t` for `m`, and the
-- place counted from `i` for an element.
abbrev Least : List ℕ → ℕ → ℕ → ℕ → ℕ → Type 0
Least ns i t m r =
    (v : ℕ) × (v ≤ m)
    × All (λ n. v ≤ n) ns
    × (((r ≡ t) × (v ≡ m)) ⊎ ((j : ℕ) × (r ≡ i + j) × (get_elem? ns j ≡ some v)))

All-above_zero : (ns : List ℕ) → All (λ n. 0 ≤ n) ns
All-above_zero [] = tt
All-above_zero (n ∷ ns) = (omega arith, All-above_zero ns)

minimum_loop-Least : (ns : List ℕ) (i t m : ℕ) → Least ns i t m (minimum_loop ns i t m)
unfolding minimum_loop
minimum_loop-Least [] i t m = (m, omega arith, tt, inl (refl, refl))
minimum_loop-Least (n ∷ ns) i t m = elim (Bool-cases (n == 0)) [
  | inl z ↦
      rw (z, minimum_loop)
        (0, omega arith, (omega arith, All-above_zero ns), inr (0, omega arith, ground arith))
  | inr z ↦ elim (Bool-cases (ltb n m)) [
    | inl l ↦ rw (z, l, minimum_loop) (lower l (minimum_loop-Least ns (i + 1) i n))
    | inr l ↦ rw (z, l, minimum_loop) (higher l (minimum_loop-Least ns (i + 1) t m))
  ]
]
  where
    lower : {r : ℕ} → ltb n m ≡ true → Least ns (i + 1) i n r → Least (n ∷ ns) i t m r
    lower l (v, low, all, inl (er, ev)) =
        (v, ground arith, (low, all), inr (0, omega arith, ground arith))
    lower l (v, low, all, inr (j, er, ev)) =
        (v, ground arith, (low, all), inr (j + 1, omega arith, ground arith))

    higher : {r : ℕ} → ltb n m ≡ false → Least ns (i + 1) t m r → Least (n ∷ ns) i t m r
    higher l (v, low, all, inl (er, ev)) = (v, low, (ground arith, all), inl (er, ev))
    higher l (v, low, all, inr (j, er, ev)) =
        (v, low, (ground arith, all), inr (j + 1, omega arith, ground arith))

module _ ⦃lib : RioLib⦄ where
  -- A new session goes to a worker thread with the fewest sessions, or to thread 0 where every
  -- thread has at least as many sessions as the server takes clients.
  get_minimum_session_thread_id_lem :
      (sv : Server)
      → Least sv.num_of_session_in_worker_thread 0 0 sv.max_client_count
          (get_minimum_session_thread_id sv)
  unfolding get_minimum_session_thread_id
  get_minimum_session_thread_id_lem sv =
      minimum_loop-Least sv.num_of_session_in_worker_thread 0 0 sv.max_client_count
