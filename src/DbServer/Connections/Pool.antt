-- ===== src/DbServer/Connections/Pool.antt =====
-- How many connections the pool has, and how many are out.
use dding_game_server.Prelude.{
  ℕ, zero, suc, ◌+◌, ◌≤◌, ◌≡◌, refl, ◌∙◌, true, inl, inr, Option, none, some, List, [], ◌∷◌, ◌++◌,
  length, length-append, arith, Option-cases, ◌↔◌,
}
use dding_game_server.DbServer.Connections.{
  DbConnection, Connects, Environment, Options, Connector, connect, fill, pool_rounds, initialize,
  get_connection, free_connection, connect_pool, connect_db, get_db_connection_string,
}

fill-length :
    (connects : ℕ → Connects) (n i : ℕ) (pool : List DbConnection)
    → (fill connects i n pool).0 ≡ true
    → length (fill connects i n pool).1 ≡ length pool + n
unfolding fill
fill-length connects zero i pool h = omega arith
fill-length connects (suc n) i pool h = elim (Option-cases (connect (connects i))) [
  | inl none_lem ↦ absurd (cc (rw (none_lem, fill) at h))
  | inr (c, e) ↦
      rw (e, fill)
        (fill-length connects n (i + 1) (pool ++ c ∷ []) (rw (e, fill) at h)
          ∙ omega (arith, length-append pool (c ∷ [])))
]

-- If ConnectDB returns true, the default connection stands, and the pool has got as many
-- connections as the option file says: one where it says 0, and none where it says a negative
-- number.
pub connect_db-pool :
    (env pool_env : Environment) (one : List ℕ → Connects) (connects : List ℕ → ℕ → Connects)
    (options : Options) (o : Connector)
    → (let r = connect_db env pool_env one connects (some options) o in
        r.0 ≡ true
        → ((c : DbConnection) × (r.1.default_connection ≡ some c))
          × (length r.1.connection_pool
              ≡ length o.connection_pool + pool_rounds options.connection_pool_size))
unfolding connect_db connect_pool initialize
connect_db-pool env pool_env one connects options o h = ground (
  arith,
  Option-cases (connect (one (get_db_connection_string options))),
  fill-length (connects (get_db_connection_string options))
      (pool_rounds options.connection_pool_size) 0 o.connection_pool,
)

-- A user of the pool: it takes a connection, or gives back the one that it took last.
pub data Use : Type 0 where
  takes gives_back : Use

-- The pool, and the connections that are out, the last taken first.
abbrev pub Lent : Type 0
Lent = List DbConnection × List DbConnection

abbrev taken : Option DbConnection × List DbConnection → List DbConnection → Lent
taken (none, pool) out = (pool, out)
taken (some c, pool) out = (pool, c ∷ out)

unfoldable pub use_pool : (DbConnection → DbConnection) → Use → Lent → Lent
use_pool released takes (pool, out) = taken (get_connection released pool) out
use_pool released gives_back (pool, []) = (pool, [])
use_pool released gives_back (pool, c ∷ out) = (free_connection c pool, out)

abbrev pub use_all : (DbConnection → DbConnection) → List Use → Lent → Lent
use_all released [] l = l
use_all released (u ∷ us) l = use_all released us (use_pool released u l)

use_pool-total :
    (released : DbConnection → DbConnection) (u : Use) (l : Lent)
    → length (use_pool released u l).0 + length (use_pool released u l).1 ≡ length l.0 + length l.1
unfolding use_pool get_connection free_connection
use_pool-total released takes ([], out) = refl
use_pool-total released takes (c ∷ pool, out) = omega arith
use_pool-total released gives_back (pool, []) = refl
use_pool-total released gives_back (pool, c ∷ out) = omega (arith, length-append pool (c ∷ []))

use_all-total :
    (released : DbConnection → DbConnection) (us : List Use) (l : Lent)
    → length (use_all released us l).0 + length (use_all released us l).1 ≡ length l.0 + length l.1
use_all-total released [] l = refl
use_all-total released (u ∷ us) l =
    use_all-total released us (use_pool released u l) ∙ use_pool-total released u l

get_connection-none :
    (released : DbConnection → DbConnection) (pool : List DbConnection)
    → ((get_connection released pool).0 ≡ none) ↔ (length pool ≡ 0)
unfolding get_connection
get_connection-none released [] = (λ _. refl, λ _. refl)
get_connection-none released (c ∷ pool) = (λ n. absurd (cc n), λ e. absurd (omega arith))

-- However connections are taken and given back, from a pool of which none are out: no more are
-- out than the pool had, and GetConnection has none to give exactly while they are all out.
use_all-bounds :
    (released : DbConnection → DbConnection) (us : List Use) (pool : List DbConnection)
    → (let l = use_all released us (pool, []) in
        (length l.1 ≤ length pool)
        × (((get_connection released l.0).0 ≡ none) ↔ (length l.1 ≡ length pool)))
use_all-bounds released us pool = (
  omega (arith, total),
  (
    λ n. omega (arith, total, (get_connection-none released _).0 n),
    λ e. (get_connection-none released _).1 (omega (arith, total)),
  ),
)
  where
    total :
        length (use_all released us (pool, [])).0 + length (use_all released us (pool, [])).1
        ≡ length pool
    total = use_all-total released us (pool, []) ∙ omega arith
