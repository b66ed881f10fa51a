-- ===== src/AuthServer/DbConnector/Starts.antt =====
-- The connections of a started server: main connects twice.
use dding_game_server.Prelude.{
  ℕ, zero, suc, ◌+◌, ◌*◌, ◌≡◌, ap, ◌∙◌, true, Bool, inl, inr, some, List, [], ◌∷◌, ◌++◌, length,
  length-append, arith, Option-cases, Bool-cases,
}
use dding_game_server.DbServer.Connections.{DbConnection, Connects, connect, pool_rounds}
use dding_game_server.AuthServer.DbConnector.{
  AuthOptions, AuthConnector, Answers, initialize_loop, initialize_pool, connect_default,
  connect_db, start_auth_server, main_start, get_db_connection_string,
}

initialize_loop-length :
    (connects : ℕ → Connects) (n i : ℕ) (pool : List DbConnection)
    → (initialize_loop connects i n pool).0 ≡ true
    → length (initialize_loop connects i n pool).1 ≡ length pool + n
unfolding initialize_loop
initialize_loop-length connects zero i pool h = omega arith
initialize_loop-length connects (suc n) i pool h = elim (Option-cases (connect (connects i))) [
  | inl closed ↦ absurd (cc (rw (closed, initialize_loop) at h))
  | inr (c, e) ↦
      rw (e, initialize_loop)
        (initialize_loop-length connects n (i + 1) (pool ++ c ∷ []) (rw (e, initialize_loop) at h)
          ∙ omega (arith, length-append pool (c ∷ [])))
]

-- What a call of ConnectDB that returns true has done.
connect_db-adds :
    (a : Answers) (options : AuthOptions) (o : AuthConnector)
    → (connect_db a (some options) o).0 ≡ true
    → ((connect_db a (some options) o).1.default_connection
        ≡ connect (a.default_connects (get_db_connection_string options)))
      × (length (connect_db a (some options) o).1.connection_list
          ≡ length o.connection_list + pool_rounds options.connection_pool_size)
      × ((c : DbConnection) × (connect (a.default_connects (get_db_connection_string options))
            ≡ some c))
unfolding connect_db connect_default initialize_pool
connect_db-adds a options o h =
    elim (Option-cases (connect (a.default_connects (get_db_connection_string options)))) [
      | inl closed ↦ absurd (ground (arith, h, closed))
      | inr (c, e) ↦ (
        ground (arith, h, e),
        ground (
          arith,
          e,
          initialize_loop-length (a.pool_connects (get_db_connection_string options))
              (pool_rounds options.connection_pool_size) 0 o.connection_list,
        ),
        (c, e),
      )
    ]

-- If the server comes up, the pool holds twice as many connections as the option file says, one of
-- them counted where it says 0 and none where it says a negative number: main connects before
-- StartAuthServer connects again. The default connection of the first call is lost, since the
-- second call's stands in its place.
pub main_start-connection_list :
    (first second : Answers) (options : AuthOptions) (lan net : Bool) (o : AuthConnector)
    → o.connection_list ≡ []
    → (main_start first second (some options) lan net o).0 ≡ true
    → (let r = main_start first second (some options) lan net o in
        (length r.1.connection_list ≡ 2 * pool_rounds options.connection_pool_size)
        × ((c : DbConnection) × (connect (first.default_connects (get_db_connection_string options))
              ≡ some c))
        × (r.1.default_connection
            ≡ connect (second.default_connects (get_db_connection_string options))))
unfolding main_start start_auth_server
main_start-connection_list first second options lan net o fresh h =
    elim (Bool-cases (connect_db first (some options) o).0) [
      | inr n ↦ absurd (cc (rw (n, main_start) at h))
      | inl y ↦
          let o' = (connect_db first (some options) o).1 in
          let (one, length_one, opened) = connect_db-adds first options o y in
          elim (Bool-cases (connect_db second (some options) o').0) [
            | inr n ↦ absurd (cc (rw (y, n, main_start, start_auth_server) at h))
            | inl y' ↦
                let (two, length_two, again) = connect_db-adds second options o' y' in
                rw (y, y', main_start, start_auth_server)
                  (omega (arith, ap length fresh, length_one, length_two), opened, two)
          ]
    ]
