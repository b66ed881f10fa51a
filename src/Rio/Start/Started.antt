-- ===== src/Rio/Start/Started.antt =====
-- The server that StartServer leaves is the one from which the transition system starts.
use dding_game_server.Prelude.{
  ℕ, zero, suc, ◌≡◌, ap, ◌∙◌, Bool, true, ◌&&◌, ◌||◌, not, none, some, List, [], ◌∷◌, ◌++◌,
  replicate, append_assoc, append-nil, ◌↔◌, arith,
}
use dding_game_server.Rio.Types.{RioLib}
use dding_game_server.Rio.Steps.{started}
use dding_game_server.Rio.Start.{
  ServerOptions, Winsock, set_socket_option, add_counts, constructed, initialize_rio,
  initialize_options, start_server,
}

add_counts_lem : (n : ℕ) (counts : List ℕ) → add_counts n counts ≡ counts ++ replicate n 0
unfolding add_counts
add_counts_lem zero counts = ground (arith, append-nil counts)
add_counts_lem (suc n) counts =
    add_counts_lem n (counts ++ 0 ∷ []) ∙ append_assoc counts (0 ∷ []) (replicate n 0)

-- Whether every call that the options ask for succeeds.
abbrev pub succeeds : Winsock → ServerOptions → Bool
succeeds w o =
    w.started_up
    && w.made_socket
    && w.bound
    && w.listens
    && (not o.nagle_on || w.set_no_delay)
    && w.set_linger
    && w.got_function_table

module _ ⦃lib : RioLib⦄ where
  -- The counts that InitializeRIO adds to none.
  initialize_rio-started :
      (w : Winsock) (o : ServerOptions)
      → (initialize_rio w o (record constructed { max_client_count = o.max_client_count })).1
        ≡ started o.num_of_worker_thread o.max_client_count
  unfolding initialize_rio
  initialize_rio-started w o =
      ap
        (λ counts. record constructed {
          max_client_count = o.max_client_count;
          num_of_session_in_worker_thread = counts;
        })
        (add_counts_lem o.num_of_worker_thread [])

  -- StartServer returns true exactly if every call of winsock that the options ask for succeeds, and
  -- exactly then it leaves the server from which the transition system starts: no session, and a
  -- count of 0 for each worker thread.
  pub start_server-started :
      (w : Winsock) (o : ServerOptions)
      → let r = start_server w (some o) constructed in
        ((r.0 ≡ none) ↔ (succeeds w o ≡ true))
        × ((r ≡ (none, started o.num_of_worker_thread o.max_client_count)) ↔ (succeeds w o ≡ true))
  unfolding start_server initialize_options initialize_rio set_socket_option
  start_server-started w o =
      let same = initialize_rio-started w o in
      (ground arith, (λ h. ground (arith, ap (λ r. r.0) h), λ h. ground (arith, same, h)))
