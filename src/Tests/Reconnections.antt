-- ===== src/Tests/Reconnections.antt =====
-- CMultiLanClient::Reconnecter with three sessions, two of which were released.
use dding_game_server.Prelude.{ℕ, ◌≡◌, refl, true, false, [], ◌∷◌, map, arith}
use dding_game_server.LanClient.Post.{Channel}
use dding_game_server.LanClient.Reconnect.{fails, connects, is_connected}
use dding_game_server.LanClient.Reconnect.Rounds.{
  Round, Client, IsGood, goes_on, reconnecter, comes_through, with_connected, reconnecter-connected,
}
use dding_game_server.Tests.Servers.{lan, open_channel}

abbrev released : ℕ → Channel ⦃lib = lan⦄
released id = record open_channel { is_connect = false; io_count = 0; session_id = id }

abbrev three_sessions : Client ⦃lib = lan⦄
three_sessions = record {
  session_list = open_channel ∷ released 1 ∷ released 2 ∷ [];
  session_reconnect_id_list = 2 ∷ 1 ∷ [];
}

-- The second try meets a socket that is connected already.
abbrev good_round : Round
good_round = record {
  stop_client = false;
  made = true;
  attempts = fails ∷ is_connected true ∷ connects ∷ [];
  option_set = true;
  received = true;
}

good_round-IsGood : IsGood good_round
unfolding comes_through
good_round-IsGood = (refl, refl, refl, refl, refl)

reconnecter_example :
    (c : Client ⦃lib = lan⦄) × (reconnecter ⦃lib = lan⦄
        (good_round ∷ good_round ∷ good_round ∷ [])
        three_sessions
      ≡ goes_on c)
    × (c.session_reconnect_id_list ≡ [])
    × (map (λ s. s.is_connect) c.session_list
        ≡ with_connected (2 ∷ 1 ∷ []) (true ∷ false ∷ false ∷ []))
    × (map (λ s. s.ring) c.session_list ≡ [] ∷ [] ∷ [] ∷ [])
    × (map (λ s. s.sending) c.session_list ≡ false ∷ false ∷ false ∷ [])
reconnecter_example =
    reconnecter-connected ⦃lib = lan⦄ (good_round ∷ good_round ∷ good_round ∷ []) three_sessions
      (omega arith) (good_round-IsGood, (good_round-IsGood, (good_round-IsGood, tt)))
      (omega arith, (omega arith, tt)) (refl, (refl, (refl, tt)))
