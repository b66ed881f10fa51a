-- ===== src/Rio/Send/Rounds.antt =====
-- What the first test of a round of SendPost decides.
use dding_game_server.Prelude.{
  ℕ, ◌≡◌, refl, Bool, true, false, ◌&&◌, none, [], ◌⊎◌, inl, inr, ap, ◌∙◌, ◌==◌,
}
use dding_game_server.Rio.Types.{
  RioLib, Server, SendItem, ok, ◌>>=◌, IoMode, io_sending, io_none_sending, success,
}
use dding_game_server.Rio.Send.{
  make_send_stream, take_reserved, stream_loop, set_io_mode, returns, post_stream, send_round,
  send_round_in,
}

pub IoMode-cases : (m : IoMode) → (m ≡ io_sending) ⊎ (m ≡ io_none_sending)
IoMode-cases io_sending = inl refl
IoMode-cases io_none_sending = inr refl

and_false : (b : Bool) → (b && false) ≡ false
and_false true = refl
and_false false = refl

module _ ⦃lib : RioLib⦄ where
  -- With nothing reserved the stream starts empty.
  pub make_send_stream-none :
      (item : SendItem) (n : ℕ)
      → item.reserved_buffer ≡ none
      → lib.rest_size item.send_queue ≡ n
      → make_send_stream item ≡ stream_loop n (record { size = 0; item = item; written = [] })
  unfolding make_send_stream take_reserved
  make_send_stream-none item n e count = simp (e, count, take_reserved)

  pub send_round_busy :
      (sent : Bool) (a : ℕ) (sv : Server)
      → (sv.heap a).send_item.io_mode ≡ io_sending
      → send_round sent a sv ≡ ok (returns success sv)
  unfolding send_round send_round_in
  send_round_busy sent a sv e = ap (λ m. send_round_in m sent a sv) e

  -- The test for an empty queue never ends the round: its second half is false.
  pub send_round_idle :
      (sent : Bool) (a : ℕ) (sv : Server)
      → (sv.heap a).send_item.io_mode ≡ io_none_sending
      → send_round sent a sv ≡ (
          make_send_stream ((set_io_mode a io_sending sv).heap a).send_item >>= λ st.
          ok (post_stream sent a st (set_io_mode a io_sending sv)))
  unfolding send_round send_round_in
  send_round_idle sent a sv e =
      ap (λ m. send_round_in m sent a sv) e
      ∙ rw (and_false (lib.rest_size (sv.heap a).send_item.send_queue == 0))
