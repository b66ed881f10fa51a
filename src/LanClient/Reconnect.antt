-- ===== src/LanClient/Reconnect.antt =====
-- CMultiLanClient::Reconnecter, for the session whose id is the first of the list. The answers of
-- the system are parameters.
pub mod Rounds
use dding_game_server.Prelude.{
  ◌≡◌, refl, ◌∙◌, Bool, true, false, Option, none, some, List, [], ◌∷◌, drop, if◌then◌else◌, inl,
  inr, Bool-cases, arith, ◌≢◌,
}
use dding_game_server.Prelude.Word.{inc32}
use dding_game_server.LanClient.Post.{
  LanLib, Channel, Event, PostRetval, on_error, closes_socket, opens_socket, on_connection_complete,
  complete, post_err, recv_post, send_packet, send_post, post_batch, dequeue_all, batch_size,
  wsa_send, release_session, give_up, post_failed,
}

-- What an attempt to connect meets: it fails, the socket is connected already, with whether the next
-- socket can be made, or it succeeds.
pub data Attempt : Type 0 where
  fails connects : Attempt
  is_connected : Bool → Attempt

module _ ⦃lib : LanLib⦄ where
  abbrev pub tell : Event → Channel → Channel
  tell e c = record c { events = e ∷ c.events }

  -- The inner loop, over the attempts that are made before the client is stopped, if none succeeds.
  -- `none` where the thread ends.
  unfoldable pub connect_loop : List Attempt → Channel → Option Channel
  connect_loop [] c = none
  connect_loop (connects ∷ more) c = some c
  connect_loop (fails ∷ more) c = connect_loop more c
  connect_loop (is_connected made ∷ more) c =
      let retried = connect_loop more (tell opens_socket (tell closes_socket c)) in
      if made then retried else none

  -- Behind the inner loop. The result of RecvPost is not looked at.
  unfoldable pub restart : Bool → Bool → Option Channel → Option Channel
  restart option_set received none = none
  restart option_set received (some c) =
      let r = (recv_post received (record c { is_connect = true })).1 in
      if option_set
      then some (record (tell on_connection_complete r) {
        session_reconnect_id_list = drop 1 r.session_reconnect_id_list;
      })
      else none

  -- One round of the outer loop with an id in the list.
  unfoldable pub reconnect :
      (made option_set received : Bool) → List Attempt → Channel → Option Channel
  reconnect made option_set received attempts c =
      let restarted = restart option_set received (connect_loop attempts (tell opens_socket c)) in
      if made then restarted else none

  -- What reconnecting does not touch.
  abbrev Kept : Channel → Channel → Type 0
  Kept c c' = (c'.sending ≡ c.sending) × (c'.ring ≡ c.ring)

  give_up-Kept : (kept : PostRetval) (c : Channel) → Kept c (give_up kept c).1
  unfolding give_up release_session
  give_up-Kept kept c = ground arith

  post_failed-Kept : (c : Channel) → Kept c (post_failed c).1
  unfolding post_failed release_session
  post_failed-Kept c = ground arith

  recv_post-Kept : (received : Bool) (c : Channel) → Kept c (recv_post received c).1
  unfolding recv_post
  recv_post-Kept received c = elim (Bool-cases (lib.is_full c.ring)) [
    | inl full ↦ rw (full, recv_post) (give_up-Kept post_err c)
    | inr room ↦ elim (Bool-cases received) [
      | inl y ↦ rw (room, y, recv_post) (refl, refl)
      | inr n ↦
          rw (room, n, recv_post) (post_failed-Kept (record c { io_count = inc32 c.io_count }))
    ]
  ]

  connect_loop-Kept :
      (attempts : List Attempt) (c c' : Channel) → connect_loop attempts c ≡ some c' → Kept c c'
  unfolding connect_loop
  connect_loop-Kept [] c c' e = absurd (cc e)
  connect_loop-Kept (connects ∷ more) c c' e = ground (arith, e)
  connect_loop-Kept (fails ∷ more) c c' e = connect_loop-Kept more c c' e
  connect_loop-Kept (is_connected true ∷ more) c c' e =
      connect_loop-Kept more (tell opens_socket (tell closes_socket c)) c' e
  connect_loop-Kept (is_connected false ∷ more) c c' e = absurd (cc e)

  restart-Kept :
      (option_set received : Bool) (c c' : Channel)
      → restart option_set received (some c) ≡ some c'
      → Kept c c'
  unfolding restart
  restart-Kept true received c c' e =
      let k = recv_post-Kept received (record c { is_connect = true }) in ground (arith, e, k)
  restart-Kept false received c c' e = absurd (cc e)

  reconnect-Kept :
      (made option_set received : Bool) (attempts : List Attempt) (c c' : Channel)
      → reconnect made option_set received attempts c ≡ some c'
      → Kept c c'
  unfolding reconnect restart
  reconnect-Kept false option_set received attempts c c' e = absurd (cc e)
  reconnect-Kept true option_set received attempts c c' e =
      restarted (connect_loop attempts (tell opens_socket c))
        (connect_loop-Kept attempts (tell opens_socket c)) e
    where
      restarted :
          (o : Option Channel)
          → ((d : Channel) → o ≡ some d → Kept c d)
          → restart option_set received o ≡ some c'
          → Kept c c'
      restarted none k h = absurd (cc h)
      restarted (some d) k h =
          let one = restart-Kept option_set received d c' h in
          let before = k d refl in (one.0 ∙ before.0, one.1 ∙ before.1)

  -- A send that fails leaves IOMode at SENDING.
  send_post-sending :
      (c c' : Channel) (r : PostRetval)
      → lib.rest_size c.send_q ≢ 0
      → c.sending ≡ false
      → send_post false c ≡ some (r, c')
      → c'.sending ≡ true
  unfolding send_post post_batch wsa_send
  send_post-sending c c' r some_there idle e =
      batched (dequeue_all (batch_size c.send_q) c.send_q) (ground (arith, e))
    where
      batched :
          (o : Option (List lib.Buffer × lib.Queue))
          → post_batch false o c ≡ some (r, c')
          → c'.sending ≡ true
      batched none h = absurd (cc h)
      batched (some (bs, q)) h =
          let c0 : Channel = record c {
            sending = true;
            store = bs;
            send_q = q;
            io_count = inc32 c.io_count;
            events = on_error ∷ c.events;
          } in
          let k = give_up-Kept post_err c0 in ground (arith, h, k)

  -- A channel whose send has failed once does not send again, even if the session is reconnected: a
  -- packet is queued and nothing more. And the bytes that were received before are still in front of
  -- those that the new connection brings.
  pub reconnect-wedge :
      (c c1 c2 : Channel) (r : PostRetval) (made option_set received sent : Bool)
      (attempts : List Attempt) (b : lib.Buffer)
      → lib.rest_size c.send_q ≢ 0
      → c.sending ≡ false
      → send_post false c ≡ some (r, c1)
      → reconnect made option_set received attempts c1 ≡ some c2
      → (send_packet sent b c2
          ≡ some (complete, record c2 { send_q = lib.enqueue (lib.seal b) c2.send_q }))
        × (c2.ring ≡ c1.ring)
  unfolding send_packet send_post
  reconnect-wedge c c1 c2 r made option_set received sent attempts b some_there idle failed back =
      let kept = reconnect-Kept made option_set received attempts c1 c2 back in
      let still : c2.sending ≡ true = kept.0 ∙ send_post-sending c c1 r some_there idle failed in
      (rw (still, send_packet, send_post) refl, kept.1)
