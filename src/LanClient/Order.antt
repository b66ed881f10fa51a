-- ===== src/LanClient/Order.antt =====
-- The buffers of a channel go out once, in the order in which they were queued.
pub mod Batches
use dding_game_server.Prelude.{
  Bool, ◌⊎◌, append-nil, ℕ, zero, suc, ◌+◌, ◌^◌, ◌≤◌, ◌<◌, ◌≡◌, refl, sym, ap, subst, ◌∙◌, true,
  false, inl, inr, Option, none, some, List, [], ◌∷◌, ◌++◌, length, take, drop, ◌==◌, if◌then◌else◌,
  arith, Bool-cases, append_assoc, take-append-drop,
}
use dding_game_server.Prelude.Word.{inc32, dec32}
use dding_game_server.LanClient.Post.{
  LanLib, Channel, Event, on_send, frees, sends, PostRetval, complete, send_post, send_packet,
  send_completed, post_batch, wsa_send, dequeue_all, batch_size, finish, give_up, recv_post,
  post_err, err_session_deleted, on_recv, release_session,
}
use dding_game_server.LanClient.Receive.{Received, on_recv_all, receive_again, recv_completed}
use dding_game_server.LanClient.Order.Batches.{
  sent_all, in_order, busy, small, send_post-order, posted_same, served_same,
}

module _ ⦃lib : LanLib⦄ where
  -- What the receive holds of the count.
  abbrev pub held : Bool → ℕ
  held receiving = if receiving then 1 else 0

  -- What holds at every moment: `receiving` is whether the other side is still open.
  record Ordered (receiving : Bool) (bs : List lib.Buffer) (c : Channel) : Type 0 where
    order : in_order c ≡ bs
    count : c.io_count ≡ held receiving + busy c
    flushed : c.sending ≡ false → lib.contents c.send_q ≡ []
    alive : receiving ≡ false → c.is_connect ≡ true → c.sending ≡ true

  -- One count less; the session is released with the last one.
  abbrev dropped : Channel → Channel
  dropped c =
      if dec32 c.io_count == 0
      then release_session (record c { io_count = dec32 c.io_count })
      else record c { io_count = dec32 c.io_count }

  dropped-Ordered :
      (receiving : Bool) (bs : List lib.Buffer) (c : Channel)
      → in_order c ≡ bs
      → c.io_count ≡ 1 + (held receiving + busy c)
      → (c.sending ≡ false → lib.contents c.send_q ≡ [])
      → Ordered receiving bs (dropped c)
  unfolding release_session
  dropped-Ordered true bs c order count flushed =
      let left : dec32 c.io_count ≡ 1 + busy c = ground (arith, count) in
      let more : (dec32 c.io_count == 0) ≡ false = ground (arith, left) in
      rw more
        (record { order = order; count = left; flushed = flushed; alive = λ r. absurd (cc r) })
  dropped-Ordered false bs c order count flushed = elim (Bool-cases c.sending) [
    | inl y ↦
        let left : dec32 c.io_count ≡ 0 + busy c = ground (arith, count, y) in
        let more : (dec32 c.io_count == 0) ≡ false = ground (arith, left, y) in
        rw more (record { order = order; count = left; flushed = flushed; alive = λ r a. y })
    | inr n ↦
        let last : dec32 c.io_count ≡ 0 = ground (arith, count, n) in
        let over : (dec32 c.io_count == 0) ≡ true = ground (arith, last) in
        rw over (record {
          order =
              ap (λ xs. sent_all c.events ++ xs) (lib.contents-empty_queue ∙ sym (flushed n))
              ∙ order;
          count = rw (last, n) (omega arith);
          flushed = λ idle. lib.contents-empty_queue;
          alive = λ r a. absurd (cc a);
        })
  ]

  send_packet-Ordered :
      (receiving : Bool) (b : lib.Buffer) (bs : List lib.Buffer) (c : Channel)
      → Ordered receiving bs c
      → c.is_connect ≡ true
      → (c' : Channel) × (send_packet true b c ≡ some (complete, c'))
        × Ordered receiving (bs ++ lib.seal b ∷ []) c'
  unfolding send_packet
  send_packet-Ordered receiving b bs c o open_still =
      let queued = record c { send_q = lib.enqueue (lib.seal b) c.send_q } in
      let (c', run, order, count, flushed, stays, connect) =
        send_post-order queued (small receiving c.sending c.io_count o.count) in
      (
        c',
        run,
        record {
          order =
              order
              ∙ ap (λ xs. sent_all c.events ++ xs) (lib.contents-enqueue (lib.seal b) c.send_q)
              ∙ sym (append_assoc (sent_all c.events) (lib.contents c.send_q) (lib.seal b ∷ []))
              ∙ ap (λ xs. xs ++ lib.seal b ∷ []) o.order;
          count = omega (arith, count, o.count);
          flushed = flushed;
          alive = λ r a. stays (o.alive r open_still);
        },
      )

  finish-dropped : (c : Channel) → finish (complete, c) ≡ dropped c
  unfolding finish give_up
  finish-dropped c = elim (Bool-cases (dec32 c.io_count == 0)) [
    | inl z ↦ rw (z, finish, give_up) refl
    | inr z ↦ rw (z, finish, give_up) refl
  ]

  send_completed-Ordered :
      (receiving : Bool) (bs : List lib.Buffer) (c : Channel)
      → Ordered receiving bs c
      → c.sending ≡ true
      → (c' : Channel) × (send_completed true c ≡ some c') × Ordered receiving bs c'
  unfolding send_completed
  send_completed-Ordered receiving bs c o e =
      let idle = record c {
        store = [];
        sending = false;
        events = on_send ∷ frees c.store ∷ c.events;
      } in
      let (c', run, order, count, flushed, stays, connect) =
        send_post-order idle (small receiving c.sending c.io_count o.count) in
      (
        finish (complete, c'),
        rw (run, send_completed) refl,
        subst (Ordered receiving bs) (sym (finish-dropped c')) (
            dropped-Ordered receiving bs c' (order ∙ o.order) (ground (arith, count, o.count, e))
              flushed),
      )

  sent_all-on_recv_all :
      (payloads : List (List ℕ)) (es : List Event)
      → sent_all (on_recv_all payloads es) ≡ sent_all es
  sent_all-on_recv_all [] es = refl
  sent_all-on_recv_all (p ∷ ps) es = sent_all-on_recv_all ps (on_recv p ∷ es)

  finish-ring : (r : PostRetval × Channel) → (finish r).ring ≡ r.1.ring
  unfolding finish give_up release_session
  finish-ring (err_session_deleted, c) = refl
  finish-ring (post_err, c) = ground arith
  finish-ring (complete, c) = ground arith

  give_up-ring : (c : Channel) → (give_up post_err c).1.ring ≡ c.ring
  unfolding give_up release_session
  give_up-ring c = ground arith

  receive_again-Ordered :
      (r : Received) (bs : List lib.Buffer) (c c' : Channel)
      → Ordered true bs c
      → receive_again true r c ≡ some c'
      → lib.is_full c'.ring ≡ false
      → Ordered true bs c'
  unfolding receive_again recv_post
  receive_again-Ordered none bs c c' o run room = absurd (cc run)
  receive_again-Ordered (some (ring, payloads)) bs c c' o run room =
      let c0 = record c { ring = ring; events = on_recv_all payloads c.events } in
      let ends : finish (recv_post true c0) ≡ c' = served_same _ c' _ refl run in
      elim (Bool-cases (lib.is_full ring)) [
        | inl full ↦
            let given : recv_post true c0 ≡ give_up post_err c0 = rw (full, recv_post) refl in
            let same : c'.ring ≡ ring =
              ap (λ k. k.ring) (sym ends)
              ∙ finish-ring (recv_post true c0)
              ∙ ap (λ (k : PostRetval × Channel). k.1.ring) given
              ∙ give_up-ring c0 in
            absurd (cc (sym full ∙ sym (ap lib.is_full same) ∙ room))
        | inr free ↦
            let posted : recv_post true c0 ≡ (complete, record c0 { io_count = inc32 c.io_count }) =
              rw (free, recv_post) refl in
            subst (Ordered true bs)
              (sym (finish-dropped (record c0 { io_count = inc32 c.io_count }))
                ∙ ap finish (sym posted)
                ∙ ends)
              (dropped-Ordered true bs (record c0 { io_count = inc32 c.io_count })
                (ap (λ xs. xs ++ lib.contents c.send_q) (sent_all-on_recv_all payloads c.events)
                  ∙ o.order)
                (ground (arith, o.count)) o.flushed)
      ]

  recv_completed-Ordered :
      (bytes : List ℕ) (bs : List lib.Buffer) (c c' : Channel)
      → 1 ≤ length bytes
      → Ordered true bs c
      → recv_completed true bytes c ≡ some c'
      → lib.is_full c'.ring ≡ false
      → Ordered true bs c'
  unfolding recv_completed
  recv_completed-Ordered bytes bs c c' filled o run room =
      let some_bytes : (length bytes == 0) ≡ false = ground arith in
      receive_again-Ordered _ bs c c' o (rw some_bytes at run) room

  closed-Ordered :
      (received : Bool) (bs : List lib.Buffer) (c : Channel)
      → Ordered true bs c
      → (c' : Channel) × (recv_completed received [] c ≡ some c') × Ordered false bs c'
  unfolding recv_completed
  closed-Ordered received bs c o =
      (dropped c, refl, dropped-Ordered false bs c o.order (ground (arith, o.count)) o.flushed)

  -- The life of a channel from its opening: what was queued, and the calls of Worker for its sends and
  -- receives, until the other side closes, and behind that for the sends that are still under way.
  pub data Flow : Bool → Channel → List lib.Buffer → Type 0 where
    opens : (c : Channel) → c.io_count ≡ 1 → c.sending ≡ false → in_order c ≡ [] → Flow true c []
    queues :
        (receiving : Bool) (b : lib.Buffer) (bs : List lib.Buffer) (r : PostRetval) (c c' : Channel)
        → Flow receiving c bs
        → c.is_connect ≡ true
        → send_packet true b c ≡ some (r, c')
        → Flow receiving c' (bs ++ lib.seal b ∷ [])
    completes :
        (receiving : Bool) (bs : List lib.Buffer) (c c' : Channel)
        → Flow receiving c bs
        → c.sending ≡ true
        → send_completed true c ≡ some c'
        → Flow receiving c' bs
    -- WSARecv takes the next receive
    receives :
        (bytes : List ℕ) (bs : List lib.Buffer) (c c' : Channel)
        → Flow true c bs
        → 1 ≤ length bytes
        → recv_completed true bytes c ≡ some c'
        → lib.is_full c'.ring ≡ false
        → Flow true c' bs
    closes :
        (received : Bool) (bs : List lib.Buffer) (c c' : Channel)
        → Flow true c bs
        → recv_completed received [] c ≡ some c'
        → Flow false c' bs

  append-nothing : (xs ys : List lib.Buffer) → xs ++ ys ≡ [] → ys ≡ []
  append-nothing [] ys e = e
  append-nothing (x ∷ xs) ys e = absurd (cc e)

  Flow-Ordered :
      (receiving : Bool) (c : Channel) (bs : List lib.Buffer)
      → Flow receiving c bs
      → Ordered receiving bs c
  Flow-Ordered _ c _ (opens _ one idle empty) = record {
    order = empty;
    count = rw idle one;
    flushed = λ n. append-nothing (sent_all c.events) (lib.contents c.send_q) empty;
    alive = λ r. absurd (cc r);
  }
  Flow-Ordered _ c' _ (queues receiving b bs r c _ before open_still run) =
      let (c1, run1, o) =
        send_packet-Ordered receiving b bs c (Flow-Ordered receiving c bs before) open_still in
      subst (Ordered receiving (bs ++ lib.seal b ∷ [])) (posted_same c1 c' complete r _ run1 run) o
  Flow-Ordered _ c' bs (completes receiving _ c _ before e run) =
      let (c1, run1, o) =
        send_completed-Ordered receiving bs c (Flow-Ordered receiving c bs before) e in
      subst (Ordered receiving bs) (served_same c1 c' _ run1 run) o
  Flow-Ordered _ c' bs (receives bytes _ c _ before filled run room) =
      recv_completed-Ordered bytes bs c c' filled (Flow-Ordered true c bs before) run room
  Flow-Ordered _ c' bs (closes received _ c _ before run) =
      let (c1, run1, o) = closed-Ordered received bs c (Flow-Ordered true c bs before) in
      subst (Ordered false bs) (served_same c1 c' _ run1 run) o

  -- While WSASend and WSARecv take what they are given and no receive fills the ring, whatever is
  -- queued on a connected channel, sent and received, and also where the other side closes the
  -- connection, with a send under way or without one: the buffers of the channel go out once each and
  -- in the order in which they were queued. What was handed to WSASend, followed by what is still in
  -- the queue, is what was queued, and without a send under way all of it was handed over. The
  -- session's count is 1 for its receive until the other side has closed, and 1 more exactly while a
  -- send is under way.
  pub Flow-order :
      (receiving : Bool) (c : Channel) (bs : List lib.Buffer)
      → Flow receiving c bs
      → (sent_all c.events ++ lib.contents c.send_q ≡ bs)
        × ((c.sending ≡ true) ⊎ (sent_all c.events ≡ bs))
        × (c.io_count ≡ (if receiving then 1 else 0) + (if c.sending then 1 else 0))
  Flow-order receiving c bs flow =
      let o = Flow-Ordered receiving c bs flow in
      (
        o.order,
        elim (Bool-cases c.sending) [
          | inl y ↦ inl y
          | inr n ↦ inr (
              sym (append-nil (sent_all c.events))
              ∙ ap (λ xs. sent_all c.events ++ xs) (sym (o.flushed n))
              ∙ o.order)
        ],
        o.count,
      )
