-- ===== src/LanClient/Order/Batches.antt =====
-- CMultiLanClient::SendPost moves buffers from the front of the queue to the wire.
use dding_game_server.Prelude.{
  Bool, ℕ, zero, suc, ◌+◌, ◌^◌, ◌≤◌, ◌<◌, ◌≡◌, refl, sym, ap, ◌∙◌, true, false, inl, inr, Option,
  none, some, List, [], ◌∷◌, ◌++◌, length, take, drop, ◌==◌, if◌then◌else◌, arith, Bool-cases,
  append_assoc, take-append-drop,
}
use dding_game_server.Prelude.Word.{inc32}
use dding_game_server.LanClient.Post.{
  LanLib, Channel, Event, sends, PostRetval, complete, send_post, post_batch, wsa_send, dequeue_all,
  batch_size,
}

module _ ⦃lib : LanLib⦄ where
  dequeue_all-contents :
      (n : ℕ) (bs : List lib.Buffer) (q : lib.Queue)
      → lib.contents q ≡ bs
      → n ≤ length bs
      → (q' : lib.Queue) × (dequeue_all n q ≡ some (take n bs, q')) × (lib.contents q' ≡ drop n bs)
  unfolding dequeue_all
  dequeue_all-contents zero bs q e h = (q, refl, e)
  dequeue_all-contents (suc n) [] q e h = absurd (omega arith)
  dequeue_all-contents (suc n) (b ∷ bs) q e h =
      let (q1, deq, rest) = lib.dequeue-cons q b bs e in
      let (q2, run, left) = dequeue_all-contents n bs q1 rest (omega arith) in
      (q2, rw (deq, run, dequeue_all) refl, left)

  -- The buffers that were handed to WSASend, the first first.
  abbrev pub sent_all : List Event → List lib.Buffer
  sent_all [] = []
  sent_all (sends bs ∷ es) = sent_all es ++ bs
  sent_all (_ ∷ es) = sent_all es

  -- What was handed to WSASend, and then what the queue holds.
  abbrev pub in_order : Channel → List lib.Buffer
  in_order c = sent_all c.events ++ lib.contents c.send_q

  batch_size-bound :
      (q : lib.Queue) → (batch_size q ≤ 200) × (batch_size q ≤ length (lib.contents q))
  unfolding batch_size
  batch_size-bound q = ground (arith, lib.rest_size-contents q)

  -- The count that a send under way holds.
  abbrev pub busy : Channel → ℕ
  busy c = if c.sending then 1 else 0

  no_length : (bs : List lib.Buffer) → length bs ≡ 0 → bs ≡ []
  no_length [] e = refl
  no_length (b ∷ bs) e = absurd (omega (arith, e))

  pub small :
      (receiving sending : Bool) (n : ℕ)
      → n ≡ (if receiving then 1 else 0) + (if sending then 1 else 0)
      → n + 1 < 2 ^ 32
  small receiving sending n e = ground (arith, e)

  -- A SendPost whose sends are taken moves buffers from the front of the queue to the wire.
  pub send_post-order :
      (c : Channel)
      → c.io_count + 1 < 2 ^ 32
      → (c' : Channel) × (send_post true c ≡ some (complete, c'))
        × (in_order c' ≡ in_order c)
        × (c'.io_count + busy c ≡ c.io_count + busy c')
        × (c'.sending ≡ false → lib.contents c'.send_q ≡ [])
        × (c.sending ≡ true → c'.sending ≡ true)
        × (c'.is_connect ≡ c.is_connect)
  unfolding send_post post_batch wsa_send
  send_post-order c small = elim (Bool-cases c.sending) [
    | inl y ↦ (c, simp (y, send_post), refl, refl, λ n. absurd (cc (sym y ∙ n)), λ b. b, refl)
    | inr n ↦ elim (Bool-cases (lib.rest_size c.send_q == 0)) [
      | inl z ↦ (
        c,
        simp (n, z, send_post),
        refl,
        refl,
        λ idle.
            no_length (lib.contents c.send_q) (ground (arith, z, lib.rest_size-contents c.send_q)),
        λ b. absurd (cc (sym n ∙ b)),
        refl,
      )
      | inr z ↦
          let bs = lib.contents c.send_q in
          let k = batch_size c.send_q in
          let (q, run, left) =
            dequeue_all-contents k bs c.send_q refl (batch_size-bound c.send_q).1 in
          (
            record c {
              sending = true;
              store = take k bs;
              send_q = q;
              io_count = inc32 c.io_count;
              events = sends (take k bs) ∷ c.events;
            },
            simp (n, z, run, send_post, post_batch, wsa_send),
            ap (λ xs. sent_all c.events ++ take k bs ++ xs) left
                ∙ append_assoc (sent_all c.events) (take k bs) (drop k bs)
                ∙ ap (λ xs. sent_all c.events ++ xs) (take-append-drop k bs),
            rw n (omega arith),
            λ idle. absurd (cc idle),
            λ b. refl,
            refl,
          )
    ]
  ]

  pub posted_same :
      (c c' : Channel) (r r' : PostRetval) (o : Option (PostRetval × Channel))
      → o ≡ some (r, c)
      → o ≡ some (r', c')
      → c ≡ c'
  posted_same c c' r r' o e e' = ap (λ x. elim x [ none ↦ c | some p ↦ p.1 ]) (sym e ∙ e')

  pub served_same : (c c' : Channel) (o : Option Channel) → o ≡ some c → o ≡ some c' → c ≡ c'
  served_same c c' o e e' = ap (λ x. elim x [ none ↦ c | some p ↦ p ]) (sym e ∙ e')
