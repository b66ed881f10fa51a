-- ===== src/Rio/Broadcast/Queues.antt =====
-- What a broadcast puts into the queues of sessions that are sending.
use dding_game_server.Prelude.{
  ℕ, ◌≡◌, ◌≢◌, refl, sym, ap, ◌∙◌, Bool, true, false, ◌&&◌, ◌||◌, not, some, List, [], ◌∷◌, ◌==◌,
  if◌then◌else◌, arith, inl, inr, Option-cases, Bool-cases,
}
use dding_game_server.Prelude.Map
use dding_game_server.Prelude.SortedSet
use dding_game_server.Rio.Types.{RioLib, Server, SendItem, ok, ◌>>=◌, io_sending}
use dding_game_server.Rio.Release.{get_session}
use dding_game_server.Rio.Send.{enqueue_packet}
use dding_game_server.Rio.Send.Wedge.{send_packet-busy}
use dding_game_server.Rio.Steps.{Reachable}
use dding_game_server.Rio.Counting.Reachable.{io_count_lem}
use dding_game_server.Rio.Broadcast.{send_to, send_to_each, braodcast_to_all_session}

module _ ⦃lib : RioLib⦄ (p : lib.Packet) where
  -- The item with the packet queued behind what was there, if it is queued.
  abbrev pub queued_if : Bool → SendItem → SendItem
  queued_if b item =
      if b
      then record item {
        send_queue = lib.enqueue (if lib.is_encoded p then p else lib.encode p) item.send_queue;
      }
      else item

  -- Every session of the map has its own id, and is in the middle of a send.
  abbrev Busy : Server → Type 0
  Busy sv =
      (id a : ℕ)
      → get_session id sv ≡ some a
      → ((sv.heap a).session_id ≡ id) × ((sv.heap a).send_item.io_mode ≡ io_sending)

  -- From `sv` to `sv'` the sessions of the map that are in the list have got the packet, and nothing
  -- else has changed in them.
  record Got (ids : List ℕ) (sv sv' : Server) : Type 0 where
    same_map : sv'.session_map ≡ sv.session_map
    same_posted : sv'.posted ≡ sv.posted
    same_id : (a : ℕ) → (sv'.heap a).session_id ≡ (sv.heap a).session_id
    same_released : (a : ℕ) → (sv'.heap a).is_released_session ≡ (sv.heap a).is_released_session
    items :
        (id a : ℕ)
        → get_session id sv ≡ some a
        → (sv'.heap a).send_item
          ≡ queued_if
              (SortedSet.contains id ids && not (sv.heap a).is_released_session)
              (sv.heap a).send_item

  Got-none : (sv : Server) → Got [] sv sv
  unfolding SortedSet.contains
  Got-none sv = record {
    same_map = refl;
    same_posted = refl;
    same_id = λ a. refl;
    same_released = λ a. refl;
    items = λ id a h. refl;
  }

  queued_if-mode : (b : Bool) (item : SendItem) → (queued_if b item).io_mode ≡ item.io_mode
  queued_if-mode true item = refl
  queued_if-mode false item = refl

  Busy-Got : (ids : List ℕ) (sv sv' : Server) → Got ids sv sv' → Busy sv → Busy sv'
  unfolding get_session
  Busy-Got ids sv sv' g busy id a h =
      let h' : get_session id sv ≡ some a = ap (Map.find id) (sym g.same_map) ∙ h in
      (
        g.same_id a ∙ (busy id a h').0,
        ap (λ item. item.io_mode) (g.items id a h') ∙ queued_if-mode _ _ ∙ (busy id a h').1,
      )

  queued_if-twice :
      (b c r : Bool) (item : SendItem)
      → (b ≡ true → c ≡ false)
      → queued_if (c && not r) (queued_if ((b || false) && not r) item)
        ≡ queued_if ((b || c) && not r) item
  queued_if-twice true true r item h = absurd (ground (arith, h refl))
  queued_if-twice true false r item h = refl
  queued_if-twice false c r item h = refl

  Got-first :
      (id : ℕ) (ids : List ℕ) (sv sv1 sv2 : Server)
      → SortedSet.contains id ids ≡ false
      → Got (id ∷ []) sv sv1
      → Got ids sv1 sv2
      → Got (id ∷ ids) sv sv2
  unfolding get_session SortedSet.contains
  Got-first id ids sv sv1 sv2 new g k = record {
    same_map = k.same_map ∙ g.same_map;
    same_posted = k.same_posted ∙ g.same_posted;
    same_id = λ a. k.same_id a ∙ g.same_id a;
    same_released = λ a. k.same_released a ∙ g.same_released a;
    items = λ me a h.
        let h1 : get_session me sv1 ≡ some a = ap (Map.find me) g.same_map ∙ h in
        k.items me a h1
        ∙ ap (λ r. queued_if (SortedSet.contains me ids && not r) (sv1.heap a).send_item)
            (g.same_released a)
        ∙ ap (queued_if (SortedSet.contains me ids && not (sv.heap a).is_released_session))
            (g.items me a h)
        ∙ queued_if-twice (me == id) (SortedSet.contains me ids) (sv.heap a).is_released_session
            (sv.heap a).send_item
            (λ e. ap (λ i. SortedSet.contains i ids) (ground (arith, e)) ∙ new);
  }

  queued_if-skipped :
      (b r : Bool) (item : SendItem)
      → (b ≡ true → r ≡ true)
      → item ≡ queued_if ((b || false) && not r) item
  queued_if-skipped true true item h = refl
  queued_if-skipped true false item h = absurd (ground (arith, h refl))
  queued_if-skipped false r item h = refl

  -- Nothing is sent to an id that no session has, or a released one.
  Got-skipped :
      (id : ℕ) (sv : Server)
      → ((a : ℕ) → get_session id sv ≡ some a → (sv.heap a).is_released_session ≡ true)
      → Got (id ∷ []) sv sv
  unfolding SortedSet.contains
  Got-skipped id sv skipped = record {
    same_map = refl;
    same_posted = refl;
    same_id = λ a. refl;
    same_released = λ a. refl;
    items = λ me a h.
        queued_if-skipped (me == id) (sv.heap a).is_released_session (sv.heap a).send_item
          (λ e. skipped a (ap (λ i. get_session i sv) (ground (arith, e)) ∙ h));
  }

  queued_here :
      (a : ℕ) (sv : Server)
      → ((enqueue_packet p a sv).heap a).send_item ≡ queued_if true (sv.heap a).send_item
  unfolding enqueue_packet
  queued_here a sv = ground arith

  queued_elsewhere :
      (a b : ℕ) (sv : Server)
      → b ≢ a
      → ((enqueue_packet p a sv).heap b).send_item ≡ (sv.heap b).send_item
  unfolding enqueue_packet
  queued_elsewhere a b sv other = ground arith

  put :
      (id a : ℕ) (sv : Server)
      → Busy sv
      → get_session id sv ≡ some a
      → (sv.heap a).is_released_session ≡ false
      → (me b : ℕ) → get_session me sv ≡ some b
      → ((enqueue_packet p a sv).heap b).send_item
        ≡ queued_if
            ((me == id || false) && not (sv.heap b).is_released_session)
            (sv.heap b).send_item
  put id a sv busy h live me b h' = elim (Bool-cases (me == id)) [
    | inl y ↦
        let em : me ≡ id = ground (arith, y) in
        let found : get_session me sv ≡ some a = ap (λ i. get_session i sv) em ∙ h in
        let eb : b ≡ a = ground (arith, found, h') in rw (y, eb, live) (queued_here a sv)
    | inr n ↦
        let different : b ≢ a = λ e. ground (arith, n, e, (busy id a h).0, (busy me b h').0) in
        rw n (queued_elsewhere a b sv different)
  ]

  Got-queued :
      (id a : ℕ) (sv : Server)
      → Busy sv
      → get_session id sv ≡ some a
      → (sv.heap a).is_released_session ≡ false
      → Got (id ∷ []) sv (enqueue_packet p a sv)
  unfolding SortedSet.contains enqueue_packet get_session
  Got-queued id a sv busy h live = record {
    same_map = refl;
    same_posted = refl;
    same_id = λ b. ground arith;
    same_released = λ b. ground arith;
    items = λ me b h'. put id a sv busy h live me b h';
  }

  send_to-Got :
      (sent : Bool) (id : ℕ) (sv : Server)
      → Busy sv
      → (sv' : Server) × (send_to sent p (get_session id sv) sv ≡ ok sv') × Got (id ∷ []) sv sv'
  unfolding send_to
  send_to-Got sent id sv busy = elim (Option-cases (get_session id sv)) [
    | inl n ↦ (sv, rw (n, send_to) refl, Got-skipped id sv (λ a h. ground (arith, n, h)))
    | inr (a, h) ↦ elim (Bool-cases (sv.heap a).is_released_session) [
      | inl r ↦ (sv, rw (h, send_to, r) refl, Got-skipped id sv (λ b h'. ground (arith, h, h', r)))
      | inr l ↦ (
        enqueue_packet p a sv,
        rw (h, send_to, l) (send_packet-busy sent p a sv (busy id a h).1),
        Got-queued id a sv busy h l,
      )
    ]
  ]

  each-Got :
      (sent : ℕ → Bool) (ids : List ℕ) (sv : Server)
      → Busy sv
      → SortedSet.IsIncreasing ids
      → (sv' : Server) × (send_to_each sent p ids sv ≡ ok sv') × Got ids sv sv'
  unfolding send_to_each
  each-Got sent [] sv busy up = (sv, refl, Got-none sv)
  each-Got sent (id ∷ ids) sv busy up =
      let (sv1, runs, g) = send_to-Got (sent id) id sv busy in
      let (sv2, more, k) =
        each-Got sent ids sv1 (Busy-Got (id ∷ []) sv sv1 g busy)
          (SortedSet.IsIncreasing-of_Above id ids up) in
      (
        sv2,
        ap (λ m. m >>= send_to_each sent p ids) runs ∙ more,
        Got-first id ids sv sv1 sv2 (SortedSet.contains-Above id ids up) g k,
      )

  -- While every session is in the middle of a send: a broadcast returns, posts nothing, and queues
  -- the packet once, encoded, behind what each session of the map had queued, if its id is in the
  -- broadcaster's set and it is not released; the other sessions' queues stay as they are.
  pub braodcast_to_all_session-queued :
      (sent : ℕ → Bool) (sv : Server) (id a : ℕ)
      → Reachable sv
      → SortedSet.IsIncreasing sv.session_id_set
      → ((id a : ℕ) → get_session id sv ≡ some a → (sv.heap a).send_item.io_mode ≡ io_sending)
      → get_session id sv ≡ some a
      → (sv' : Server) × (braodcast_to_all_session sent p sv ≡ ok sv')
        × (sv'.posted ≡ sv.posted)
        × ((sv'.heap a).send_item
            ≡ queued_if
                (SortedSet.contains id sv.session_id_set && not (sv.heap a).is_released_session)
                (sv.heap a).send_item)
  unfolding braodcast_to_all_session
  braodcast_to_all_session-queued sent sv id a reached up busy h =
      let (sv', runs, g) =
        each-Got sent sv.session_id_set sv
          (λ me b h'. ((io_count_lem sv me b reached h').4, busy me b h')) up in
      (sv', runs, g.same_posted, g.items id a h)
