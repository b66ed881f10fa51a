-- ===== src/LanClient/Stop.antt =====
-- DdingGameServer/RIO_Core/MultiLanClient.cpp: Stop, and how Worker ends. The completion port is a queue.
use dding_game_server.Prelude.{
  ℕ, suc, ◌+◌, ◌≤◌, ◌≡◌, refl, ap, Bool, true, false, inl, inr, ◌⊎◌, List, [], ◌∷◌, ◌++◌, arith,
  Bool-cases,
}

-- What GetQueuedCompletionStatus gives: a completed request of a session, the packet that Stop
-- posts, with an OVERLAPPED and no session, or the one that Worker posts, with neither.
pub data Completion : Type 0 where
  io quits nothing : Completion

pub record Workers : Type 0 where
  pub running : ℕ
  pub port : List Completion
  pub crashed : Bool

-- Stop up to the workers' ends, which WaitForMultipleObjects waits for.
unfoldable pub stop : Workers → Workers
stop w = record w { port = w.port ++ quits ∷ [] }

-- A worker's turn with what it took off the port; `n` workers are left beside it. The session's
-- request is served by the other branches.
unfoldable pub worker_turn : ℕ → Completion → List Completion → Workers → Workers
worker_turn n io port w = record w { port = port }
worker_turn n quits port w = record w { running = n; port = port ++ nothing ∷ [] }
worker_turn n nothing port w = record w { port = port; crashed = true }

-- One worker's turn, or a request that completes; nothing goes on behind a crash.
pub data Step : Workers → Workers → Type 0 where
  turns :
      (n : ℕ) (c : Completion) (port : List Completion) (w : Workers)
      → w.crashed ≡ false
      → w.running ≡ suc n
      → w.port ≡ c ∷ port
      → Step w (worker_turn n c port w)
  completes : (w : Workers) → w.crashed ≡ false → Step w (record w { port = w.port ++ io ∷ [] })

pub data Steps : Workers → Workers → Type 0 where
  none_yet : (w : Workers) → Steps w w
  more : (w w' w'' : Workers) → Steps w w' → Step w' w'' → Steps w w''

abbrev weight : Completion → ℕ
weight io = 0
weight quits = 1
weight nothing = 1

-- How many packets on the port are not requests.
unfoldable pub packets : List Completion → ℕ
packets [] = 0
packets (c ∷ cs) = weight c + packets cs

packets-append : (cs ds : List Completion) → packets (cs ++ ds) ≡ packets cs + packets ds
unfolding packets
packets-append [] ds = omega arith
packets-append (c ∷ cs) ds = omega (arith, packets-append cs ds)

unfoldable pub quitting : List Completion → ℕ
quitting [] = 0
quitting (quits ∷ cs) = suc (quitting cs)
quitting (_ ∷ cs) = quitting cs

quitting-append : (cs ds : List Completion) → quitting (cs ++ ds) ≡ quitting cs + quitting ds
unfolding quitting
quitting-append [] ds = omega arith
quitting-append (quits ∷ cs) ds = omega (arith, quitting-append cs ds)
quitting-append (io ∷ cs) ds = quitting-append cs ds
quitting-append (nothing ∷ cs) ds = quitting-append cs ds

-- Behind a Stop with `n` workers: the packet of Stop, once it is gone, has ended one of them, and
-- left one without a session, which is taken by a worker that crashes on it.
record IsStopped (n : ℕ) (w : Workers) : Type 0 where
  ended : w.running + 1 ≡ n + quitting w.port
  left : w.crashed ≡ false → packets w.port ≡ 1

Step-IsStopped : (n : ℕ) (w w' : Workers) → Step w w' → IsStopped n w → IsStopped n w'
unfolding worker_turn quitting packets
Step-IsStopped n _ _ (turns left io port w going r p) s = record {
  ended = omega (arith, s.ended, ap quitting p);
  left = λ h. omega (arith, s.left h, ap packets p);
}
Step-IsStopped n _ _ (turns left quits port w going r p) s = record {
  ended = omega (arith, s.ended, r, ap quitting p, quitting-append port (nothing ∷ []));
  left = λ h. omega (arith, s.left h, ap packets p, packets-append port (nothing ∷ []));
}
Step-IsStopped n _ _ (turns left nothing port w going r p) s = record {
  ended = omega (arith, s.ended, ap quitting p);
  left = λ h. absurd (ground (arith, h));
}
Step-IsStopped n _ _ (completes w going) s = record {
  ended = omega (arith, s.ended, quitting-append w.port (io ∷ []));
  left = λ h. omega (arith, s.left h, packets-append w.port (io ∷ []));
}

Steps-IsStopped : (n : ℕ) (w w' : Workers) → Steps w w' → IsStopped n w → IsStopped n w'
Steps-IsStopped n _ _ (none_yet w) s = s
Steps-IsStopped n _ _ (more w w' w'' ws step) s =
    Step-IsStopped n w' w'' step (Steps-IsStopped n w w' ws s)

packets_none-quitting : (cs : List Completion) → packets cs ≡ 0 → quitting cs ≡ 0
unfolding packets quitting
packets_none-quitting [] h = refl
packets_none-quitting (io ∷ cs) h = packets_none-quitting cs (omega (arith, h))
packets_none-quitting (quits ∷ cs) h = absurd (omega (arith, h))
packets_none-quitting (nothing ∷ cs) h = absurd (omega (arith, h))

-- If Stop is called while the port holds only requests of sessions, at most one worker ends
-- afterwards, so that Stop waits forever if there are two or more; and either a worker has crashed, or
-- one packet that is not a request of a session is on its way: Stop's own, or the one that the worker
-- which took it has posted, on which the next worker crashes.
pub stop-running :
    (w w' : Workers)
    → packets w.port ≡ 0
    → w.crashed ≡ false
    → Steps (stop w) w'
    → (w.running ≤ w'.running + 1)
      × ((w'.crashed ≡ true) ⊎ ((w'.crashed ≡ false) × (packets w'.port ≡ 1)))
unfolding stop quitting packets worker_turn
stop-running w w' h going steps =
    let s = Steps-IsStopped w.running (stop w) w' steps (record {
      ended = omega (arith, packets_none-quitting w.port h, quitting-append w.port (quits ∷ []));
      left = λ _. omega (arith, h, packets-append w.port (quits ∷ []));
    }) in
    (
      omega (arith, s.ended),
      elim (Bool-cases w'.crashed) [ inl y ↦ inl y | inr n ↦ inr (n, s.left n) ],
    )
