-- ===== src/Rio/Start/Threads.antt =====
-- RunThreads of DdingGameServer/RIO_Core/RIOServer.cpp and the first lines of Worker, which run at the
-- same time: the workers come up in any order, and Accepter starts behind them.
use dding_game_server.Prelude.{
  ℕ, zero, suc, ◌*◌, ◌/◌, ◌%◌, ◌≡◌, refl, sym, ap, ◌∙◌, Bool, true, false, inl, inr, Option, none,
  some, List, [], ◌∷◌, ◌++◌, replicate, length, ◌&&◌, if◌then◌else◌, arith, Bool-cases, All,
}
use dding_game_server.Prelude.Word.{u32}
use dding_game_server.Rio.Types.{max_send_buffer_size}

pub data Line : Type 0 where
  at_start at_mark in_loop : Line

-- A worker: the size with which it has asked for its completion queue, whether RIOCreateCompletionQueue
-- has made one, and its entry of workerOnList.
pub record WorkerThread : Type 0 where
  pub line : Line
  pub queue : Option ℕ
  pub made : Bool
  pub is_on : Bool

-- The size that Worker gives its queue, in 32 bits.
unfoldable pub queue_size : ℕ → ℕ → ℕ
queue_size max_client_count threads = max_client_count / threads * max_send_buffer_size % u32

-- What RIOCreateCompletionQueue answers goes into rioCQList, also where it is RIO_INVALID_CQ.
unfoldable pub run_line : Bool → ℕ → Line → WorkerThread → WorkerThread
run_line answer size at_start t = record t { line = at_mark; queue = some size; made = answer }
run_line answer size at_mark t = record t { line = in_loop; is_on = true }
run_line answer size in_loop t = t

unfoldable pub worker_line : Bool → ℕ → WorkerThread → WorkerThread
worker_line answer size t = run_line answer size t.line t

unfoldable pub completed : List WorkerThread → Bool
completed [] = true
completed (t ∷ ts) = t.is_on && completed ts

pub record Booting : Type 0 where
  pub worker_threads : List WorkerThread
  pub accepting : Bool

-- A round of the loop that waits for the workers.
unfoldable pub wait_round : Booting → Booting
wait_round b = if completed b.worker_threads then record b { accepting = true } else b

abbrev pub run_threads : ℕ → Booting
run_threads threads = record {
  worker_threads =
      replicate threads (record { line = at_start; queue = none; made = false; is_on = false });
  accepting = false;
}

pub data Step (size : ℕ) : Booting → Booting → Type 0 where
  works :
      (answer : Bool) (b : Booting) (t : WorkerThread) (xs ys : List WorkerThread)
      → b.worker_threads ≡ xs ++ t ∷ ys
      → Step size b (record b { worker_threads = xs ++ worker_line answer size t ∷ ys })
  waits : (b : Booting) → Step size b (wait_round b)

pub data Reachable (threads size : ℕ) : Booting → Type 0 where
  starts : Reachable threads size (run_threads threads)
  steps : (b b' : Booting) → Reachable threads size b → Step size b b' → Reachable threads size b'

-- A worker has its queue from its second line on, and is on only in its loop.
record IsOrdered (size : ℕ) (t : WorkerThread) : Type 0 where
  starting : t.line ≡ at_start → t.is_on ≡ false
  marking : t.line ≡ at_mark → t.queue ≡ some size
  on : t.is_on ≡ true → t.queue ≡ some size

abbrev HasQueue : ℕ → WorkerThread → Type 0
HasQueue size t = t.queue ≡ some size

run_line-IsOrdered :
    (answer : Bool) (size : ℕ) (line : Line) (t : WorkerThread)
    → t.line ≡ line
    → IsOrdered size t
    → IsOrdered size (run_line answer size line t)
unfolding run_line
run_line-IsOrdered answer size at_start t e o = record {
  starting = λ h. absurd (ground (arith, h));
  marking = λ _. refl;
  on = λ _. refl;
}
run_line-IsOrdered answer size at_mark t e o = record {
  starting = λ h. absurd (ground (arith, h));
  marking = λ h. absurd (ground (arith, h));
  on = λ _. o.marking e;
}
run_line-IsOrdered answer size in_loop t e o = o

-- One entry is replaced by another one for which the predicate holds if it holds for the first.
All-replace :
    {A : Type 0} (P : A → Type 0) (xs : List A) (x y : A) (ys : List A)
    → (P x → P y)
    → All P (xs ++ x ∷ ys)
    → All P (xs ++ y ∷ ys)
All-replace P [] x y ys f (p, all) = (f p, all)
All-replace P (z ∷ xs) x y ys f (p, all) = (p, All-replace P xs x y ys f all)

All-replicate : {A : Type 0} (P : A → Type 0) (n : ℕ) (x : A) → P x → All P (replicate n x)
All-replicate P zero x p = tt
All-replicate P (suc n) x p = (p, All-replicate P n x p)

completed-HasQueue :
    (size : ℕ) (ts : List WorkerThread)
    → All (IsOrdered size) ts
    → completed ts ≡ true
    → All (HasQueue size) ts
unfolding completed
completed-HasQueue size [] o h = tt
completed-HasQueue size (t ∷ ts) (o, os) h =
    (o.on (ground (arith, h)), completed-HasQueue size ts os (ground (arith, h)))

-- What holds at every moment of the start.
record IsBooting (size : ℕ) (b : Booting) : Type 0 where
  ordered : All (IsOrdered size) b.worker_threads
  ready : b.accepting ≡ true → All (HasQueue size) b.worker_threads

run_line-HasQueue :
    (answer : Bool) (size : ℕ) (line : Line) (t : WorkerThread)
    → HasQueue size t
    → HasQueue size (run_line answer size line t)
unfolding run_line
run_line-HasQueue answer size at_start t h = refl
run_line-HasQueue answer size at_mark t h = h
run_line-HasQueue answer size in_loop t h = h

Step-IsBooting : (size : ℕ) (b b' : Booting) → Step size b b' → IsBooting size b → IsBooting size b'
unfolding wait_round worker_line
Step-IsBooting size _ _ (works answer b t xs ys e) i = record {
  ordered =
      All-replace (IsOrdered size) xs t (worker_line answer size t) ys
        (run_line-IsOrdered answer size t.line t refl) (rw e at i.ordered);
  ready = λ h.
      All-replace (HasQueue size) xs t (worker_line answer size t) ys
        (run_line-HasQueue answer size t.line t) (rw e at (i.ready h));
}
Step-IsBooting size _ _ (waits b) i = elim (Bool-cases (completed b.worker_threads)) [
  | inr n ↦ rw (n, wait_round) i
  | inl y ↦
      rw (y, wait_round)
        (record {
          ordered = i.ordered;
          ready = λ _. completed-HasQueue size b.worker_threads i.ordered y;
        })
]

Reachable-IsBooting : (threads size : ℕ) (b : Booting) → Reachable threads size b → IsBooting size b
Reachable-IsBooting threads size _ starts = record {
  ordered = All-replicate (IsOrdered size) threads _ (record {
    starting = λ _. refl;
    marking = λ h. absurd (ground (arith, h));
    on = λ h. absurd (ground (arith, h));
  });
  ready = λ h. absurd (ground (arith, h));
}
Reachable-IsBooting threads size _ (steps b b' r s) =
    Step-IsBooting size b b' s (Reachable-IsBooting threads size b r)

replace-length :
    (xs : List WorkerThread) (x y : WorkerThread) (ys : List WorkerThread)
    → length (xs ++ y ∷ ys) ≡ length (xs ++ x ∷ ys)
replace-length [] x y ys = refl
replace-length (z ∷ xs) x y ys = ap suc (replace-length xs x y ys)

length-replicate : {A : Type 0} (n : ℕ) (x : A) → length (replicate n x) ≡ n
length-replicate zero x = refl
length-replicate (suc n) x = ap suc (length-replicate n x)

-- There is one worker for each thread, all the time.
Reachable-length :
    (threads size : ℕ) (b : Booting) → Reachable threads size b → length b.worker_threads ≡ threads
unfolding wait_round
Reachable-length threads size _ starts = length-replicate threads _
Reachable-length threads size _ (steps _ _ r (works answer b t xs ys e)) =
    replace-length xs t (worker_line answer size t) ys
    ∙ sym (ap length e)
    ∙ Reachable-length threads size b r
Reachable-length threads size _ (steps _ _ r (waits b)) =
    ground (arith, Reachable-length threads size b r)

-- In whatever order the workers come up, and whatever RIOCreateCompletionQueue answers to each of
-- them, once Accepter runs, each of the threads has asked for its completion queue, with the size that
-- Worker computes for the options.
pub accepting-HasQueue :
    (threads max_client_count : ℕ) (b : Booting)
    → Reachable threads (queue_size max_client_count threads) b
    → b.accepting ≡ true
    → (length b.worker_threads ≡ threads)
      × All (λ t. t.queue ≡ some (queue_size max_client_count threads)) b.worker_threads
accepting-HasQueue threads max_client_count b r h =
    let size = queue_size max_client_count threads in
    (Reachable-length threads size b r, (Reachable-IsBooting threads size b r).ready h)
