-- ===== src/Core/Timers.antt =====
-- DdingGameServer/RIO_Core/Timer.cpp and Timer.h: the timers that run, ordered by time, and the
-- registered ones. `none` stands for undefined behaviour of the source.
pub mod Running
use dding_game_server.Prelude.{
  ℕ, ◌≡◌, refl, ap, ◌∙◌, Bool, false, inl, inr, Option, none, some, List, [], ◌∷◌, ltb, ◌==◌,
  if◌then◌else◌, arith, Option-cases,
}
use dding_game_server.Prelude.Map
use dding_game_server.Prelude.Map.{Map}
use dding_game_server.Prelude.Word.{inc64}

-- The clock and the times are non-negative milliseconds.
pub record Timer : Type 0 where
  pub timer_id : ℕ
  pub wake_up_time : ℕ

pub record TimerManager : Type 0 where
  pub timer_list : List Timer
  pub registered_timer_map : Map Timer
  pub next_timer_id : ℕ

unfoldable pub get_timer_id : TimerManager → ℕ × TimerManager
get_timer_id m = (m.next_timer_id, record m { next_timer_id = inc64 m.next_timer_id })

unfoldable pub register_timer : Timer → TimerManager → TimerManager
register_timer t m = record m {
  registered_timer_map = Map.insert t.timer_id t m.registered_timer_map;
}

-- The loop of ResumeTimer compares the timer with itself.
unfoldable pub insert_timer : Timer → List Timer → List Timer
insert_timer t [] = []
insert_timer t (x ∷ xs) =
    let rest = insert_timer t xs in
    if ltb t.wake_up_time t.wake_up_time then t ∷ x ∷ xs else x ∷ rest

-- A timer that is registered is refused; for one that is not, the end iterator is read.
unfoldable pub resume_timer : ℕ → TimerManager → Option (Bool × TimerManager)
resume_timer id m = elim (Map.find id m.registered_timer_map) [
  | some _ ↦ some (false, m)
  | none ↦ none
]

unfoldable pub stop_loop : ℕ → List Timer → List Timer
stop_loop id [] = []
stop_loop id (t ∷ ts) = let rest = stop_loop id ts in if t.timer_id == id then ts else t ∷ rest

unfoldable pub stop_timer : ℕ → TimerManager → TimerManager
stop_timer id m = record m { timer_list = stop_loop id m.timer_list }

unfoldable pub deregister_timer : ℕ → TimerManager → TimerManager
unfolding stop_timer
deregister_timer id m = record (stop_timer id m) {
  registered_timer_map = Map.erase id m.registered_timer_map;
}

-- One turn of the timer thread. The loop's iterator stands at an element that `pop_front` has
-- removed when it goes on.
unfoldable pub get_expired_timer : ℕ → TimerManager → Option (List Timer × TimerManager)
get_expired_timer now m = elim m.timer_list [
  | [] ↦ some ([], m)
  | t ∷ _ ↦ if ltb t.wake_up_time now then none else some ([], m)
]

abbrev pub no_timers : TimerManager
no_timers = record { timer_list = []; registered_timer_map = []; next_timer_id = 1 }

-- The calls of the program and of the timer thread, in any order.
pub data Step : TimerManager → TimerManager → Type 0 where
  makes : (m : TimerManager) → Step m (get_timer_id m).1
  registers : (t : Timer) (m : TimerManager) → Step m (register_timer t m)
  resumes :
      (id : ℕ) (done : Bool) (m m' : TimerManager) → resume_timer id m ≡ some (done, m') → Step m m'
  stops : (id : ℕ) (m : TimerManager) → Step m (stop_timer id m)
  deregisters : (id : ℕ) (m : TimerManager) → Step m (deregister_timer id m)
  expires :
      (now : ℕ) (ts : List Timer) (m m' : TimerManager)
      → get_expired_timer now m ≡ some (ts, m')
      → Step m m'

pub data Reachable : TimerManager → Type 0 where
  starts : Reachable no_timers
  steps : (m m' : TimerManager) → Reachable m → Step m m' → Reachable m'

-- A call of ResumeTimer that returns, returns false and changes nothing.
resume_timer-false :
    (id : ℕ) (done : Bool) (m m' : TimerManager)
    → resume_timer id m ≡ some (done, m')
    → (done ≡ false) × (m' ≡ m)
unfolding resume_timer
resume_timer-false id done m m' e = elim (Option-cases (Map.find id m.registered_timer_map)) [
  | inl n ↦ ground (arith, n)
  | inr (t, f) ↦ ground (arith, f)
]

Step-empty : (m m' : TimerManager) → Step m m' → m.timer_list ≡ [] → m'.timer_list ≡ []
unfolding get_timer_id register_timer stop_timer deregister_timer get_expired_timer stop_loop
Step-empty m _ (makes _) e = e
Step-empty m _ (registers t _) e = e
Step-empty m m' (resumes id done _ _ r) e =
    ap (λ x. x.timer_list) (resume_timer-false id done m m' r).1 ∙ e
Step-empty m _ (stops id _) e = ap (stop_loop id) e
Step-empty m _ (deregisters id _) e = ap (stop_loop id) e
Step-empty m m' (expires now ts _ _ r) e = ground (arith, e, r)

-- No timer ever runs: whatever is registered, resumed, stopped and removed, the list of running
-- timers stays empty, and every turn of the timer thread finds no expired timer.
pub Reachable-timer_list :
    (m : TimerManager) (now : ℕ)
    → Reachable m
    → (m.timer_list ≡ []) × (get_expired_timer now m ≡ some ([], m))
unfolding get_expired_timer
Reachable-timer_list m now before = (empty m before, ground (arith, empty m before))
  where
    empty : (m : TimerManager) → Reachable m → m.timer_list ≡ []
    empty _ starts = refl
    empty m (steps m' _ before s) = Step-empty m' m s (empty m' before)
