-- ===== src/Core/Deadlock.antt =====
-- DdingGameServer/RIO_Core/DeadlockChecker.cpp. A thread's id is a number, and what its getter
-- returns when it is called is a parameter.
use dding_game_server.Prelude.{
  ℕ, ◌+◌, ◌-◌, ◌%◌, ◌≤◌, ◌<◌, ◌≡◌, refl, Bool, true, false, ◌↔◌, none, some, [], ◌∷◌, leb, arith,
  if◌then◌else◌, All,
}
use dding_game_server.Prelude.Map
use dding_game_server.Prelude.Map.{Map}
use dding_game_server.Prelude.Word.{u64}

abbrev pub max_check_count : ℕ
max_check_count = 20000

-- The getters, each named by a number.
abbrev pub CheckerMap : Type 0
CheckerMap = Map ℕ

unfoldable pub register_check_thread : ℕ → ℕ → CheckerMap → Bool × CheckerMap
register_check_thread id getter m = elim (Map.find id m) [
  | some _ ↦ (false, m)
  | none ↦ (true, Map.insert id getter m)
]

unfoldable pub deregistered_check_thread : ℕ → CheckerMap → CheckerMap
deregistered_check_thread id m = Map.erase id m

-- A round of CheckDeadlockThread at the tick `now`: whether it ends without a crash. The
-- subtraction is one of 64-bit words.
unfoldable pub check_threads : (ℕ → ℕ) → ℕ → CheckerMap → Bool
check_threads tick now [] = true
check_threads tick now ((id, getter) ∷ m) =
    let rest = check_threads tick now m in
    if leb ((now + u64 - max_check_count) % u64) (tick getter) then rest else false

-- A round crashes exactly if some thread has not moved for more than 20 seconds, provided that the
-- system has run for 20 seconds and the ticks are 64-bit words.
check_threads_lem :
    (tick : ℕ → ℕ) (now : ℕ) (m : CheckerMap)
    → max_check_count ≤ now
    → now < u64
    → (check_threads tick now m ≡ true) ↔ All (λ e. now ≤ tick e.1 + max_check_count) m
unfolding check_threads
check_threads_lem tick now [] long word = (λ _. tt, λ _. refl)
check_threads_lem tick now ((id, getter) ∷ m) long word =
    let wraps : (now + u64 - max_check_count) % u64 ≡ now - max_check_count = omega arith in
    let rest = check_threads_lem tick now m long word in
    rw wraps (
      λ y. (ground (arith, y), rest.0 (ground (arith, y))),
      λ (late, all). ground (arith, rest.1 all),
    )

-- Within the first 20 seconds of the system, the subtraction wraps, and a round with any thread
-- whose tick is not in the future crashes.
check_threads-early :
    (tick : ℕ → ℕ) (now id getter : ℕ) (m : CheckerMap)
    → now < max_check_count
    → tick getter ≤ now
    → check_threads tick now ((id, getter) ∷ m) ≡ false
unfolding check_threads
check_threads-early tick now id getter m early past =
    let wraps : (now + u64 - max_check_count) % u64 ≡ now + u64 - max_check_count = omega arith in
    rw wraps (ground arith)
