-- ===== src/Tests/Others.antt =====
-- The theorems on the other components at small states of theirs.
use dding_game_server.Prelude.{ℕ, ◌≤◌, ◌<◌, ◌≡◌, some, List, [], ◌∷◌, ◌++◌, All}
use dding_game_server.Core.Timers.{
  no_timers, get_expired_timer, register_timer, Reachable-timer_list, starts, steps, registers,
}
use dding_game_server.GameServer.LazyRunners.{
  TimeLazyRunner, fire_lazy_runner_if_condition_met, pushed, fire_lazy_runner_lem,
}

timer_example :
    ((register_timer (record { timer_id = 1; wake_up_time = 50 }) no_timers).timer_list ≡ [])
    × (get_expired_timer 60 (register_timer (record { timer_id = 1; wake_up_time = 50 }) no_timers)
        ≡ some ([], register_timer (record { timer_id = 1; wake_up_time = 50 }) no_timers))
timer_example =
    Reachable-timer_list (register_timer (record { timer_id = 1; wake_up_time = 50 }) no_timers) 60
      (steps no_timers _ starts (registers (record { timer_id = 1; wake_up_time = 50 }) no_timers))

abbrev runner : ℕ → TimeLazyRunner
runner t = record { job = t; begin_time = 0; delay_millisecond = t; min_fire_time = t }

abbrev runners : List TimeLazyRunner
runners = runner 5 ∷ runner 30 ∷ runner 20 ∷ []

fire_example :
    let out = fire_lazy_runner_if_condition_met 10 (pushed runners) in
    (out.0 ++ out.1 ≡ pushed runners)
    × All (λ r. 10 < r.min_fire_time) out.0
    × All (λ r. r.min_fire_time ≤ 10) out.1
fire_example = fire_lazy_runner_lem 10 runners
