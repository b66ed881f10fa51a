-- ===== src/Tests/Timing.antt =====
-- TimerManager of DdingGameServer/RIO_Core/Timer.cpp, destroyed while its thread starts.
use dding_game_server.Prelude.{◌≡◌, refl, true, false, some}
use dding_game_server.Core.Timers.Running.{
  Running, Reachable, starts, steps, thread_runs, Later, now, then_step, marks, loops, alive, joins,
  constructed, thread_line, wait_stop, destructor_line, destructor-joins,
}

abbrev with_event : Running
with_event = record {
  line = marks;
  stop_event = some false;
  is_running = false;
  destructor = alive;
}

with_event-Reachable : Reachable with_event
unfolding thread_line
with_event-Reachable =
    steps constructed with_event starts (thread_runs true constructed with_event refl)

abbrev missed : Running
missed = record with_event { destructor = joins }

abbrev in_its_loop : Running
in_its_loop = record missed { line = loops; is_running = true }

in_its_loop-Later : Later (destructor_line alive with_event) in_its_loop
unfolding destructor_line thread_line wait_stop
in_its_loop-Later =
    then_step missed in_its_loop in_its_loop
      (then_step missed missed in_its_loop (now missed) (thread_runs true missed in_its_loop refl))
      (thread_runs true in_its_loop in_its_loop refl)

joins_example : in_its_loop.destructor ≡ joins
joins_example =
    destructor-joins with_event in_its_loop with_event-Reachable refl refl in_its_loop-Later
