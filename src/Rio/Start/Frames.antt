-- ===== src/Rio/Start/Frames.antt =====
-- RIOServer::SleepRemainingFrameTime of DdingGameServer/RIO_Core/RIOServer.cpp.
use dding_game_server.Prelude.{
  ℕ, ◌+◌, ◌-◌, ◌%◌, ◌<◌, ◌≡◌, Option, none, some, ◌&&◌, if◌then◌else◌, arith, ltb,
}
use dding_game_server.Prelude.Word.{u64}

abbrev pub one_frame : ℕ
one_frame = 33

pub record TickSet : Type 0 where
  pub now_tick : ℕ
  pub before_tick : ℕ

-- For how long it sleeps, and the ticks behind it, at the tick `now`. The subtraction is one of
-- 64-bit words.
unfoldable pub sleep_remaining_frame_time : ℕ → TickSet → Option ℕ × TickSet
sleep_remaining_frame_time now t =
    let delta_tick = (now + u64 - t.before_tick) % u64 in
    (
      if ltb delta_tick one_frame && ltb 0 delta_tick then some (one_frame - delta_tick) else none,
      record { now_tick = now; before_tick = now },
    )

-- The time is measured up to the sleep and not behind it. A worker that has work for less than a
-- frame in one round and none in the next one, and sleeps as long as it asks for, sleeps in the second
-- for as long as the work took: both rounds together last one frame and the time of the work, not
-- two frames, and the third begins as the first one ended, provided that the ticks stay 64-bit words.
sleep_remaining_frame_time-rounds :
    (now delta : ℕ) (t : TickSet)
    → now ≡ t.before_tick + delta
    → 0 < delta
    → delta < one_frame
    → now + one_frame < u64
    → (let first = sleep_remaining_frame_time now t in
        let second = sleep_remaining_frame_time (now + (one_frame - delta)) first.1 in
        let third = sleep_remaining_frame_time (now + one_frame) second.1 in
        (first.0 ≡ some (one_frame - delta))
        × (second.0 ≡ some delta)
        × (third.0 ≡ some (one_frame - delta)))
unfolding sleep_remaining_frame_time
sleep_remaining_frame_time-rounds now delta t e pos short word =
    let first : (now + u64 - t.before_tick) % u64 ≡ delta = omega arith in
    let second : (now + (one_frame - delta) + u64 - now) % u64 ≡ one_frame - delta = omega arith in
    let third : (now + one_frame + u64 - (now + (one_frame - delta))) % u64 ≡ delta = omega arith in
    rw (first, second, third) (ground arith)
