-- ===== src/GameServer/LazyRunners.antt =====
-- DdingGameServer/RIO_Core/DBJobLazyRunner.cpp, and the queue of them that a PC keeps: PCLogic.cpp of
-- GameServer/GameServer.
use dding_game_server.Prelude.{
  ℕ, ◌+◌, ◌%◌, ◌≤◌, ◌<◌, ◌≡◌, refl, ap, Bool, inl, inr, List, [], ◌∷◌, ◌++◌, ltb, if◌then◌else◌,
  arith, Bool-cases, All,
}
use dding_game_server.Prelude.Word.{u64}

-- DBJobTimeLazyRunner; `job` stands for its batched job.
pub record TimeLazyRunner : Type 0 where
  pub job : ℕ
  pub begin_time : ℕ
  pub delay_millisecond : ℕ
  pub min_fire_time : ℕ

unfoldable pub make_time_lazy_runner : ℕ → ℕ → ℕ → TimeLazyRunner
make_time_lazy_runner job begin_time delay = record {
  job = job;
  begin_time = begin_time;
  delay_millisecond = delay;
  min_fire_time = (begin_time + delay) % u64;
}

-- DBJobAccumulateLazyRunner
pub record AccumulateLazyRunner : Type 0 where
  pub accumulated_job : ℕ
  pub accumulate_count : ℕ

unfoldable pub check_accumulate_fire_state : ℕ → AccumulateLazyRunner → Bool
check_accumulate_fire_state comparison r = ltb comparison r.accumulate_count

unfoldable pub check_time_fire_state : ℕ → TimeLazyRunner → Bool
check_time_fire_state now r = ltb now r.min_fire_time

-- `timeLazyRunnerHolder`, a std::priority_queue by std::less: the top has the latest time. The list
-- has the top first.
unfoldable pub lazy_runner_push : TimeLazyRunner → List TimeLazyRunner → List TimeLazyRunner
lazy_runner_push r [] = r ∷ []
lazy_runner_push r (x ∷ xs) =
    let rest = lazy_runner_push r xs in
    if ltb r.min_fire_time x.min_fire_time then x ∷ rest else r ∷ x ∷ xs

-- The runners that were fired, oldest first, and the queue that is left. ExecuteBatchJob
-- always succeeds, so that Fire does too.
unfoldable pub fire_lazy_runner_if_condition_met :
    ℕ → List TimeLazyRunner → List TimeLazyRunner × List TimeLazyRunner
fire_lazy_runner_if_condition_met now [] = ([], [])
fire_lazy_runner_if_condition_met now (r ∷ rs) =
    let (fired, left) = fire_lazy_runner_if_condition_met now rs in
    if check_time_fire_state now r then (r ∷ fired, left) else ([], r ∷ rs)

-- Every runner of the list has a time up to `t`.
abbrev pub UpTo : ℕ → List TimeLazyRunner → Type 0
UpTo t rs = All (λ r. r.min_fire_time ≤ t) rs

abbrev pub IsHeap : List TimeLazyRunner → Type 0
IsHeap [] = Unit
IsHeap (r ∷ rs) = UpTo r.min_fire_time rs × IsHeap rs

UpTo-mono : (s t : ℕ) (rs : List TimeLazyRunner) → s ≤ t → UpTo s rs → UpTo t rs
UpTo-mono s t [] h all = tt
UpTo-mono s t (r ∷ rs) h (low, all) = (omega arith, UpTo-mono s t rs h all)

push-UpTo :
    (t : ℕ) (r : TimeLazyRunner) (rs : List TimeLazyRunner)
    → r.min_fire_time ≤ t
    → UpTo t rs
    → UpTo t (lazy_runner_push r rs)
unfolding lazy_runner_push
push-UpTo t r [] h all = (h, tt)
push-UpTo t r (x ∷ xs) h (low, all) = elim (Bool-cases (ltb r.min_fire_time x.min_fire_time)) [
  | inl e ↦ rw (e, lazy_runner_push) (low, push-UpTo t r xs h all)
  | inr e ↦ rw (e, lazy_runner_push) (h, (low, all))
]

-- A push keeps the latest time on top.
push-IsHeap :
    (r : TimeLazyRunner) (rs : List TimeLazyRunner) → IsHeap rs → IsHeap (lazy_runner_push r rs)
unfolding lazy_runner_push
push-IsHeap r [] h = (tt, tt)
push-IsHeap r (x ∷ xs) (low, h) = elim (Bool-cases (ltb r.min_fire_time x.min_fire_time)) [
  | inl e ↦
      rw (e, lazy_runner_push)
        (push-UpTo x.min_fire_time r xs (ground arith) low, push-IsHeap r xs h)
  | inr e ↦
      rw (e, lazy_runner_push)
        ((ground arith, UpTo-mono x.min_fire_time r.min_fire_time xs (ground arith) low), (low, h))
]

-- The queue that pushing the runners leaves, the last of the list first.
abbrev pub pushed : List TimeLazyRunner → List TimeLazyRunner
pushed [] = []
pushed (r ∷ rs) = lazy_runner_push r (pushed rs)

pushed-IsHeap : (rs : List TimeLazyRunner) → IsHeap (pushed rs)
pushed-IsHeap [] = tt
pushed-IsHeap (r ∷ rs) = push-IsHeap r (pushed rs) (pushed-IsHeap rs)

-- What firing from a queue takes and leaves.
abbrev FiresEarly : ℕ → List TimeLazyRunner → Type 0
FiresEarly now rs =
    let out = fire_lazy_runner_if_condition_met now rs in
    (out.0 ++ out.1 ≡ rs)
    × All (λ r. now < r.min_fire_time) out.0
    × All (λ r. r.min_fire_time ≤ now) out.1

heap-FiresEarly : (now : ℕ) (rs : List TimeLazyRunner) → IsHeap rs → FiresEarly now rs
unfolding fire_lazy_runner_if_condition_met check_time_fire_state
heap-FiresEarly now [] h = (refl, tt, tt)
heap-FiresEarly now (r ∷ rs) (low, h) = elim (Bool-cases (ltb now r.min_fire_time)) [
  | inl e ↦
      let (all, early, late) = heap-FiresEarly now rs h in
      rw (e, fire_lazy_runner_if_condition_met, check_time_fire_state)
        (ap (λ xs. r ∷ xs) all, (ground arith, early), late)
  | inr e ↦
      rw (e, fire_lazy_runner_if_condition_met, check_time_fire_state)
        (refl, tt, (ground arith, UpTo-mono r.min_fire_time now rs (ground arith) low))
]

-- What a PC's update fires and leaves, for any runners that were pushed: together they are the
-- whole queue, a runner is fired exactly when its time is still to come, and it is left in the
-- queue when its time has been reached.
pub fire_lazy_runner_lem :
    (now : ℕ) (rs : List TimeLazyRunner)
    → let out = fire_lazy_runner_if_condition_met now (pushed rs) in
      (out.0 ++ out.1 ≡ pushed rs)
      × All (λ r. now < r.min_fire_time) out.0
      × All (λ r. r.min_fire_time ≤ now) out.1
fire_lazy_runner_lem now rs = heap-FiresEarly now (pushed rs) (pushed-IsHeap rs)
