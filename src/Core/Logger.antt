-- ===== src/Core/Logger.antt =====
-- DdingGameServer/RIO_Core/Logger.cpp: the queue of log lines and the thread that writes them. A line
-- is the text that the log object gives, and the file is a list of lines.
pub mod Running
use dding_game_server.Prelude.{
  ◌==◌, Bool-cases, ℕ, zero, suc, ◌≤◌, ◌<◌, ◌≡◌, refl, sym, ap, ◌∙◌, true, false, Bool, inl, inr,
  List, [], ◌∷◌, ◌++◌, append-nil, length, ltb, arith, if◌then◌else◌,
}

pub record Logger : Type 0 where
  pub log_waiting_queue : List ℕ
  pub log_file : List ℕ
  -- the two events
  pub log_event : Bool
  pub stop_event : Bool

-- How a call ends.
pub data Outcome (A : Type 0) : Type 0 where
  returns : A → Outcome A
  -- `front()` of an empty queue
  reads_empty_queue : Outcome A
  out_of_fuel : Outcome A

unfoldable pub write_log : ℕ → Logger → Logger
write_log line l = record l {
  log_waiting_queue = l.log_waiting_queue ++ line ∷ [];
  log_event = true;
}

-- The loop of WriteLogImpl on `restSize`, the queue and `waitingLogList`.
unfoldable pub move_logs : ℕ → ℕ → List ℕ → List ℕ → Outcome (List ℕ × List ℕ)
move_logs zero rest_size queue waiting = out_of_fuel
move_logs (suc fuel) rest_size queue waiting =
    let moved : Outcome (List ℕ × List ℕ) = elim queue [
      | [] ↦ reads_empty_queue
      | line ∷ lines ↦ move_logs fuel rest_size lines (waiting ++ line ∷ [])
    ] in
    if ltb 0 rest_size then moved else returns (queue, waiting)

unfoldable pub write_all : Logger → Outcome (List ℕ × List ℕ) → Outcome Logger
write_all l (returns (queue, waiting)) =
    returns (record l { log_waiting_queue = queue; log_file = l.log_file ++ waiting })
write_all l reads_empty_queue = reads_empty_queue
write_all l out_of_fuel = out_of_fuel

-- The list that Worker hands over is empty each time.
unfoldable pub write_log_impl : ℕ → Logger → Outcome Logger
write_log_impl fuel l =
    write_all l (move_logs fuel (length l.log_waiting_queue) l.log_waiting_queue [])

-- A round of Worker for the event for logs.
unfoldable pub work : ℕ → Logger → Outcome Logger
work fuel l = write_log_impl fuel (record l { log_event = false })

move_logs-empty :
    (fuel rest_size : ℕ) (queue waiting : List ℕ)
    → 1 ≤ rest_size
    → length queue < fuel
    → move_logs fuel rest_size queue waiting ≡ reads_empty_queue
unfolding move_logs
move_logs-empty zero rest_size queue waiting h l = absurd (omega arith)
move_logs-empty (suc fuel) rest_size [] waiting h l = ground arith
move_logs-empty (suc fuel) rest_size (line ∷ lines) waiting h l =
    ground (arith, move_logs-empty fuel rest_size lines (waiting ++ line ∷ []) h (omega arith))

no_length : (xs : List ℕ) → (length xs == 0) ≡ true → xs ≡ []
no_length [] e = refl
no_length (x ∷ xs) e = absurd (ground (arith, e))

-- With more fuel than there are lines in the queue: an empty queue is left as it is, and from another
-- one every line is moved out, and the front of the empty queue is read.
pub write_log_impl_lem :
    (fuel : ℕ) (l : Logger)
    → length l.log_waiting_queue < fuel
    → write_log_impl fuel l
      ≡ (if length l.log_waiting_queue == 0 then returns l else reads_empty_queue)
unfolding write_log_impl write_all move_logs
write_log_impl_lem zero l h = absurd (omega arith)
write_log_impl_lem (suc fuel) l h = elim (Bool-cases (length l.log_waiting_queue == 0)) [
  | inl z ↦
      let none_left = no_length l.log_waiting_queue z in
      rw z (
        ap (λ q. write_all l (move_logs (suc fuel) (length q) q [])) none_left
        ∙ ap (λ lines. returns (record l { log_waiting_queue = []; log_file = lines }))
            (append-nil l.log_file)
        ∙ ap (λ q. returns (record l { log_waiting_queue = q })) (sym none_left))
  | inr n ↦
      rw
        (
          n,
          move_logs-empty (suc fuel) (length l.log_waiting_queue) l.log_waiting_queue []
              (ground (arith, n)) h,
        )
        refl
]

-- No log line is ever written. With more fuel than there are lines in the queue, the thread
-- either finds the queue empty and leaves the file as it is, or it moves every line out of the
-- queue and then reads the front of the empty queue, since the loop does not count down.
pub work_lem :
    (fuel : ℕ) (l : Logger)
    → length l.log_waiting_queue < fuel
    → work fuel l ≡ (
        if length l.log_waiting_queue == 0
        then returns (record l { log_event = false })
        else reads_empty_queue)
unfolding work
work_lem fuel l h = write_log_impl_lem fuel (record l { log_event = false }) h
