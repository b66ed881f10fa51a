-- ===== src/Core/Timers/Running.antt =====
-- The thread of TimerManager in DdingGameServer/RIO_Core/Timer.cpp, line by line, beside the destructor.
-- No timer is in its list (Core/Timers), so that a turn in which no stop is met changes nothing.
use dding_game_server.Prelude.{
  ◌≡◌, ◌≢◌, refl, sym, subst, ◌∙◌, Bool, true, false, Option, none, some, if◌then◌else◌, Bool-cases,
  inl, inr,
}

-- The lines of RunTimerThread that touch what the destructor sees.
pub data Line : Type 0 where
  makes_event marks loops unmarks ended : Line

-- The lines of the destructor; `alive` is before it.
pub data Destructor : Type 0 where
  alive stops joins joined : Destructor

-- `stop_event` is threadStopEventHandle, with whether it is set.
pub record Running : Type 0 where
  pub line : Line
  pub stop_event : Option Bool
  pub is_running : Bool
  pub destructor : Destructor

pub data Passed (A : Type 0) : Type 0 where
  crashes : Passed A
  goes_on : A → Passed A

-- WaitForSingleObject with a limit of time; an event that was waited for resets itself.
unfoldable pub wait_stop : Option Bool → Running → Running
wait_stop none r = r
wait_stop (some false) r = r
wait_stop (some true) r = record r { stop_event = some false; line = unmarks }

unfoldable pub thread_line : Bool → Line → Running → Passed Running
thread_line made makes_event r =
    if made then goes_on (record r { stop_event = some false; line = marks }) else crashes
thread_line made marks r = goes_on (record r { is_running = true; line = loops })
thread_line made loops r = goes_on (wait_stop r.stop_event r)
thread_line made unmarks r = goes_on (record r { is_running = false; line = ended })
thread_line made ended r = goes_on r

-- SetEvent; without an event it fails.
unfoldable pub stop_timer_manager : Option Bool → Option Bool
stop_timer_manager none = none
stop_timer_manager (some set) = some true

-- The thread has ended, so that it can be joined.
unfoldable pub join : Line → Destructor
join ended = joined
join makes_event = joins
join marks = joins
join loops = joins
join unmarks = joins

unfoldable pub destructor_line : Destructor → Running → Running
destructor_line alive r = record r { destructor = if r.is_running then stops else joins }
destructor_line stops r = record r {
  stop_event = stop_timer_manager r.stop_event;
  destructor = joins;
}
destructor_line joins r = record r { destructor = join r.line }
destructor_line joined r = r

abbrev pub constructed : Running
constructed = record {
  line = makes_event;
  stop_event = none;
  is_running = false;
  destructor = alive;
}

pub data Step : Running → Running → Type 0 where
  thread_runs : (made : Bool) (r r' : Running) → thread_line made r.line r ≡ goes_on r' → Step r r'
  destructor_runs : (r : Running) → Step r (destructor_line r.destructor r)

pub data Reachable : Running → Type 0 where
  starts : Reachable constructed
  steps : (r r' : Running) → Reachable r → Step r r' → Reachable r'

-- Any number of steps later.
pub data Later : Running → Running → Type 0 where
  now : (r : Running) → Later r r
  then_step : (r r' r'' : Running) → Later r r' → Step r' r'' → Later r r''

-- How the thread stands while nobody has stopped it.
abbrev Unstopped : Line → Option Bool → Bool → Type 0
Unstopped makes_event e b = (e ≡ none) × (b ≡ false)
Unstopped marks e b = (e ≡ some false) × (b ≡ false)
Unstopped loops e b = (e ≡ some false) × (b ≡ true)
Unstopped unmarks e b = ⊥
Unstopped ended e b = ⊥

abbrev IsUnstopped : Running → Type 0
IsUnstopped r = Unstopped r.line r.stop_event r.is_running

-- Where a line does not crash, this holds behind it.
abbrev Goes : (Running → Type 0) → Passed Running → Type 0
Goes P crashes = Unit
Goes P (goes_on r) = P r

Goes-elim :
    (P : Running → Type 0) (p : Passed Running) (r : Running) → Goes P p → p ≡ goes_on r → P r
Goes-elim P p r g e = subst (Goes P) e g

thread_line-IsUnstopped :
    (made : Bool) (l : Line) (r : Running)
    → r.line ≡ l
    → Unstopped l r.stop_event r.is_running
    → Goes (λ r'. IsUnstopped r' × (r'.destructor ≡ r.destructor)) (thread_line made l r)
unfolding thread_line wait_stop
thread_line-IsUnstopped true makes_event r at_l (none_yet, off) = ((refl, off), refl)
thread_line-IsUnstopped false makes_event r at_l u = tt
thread_line-IsUnstopped made marks r at_l (unset, off) = ((unset, refl), refl)
thread_line-IsUnstopped made loops r at_l (unset, on) =
    subst
      (λ e. Goes (λ r'. IsUnstopped r' × (r'.destructor ≡ r.destructor)) (goes_on (wait_stop e r)))
      (sym unset) (subst (λ l. Unstopped l r.stop_event r.is_running) (sym at_l) (unset, on), refl)
thread_line-IsUnstopped made unmarks r at_l u = absurd u
thread_line-IsUnstopped made ended r at_l u = absurd u

-- How the thread stands once the destructor waits for it without having stopped it.
abbrev Deaf : Line → Option Bool → Type 0
Deaf makes_event e = Unit
Deaf marks e = e ≡ some false
Deaf loops e = e ≡ some false
Deaf unmarks e = ⊥
Deaf ended e = ⊥

abbrev IsDeaf : Running → Type 0
IsDeaf r = (r.destructor ≡ joins) × Deaf r.line r.stop_event

thread_line-IsDeaf :
    (made : Bool) (l : Line) (r : Running)
    → r.line ≡ l
    → r.destructor ≡ joins
    → Deaf l r.stop_event
    → Goes IsDeaf (thread_line made l r)
unfolding thread_line wait_stop
thread_line-IsDeaf true makes_event r at_l j d = (j, refl)
thread_line-IsDeaf false makes_event r at_l j d = tt
thread_line-IsDeaf made marks r at_l j unset = (j, unset)
thread_line-IsDeaf made loops r at_l j unset =
    subst (λ e. Goes IsDeaf (goes_on (wait_stop e r))) (sym unset)
      (j, subst (λ l. Deaf l r.stop_event) (sym at_l) unset)
thread_line-IsDeaf made unmarks r at_l j d = absurd d
thread_line-IsDeaf made ended r at_l j d = absurd d

join-Deaf : (l : Line) (e : Option Bool) → Deaf l e → join l ≡ joins
unfolding join
join-Deaf makes_event e d = refl
join-Deaf marks e d = refl
join-Deaf loops e d = refl
join-Deaf unmarks e d = absurd d
join-Deaf ended e d = absurd d

Step-IsDeaf : (r r' : Running) → Step r r' → IsDeaf r → IsDeaf r'
unfolding destructor_line
Step-IsDeaf r r' (thread_runs made _ _ e) (j, d) =
    Goes-elim IsDeaf (thread_line made r.line r) r' (thread_line-IsDeaf made r.line r refl j d) e
Step-IsDeaf r _ (destructor_runs _) (j, d) =
    subst (λ k. IsDeaf (destructor_line k r)) (sym j) (join-Deaf r.line r.stop_event d, d)

Later-IsDeaf : (r r' : Running) → Later r r' → IsDeaf r → IsDeaf r'
Later-IsDeaf r _ (now _) d = d
Later-IsDeaf r r'' (then_step _ r' _ l s) d = Step-IsDeaf r' r'' s (Later-IsDeaf r r' l d)

wait_stop-destructor : (e : Option Bool) (r : Running) → (wait_stop e r).destructor ≡ r.destructor
unfolding wait_stop
wait_stop-destructor none r = refl
wait_stop-destructor (some false) r = refl
wait_stop-destructor (some true) r = refl

thread_line-destructor :
    (made : Bool) (l : Line) (r : Running)
    → Goes (λ k. k.destructor ≡ r.destructor) (thread_line made l r)
unfolding thread_line
thread_line-destructor true makes_event r = refl
thread_line-destructor false makes_event r = tt
thread_line-destructor made marks r = refl
thread_line-destructor made loops r = wait_stop-destructor r.stop_event r
thread_line-destructor made unmarks r = refl
thread_line-destructor made ended r = refl

join-alive : (l : Line) → join l ≢ alive
unfolding join
join-alive makes_event e = absurd (cc e)
join-alive marks e = absurd (cc e)
join-alive loops e = absurd (cc e)
join-alive unmarks e = absurd (cc e)
join-alive ended e = absurd (cc e)

destructor_line-alive :
    (d : Destructor) (r : Running) → r.destructor ≡ d → (destructor_line d r).destructor ≢ alive
unfolding destructor_line
destructor_line-alive alive r at_d e = elim (Bool-cases r.is_running) [
  | inl y ↦ absurd (cc (rw y at e))
  | inr n ↦ absurd (cc (rw n at e))
]
destructor_line-alive stops r at_d e = absurd (cc e)
destructor_line-alive joins r at_d e = join-alive r.line e
destructor_line-alive joined r at_d e = absurd (cc (sym at_d ∙ e))

Reachable-IsUnstopped : (r : Running) → Reachable r → r.destructor ≡ alive → IsUnstopped r
Reachable-IsUnstopped _ starts a = (refl, refl)
Reachable-IsUnstopped r' (steps r _ before (thread_runs made _ _ e)) a =
    let here : r.destructor ≡ alive =
      sym (
        Goes-elim (λ k. k.destructor ≡ r.destructor) (thread_line made r.line r) r'
          (thread_line-destructor made r.line r) e)
      ∙ a in
    (Goes-elim (λ k. IsUnstopped k × (k.destructor ≡ r.destructor)) (thread_line made r.line r) r'
      (thread_line-IsUnstopped made r.line r refl (Reachable-IsUnstopped r before here)) e).0
Reachable-IsUnstopped _ (steps r _ before (destructor_runs _)) a =
    absurd (destructor_line-alive r.destructor r refl a)

-- While the thread has not marked itself as running, the destructor does not stop it and waits for it
-- for ever: in whatever order the two go on, it still waits.
pub destructor-joins :
    (r r' : Running)
    → Reachable r
    → r.destructor ≡ alive
    → r.is_running ≡ false
    → Later (destructor_line alive r) r'
    → r'.destructor ≡ joins
unfolding destructor_line
destructor-joins r r' before a off l =
    (Later-IsDeaf (destructor_line alive r) r' l
      (rw off refl, deaf r.line r.stop_event r.is_running (Reachable-IsUnstopped r before a) off)).0
  where
    deaf : (l : Line) (e : Option Bool) (b : Bool) → Unstopped l e b → b ≡ false → Deaf l e
    deaf makes_event e b u off = tt
    deaf marks e b u off = u.0
    deaf loops e b u off = u.0
    deaf unmarks e b u off = absurd u
    deaf ended e b u off = absurd u

abbrev waiting : Running
waiting = record { line = loops; stop_event = some false; is_running = true; destructor = alive }

-- The destructor stops the thread, which meets the event and ends, and is joined.
waiting-joined : (r : Running) × Later waiting r × (r.destructor ≡ joined)
unfolding destructor_line thread_line wait_stop join stop_timer_manager
waiting-joined =
    let stopped : Running = record {
      line = loops;
      stop_event = some true;
      is_running = true;
      destructor = joins;
    } in
    let met : Running = record {
      line = unmarks;
      stop_event = some false;
      is_running = true;
      destructor = joins;
    } in
    let over : Running = record {
      line = ended;
      stop_event = some false;
      is_running = false;
      destructor = joins;
    } in
    (
      record over { destructor = joined },
      then_step waiting over _
          (then_step waiting met over
            (then_step waiting stopped met
              (then_step waiting (record waiting { destructor = stops }) stopped
                (then_step waiting waiting _ (now waiting) (destructor_runs waiting))
                (destructor_runs (record waiting { destructor = stops })))
              (thread_runs true stopped met refl))
            (thread_runs true met over refl))
          (destructor_runs over),
      refl,
    )

-- Once the thread has marked itself as running, the destructor can stop it and be done.
destructor-joined :
    (r : Running)
    → Reachable r
    → r.destructor ≡ alive
    → r.is_running ≡ true
    → (r' : Running) × Later r r' × (r'.destructor ≡ joined)
destructor-joined r before a on =
    subst (λ k. (r' : Running) × Later k r' × (r'.destructor ≡ joined))
      (sym (whole r.line r.stop_event refl refl (Reachable-IsUnstopped r before a))) waiting-joined
  where
    whole :
        (l : Line) (e : Option Bool)
        → r.line ≡ l
        → r.stop_event ≡ e
        → Unstopped l e r.is_running
        → r ≡ waiting
    whole makes_event e at_l is_e u = absurd (cc (sym u.1 ∙ on))
    whole marks e at_l is_e u = absurd (cc (sym u.1 ∙ on))
    whole loops e at_l is_e u = λ i. record {
      line = at_l i;
      stop_event = (is_e ∙ u.0) i;
      is_running = on i;
      destructor = a i;
    }
    whole unmarks e at_l is_e u = absurd u
    whole ended e at_l is_e u = absurd u
