-- ===== src/AuthServer/DbThread/Events.antt =====
-- When the threads of AuthDBThreadManager wake.
use dding_game_server.Prelude.{
  ℕ, zero, suc, ◌+◌, ◌≡◌, refl, sym, ap, ◌∙◌, true, false, List, [], ◌∷◌, ◌++◌, append_assoc,
  append-nil, arith,
}
use dding_game_server.Rio.Types.{ok}
use dding_game_server.DbServer.Connections.{DbConnection}
use dding_game_server.AuthServer.DbThread.{
  Job, DbThreads, insert_db_job, stop_threads, start_threads, Step, Steps, inserts, stops, works,
  ends, stays, goes_on,
}

-- While the event for jobs is not set, it is not set by any step, no query is sent, no connection is
-- taken and no job leaves the list.
record IsIdle (sv sv' : DbThreads) : Type 0 where
  job_event : sv'.db_job_event ≡ false
  no_query : sv'.effects ≡ sv.effects
  no_connection : sv'.connections ≡ sv.connections
  kept : (jobs : List Job) × (sv'.db_job_list ≡ sv.db_job_list ++ jobs)

Step-IsIdle :
    (released : DbConnection → DbConnection) (sv sv' : DbThreads)
    → sv.db_job_event ≡ false
    → Step released sv sv'
    → IsIdle sv sv'
unfolding insert_db_job stop_threads
Step-IsIdle released sv sv' f (inserts job _) = record {
  job_event = f;
  no_query = refl;
  no_connection = refl;
  kept = (job ∷ [], refl);
}
Step-IsIdle released sv sv' f (stops _) = record {
  job_event = f;
  no_query = refl;
  no_connection = refl;
  kept = ([], sym (append-nil _));
}
Step-IsIdle released sv sv' f (works n fuel _ _ w e h) = absurd (cc (e, f))
Step-IsIdle released sv sv' f (ends n _ w e s) = record {
  job_event = f;
  no_query = refl;
  no_connection = refl;
  kept = ([], sym (append-nil _));
}

Steps-IsIdle :
    (released : DbConnection → DbConnection) (sv sv' : DbThreads)
    → sv.db_job_event ≡ false
    → Steps released sv sv'
    → IsIdle sv sv'
Steps-IsIdle released sv _ f (stays _) = record {
  job_event = f;
  no_query = refl;
  no_connection = refl;
  kept = ([], sym (append-nil _));
}
Steps-IsIdle released sv sv'' f (goes_on _ sv' _ s rest) =
    let one = Step-IsIdle released sv sv' f s in
    let more = Steps-IsIdle released sv' sv'' one.job_event rest in
    record {
      job_event = more.job_event;
      no_query = more.no_query ∙ one.no_query;
      no_connection = more.no_connection ∙ one.no_connection;
      kept = (
        one.kept.0 ++ more.kept.0,
        more.kept.1
            ∙ ap (λ js. js ++ more.kept.0) one.kept.1
            ∙ append_assoc sv.db_job_list one.kept.0 more.kept.0,
      );
    }

-- Once the threads are started, no job is ever run, whatever is inserted and whenever they are
-- stopped: no query is sent and no connection is taken, and the jobs stay in the list, since
-- nothing sets the event that the threads wait for.
pub start_threads-idle :
    (released : DbConnection → DbConnection) (n : ℕ) (sv started sv' : DbThreads)
    → start_threads true n sv ≡ ok (true, started)
    → Steps released started sv'
    → (sv'.effects ≡ sv.effects)
      × (sv'.connections ≡ sv.connections)
      × ((jobs : List Job) × (sv'.db_job_list ≡ sv.db_job_list ++ jobs))
unfolding start_threads
start_threads-idle released n sv started sv' s steps =
    let idle = Steps-IsIdle released started sv' (ground (arith, s)) steps in
    (
      idle.no_query ∙ ground (arith, s),
      idle.no_connection ∙ ground (arith, s),
      (idle.kept.0, idle.kept.1 ∙ ap (λ js. js ++ idle.kept.0) (ground (arith, s))),
    )

-- The threads end one after another once StopThreads has set its event and no job event is set.
stops_all :
    (released : DbConnection → DbConnection) (n : ℕ) (sv : DbThreads)
    → sv.waiting ≡ n
    → sv.db_job_event ≡ false
    → sv.stop_event ≡ true
    → (sv' : DbThreads) × Steps released sv sv' × (sv'.waiting ≡ 0) × (sv'.ended ≡ sv.ended + n)
stops_all released zero sv w e s = (sv, stays sv, w, omega arith)
stops_all released (suc n) sv w e s =
    let next = record sv { waiting = n; ended = sv.ended + 1; stop_event = true } in
    let (sv', steps, none_left, count) = stops_all released n next refl e refl in
    (sv', goes_on sv next sv' (ends n sv w e s) steps, none_left, omega (arith, count))

-- From any state in which no job event is set, StopThreads lets every waiting thread end: each that
-- wakes sets the event again for the next one.
pub stop_threads-ends :
    (released : DbConnection → DbConnection) (sv : DbThreads)
    → sv.db_job_event ≡ false
    → (sv' : DbThreads) × Steps released (stop_threads sv) sv'
      × (sv'.waiting ≡ 0)
      × (sv'.ended ≡ sv.ended + sv.waiting)
unfolding stop_threads
stop_threads-ends released sv e =
    stops_all released sv.waiting (record sv { stop_event = true }) refl e refl
