-- ===== src/Core/DbJobs/Keys.antt =====
-- The key that a batch carries, and the key that it is registered under.
use dding_game_server.Prelude.{
  ℕ, ◌+◌, ◌*◌, ◌^◌, ◌≤◌, ◌<◌, ◌≡◌, refl, sym, subst, Bool, true, false, inl, inr, none, some, List,
  [], ◌∷◌, ◌==◌, leb, arith, Bool-cases, Option-cases, length, length-append,
}
use dding_game_server.Prelude.Map
use dding_game_server.Prelude.Map.{find-erase, find-put, find-insert_key}
use dding_game_server.Prelude.Word.{inc64}
use dding_game_server.Core.DbJobs.{
  DbJob, BatchedDbJob, DbJobManager, make_db_job, add_db_job, execute_job, execute_all,
  execute_batch_job, success, get_db_job_key, register_db_job, get_registed_db_job,
  deregister_db_job, new_batch, make_batched_db_job, drop_batch, add_to_batch, assemble_packet,
}

abbrev pub no_jobs : DbJobManager
no_jobs = record { job_key = 1; job_map = []; batches = [] }

-- What the program does with batches: before the keys run out, one is made, gets a job, or dies.
pub data Step : DbJobManager → DbJobManager → Type 0 where
  makes :
      (a owner : ℕ) (m : DbJobManager)
      → m.job_key + 2 < 2 ^ 64
      → Step m (make_batched_db_job a owner m)
  adds : (a : ℕ) (job : DbJob) (m : DbJobManager) → Step m (add_to_batch a job m)
  drops : (a : ℕ) (m : DbJobManager) → Step m (drop_batch a m)

pub data Reachable : DbJobManager → Type 0 where
  starts : Reachable no_jobs
  steps : (m m' : DbJobManager) → Reachable m → Step m m' → Reachable m'

abbrev IsOdd : ℕ → Type 0
IsOdd n = (h : ℕ) × (n ≡ 2 * h + 1)

abbrev IsEven : ℕ → Type 0
IsEven n = (h : ℕ) × (n ≡ 2 * h)

-- The batches carry the odd keys, and the map has the even ones; a batch has 16 jobs at most.
record Parted (m : DbJobManager) : Type 0 where
  next : IsOdd m.job_key
  carried :
      (a : ℕ) (b : BatchedDbJob)
      → Map.find a m.batches ≡ some b
      → IsOdd b.db_job_key × (length b.job_list ≤ 16)
  registered : (k a : ℕ) → Map.find k m.job_map ≡ some a → IsEven k

add_db_job-bound :
    (job : DbJob) (b : BatchedDbJob)
    → length b.job_list ≤ 16
    → ((add_db_job job b).1.db_job_key ≡ b.db_job_key) × (length (add_db_job job b).1.job_list ≤ 16)
unfolding add_db_job
add_db_job-bound job b h = elim (Bool-cases (leb 16 (length b.job_list))) [
  | inl e ↦ rw (e, add_db_job) (refl, h)
  | inr e ↦ rw (e, add_db_job) (refl, ground (arith, length-append b.job_list (job ∷ [])))
]

-- What a batch is that a write to the address `a` leaves at an address.
put-carried :
    (a j : ℕ) (v b : BatchedDbJob) (m : Map.Map BatchedDbJob)
    → IsOdd v.db_job_key × (length v.job_list ≤ 16)
    → ((c : ℕ) (d : BatchedDbJob)
        → Map.find c m ≡ some d
        → IsOdd d.db_job_key × (length d.job_list ≤ 16))
    → Map.find j (Map.put a v m) ≡ some b
    → IsOdd b.db_job_key × (length b.job_list ≤ 16)
put-carried a j v b m hv hm e = elim (Bool-cases (a == j)) [
  | inl y ↦ subst (λ (x : BatchedDbJob). IsOdd x.db_job_key × (length x.job_list ≤ 16)) (same y) hv
  | inr n ↦ hm j b (ground (arith, find-put a j v m))
]
  where
    same : (a == j) ≡ true → v ≡ b
    same y = ground (arith, find-put a j v m)

make-Parted :
    (a owner : ℕ) (m : DbJobManager)
    → m.job_key + 2 < 2 ^ 64
    → Parted m
    → Parted (make_batched_db_job a owner m)
unfolding make_batched_db_job register_db_job new_batch get_db_job_key
make-Parted a owner m room p = record {
  next = (p.next.0 + 1, omega (arith, p.next.1));
  carried = λ j b e.
      put-carried a j (record { job_list = []; owner = owner; db_job_key = m.job_key }) b m.batches
        (p.next, omega arith) p.carried e;
  registered = λ k c e. elim (find-insert_key (inc64 m.job_key) k a c m.job_map e) [
    | inl same ↦ (p.next.0 + 1, omega (arith, p.next.1, same))
    | inr old ↦ p.registered k c old
  ];
}

add-Parted : (a : ℕ) (job : DbJob) (m : DbJobManager) → Parted m → Parted (add_to_batch a job m)
unfolding add_to_batch
add-Parted a job m p = elim (Option-cases (Map.find a m.batches)) [
  | inl n ↦ rw (n, add_to_batch) p
  | inr (b, f) ↦
      rw (f, add_to_batch)
        record {
          next = p.next;
          carried = λ j d e.
              put-carried a j (add_db_job job b).1 d m.batches
                (
                  subst IsOdd (sym (add_db_job-bound job b (p.carried a b f).1).0)
                      (p.carried a b f).0,
                  (add_db_job-bound job b (p.carried a b f).1).1,
                )
                p.carried e;
          registered = p.registered;
        }
]

drop-Parted : (a : ℕ) (m : DbJobManager) → Parted m → Parted (drop_batch a m)
unfolding drop_batch deregister_db_job
drop-Parted a m p = elim (Option-cases (Map.find a m.batches)) [
  | inl n ↦ rw (n, drop_batch) p
  | inr (b, f) ↦
      rw (f, drop_batch)
        record {
          next = p.next;
          carried = λ j d e. p.carried j d (ground (arith, find-erase a j m.batches));
          registered =
              λ k c e. p.registered k c (ground (arith, find-erase b.db_job_key k m.job_map));
        }
]

Reachable-Parted : (m : DbJobManager) → Reachable m → Parted m
unfolding Map.find
Reachable-Parted _ starts = record {
  next = (0, refl);
  carried = λ a b e. absurd (ground arith);
  registered = λ k a e. absurd (ground arith);
}
Reachable-Parted _ (steps m _ before (makes a owner _ room)) =
    make-Parted a owner m room (Reachable-Parted m before)
Reachable-Parted _ (steps m _ before (adds a job _)) =
    add-Parted a job m (Reachable-Parted m before)
Reachable-Parted _ (steps m _ before (drops a _)) = drop-Parted a m (Reachable-Parted m before)

-- In every reachable state of the manager, no batch is registered under the key that it carries, so
-- that a reply for that key neither commits nor rolls back a job; and a batch has at most 16 jobs.
pub assemble_packet-own_key :
    (m : DbJobManager) (a : ℕ) (b : BatchedDbJob) (is_successed : Bool)
    → Reachable m
    → Map.find a m.batches ≡ some b
    → (get_registed_db_job b.db_job_key m ≡ none)
      × (assemble_packet b.db_job_key is_successed m ≡ [])
      × (length b.job_list ≤ 16)
unfolding get_registed_db_job assemble_packet
assemble_packet-own_key m a b is_successed before f =
    (unknown, rw (unknown, assemble_packet, get_registed_db_job) refl, (p.carried a b f).1)
  where
    p : Parted m
    p = Reachable-Parted m before

    unknown : Map.find b.db_job_key m.job_map ≡ none
    unknown = elim (Option-cases (Map.find b.db_job_key m.job_map)) [
      | inl n ↦ n
      | inr (c, e) ↦
          absurd (omega (arith, (p.carried a b f).0.1, (p.registered b.db_job_key c e).1))
    ]

-- The batch of the jobs with these names, as their constructors leave them.
abbrev pub fresh_jobs : List ℕ → List DbJob
fresh_jobs [] = []
fresh_jobs (n ∷ ns) = make_db_job n n ∷ fresh_jobs ns

abbrev pub nothing_sent : List ℕ → List Bool
nothing_sent [] = []
nothing_sent (n ∷ ns) = false ∷ nothing_sent ns

execute_all-fresh : (ns : List ℕ) → execute_all (fresh_jobs ns) ≡ some (nothing_sent ns)
unfolding execute_all execute_job make_db_job
execute_all-fresh [] = refl
execute_all-fresh (n ∷ ns) = rw (execute_all-fresh ns, execute_all, execute_job, make_db_job) refl

-- ExecuteBatchJob on jobs that their constructor has made sends none of them and returns success.
execute_batch_job-fresh :
    (ns : List ℕ) (owner key : ℕ)
    → execute_batch_job (record { job_list = fresh_jobs ns; owner = owner; db_job_key = key })
      ≡ some (success, nothing_sent ns)
unfolding execute_batch_job
execute_batch_job-fresh ns owner key = rw (execute_all-fresh ns, execute_batch_job) refl
