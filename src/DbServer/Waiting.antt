-- ===== src/DbServer/Waiting.antt =====
-- Which batches of DBServer are ever done.
use dding_game_server.Prelude.{
  ℕ, ◌≡◌, ◌≢◌, refl, sym, ap, ◌∙◌, true, false, inl, inr, ◌⊎◌, Option, none, some, [], ◌∷◌, ◌++◌,
  ◌==◌, arith, Bool-cases, Option-cases,
}
use dding_game_server.Prelude.Map
use dding_game_server.Prelude.Map.{find-erase, find-insert_self, find-insert_ne}
use dding_game_server.DbServer.Batches.{
  DbServer, BatchedDbJob, Odbc, Packet, batch_start, item, insert_batch_job,
  is_batch_job_waiting_job, add_item, add_item_for_job_start, do_batched_job, run_jobs,
  procedure_handle_impl, before_item, handle_item, handle_packet, prints_invalid_job,
  autocommit_off, autocommit_on, runs_job, commits, replies, frees_connection,
}

-- No batch of the map has a job yet.
unfoldable pub IsFresh : DbServer → Type 0
IsFresh sv =
    (key : ℕ) (b : BatchedDbJob) → Map.find key sv.batched_db_job_map ≡ some b → b.buffer_list ≡ []

do_batched_job-map :
    (db : Odbc) (request key : ℕ) (b : BatchedDbJob) (sv sv' : DbServer)
    → do_batched_job db request key b sv ≡ some sv'
    → sv'.batched_db_job_map ≡ sv.batched_db_job_map
unfolding do_batched_job
do_batched_job-map db request key b sv sv' e = ground arith

add_item-map :
    (db : Odbc) (request key : ℕ) (buffer : ℕ × ℕ) (o : Option BatchedDbJob) (sv sv' : DbServer)
    → add_item db request key buffer o sv ≡ some sv'
    → (sv'.batched_db_job_map ≡ sv.batched_db_job_map)
      ⊎ (sv'.batched_db_job_map ≡ Map.erase key sv.batched_db_job_map)
unfolding add_item
add_item-map db request key buffer none sv sv' e = inl (ground arith)
add_item-map db request key buffer (some b) sv sv' e = inr (
    ground (
      arith,
      do_batched_job-map db request key (record b { buffer_list = b.buffer_list ++ buffer ∷ [] })
          (record sv { batched_db_job_map = Map.erase key sv.batched_db_job_map }) sv',
    ))

handle_item-IsFresh :
    (db : Odbc) (request key : ℕ) (buffer : ℕ × ℕ) (sv sv' : DbServer)
    → IsFresh sv
    → handle_item db request key buffer sv ≡ some sv'
    → IsFresh sv'
unfolding IsFresh handle_item add_item_for_job_start
handle_item-IsFresh db request key buffer sv sv' h e j b f =
    elim (Bool-cases (is_batch_job_waiting_job key sv)) [
      | inl w ↦
          elim (add_item-map db request key buffer (Map.find key sv.batched_db_job_map) sv sv'
            (rw w at e)) [
              | inl same ↦ h j b (ap (λ m. Map.find j m) (sym same) ∙ f)
              | inr less ↦ ground (
                arith,
                find-erase key j sv.batched_db_job_map,
                less,
                h j b,
                ap (λ m. Map.find j m) less,
              )
            ]
      | inr w ↦ ground (arith, h j b)
    ]

procedure_handle_impl-map :
    (db : Odbc) (packet_id : ℕ) (sv sv' : DbServer)
    → procedure_handle_impl db packet_id sv ≡ some sv'
    → sv'.batched_db_job_map ≡ sv.batched_db_job_map
unfolding procedure_handle_impl
procedure_handle_impl-map db packet_id sv sv' e = ground arith

insert_batch_job-IsFresh :
    (key session size : ℕ) (sv : DbServer)
    → IsFresh sv
    → IsFresh (insert_batch_job key session size sv)
unfolding IsFresh insert_batch_job Map.insert Map.find
insert_batch_job-IsFresh key session size sv h j b f = ground (arith, h j b)

before_item-IsFresh :
    (db : Odbc) (key packet_id : ℕ) (sv t : DbServer)
    → IsFresh sv
    → before_item db key packet_id sv ≡ some t
    → IsFresh t
unfolding before_item IsFresh
before_item-IsFresh db key packet_id sv t h e j b f =
    ground (arith, procedure_handle_impl-map db packet_id sv t, h j b)

-- Between two packets no batch that waits in the map has a job: a packet that is handled without
-- a crash keeps it so.
handle_packet-IsFresh :
    (db : Odbc) (request : ℕ) (p : Packet) (sv sv' : DbServer)
    → IsFresh sv
    → handle_packet db request p sv ≡ some sv'
    → IsFresh sv'
unfolding handle_packet IsFresh
handle_packet-IsFresh db request (batch_start key session size) sv sv' h e =
    λ j b f. ground (arith, insert_batch_job-IsFresh key session size sv h j b)
handle_packet-IsFresh db request (item key packet_id buffer) sv sv' h e =
    elim (Option-cases (before_item db key packet_id sv)) [
      | inl n ↦ absurd (ground (arith, n))
      | inr (t, q) ↦
          handle_item-IsFresh db request key (packet_id, buffer) t sv'
            (before_item-IsFresh db key packet_id sv t h q) (ground (arith, q))
    ]

-- While no waiting batch has a job yet, a batch of more than one job, or of none, whose key is not 0
-- is never done. Its first job takes it out of the map
-- with nothing run and no reply, and the next job with its key is told to be invalid.
pub handle_packet-lost :
    (db : Odbc) (request key packet_id buffer packet_id' buffer' : ℕ) (b : BatchedDbJob)
    (sv : DbServer)
    → key ≢ 0
    → IsFresh sv
    → Map.find key sv.batched_db_job_map ≡ some b
    → b.batch_size ≢ 1
    → (sv' : DbServer) × (handle_packet db request (item key packet_id buffer) sv ≡ some sv')
      × (sv'.effects ≡ sv.effects)
      × (is_batch_job_waiting_job key sv' ≡ false)
      × (handle_packet db request (item key packet_id' buffer') sv'
          ≡ some (record sv' { effects = prints_invalid_job request packet_id' ∷ sv'.effects }))
unfolding IsFresh handle_packet before_item handle_item is_batch_job_waiting_job
    add_item_for_job_start add_item
handle_packet-lost db request key packet_id buffer packet_id' buffer' b sv nz h f more = (
  gone,
  rw
      (
        zero_lem,
        f,
        h key b f,
        size_lem,
        handle_packet,
        before_item,
        handle_item,
        is_batch_job_waiting_job,
        add_item_for_job_start,
        add_item,
      )
      refl,
  refl,
  rw (erased, is_batch_job_waiting_job) refl,
  rw
      (
        zero_lem, erased, handle_packet, before_item, handle_item, is_batch_job_waiting_job,
        add_item_for_job_start, add_item,
      )
      refl,
)
  where
    gone : DbServer
    gone = record sv { batched_db_job_map = Map.erase key sv.batched_db_job_map }

    erased : Map.find key (Map.erase key sv.batched_db_job_map) ≡ none
    erased = ground (arith, find-erase key key sv.batched_db_job_map)

    zero_lem : (key == 0) ≡ false
    zero_lem = ground arith

    size_lem : (b.batch_size == 1) ≡ false
    size_lem = ground arith

-- A batch of one job, under a key that is not 0 and not taken, is done when its job comes, if the
-- connection and the calls of the driver succeed: the job is run, and the reply says that it
-- succeeded and is committed, whatever the job's own result.
handle_packet-single :
    (request key session packet_id buffer : ℕ) (sv : DbServer)
    → key ≢ 0
    → Map.find key sv.batched_db_job_map ≡ none
    → (let db : Odbc = record { connected = true; switched = true; ended = true } in
        (sv' : DbServer) × (handle_packet db request (batch_start key session 1) sv ≡ some sv')
        × ((sv'' : DbServer) × (handle_packet db request (item key packet_id buffer) sv'
              ≡ some sv'')
            × (is_batch_job_waiting_job key sv'' ≡ false)
            × (sv''.effects
                ≡ frees_connection
                  ∷ autocommit_on
                  ∷ replies request key true
                  ∷ commits
                  ∷ runs_job (packet_id, buffer)
                  ∷ autocommit_off
                  ∷ sv.effects)))
unfolding handle_packet before_item handle_item is_batch_job_waiting_job add_item_for_job_start
    add_item insert_batch_job do_batched_job run_jobs
handle_packet-single request key session packet_id buffer sv nz n = (
  insert_batch_job key session 1 sv,
  refl,
  (
    record sv {
      batched_db_job_map = Map.erase key (Map.insert key b sv.batched_db_job_map);
      effects =
          frees_connection
          ∷ autocommit_on
          ∷ replies request key true
          ∷ commits
          ∷ runs_job (packet_id, buffer)
          ∷ autocommit_off
          ∷ sv.effects;
    },
    rw
        (
          zero_lem, found, handle_packet, before_item, handle_item, is_batch_job_waiting_job,
          add_item_for_job_start, add_item,
        )
        refl,
    rw (erased, is_batch_job_waiting_job) refl,
    refl,
  ),
)
  where
    b : BatchedDbJob
    b = record { batch_size = 1; session_id = session; buffer_list = [] }

    zero_lem : (key == 0) ≡ false
    zero_lem = ground arith

    found : Map.find key (Map.insert key b sv.batched_db_job_map) ≡ some b
    found = find-insert_self key b sv.batched_db_job_map n

    erased : Map.find key (Map.erase key (Map.insert key b sv.batched_db_job_map)) ≡ none
    erased = ground (arith, find-erase key key (Map.insert key b sv.batched_db_job_map))
