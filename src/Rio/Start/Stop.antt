-- ===== src/Rio/Start/Stop.antt =====
-- RIOServer::StopServer, and how main of DdingGameServer/RIO_Core/main.cpp and of
-- GameServer/GameServer/main.cpp ends.
use dding_game_server.Prelude.{
  ℕ, zero, suc, ◌⊎◌, inl, inr, ◌≡◌, refl, Bool, true, false, List, [], ◌∷◌, replicate,
}

-- What stops the process: a `join` of a thread that was joined throws, and an array is deleted twice.
pub data StopFault : Type 0 where
  joins_twice deletes_twice : StopFault

pub data Stopped {ℓ} (A : Type ℓ) : Type ℓ where
  stopped : A → Stopped A
  faults : StopFault → Stopped A

infixl 5 ◌>>=◌
abbrev ◌>>=◌ {ℓ κ} : {A : Type ℓ} {B : Type κ} → Stopped A → (A → Stopped B) → Stopped B
stopped a >>= f = f a
faults e >>= f = faults e

-- The members that StopServer uses. A thread is joinable until it is joined; the workers leave their
-- loops once serverStop is set.
pub record Running : Type 0 where
  pub listening : Bool
  pub server_stop : Bool
  pub worker_threads : List Bool
  pub has_arrays : Bool

-- Behind StartServer.
abbrev pub running : ℕ → Running
running threads = record {
  listening = true;
  server_stop = false;
  worker_threads = replicate threads true;
  has_arrays = true;
}

unfoldable pub join_all : List Bool → Stopped (List Bool)
join_all [] = stopped []
join_all (true ∷ ts) = do ts' ← join_all ts; stopped (false ∷ ts')
join_all (false ∷ ts) = faults joins_twice

unfoldable pub delete_arrays : Bool → List Bool → Stopped Running
delete_arrays true threads =
    stopped (record {
      listening = false;
      server_stop = true;
      worker_threads = threads;
      has_arrays = false;
    })
delete_arrays false threads = faults deletes_twice

unfoldable pub stop_server : Running → Stopped Running
stop_server r = do threads ← join_all r.worker_threads; delete_arrays r.has_arrays threads

-- Escape is pressed: the loop stops the server and ends, and the server is stopped behind it.
unfoldable pub main_end : Running → Stopped Running
main_end r = do r' ← stop_server r; stop_server r'

join_all-running : (n : ℕ) → join_all (replicate n true) ≡ stopped (replicate n false)
unfolding join_all
join_all-running zero = refl
join_all-running (suc n) = rw (join_all-running n) refl

-- StopServer of a running server ends, with every worker joined; main, which calls it once more,
-- does not end: it joins a worker that was joined, or, if the option file asks for no worker, deletes an
-- array twice.
stop_server-main_end :
    (n : ℕ)
    → (stop_server (running n)
        ≡ stopped (record {
          listening = false;
          server_stop = true;
          worker_threads = replicate n false;
          has_arrays = false;
        }))
      × ((main_end (running n) ≡ faults joins_twice)
          ⊎ (main_end (running n) ≡ faults deletes_twice))
unfolding stop_server main_end join_all delete_arrays
stop_server-main_end zero = (refl, inr refl)
stop_server-main_end (suc n) =
    rw (join_all-running n, stop_server, main_end, join_all, delete_arrays) (refl, inl refl)
