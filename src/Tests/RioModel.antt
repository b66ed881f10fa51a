-- ===== src/Tests/RioModel.antt =====
-- A concrete instance of the libraries that DdingGameServer/RIO_Core/RIOServer.cpp uses: lists for its
-- queues, and packets that are their bytes.
use dding_game_server.Prelude.{
  ℕ, ◌-◌, ◌≡◌, refl, ap, true, Option, none, some, List, [], ◌∷◌, ◌++◌, length, take, drop, arith,
}
use dding_game_server.Rio.Types.{RioLib}

abbrev header_of : List ℕ → ℕ × ℕ
header_of (c ∷ n ∷ bs) = (c, n)
header_of bs = (0, 0)

abbrev front : List (List ℕ) → Option (List ℕ × List (List ℕ))
front [] = none
front (p ∷ ps) = some (p, ps)

pub front-cons :
    (q : List (List ℕ)) (p : List ℕ) (ps : List (List ℕ))
    → q ≡ p ∷ ps
    → (q' : List (List ℕ)) × (front q ≡ some (p, q')) × (q' ≡ ps)
front-cons q p ps e = (ps, ap front e, refl)

abbrev pub test_lib : RioLib
test_lib = record {
  Packet = List ℕ;
  is_encoded = λ p. true;
  encode = λ p. p;
  all_use_size = length;
  buffer_bytes = λ p. p;
  header_code = 119;
  header_size = 2;
  default_size = 1000;
  read_header = header_of;
  decode = λ h p. some p;
  Queue = List (List ℕ);
  empty_queue = [];
  enqueue = λ p q. q ++ p ∷ [];
  dequeue = front;
  rest_size = length;
  contents = λ q. q;
  Ring = List ℕ;
  ring_max = 8192;
  empty_ring = [];
  fill = λ bs r. r ++ bs;
  move_write_pos = λ n r. r;
  use_size = length;
  free_size = λ r. 8192 - length r;
  peek = λ n r. take n r;
  remove_data = λ n r. drop n r;
  ring_dequeue = λ n r. (take n r, drop n r);
  not_broken_get_size = length;
  not_broken_put_size = λ r. 8192 - length r;
  unread = λ r. r;
  header_size_pos = omega arith;
  contents-empty_queue = refl;
  contents-enqueue = λ p q. refl;
  rest_size-contents = λ q. refl;
  dequeue-cons = front-cons;
  unread-empty_ring = refl;
  unread-fill = λ bs r h. refl;
  use_size-unread = λ r. refl;
  peek-unread = λ n r. refl;
  unread-remove_data = λ n r. refl;
  ring_dequeue-bytes = λ n r. refl;
  unread-ring_dequeue = λ n r. refl;
}
