-- ===== src/Rio/Counting/Defs.antt =====
-- What `ioCount` and `ioMode` of RIOSession mean: the invariant over the server's state.
use dding_game_server.Prelude.{
  ℕ, ◌+◌, ◌≤◌, ◌<◌, ◌≡◌, refl, Bool, true, false, ◌&&◌, not, some, List, [], ◌∷◌, ◌++◌, ◌==◌,
  if◌then◌else◌, arith,
}
use dding_game_server.Prelude.Map
use dding_game_server.Rio.Types.{
  RioLib, Session, Server, IoContext, RioOperationType, op_recv, io_none_sending,
}

unfoldable pub is_recv : RioOperationType → Bool
is_recv op_recv = true
is_recv _ = false

-- 1 for a context of the session that is a receive, or that is none.
unfoldable pub recv_one : ℕ → IoContext → ℕ
recv_one id c = if c.owner_session_id == id && is_recv c.io_type then 1 else 0

unfoldable pub send_one : ℕ → IoContext → ℕ
send_one id c = if c.owner_session_id == id && not (is_recv c.io_type) then 1 else 0

-- The receives, and the other requests, that the kernel holds for a session.
unfoldable pub recv_out : ℕ → List IoContext → ℕ
recv_out id [] = 0
recv_out id (c ∷ cs) = recv_one id c + recv_out id cs

unfoldable pub send_out : ℕ → List IoContext → ℕ
send_out id [] = 0
send_out id (c ∷ cs) = send_one id c + send_out id cs

pub recv_out-middle :
    (id : ℕ) (c : IoContext) (xs ys : List IoContext)
    → recv_out id (xs ++ c ∷ ys) ≡ recv_one id c + recv_out id (xs ++ ys)
unfolding recv_out
recv_out-middle id c [] ys = refl
recv_out-middle id c (x ∷ xs) ys = omega (arith, recv_out-middle id c xs ys)

pub send_out-middle :
    (id : ℕ) (c : IoContext) (xs ys : List IoContext)
    → send_out id (xs ++ c ∷ ys) ≡ send_one id c + send_out id (xs ++ ys)
unfolding send_out
send_out-middle id c [] ys = refl
send_out-middle id c (x ∷ xs) ys = omega (arith, send_out-middle id c xs ys)

-- `k` counts that a running call holds for session `me`, and none for the others.
abbrev pub held : ℕ → ℕ → ℕ → ℕ
held me k id = if id == me then k else 0

module _ ⦃lib : RioLib⦄ where
  -- A session in the map whose count is right, with `k` counts held by a running call.
  pub record Sound (k id : ℕ) (s : Session) (ps : List IoContext) : Type 0 where
    pub named : s.session_id ≡ id
    pub counted : s.io_count ≡ recv_out id ps + send_out id ps + k
    pub one_recv : recv_out id ps ≤ 1
    pub one_send : send_out id ps ≤ 1
    pub idle : s.send_item.io_mode ≡ io_none_sending → send_out id ps ≡ 0
    pub kept : 1 ≤ recv_out id ps + send_out id ps + k

  pub record Counted (me k : ℕ) (sv : Server) : Type 0 where
    pub sound :
        (id a : ℕ)
        → Map.find id sv.session_map ≡ some a
        → Sound (held me k id) id (sv.heap a) sv.posted
    pub placed : (id a : ℕ) → Map.find id sv.session_map ≡ some a → a < sv.next_address
    pub young : (id a : ℕ) → Map.find id sv.session_map ≡ some a → id ≤ sv.next_session_id
    pub owners :
        (id : ℕ)
        → sv.next_session_id < id
        → (recv_out id sv.posted ≡ 0) × (send_out id sv.posted ≡ 0)

  -- The address is that of session `me`, and of no other object that the map holds under its id.
  pub record Owns (me a : ℕ) (sv : Server) : Type 0 where
    pub named : (sv.heap a).session_id ≡ me
    pub only : (b : ℕ) → Map.find me sv.session_map ≡ some b → b ≡ a

  -- What holds while a call with `k` counts of session `me`, at address `a`, is under way; the
  -- kernel holds `r` receives for it.
  pub record Running (me k a r : ℕ) (sv : Server) : Type 0 where
    pub counts : Counted me k sv
    pub owns : Owns me a sv
    pub known : me ≤ sv.next_session_id
    pub receives : recv_out me sv.posted ≡ r
