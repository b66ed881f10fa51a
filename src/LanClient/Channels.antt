-- ===== src/LanClient/Channels.antt =====
-- Which channel a packet goes to: GetChannelId, GetFixedChannelId and SendPacketImpl's choice.
use dding_game_server.Prelude.{
  ℕ, zero, suc, ◌%◌, ◌≤◌, ◌<◌, ◌≡◌, refl, sym, ap, ◌∙◌, Option, none, some, List, [], ◌∷◌, arith,
  length, get_elem?, ◌==◌, if◌then◌else◌,
}
use native.Mathlib.Nat.{mod-lt, mod-eq_of_lt}
use dding_game_server.Prelude.Word.{inc64}

-- The members that LanClientOptionParsing fills, and `m_channelSelector`.
pub record Channels : Type 0 where
  pub num_of_worker_thread : ℕ
  pub num_of_using_worker_thread : ℕ
  pub channel_selector : ℕ

-- `a % n` of unsigned integers, with `none` for n = 0.
unfoldable pub modulo : ℕ → ℕ → Option ℕ
modulo a n = if n == 0 then none else some (a % n)

unfoldable pub get_channel_id : Channels → Option ℕ × Channels
get_channel_id c =
    let selector = inc64 c.channel_selector in
    (modulo selector c.num_of_worker_thread, record c { channel_selector = selector })

unfoldable pub get_fixed_channel_id : ℕ → Channels → Option ℕ
get_fixed_channel_id fixed_id c = modulo fixed_id c.num_of_using_worker_thread

-- `sessionList[channelId]`, `none` past its end.
unfoldable pub channel_session {ℓ} : {A : Type ℓ} → Option ℕ → List A → Option A
channel_session none sessions = none
channel_session (some i) sessions = get_elem? sessions i

get_elem?-past : {A : Type 0} (xs : List A) (i : ℕ) → length xs ≤ i → get_elem? xs i ≡ none
get_elem?-past [] i h = refl
get_elem?-past (x ∷ xs) zero h = absurd (omega arith)
get_elem?-past (x ∷ xs) (suc i) h = get_elem?-past xs i (omega arith)

get_elem?-inside :
    {A : Type 0} (xs : List A) (i : ℕ) → i < length xs → (x : A) × (get_elem? xs i ≡ some x)
get_elem?-inside [] i h = absurd (omega arith)
get_elem?-inside (x ∷ xs) zero h = (x, refl)
get_elem?-inside (x ∷ xs) (suc i) h = get_elem?-inside xs i (omega arith)

mod_small : (a n : ℕ) → a < n → a % n ≡ a
mod_small a n h = mod-eq_of_lt h

modulo-lt : (a n : ℕ) → 1 ≤ n → (modulo a n ≡ some (a % n)) × (a % n < n)
unfolding modulo
modulo-lt a n h = (ground arith, mod-lt a h)

-- With at least one and at most as many IOCP workers in use as there are sessions, a packet for a
-- fixed id goes to one session, and two ids that agree modulo the number of workers to the same.
get_fixed_channel_id-session :
    {A : Type 0} (fixed_id : ℕ) (c : Channels) (sessions : List A)
    → 1 ≤ c.num_of_using_worker_thread
    → c.num_of_using_worker_thread ≤ length sessions
    → ((s : A) × (channel_session (get_fixed_channel_id fixed_id c) sessions ≡ some s))
      × ((other : ℕ)
          → other % c.num_of_using_worker_thread ≡ fixed_id % c.num_of_using_worker_thread
          → get_fixed_channel_id other c ≡ get_fixed_channel_id fixed_id c)
unfolding get_fixed_channel_id channel_session
get_fixed_channel_id-session {A = A} fixed_id c sessions one enough = (
  (x, rw (m.0, channel_session) found),
  λ other e. (modulo-lt other c.num_of_using_worker_thread one).0 ∙ ap some e ∙ sym m.0,
)
  where
    m :
        (modulo fixed_id c.num_of_using_worker_thread
          ≡ some (fixed_id % c.num_of_using_worker_thread))
        × (fixed_id % c.num_of_using_worker_thread < c.num_of_using_worker_thread)
    m = modulo-lt fixed_id c.num_of_using_worker_thread one

    x : A
    x = (get_elem?-inside sessions (fixed_id % c.num_of_using_worker_thread) (omega (arith, m.1))).0

    found : get_elem? sessions (fixed_id % c.num_of_using_worker_thread) ≡ some x
    found =
        (get_elem?-inside sessions (fixed_id % c.num_of_using_worker_thread) (omega (arith, m.1))).1

-- With more worker threads than sessions, a packet for any channel is sent past the end of the
-- list of sessions as soon as the selector steps on the number of a session that does not exist.
get_channel_id-past :
    {A : Type 0} (c : Channels) (sessions : List A)
    → length sessions ≤ inc64 c.channel_selector
    → inc64 c.channel_selector < c.num_of_worker_thread
    → channel_session (get_channel_id c).0 sessions ≡ none
unfolding get_channel_id channel_session modulo
get_channel_id-past c sessions few next =
    rw (selected, channel_session) (get_elem?-past sessions (inc64 c.channel_selector) few)
  where
    selected :
        modulo (inc64 c.channel_selector) c.num_of_worker_thread ≡ some (inc64 c.channel_selector)
    selected = (modulo-lt _ _ (omega (arith, next))).0 ∙ ap some (mod_small _ _ next)
