-- ===== src/GameServer/Creature.antt =====
-- GameServer/GameServer/Creature.cpp: the hit points of a creature. An `int` is a ℤ; a sum outside
-- the 32-bit range is undefined behaviour of the source, and `none` here.
use dding_game_server.Prelude.{
  ℕ, ◌+◌, ◌^◌, ◌≤◌, ◌<◌, ◌≡◌, refl, Bool, true, false, ◌||◌, inl, inr, Option, none, some, List,
  ◌∷◌, ltb, if◌then◌else◌, arith, Bool-cases,
}
use dding_game_server.Prelude.Int.{ℤ, pos, negsuc, pos_part, ◌+ℤ◌, ◌-ℤ◌, ◌≤ℤ◌, ltb_ℤ}

-- The virtual calls that the derived classes fill in.
pub data Event : Type 0 where
  on_died on_revived : Event

pub record Creature : Type 0 where
  pub max_hp : ℤ
  pub now_hp : ℤ
  pub is_alive : Bool
  pub events : List Event

-- The value of an `int` expression.
unfoldable pub to_int : ℤ → Option ℤ
to_int (pos n) = if ltb n (2 ^ 31) then some (pos n) else none
to_int (negsuc n) = if ltb n (2 ^ 31) then some (negsuc n) else none

unfoldable pub dies : Creature → Creature
dies c = record c { now_hp = pos 0; is_alive = false; events = on_died ∷ c.events }

unfoldable pub set_hp : ℤ → Creature → Creature
unfolding dies
set_hp new_hp c =
    if c.is_alive
    then (if ltb_ℤ c.max_hp new_hp
        then record c { now_hp = c.max_hp }
        else if ltb_ℤ new_hp (pos 0)
        then dies c
        else record c { now_hp = new_hp })
    else c

-- AddHP behind the sum.
unfoldable pub cap_hp : ℤ → Creature → Creature
cap_hp hp c = if ltb_ℤ c.max_hp hp then record c { now_hp = c.max_hp } else record c { now_hp = hp }

unfoldable pub add_hp : ℤ → Creature → Option Creature
add_hp n c = elim c.is_alive [
  | false ↦ some c
  | true ↦ elim (to_int (c.now_hp +ℤ n)) [ none ↦ none | some hp ↦ some (cap_hp hp c) ]
]

-- SubtractHP behind the difference.
unfoldable pub floor_hp : ℤ → Creature → Creature
unfolding dies
floor_hp hp c = if ltb_ℤ (pos 0) hp then record c { now_hp = hp } else dies c

unfoldable pub subtract_hp : ℤ → Creature → Option Creature
subtract_hp n c = elim c.is_alive [
  | false ↦ some c
  | true ↦ elim (to_int (c.now_hp -ℤ n)) [ none ↦ none | some hp ↦ some (floor_hp hp c) ]
]

unfoldable pub revive : ℤ → Creature → Creature
revive new_hp c =
    if c.is_alive || ltb_ℤ new_hp (pos 0)
    then c
    else record c { now_hp = new_hp; is_alive = true; events = on_revived ∷ c.events }

-- The hit points lie between 0 and the maximum, which an `int` holds, and the dead have none.
record IsHealthy (c : Creature) : Type 0 where
  pub above : pos 0 ≤ℤ c.now_hp
  pub below : c.now_hp ≤ℤ c.max_hp
  pub small : pos_part c.max_hp < 2 ^ 31
  pub dead : c.is_alive ≡ false → c.now_hp ≡ pos 0

-- SetHP keeps the hit points between 0 and the maximum, whatever value it is given.
set_hp-IsHealthy : (n : ℤ) (c : Creature) → IsHealthy c → IsHealthy (set_hp n c)
unfolding set_hp
set_hp-IsHealthy n c h = record {
  above = ground (arith, h.above, h.below);
  below = ground (arith, h.above, h.below);
  small = ground (arith, h.small);
  dead = λ e. ground (arith, h.dead);
}

floor_hp-IsHealthy :
    (hp : ℤ) (c : Creature)
    → hp ≤ℤ c.max_hp
    → IsHealthy c
    → c.is_alive ≡ true
    → IsHealthy (floor_hp hp c)
unfolding floor_hp
floor_hp-IsHealthy hp c low h alive = record {
  above = ground (arith, h.above, h.below);
  below = ground (arith, h.above, h.below);
  small = ground (arith, h.small);
  dead = λ e. ground (arith, h.dead);
}

cap_hp-IsHealthy :
    (hp : ℤ) (c : Creature)
    → pos 0 ≤ℤ hp
    → IsHealthy c
    → c.is_alive ≡ true
    → IsHealthy (cap_hp hp c)
unfolding cap_hp
cap_hp-IsHealthy hp c low h alive = record {
  above = ground (arith, h.above, h.below);
  below = ground (arith, h.above, h.below);
  small = ground (arith, h.small);
  dead = λ e. ground (arith, h.dead);
}

-- Revive with a value up to the maximum keeps the hit points between 0 and the maximum.
revive-IsHealthy : (n : ℤ) (c : Creature) → n ≤ℤ c.max_hp → IsHealthy c → IsHealthy (revive n c)
unfolding revive
revive-IsHealthy n c low h = record {
  above = ground (arith, h.above, h.below);
  below = ground (arith, h.above, h.below);
  small = ground (arith, h.small);
  dead = λ e. ground (arith, h.dead);
}

-- An amount from 0 to the largest int can be subtracted from a healthy creature's hit points
-- without overflow, and leaves it healthy.
subtract_hp-IsHealthy :
    (n : ℕ) (c : Creature)
    → n < 2 ^ 31
    → IsHealthy c
    → (c' : Creature) × (subtract_hp (pos n) c ≡ some c') × IsHealthy c'
unfolding subtract_hp to_int ◌-ℤ◌
subtract_hp-IsHealthy n c small h = elim (Bool-cases c.is_alive) [
  | inl alive ↦ (
    floor_hp (c.now_hp -ℤ pos n) c,
    simp (alive, fits, subtract_hp),
    floor_hp-IsHealthy _ c (ground (arith, h.above, h.below)) h alive,
  )
  | inr dead ↦ (c, simp (dead, subtract_hp), h)
]
  where
    fits : to_int (c.now_hp -ℤ pos n) ≡ some (c.now_hp -ℤ pos n)
    fits = ground (arith, h.above, h.below, h.small)

-- An amount of at least 0 whose sum with the hit points is an int leaves a healthy creature
-- healthy.
add_hp-IsHealthy :
    (n : ℕ) (c : Creature)
    → pos_part c.now_hp + n < 2 ^ 31
    → IsHealthy c
    → (c' : Creature) × (add_hp (pos n) c ≡ some c') × IsHealthy c'
unfolding add_hp to_int ◌+ℤ◌
add_hp-IsHealthy n c small h = elim (Bool-cases c.is_alive) [
  | inl alive ↦ (
    cap_hp (c.now_hp +ℤ pos n) c,
    simp (alive, fits, add_hp),
    cap_hp-IsHealthy _ c (ground (arith, h.above, h.below)) h alive,
  )
  | inr dead ↦ (c, simp (dead, add_hp), h)
]
  where
    fits : to_int (c.now_hp +ℤ pos n) ≡ some (c.now_hp +ℤ pos n)
    fits = ground (arith, h.above, h.below, h.small)

-- SetHP of a value from 0 up does not kill: at 0 the creature stays alive with no hit points,
-- where taking all of them by SubtractHP kills it.
set_hp-zero :
    (n : ℕ) (c : Creature)
    → IsHealthy c
    → c.is_alive ≡ true
    → n < 2 ^ 31
    → pos_part c.now_hp ≤ n
    → ((set_hp (pos 0) c).is_alive ≡ true)
      × ((set_hp (pos 0) c).now_hp ≡ pos 0)
      × ((c' : Creature) × (subtract_hp (pos n) c ≡ some c')
          × (c'.is_alive ≡ false)
          × (c'.now_hp ≡ pos 0)
          × (c'.events ≡ on_died ∷ c.events))
unfolding set_hp subtract_hp floor_hp to_int ◌-ℤ◌
set_hp-zero n c h alive small all = (
  ground (arith, h.above, h.below),
  ground (arith, h.above, h.below),
  (dies c, simp (alive, fits, dead, subtract_hp, floor_hp), refl, refl, refl),
)
  where
    fits : to_int (c.now_hp -ℤ pos n) ≡ some (c.now_hp -ℤ pos n)
    fits = ground (arith, h.above, h.below, h.small)

    dead : ltb_ℤ (pos 0) (c.now_hp -ℤ pos n) ≡ false
    dead = ground (arith, h.above, h.below)

-- A creature is healthy if its hit points lie between 0 and the maximum, which is an int, and if it
-- has none when it is dead. SetHP of any value keeps a healthy creature so, and Revive of a value up
-- to the maximum does. An amount from 0 to the largest int is subtracted without overflow, and one
-- whose sum with the hit points is an int is added without overflow, and both leave it healthy.
hp_IsHealthy :
    (set_to revived_to : ℤ) (lost won : ℕ) (c : Creature)
    → IsHealthy c
    → revived_to ≤ℤ c.max_hp
    → lost < 2 ^ 31
    → pos_part c.now_hp + won < 2 ^ 31
    → IsHealthy (set_hp set_to c)
      × IsHealthy (revive revived_to c)
      × ((c' : Creature) × (subtract_hp (pos lost) c ≡ some c') × IsHealthy c')
      × ((c' : Creature) × (add_hp (pos won) c ≡ some c') × IsHealthy c')
hp_IsHealthy set_to revived_to lost won c h low small fits = (
  set_hp-IsHealthy set_to c h,
  revive-IsHealthy revived_to c low h,
  subtract_hp-IsHealthy lost c small h,
  add_hp-IsHealthy won c fits h,
)
