-- ===== src/Prelude/SortedSet.antt =====
-- std::set of integers: a list in strictly increasing order.
use Prim.Native.Nat.{ℕ, ◌<◌}
use mathlib.Core.Path.{◌≡◌, refl}
use mathlib.Core.Bool.{Bool, false, ◌||◌, ◌&&◌, not}
use mathlib.Core.List.{List, [], ◌∷◌}
use native.Mathlib.Omega.{arith}
use dding_game_server.Prelude.Tests.{◌==◌, ltb, if◌then◌else◌}

unfoldable pub contains : ℕ → List ℕ → Bool
contains k [] = false
contains k (x ∷ xs) = k == x || contains k xs

unfoldable pub insert : ℕ → List ℕ → List ℕ
insert k [] = k ∷ []
insert k (x ∷ xs) =
    let rest = insert k xs in if ltb k x then k ∷ x ∷ xs else if k == x then x ∷ xs else x ∷ rest

unfoldable pub erase : ℕ → List ℕ → List ℕ
erase k [] = []
erase k (x ∷ xs) = let rest = erase k xs in if k == x then rest else x ∷ rest

pub contains-insert :
    (k j : ℕ) (xs : List ℕ) → contains j (insert k xs) ≡ ((j == k) || contains j xs)
unfolding contains insert
contains-insert k j [] = refl
contains-insert k j (x ∷ xs) = ground (arith, contains-insert k j xs)

pub contains-erase :
    (k j : ℕ) (xs : List ℕ) → contains j (erase k xs) ≡ (not (j == k) && contains j xs)
unfolding contains erase
contains-erase k j [] = ground arith
contains-erase k j (x ∷ xs) = ground (arith, contains-erase k j xs)

-- Strictly increasing, above a bound.
abbrev pub Above : ℕ → List ℕ → Type 0
Above n [] = Unit
Above n (x ∷ xs) = (n < x) × Above x xs

abbrev pub IsIncreasing : List ℕ → Type 0
IsIncreasing [] = Unit
IsIncreasing (x ∷ xs) = Above x xs

insert-Above : (n k : ℕ) (xs : List ℕ) → n < k → Above n xs → Above n (insert k xs)
unfolding insert
insert-Above n k [] h a = (h, tt)
insert-Above n k (x ∷ xs) h a = ground (arith, insert-Above x k xs)

pub insert-IsIncreasing : (k : ℕ) (xs : List ℕ) → IsIncreasing xs → IsIncreasing (insert k xs)
unfolding insert
insert-IsIncreasing k [] a = tt
insert-IsIncreasing k (x ∷ xs) a = ground (arith, insert-Above x k xs)

Above-weaken : (m n : ℕ) (xs : List ℕ) → m < n → Above n xs → Above m xs
Above-weaken m n [] h a = tt
Above-weaken m n (x ∷ xs) h a = (omega arith, a.1)

erase-Above : (n k : ℕ) (xs : List ℕ) → Above n xs → Above n (erase k xs)
unfolding erase
erase-Above n k [] a = tt
erase-Above n k (x ∷ xs) a = ground (arith, erase-Above x k xs, Above-weaken n x (erase k xs))

pub IsIncreasing-of_Above : (n : ℕ) (xs : List ℕ) → Above n xs → IsIncreasing xs
IsIncreasing-of_Above n [] a = tt
IsIncreasing-of_Above n (x ∷ xs) a = a.1

pub erase-IsIncreasing : (k : ℕ) (xs : List ℕ) → IsIncreasing xs → IsIncreasing (erase k xs)
unfolding erase
erase-IsIncreasing k [] a = tt
erase-IsIncreasing k (x ∷ xs) a =
    ground (arith, erase-Above x k xs a, IsIncreasing-of_Above x (erase k xs))

pub contains-Above : (n : ℕ) (xs : List ℕ) → Above n xs → contains n xs ≡ false
unfolding contains
contains-Above n [] a = refl
contains-Above n (x ∷ xs) a = ground (arith, a.0, contains-Above n xs (Above-weaken n x xs a.0 a.1))
