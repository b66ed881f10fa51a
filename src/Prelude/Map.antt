-- ===== src/Prelude/Map.antt =====
-- std::unordered_map and std::map with integer keys, as association lists, and their laws.
use Prim.Native.Nat.{ℕ, ◌+◌}
use mathlib.Core.Path.{◌≡◌, refl}
use mathlib.Core.Logic.{◌≢◌, ◌⊎◌, inl, inr}
use mathlib.Core.List.{List, [], ◌∷◌}
use mathlib.Core.Option.{Option, none, some}
use native.Mathlib.Omega.{arith}
use dding_game_server.Prelude.Tests.{◌==◌, if◌then◌else◌, Bool-cases}
use dding_game_server.Prelude.Lists.{length}

abbrev pub Map {ℓ} : Type ℓ → Type ℓ
Map V = List (ℕ × V)

module _ {ℓ} {V : Type ℓ} where
  -- `find(k)`, `none` for `end()`
  unfoldable pub find : ℕ → Map V → Option V
  find k [] = none
  find k ((j, v) ∷ m) = if j == k then some v else find k m

  -- `insert({ k, v })` and `emplace(k, v)`: an entry that is there stays as it is
  unfoldable pub insert : ℕ → V → Map V → Map V
  unfolding find
  insert k v m = elim (find k m) [ none ↦ (k, v) ∷ m | some _ ↦ m ]

  -- `erase(k)`
  unfoldable pub erase : ℕ → Map V → Map V
  erase k [] = []
  erase k ((j, v) ∷ m) = let rest = erase k m in if j == k then rest else (j, v) ∷ rest

  -- `m[k] = v`
  unfoldable pub put : ℕ → V → Map V → Map V
  unfolding erase
  put k v m = (k, v) ∷ erase k m

  pub find-erase : (k j : ℕ) (m : Map V) → find j (erase k m) ≡ (if k == j then none else find j m)
  unfolding find erase
  find-erase k j [] = ground arith
  find-erase k j ((i, v) ∷ m) = ground (arith, find-erase k j m)

  pub find-insert_self :
      (k : ℕ) (v : V) (m : Map V) → find k m ≡ none → find k (insert k v m) ≡ some v
  unfolding insert
  find-insert_self k v m h = ground arith

  pub find-insert_present : (k : ℕ) (v w : V) (m : Map V) → find k m ≡ some w → insert k v m ≡ m
  unfolding insert
  find-insert_present k v w m h = ground arith

  pub find-insert_ne : (k j : ℕ) (v : V) (m : Map V) → k ≢ j → find j (insert k v m) ≡ find j m
  unfolding insert
  find-insert_ne k j v m h = ground arith

  -- Who is found after an insertion.
  pub find-insert_cases :
      (k j : ℕ) (v w : V) (m : Map V)
      → find k m ≡ none
      → find j (insert k v m) ≡ some w
      → ((j ≡ k) × (w ≡ v)) ⊎ (find j m ≡ some w)
  unfolding insert find
  find-insert_cases k j v w m n h = elim (Bool-cases (k == j)) [
    | inl e ↦ inl (ground arith, ground arith)
    | inr e ↦ inr (ground arith)
  ]

  -- Whatever was there before, an insertion touches its own key only.
  pub find-insert_key :
      (k j : ℕ) (v w : V) (m : Map V)
      → find j (insert k v m) ≡ some w
      → (j ≡ k) ⊎ (find j m ≡ some w)
  unfolding insert find
  find-insert_key k j v w m h = elim (Bool-cases (k == j)) [
    | inl e ↦ inl (ground arith)
    | inr e ↦ inr (ground arith)
  ]

  pub find-put :
      (k j : ℕ) (v : V) (m : Map V) → find j (put k v m) ≡ (if k == j then some v else find j m)
  unfolding put find
  find-put k j v m = ground (arith, find-erase k j m)

  -- No key twice: what the containers keep by themselves.
  abbrev pub Distinct : Map V → Type ℓ
  Distinct [] = Unit
  Distinct ((k, v) ∷ m) = (find k m ≡ none) × Distinct m

  pub erase-Distinct : (k : ℕ) (m : Map V) → Distinct m → Distinct (erase k m)
  unfolding erase
  erase-Distinct k [] d = tt
  erase-Distinct k ((j, v) ∷ m) d = ground (arith, erase-Distinct k m d.1, find-erase k j m)

  pub insert-Distinct : (k : ℕ) (v : V) (m : Map V) → Distinct m → Distinct (insert k v m)
  unfolding insert
  insert-Distinct k v m d = ground arith

  erase_absent : (k : ℕ) (m : Map V) → find k m ≡ none → erase k m ≡ m
  unfolding find erase
  erase_absent k [] h = refl
  erase_absent k ((j, v) ∷ m) h = ground (arith, erase_absent k m)

  pub length-erase :
      (k : ℕ) (v : V) (m : Map V)
      → Distinct m
      → find k m ≡ some v
      → length (erase k m) + 1 ≡ length m
  unfolding find erase
  length-erase k v [] d h = ground arith
  length-erase k v ((j, w) ∷ m) d h = ground (arith, erase_absent k m, length-erase k v m d.1)

  pub length-insert :
      (k : ℕ) (v : V) (m : Map V) → find k m ≡ none → length (insert k v m) ≡ length m + 1
  unfolding insert
  length-insert k v m h = ground arith
