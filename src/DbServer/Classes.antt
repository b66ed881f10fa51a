-- ===== src/DbServer/Classes.antt =====
-- TypeInfo of DBServer/DBServer/TypeInfo.h as a class knows its super class: GetSuper, IsA and
-- IsChildOf. A class is its `hashCode` and its super class; two TypeInfos at one address have one
-- hash code, so that the test of the addresses adds nothing.
use dding_game_server.Prelude.{
  ℕ, ◌≡◌, ap, ◌∙◌, Bool, true, false, ◌||◌, Option, none, some, inl, inr, ◌==◌, arith, Bool-cases,
}

pub data Class : Type 0 where
  base : ℕ → Class
  derived : ℕ → Class → Class

abbrev pub hash_code : Class → ℕ
hash_code (base h) = h
hash_code (derived h super) = h

unfoldable pub get_super : Class → Option Class
get_super (base h) = none
get_super (derived h super) = some super

unfoldable pub is_a : Class → Class → Bool
is_a c item = hash_code c == hash_code item

-- The loop of IsChildOf from a class's super class on.
unfoldable pub has_super : Class → Class → Bool
has_super (base h) item = false
has_super (derived h super) item = is_a super item || has_super super item

unfoldable pub is_child_of : Class → Class → Bool
is_child_of c item = is_a c item || has_super c item

is_child_of-super :
    (h : ℕ) (super item : Class)
    → is_child_of super item ≡ true
    → is_child_of (derived h super) item ≡ true
unfolding is_child_of has_super
is_child_of-super h super item e = ground (arith, e)

-- Where a hash code names one class, IsChildOf goes from class to class: a child of a child is a
-- child.
pub is_child_of_trans :
    (a b c : Class)
    → ((d : Class) → hash_code d ≡ hash_code b → d ≡ b)
    → is_child_of a b ≡ true
    → is_child_of b c ≡ true
    → is_child_of a c ≡ true
unfolding is_child_of has_super is_a
is_child_of_trans (base h) b c one e f =
    ap (λ x. is_child_of x c) (one (base h) (ground (arith, e))) ∙ f
is_child_of_trans (derived h super) b c one e f = elim (Bool-cases (h == hash_code b)) [
  | inl y ↦ ap (λ x. is_child_of x c) (one (derived h super) (ground (arith, y))) ∙ f
  | inr n ↦ is_child_of-super h super c (is_child_of_trans super b c one (ground (arith, e, n)) f)
]
