-- ===== src/DbServer/ProcedureNames/Cuts.antt =====
-- Which names GetProcedureNameFromDB collects.
use dding_game_server.Prelude.{
  ℕ, ◌≡◌, ◌≢◌, refl, sym, subst, ap, ◌∙◌, ◌⊎◌, inl, inr, ◌↔◌, Bool, true, false, Option, none, some,
  List, [], ◌∷◌, ◌++◌, ◌==◌, arith, All, Bool-cases,
}
use mathlib.Core.List.Memᴰ.{head, tail}
use mathlib.Core.List.{Memᴰ}
use mathlib.Core.List.Memᴰ
use dding_game_server.DbServer.ProcedureNames.{
  less, insert_name, semicolon, procedure_name, fetch_names, get_procedure_name_from_db,
}

-- The text is the name, or the name with a semicolon and anything behind it.
pub data IsNameOf : List ℕ → List ℕ → Type 0 where
  whole : (name : List ℕ) → All (λ c. c ≢ semicolon) name → IsNameOf name name
  cut :
      (name rest : List ℕ)
      → All (λ c. c ≢ semicolon) name
      → IsNameOf (name ++ semicolon ∷ rest) name

procedure_name-whole : (name : List ℕ) → All (λ c. c ≢ semicolon) name → procedure_name name ≡ name
unfolding procedure_name
procedure_name-whole [] free = refl
procedure_name-whole (c ∷ cs) free = ground (arith, free.0, procedure_name-whole cs free.1)

procedure_name-cut :
    (name rest : List ℕ)
    → All (λ c. c ≢ semicolon) name
    → procedure_name (name ++ semicolon ∷ rest) ≡ name
unfolding procedure_name
procedure_name-cut [] rest free = ground arith
procedure_name-cut (c ∷ cs) rest free = ground (arith, free.0, procedure_name-cut cs rest free.1)

procedure_name-IsNameOf : (text name : List ℕ) → IsNameOf text name → procedure_name text ≡ name
procedure_name-IsNameOf _ _ (whole name free) = procedure_name-whole name free
procedure_name-IsNameOf _ _ (cut name rest free) = procedure_name-cut name rest free

IsNameOf-cons :
    (c : ℕ) (text name : List ℕ)
    → c ≢ semicolon
    → IsNameOf text name
    → IsNameOf (c ∷ text) (c ∷ name)
IsNameOf-cons c _ _ other (whole name free) = whole (c ∷ name) (other, free)
IsNameOf-cons c _ _ other (cut name rest free) = cut (c ∷ name) rest (other, free)

IsNameOf-semicolon : (c : ℕ) (cs : List ℕ) → c ≡ semicolon → IsNameOf (c ∷ cs) []
IsNameOf-semicolon c cs e = rw e (cut [] cs tt)

IsNameOf-procedure_name : (text : List ℕ) → IsNameOf text (procedure_name text)
unfolding procedure_name
IsNameOf-procedure_name [] = whole [] tt
IsNameOf-procedure_name (c ∷ cs) = elim (Bool-cases (c == semicolon)) [
  | inl y ↦ rw y (IsNameOf-semicolon c cs (ground (arith, y)))
  | inr n ↦
      rw n (IsNameOf-cons c cs (procedure_name cs) (ground (arith, n)) (IsNameOf-procedure_name cs))
]

less_antisym : (a b : List ℕ) → less a b ≡ false → less b a ≡ false → a ≡ b
unfolding less
less_antisym [] [] h k = refl
less_antisym [] (y ∷ ys) h k = absurd (ground (arith, h))
less_antisym (x ∷ xs) [] h k = absurd (ground (arith, k))
less_antisym (x ∷ xs) (y ∷ ys) h k =
    let e : x ≡ y = ground (arith, h, k) in ground (arith, h, k, e, less_antisym xs ys)

-- Where the name goes: in front, further behind, or nowhere, since it is there.
insert_name-cons :
    (k x : List ℕ) (xs : List (List ℕ))
    → (insert_name k (x ∷ xs) ≡ k ∷ x ∷ xs)
      ⊎ (insert_name k (x ∷ xs) ≡ x ∷ insert_name k xs)
      ⊎ (k ≡ x) × (insert_name k (x ∷ xs) ≡ x ∷ xs)
unfolding insert_name
insert_name-cons k x xs = elim (Bool-cases (less k x)) [
  | inl y ↦ inl (rw y refl)
  | inr n ↦ elim (Bool-cases (less x k)) [
    | inl y' ↦ inr (inl (rw (n, y') refl))
    | inr n' ↦ inr (inr (less_antisym k x n n', rw (n, n') refl))
  ]
]

insert_name-new :
    (k name : List ℕ) (xs : List (List ℕ)) → Memᴰ name (insert_name k xs) → Memᴰ name (k ∷ xs)
unfolding insert_name
insert_name-new k name [] m = m
insert_name-new k name (x ∷ xs) m = elim (insert_name-cons k x xs) [
  | inl e ↦ subst (Memᴰ name) e m
  | inr (inl e) ↦ elim (Memᴰ.cases_cons (subst (Memᴰ name) e m)) [
    | inl a ↦ tail (head a)
    | inr t ↦ elim (Memᴰ.cases_cons (insert_name-new k name xs t)) [
      | inl a ↦ head a
      | inr t' ↦ tail (tail t')
    ]
  ]
  | inr (inr (e, e')) ↦ tail (subst (Memᴰ name) e' m)
]

insert_name-kept :
    (k name : List ℕ) (xs : List (List ℕ)) → Memᴰ name (k ∷ xs) → Memᴰ name (insert_name k xs)
unfolding insert_name
insert_name-kept k name [] m = m
insert_name-kept k name (x ∷ xs) m = elim (insert_name-cons k x xs) [
  | inl e ↦ subst (Memᴰ name) (sym e) m
  | inr (inl e) ↦ subst (Memᴰ name) (sym e) (elim (Memᴰ.cases_cons m) [
    | inl a ↦ tail (insert_name-kept k name xs (head a))
    | inr t ↦ elim (Memᴰ.cases_cons t) [
      | inl a ↦ head a
      | inr t' ↦ tail (insert_name-kept k name xs (tail t'))
    ]
  ])
  | inr (inr (e, e')) ↦
      subst (Memᴰ name) (sym e') (elim (Memᴰ.cases_cons m) [ inl a ↦ head (a ∙ e) | inr t ↦ t ])
]

-- The texts that are read before SQLGetData fails, and whether it never does.
unfoldable pub texts_read : List (Option (List ℕ)) → List (List ℕ)
texts_read [] = []
texts_read (none ∷ rows) = []
texts_read (some text ∷ rows) = text ∷ texts_read rows

unfoldable pub all_read : List (Option (List ℕ)) → Bool
all_read [] = true
all_read (none ∷ rows) = false
all_read (some text ∷ rows) = all_read rows

fetch_names-all_read :
    (rows : List (Option (List ℕ))) (names : List (List ℕ))
    → (fetch_names rows names).0 ≡ all_read rows
unfolding fetch_names all_read
fetch_names-all_read [] names = refl
fetch_names-all_read (none ∷ rows) names = refl
fetch_names-all_read (some text ∷ rows) names =
    fetch_names-all_read rows (insert_name (procedure_name text) names)

abbrev pub Told : List (List ℕ) → List ℕ → Type 0
Told texts name = (text : List ℕ) × Memᴰ text texts × IsNameOf text name

fetch_names-comes :
    (rows : List (Option (List ℕ))) (names : List (List ℕ)) (name : List ℕ)
    → Memᴰ name (fetch_names rows names).1
    → Memᴰ name names ⊎ Told (texts_read rows) name
unfolding fetch_names texts_read
fetch_names-comes [] names name m = inl m
fetch_names-comes (none ∷ rows) names name m = inl m
fetch_names-comes (some text ∷ rows) names name m =
    elim (fetch_names-comes rows (insert_name (procedure_name text) names) name m) [
      | inr (t, i, n) ↦ inr (t, tail i, n)
      | inl i ↦ elim (Memᴰ.cases_cons (insert_name-new (procedure_name text) name names i)) [
        | inl a ↦
            inr (text, head refl, subst (IsNameOf text) (sym a) (IsNameOf-procedure_name text))
        | inr k ↦ inl k
      ]
    ]

fetch_names-kept :
    (rows : List (Option (List ℕ))) (names : List (List ℕ)) (name : List ℕ)
    → Memᴰ name names
    → Memᴰ name (fetch_names rows names).1
unfolding fetch_names
fetch_names-kept [] names name m = m
fetch_names-kept (none ∷ rows) names name m = m
fetch_names-kept (some text ∷ rows) names name m =
    fetch_names-kept rows (insert_name (procedure_name text) names) name
      (insert_name-kept (procedure_name text) name names (tail m))

fetch_names-told :
    (rows : List (Option (List ℕ))) (names : List (List ℕ)) (name text : List ℕ)
    → Memᴰ text (texts_read rows)
    → IsNameOf text name
    → Memᴰ name (fetch_names rows names).1
unfolding fetch_names texts_read
fetch_names-told [] names name text m n = absurd (Memᴰ.not-nil m)
fetch_names-told (none ∷ rows) names name text m n = absurd (Memᴰ.not-nil m)
fetch_names-told (some t ∷ rows) names name text m n = elim (Memᴰ.cases_cons m) [
  | inr i ↦ fetch_names-told rows (insert_name (procedure_name t) names) name text i n
  | inl e ↦ fetch_names-kept rows (insert_name (procedure_name t) names) name (
      insert_name-kept (procedure_name t) name names
        (head (sym (procedure_name-IsNameOf text name n) ∙ ap procedure_name e)))
]

-- Once there is a statement handle and SQLProcedures succeeds, GetProcedureNameFromDB returns true
-- exactly if every row can be read. Either way the set has the names that it had and those of the
-- rows before the first that cannot be read, and no others: the name that a row's text is, or that
-- it has in front of its first semicolon.
pub get_procedure_name_from_db_lem :
    (rows : List (Option (List ℕ))) (names : List (List ℕ)) (name : List ℕ)
    → (let r = get_procedure_name_from_db true true rows names in
        (r.0 ≡ all_read rows) × (Memᴰ name r.1 ↔ (Memᴰ name names ⊎ Told (texts_read rows) name)))
unfolding get_procedure_name_from_db
get_procedure_name_from_db_lem rows names name = (
  fetch_names-all_read rows names,
  (
    fetch_names-comes rows names name,
    λ m. elim m [
      | inl i ↦ fetch_names-kept rows names name i
      | inr (t, i, n) ↦ fetch_names-told rows names name t i n
    ],
  ),
)
