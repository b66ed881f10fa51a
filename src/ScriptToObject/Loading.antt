-- ===== src/ScriptToObject/Loading.antt =====
-- What a container holds behind a file.
use dding_game_server.Prelude.{
  ℕ, ◌+◌, ◌<◌, ◌≡◌, refl, ap, ◌∙◌, Bool, true, false, inl, inr, Option, none, some, List, [], ◌∷◌,
  length, arith, Option-cases, All,
}
use dding_game_server.Prelude.Map
use dding_game_server.Prelude.Map.{
  Map, find-insert_self, find-insert_ne, find-insert_present, length-insert,
}
use dding_game_server.ScriptToObject.{
  holds, loads, add_data, find_data, with_result, add_objects, add_loaded, make_objects,
  make_data_object, Generator, load_from_json_file, add_to_data_container_from_json_file,
}

-- The objects of the JSON values, if LoadFromJson takes each of them.
abbrev pub all_objects : {J Object : Type 0} → (J → Option Object) → List J → Option (List Object)
all_objects load [] = some []
all_objects load (j ∷ js) = elim (load j) [
  | none ↦ none
  | some o ↦ elim (all_objects load js) [ none ↦ none | some os ↦ some (o ∷ os) ]
]

pub make_objects-all_objects :
    {J Object : Type 0} (load_from_json : ℕ → J → Option Object) (constructor_id : ℕ) (js : List J)
    (os : List Object)
    → all_objects (load_from_json constructor_id) js ≡ some os
    → make_objects load_from_json (some constructor_id) js ≡ loads os
unfolding make_objects
make_objects-all_objects load_from_json constructor_id [] os e = ap loads (cc e)
make_objects-all_objects load_from_json constructor_id (j ∷ js) os e =
    elim (Option-cases (load_from_json constructor_id j)) [
      | inl n ↦ absurd (cc (rw (n, all_objects) at e))
      | inr (o, y) ↦ elim (Option-cases (all_objects (load_from_json constructor_id) js)) [
        | inl n ↦ absurd (cc (rw (y, n, all_objects) at e))
        | inr (rest, r) ↦
            rw (y, make_objects, make_objects-all_objects load_from_json constructor_id js rest r)
              (ap loads (cc (rw (y, r, all_objects) at e)))
      ]
    ]

module _ {Object : Type 0} (key : Object → ℕ) where
  -- What the loop over the objects comes to.
  pub record IsAdded (os : List Object) (m : Map Object) (r : Bool × Map Object) : Type 0 where
    pub keeps : (k : ℕ) (o : Object) → Map.find k m ≡ some o → Map.find k r.1 ≡ some o
    pub there : All (λ o. (v : Object) × (Map.find (key o) r.1 ≡ some v)) os
    pub own : r.0 ≡ true → All (λ o. Map.find (key o) r.1 ≡ some o) os
    whole : r.0 ≡ true → length r.1 ≡ length m + length os
    fewer : r.0 ≡ false → length r.1 < length m + length os

  -- An object with a key of its own, and one whose key is taken.
  IsAdded-first :
      (o : Object) (os : List Object) (m : Map Object) (r : Bool × Map Object)
      → Map.find (key o) m ≡ none
      → IsAdded os (Map.insert (key o) o m) r
      → IsAdded (o ∷ os) m (with_result true r)
  unfolding with_result
  IsAdded-first o os m (later, m') n rest =
      let mine : Map.find (key o) m' ≡ some o =
        rest.keeps (key o) o (find-insert_self (key o) o m n) in
      let more = length-insert (key o) o m n in
      record {
        keeps = λ k p f.
            rest.keeps k p
              (find-insert_ne (key o) k o m (λ q. cc (n, f, ap (λ j. Map.find j m) q)) ∙ f);
        there = ((o, mine), rest.there);
        own = λ y. (mine, rest.own y);
        whole = λ y. omega (arith, rest.whole y, more);
        fewer = λ y. omega (arith, rest.fewer y, more);
      }

  skipped_first :
      (o v : Object) (os : List Object) (m : Map Object) (r : Bool × Map Object)
      → Map.find (key o) m ≡ some v
      → IsAdded os m r
      → IsAdded (o ∷ os) m (with_result false r)
  unfolding with_result
  skipped_first o v os m (true, m') e rest = record {
    keeps = rest.keeps;
    there = ((v, rest.keeps (key o) v e), rest.there);
    own = λ y. absurd (cc y);
    whole = λ y. absurd (cc y);
    fewer = λ n. omega (arith, rest.whole refl);
  }
  skipped_first o v os m (false, m') e rest = record {
    keeps = rest.keeps;
    there = ((v, rest.keeps (key o) v e), rest.there);
    own = λ y. absurd (cc y);
    whole = λ y. absurd (cc y);
    fewer = λ n. omega (arith, rest.fewer refl);
  }

  pub add_objects-IsAdded :
      (os : List Object) (m : Map Object) → IsAdded os m (add_objects key os m)
  unfolding add_objects add_data
  add_objects-IsAdded [] m = record {
    keeps = λ k o f. f;
    there = tt;
    own = λ y. tt;
    whole = λ y. omega arith;
    fewer = λ n. absurd (cc n);
  }
  add_objects-IsAdded (o ∷ os) m = elim (Option-cases (Map.find (key o) m)) [
    | inl n ↦
        rw (n, add_objects, add_data)
          (IsAdded-first o os m _ n (add_objects-IsAdded os (Map.insert (key o) o m)))
    | inr (v, e) ↦
        rw (e, add_objects, add_data) (skipped_first o v os m _ e (add_objects-IsAdded os m))
  ]

  -- A file that parses, each of whose values LoadFromJson takes, read into a container whose class the generator knows: every object is made,
  -- in order. The call returns true if every object got an entry of its own, which is then found
  -- under its key, and false if there are fewer new entries than objects, which then share keys with
  -- each other or with what was there. Either way every key of an object is found, and what was there
  -- stays.
  add_to_data_container_lem :
      {J : Type 0} (load_from_json : ℕ → J → Option Object) (name constructor_id : ℕ)
      (g : Generator) (js : List J) (m : Map Object) (os : List Object)
      → make_data_object name g ≡ some constructor_id
      → all_objects (load_from_json constructor_id) js ≡ some os
      → ((r : Bool × Map Object) × (add_to_data_container_from_json_file load_from_json key name g
              (holds js)
              m
            ≡ loads r)
          × (r.0 ≡ true → All (λ o. find_data (key o) r.1 ≡ some o) os)
          × (r.0 ≡ false → length r.1 < length m + length os)
          × All (λ o. (v : Object) × (find_data (key o) r.1 ≡ some v)) os
          × ((k : ℕ) (o : Object) → find_data k m ≡ some o → find_data k r.1 ≡ some o))
  unfolding add_to_data_container_from_json_file load_from_json_file add_loaded find_data
  add_to_data_container_lem load_from_json name constructor_id g js m os e made =
      let a = add_objects-IsAdded os m in
      (
        add_objects key os m,
        rw (e, make_objects-all_objects load_from_json constructor_id js os made, add_loaded) refl,
        a.own,
        a.fewer,
        a.there,
        a.keeps,
      )
