-- ===== src/DbServer/Metadata/Load.antt =====
-- What MakeProcedureColumnInfoFromDB leaves behind.
use dding_game_server.Prelude.{
  ℕ, ◌≡◌, refl, sym, ap, ◌∙◌, Bool, true, false, ◌⊎◌, inl, inr, Option, none, some, List, [], ◌∷◌,
  arith, Option-cases, All,
}
use dding_game_server.Prelude.Map
use dding_game_server.Prelude.Map.{
  find-insert_self, find-insert_ne, find-insert_present, find-insert_cases,
}
use dding_game_server.DbServer.Metadata.Rounds.{
  described, is_autocommit, IsRound, goes_on, stops, load_procedure-IsRound,
}
use dding_game_server.DbServer.Metadata.{
  ProcedureInfo, Driver, MetaData, autocommits, load_procedures, when_true, set_autocommit,
  make_procedure_column_info_from_db, get_procedure_info,
}

-- An entry of a list of names.
pub data IsIn (name : ℕ) : List ℕ → Type 0 where
  here : (names : List ℕ) → IsIn name (name ∷ names)
  there : (other : ℕ) (names : List ℕ) → IsIn name names → IsIn name (other ∷ names)

-- What the loop over the names comes to, from `m`.
record IsLoaded (utf16 : ℕ → Option (List ℕ)) (db : ℕ → Driver) (names : List ℕ) (m : MetaData)
    (r : Bool × MetaData) : Type 0 where
  keeps :
      (name : ℕ) (info : ProcedureInfo)
      → Map.find name m.procedure_info_map ≡ some info
      → Map.find name r.1.procedure_info_map ≡ some info
  comes :
      (name : ℕ) (info : ProcedureInfo)
      → Map.find name r.1.procedure_info_map ≡ some info
      → (Map.find name m.procedure_info_map ≡ some info) ⊎ (described utf16 db name ≡ some info)
  commits : is_autocommit r.1.effects ≡ is_autocommit m.effects
  whole :
      r.0 ≡ true
      → All
          (λ name.
            (info entry : ProcedureInfo) × (described utf16 db name ≡ some info)
            × (Map.find name r.1.procedure_info_map ≡ some entry))
          names
  cut : r.0 ≡ false → (name : ℕ) × IsIn name names × (described utf16 db name ≡ none)

when_true-IsLoaded :
    (utf16 : ℕ → Option (List ℕ)) (db : ℕ → Driver) (name : ℕ) (names : List ℕ) (m : MetaData)
    (r : Bool × MetaData)
    → IsRound (described utf16 db name) name m r
    → ((m' : MetaData) → IsLoaded utf16 db names m' (load_procedures utf16 db names m'))
    → IsLoaded utf16 db (name ∷ names) m (when_true r (λ m'. load_procedures utf16 db names m'))
unfolding when_true
when_true-IsLoaded utf16 db name names m _ (stops m' o e a) rest = record {
  keeps = λ j info f. ap (Map.find j) e ∙ f;
  comes = λ j info f. inl (ap (Map.find j) (sym e) ∙ f);
  commits = a;
  whole = λ y. absurd (cc y);
  cut = λ n. (name, here names, o);
}
when_true-IsLoaded utf16 db name names m _ (goes_on info m' o e a) rest = record {
  keeps = λ j i f. (rest m').keeps j i (ap (Map.find j) e ∙ kept j i f);
  comes = λ j i f. elim ((rest m').comes j i f) [
    | inr d ↦ inr d
    | inl g ↦ new j i (ap (Map.find j) (sym e) ∙ g)
  ];
  commits = (rest m').commits ∙ a;
  whole = λ y. (
    (info, there_is.0, o, (rest m').keeps name _ (ap (Map.find name) e ∙ there_is.1)),
    (rest m').whole y,
  );
  cut = λ n. let (j, i, d) = (rest m').cut n in (j, there name names i, d);
}
  where
    kept :
        (j : ℕ) (i : ProcedureInfo)
        → Map.find j m.procedure_info_map ≡ some i
        → Map.find j (Map.insert name info m.procedure_info_map) ≡ some i
    kept j i f = elim (Option-cases (Map.find name m.procedure_info_map)) [
      | inl n ↦ ground (arith, find-insert_ne name j info m.procedure_info_map)
      | inr (v, p) ↦ ap (Map.find j) (find-insert_present name info v m.procedure_info_map p) ∙ f
    ]

    there_is :
        (entry : ProcedureInfo) × (Map.find name (Map.insert name info m.procedure_info_map)
          ≡ some entry)
    there_is = elim (Option-cases (Map.find name m.procedure_info_map)) [
      | inl n ↦ (info, find-insert_self name info m.procedure_info_map n)
      | inr (v, p) ↦ (v, kept name v p)
    ]

    new :
        (j : ℕ) (i : ProcedureInfo)
        → Map.find j (Map.insert name info m.procedure_info_map) ≡ some i
        → (Map.find j m.procedure_info_map ≡ some i) ⊎ (described utf16 db j ≡ some i)
    new j i f = elim (Option-cases (Map.find name m.procedure_info_map)) [
      | inr (v, p) ↦
          inl (ap (Map.find j) (sym (find-insert_present name info v m.procedure_info_map p)) ∙ f)
      | inl n ↦ elim (find-insert_cases name j info i m.procedure_info_map n f) [
        | inl (k, w) ↦ inr (cc (k, w, o))
        | inr g ↦ inl g
      ]
    ]

load_procedures-IsLoaded :
    (utf16 : ℕ → Option (List ℕ)) (db : ℕ → Driver) (names : List ℕ) (m : MetaData)
    → IsLoaded utf16 db names m (load_procedures utf16 db names m)
unfolding load_procedures
load_procedures-IsLoaded utf16 db [] m = record {
  keeps = λ j i f. f;
  comes = λ j i f. inl f;
  commits = refl;
  whole = λ y. tt;
  cut = λ n. absurd (cc n);
}
load_procedures-IsLoaded utf16 db (name ∷ names) m =
    when_true-IsLoaded utf16 db name names m _ (load_procedure-IsRound utf16 db name m)
      (load_procedures-IsLoaded utf16 db names)

-- The end of MakeProcedureColumnInfoFromDB.
abbrev finished : Bool × MetaData → Bool × MetaData
finished r = when_true r (set_autocommit true true)

finished_lem :
    (r : Bool × MetaData)
    → is_autocommit r.1.effects ≡ false
    → ((finished r).0 ≡ r.0)
      × ((finished r).1.procedure_info_map ≡ r.1.procedure_info_map)
      × (is_autocommit (finished r).1.effects ≡ r.0)
unfolding when_true set_autocommit
finished_lem (true, m) a = (refl, refl, refl)
finished_lem (false, m) a = (refl, refl, a)

-- Where SQLSetConnectAttr succeeds, MakeProcedureColumnInfoFromDB ends with autocommit switched
-- on if it returns true, and switched off if it returns false. It returns true only if every
-- procedure of the list could be described, and then each has an entry; it returns false only if
-- one of them could not. An entry is as it was before, or is what the driver told of the procedure.
pub make_procedure_column_info_lem :
    (utf16 : ℕ → Option (List ℕ)) (db : ℕ → Driver) (names : List ℕ) (m : MetaData)
    → (let r = make_procedure_column_info_from_db (λ _. true) utf16 db names m in
        (is_autocommit r.1.effects ≡ r.0)
        × (r.0 ≡ true
            → All
                (λ name.
                  (info entry : ProcedureInfo) × (described utf16 db name ≡ some info)
                  × (get_procedure_info name r.1 ≡ some entry))
                names)
        × (r.0 ≡ false → (name : ℕ) × IsIn name names × (described utf16 db name ≡ none))
        × ((name : ℕ) (info : ProcedureInfo)
            → get_procedure_info name r.1 ≡ some info
            → (get_procedure_info name m ≡ some info) ⊎ (described utf16 db name ≡ some info)))
unfolding make_procedure_column_info_from_db when_true set_autocommit get_procedure_info
make_procedure_column_info_lem utf16 db names m =
    let off = record m { effects = autocommits false ∷ m.effects } in
    let l = load_procedures-IsLoaded utf16 db names off in
    let r = load_procedures utf16 db names off in
    let (same, kept, switched) = finished_lem r l.commits in
    (
      switched ∙ sym same,
      λ y. rw kept (l.whole (sym same ∙ y)),
      λ n. l.cut (sym same ∙ n),
      λ j i f. l.comes j i (ap (Map.find j) (sym kept) ∙ f),
    )
