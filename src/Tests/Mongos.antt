-- ===== src/Tests/Mongos.antt =====
-- A driver over a function from places to documents, with the laws that the store relies on, and
-- the theorems on its updates applied to it.
use mnemoca.Prelude.{
  zero, Bool-cases, ◌⊎◌, ap, ℕ, suc, String, true, false, Option, none, some, [], ◌∷◌, Result, ok,
  err, ◌≡◌, ◌≢◌, refl, inl, inr, arith, Option-cases, str_eq, ◌&&◌, ◌==◌, if◌then◌else◌, eq_iff,
  eq_refl,
}
use mnemoca.Store.Driver.{Elsewhere, Holds, Driver, Doc, DriverError, Lawful, Reliable}
use mnemoca.Store.Mongo.{Setting, update}
use mnemoca.Store.Mongo.Commits.{Committed, IsVersioned, update_commits}
use mnemoca.Store.Mongo.Progress.{is_answer, update_answers}

abbrev Places : Type 0
Places = String → String → Option (Doc ℕ)

abbrev set : String → String → Option (Doc ℕ) → Places → Places
set p k o c q j = if str_eq p q && str_eq k j then o else c q j

abbrev toy_create :
    String → String → ℕ → Option (Doc ℕ) → Places → Result DriverError (Unit {0}) × Places
toy_create p k v none c =
    (ok tt, set p k (some (record { path = p; key = k; value = v; rev = 0 })) c)
toy_create p k v (some _) c = (err DriverError.duplicate, c)

abbrev toy_replace : Doc ℕ → Option (Doc ℕ) → Places → Result DriverError (Unit {0}) × Places
toy_replace doc none c = (err DriverError.conflict, c)
toy_replace doc (some old) c =
    if old.rev == doc.rev
    then (ok tt, set doc.path doc.key (some (record doc { rev = suc doc.rev })) c)
    else (err DriverError.conflict, c)

-- what is read carries the place that it was asked for
abbrev toy_read : String → String → Option (Doc ℕ) → Result DriverError (Doc ℕ)
toy_read p k none = err DriverError.not_found
toy_read p k (some doc) = ok (record doc { path = p; key = k })

abbrev at_place : String → String → Option (Doc ℕ) → Option (Doc ℕ)
at_place p k none = none
at_place p k (some doc) = some (record doc { path = p; key = k })

abbrev toy_driver : Driver ℕ
toy_driver = record {
  Coll = Places;
  view = λ c p k. at_place p k (c p k);
  find_one = λ p k c. toy_read p k (c p k);
  create = λ p k v c. toy_create p k v (c p k) c;
  replace = λ doc c. toy_replace doc (c doc.path doc.key) c;
  find_delete = λ p k c. (toy_read p k (c p k), set p k none c);
  delete_one = λ p k c. (ok tt, set p k none c);
  upsert_inc = λ p c. (ok 1, c);
}

found_lem :
    (p k : String) (o : Option (Doc ℕ)) (doc : Doc ℕ)
    → toy_read p k o ≡ ok doc
    → (at_place p k o ≡ some doc) × (doc.path ≡ p) × (doc.key ≡ k)
found_lem p k none doc h = absurd (ground (arith, h))
found_lem p k (some old) doc h = ground (arith, h)

set_here : (p k : String) (o : Option (Doc ℕ)) (c : Places) → set p k o c p k ≡ o
set_here p k o c = ground (arith, eq_refl p, eq_refl k)

set_there :
    (p k : String) (o : Option (Doc ℕ)) (c : Places) (q j : String)
    → (q ≢ p) ⊎ (j ≢ k)
    → set p k o c q j ≡ c q j
set_there p k o c q j away = ground (arith, away, eq_iff p q, eq_iff k j)

created_lem :
    (p k : String) (v : ℕ) (o : Option (Doc ℕ)) (c : Places)
    → c p k ≡ o
    → (toy_create p k v o c).0 ≡ ok tt
    → (at_place p k o ≡ none)
      × Holds toy_driver (toy_create p k v o c).1 p k v
      × Elsewhere toy_driver p k c (toy_create p k v o c).1
created_lem p k v none c e h = (
  refl,
  (record { path = p; key = k; value = v; rev = 0 }, ap (at_place p k) (set_here p k _ c), refl),
  λ q j away. ap (at_place q j) (set_there p k _ c q j away),
)
created_lem p k v (some _) c e h = absurd (ground (arith, h))

replaced_lem :
    (doc : Doc ℕ) (o : Option (Doc ℕ)) (c : Places)
    → c doc.path doc.key ≡ o
    → (toy_replace doc o c).0 ≡ ok tt
    → ((old : Doc ℕ) × (at_place doc.path doc.key o ≡ some old) × (old.rev ≡ doc.rev))
      × Holds toy_driver (toy_replace doc o c).1 doc.path doc.key doc.value
      × Elsewhere toy_driver doc.path doc.key c (toy_replace doc o c).1
replaced_lem doc none c e h = absurd (ground (arith, h))
replaced_lem doc (some old) c e h = elim (Bool-cases (old.rev == doc.rev)) [
  | inl hit ↦ (
    (record old { path = doc.path; key = doc.key }, refl, ground (arith, hit)),
    rw (hit) (
      record doc { rev = suc doc.rev },
      ap (at_place doc.path doc.key) (set_here doc.path doc.key _ c),
      refl,
    ),
    rw (hit) (λ q j away. ap (at_place q j) (set_there doc.path doc.key _ c q j away)),
  )
  | inr miss ↦ absurd (ground (arith, h, miss))
]

duplicated_lem :
    (p k : String) (v : ℕ) (o : Option (Doc ℕ)) (c : Places)
    → (toy_create p k v o c).0 ≡ err DriverError.duplicate
    → (toy_create p k v o c).1 ≡ c
duplicated_lem p k v none c h = absurd (ground (arith, h))
duplicated_lem p k v (some _) c h = refl

outdated_lem :
    (doc : Doc ℕ) (o : Option (Doc ℕ)) (c : Places)
    → ((toy_replace doc o c).0 ≢ ok tt)
    → (toy_replace doc o c).1 ≡ c
outdated_lem doc none c h = refl
outdated_lem doc (some old) c h = ground (arith, h)

toy_driver-Lawful : Lawful toy_driver
toy_driver-Lawful = record {
  found = λ p k c doc h. found_lem p k (c p k) doc h;
  missing = λ p k c h. elim (Option-cases (c p k)) [
    | inl e ↦ ap (at_place p k) e
    | inr (old, e) ↦ absurd (ground (arith, h, e))
  ];
  created = λ p k v c h. created_lem p k v (c p k) c refl h;
  replaced = λ doc c h. replaced_lem doc (c doc.path doc.key) c refl h;
  duplicated =
      λ p k v c h q j. ap (λ (x : Places). at_place q j (x q j)) (duplicated_lem p k v (c p k) c h);
  outdated = λ doc c h q j.
      ap (λ (x : Places). at_place q j (x q j))
        (outdated_lem doc (c doc.path doc.key) c (λ done. ground (arith, h, done)));
}

finds_lem :
    (p k : String) (o : Option (Doc ℕ))
    → ((doc : Doc ℕ) × (toy_read p k o ≡ ok doc)
        × (at_place p k o ≡ some doc)
        × (doc.path ≡ p)
        × (doc.key ≡ k))
      ⊎ ((toy_read p k o ≡ err DriverError.not_found) × (at_place p k o ≡ none))
finds_lem p k none = inr (refl, refl)
finds_lem p k (some old) = inl (record old { path = p; key = k }, refl, refl, refl, refl)

creates_lem :
    (p k : String) (v : ℕ) (o : Option (Doc ℕ)) (c : Places)
    → ((toy_create p k v o c).0 ≡ ok tt)
      ⊎ (((toy_create p k v o c).0 ≡ err DriverError.duplicate) × (at_place p k o ≢ none))
creates_lem p k v none c = inl refl
creates_lem p k v (some _) c = inr (refl, λ h. ground (arith, h))

replaces_lem :
    (doc : Doc ℕ) (o : Option (Doc ℕ)) (c : Places)
    → ((toy_replace doc o c).0 ≡ ok tt)
      ⊎ (((toy_replace doc o c).0 ≡ err DriverError.conflict)
          × ((old : Doc ℕ) → at_place doc.path doc.key o ≡ some old → old.rev ≢ doc.rev))
replaces_lem doc none c = inr (refl, λ old h. absurd (ground (arith, h)))
replaces_lem doc (some old) c = elim (Bool-cases (old.rev == doc.rev)) [
  | inl hit ↦ inl (ground (arith, hit))
  | inr miss ↦ inr (ground (arith, miss), λ new h same. ground (arith, miss, h, same))
]

toy_driver-Reliable : Reliable toy_driver
toy_driver-Reliable = record {
  finds = λ p k c. finds_lem p k (c p k);
  creates = λ p k v c. creates_lem p k v (c p k) c;
  replaces = λ doc c. replaces_lem doc (c doc.path doc.key) c;
}

abbrev overtake : Option (Doc ℕ) → Places → Places
overtake none c = c
overtake (some doc) c =
    set "audit" "head"
      (some (record { path = "audit"; key = "head"; value = 10; rev = suc doc.rev })) c

-- Another replica sets the counter to 10 between the read and the write of the first attempt.
abbrev race : ℕ → Places → Places
race (suc zero) c = overtake (c "audit" "head") c
race zero c = c
race (suc (suc n)) c = c

abbrev racing : Setting Places
racing = record { is_cancelled = λ i. false; others = race }

-- adds one, and counts its runs
abbrev bump : ℕ → Option ℕ → Result String ℕ × ℕ
bump runs none = (ok 1, suc runs)
bump runs (some n) = (ok (suc n), suc runs)

abbrev start : Places
start =
    set "audit" "head" (some (record { path = "audit"; key = "head"; value = 5; rev = 0 }))
      (λ p k. none)

overtake_versioned :
    (o : Option (Doc ℕ)) (c : Places) (doc doc' : Doc ℕ)
    → c "audit" "head" ≡ o
    → toy_driver.view c "audit" "head" ≡ some doc
    → toy_driver.view (overtake o c) "audit" "head" ≡ some doc'
    → doc'.rev ≡ doc.rev
    → doc'.value ≡ doc.value
overtake_versioned none c doc doc' e h h' same = absurd (ground (arith, h, e))
overtake_versioned (some old) c doc doc' e h h' same = absurd (ground (arith, h, h', e, same))

racing-IsVersioned : IsVersioned toy_driver racing "audit" "head"
racing-IsVersioned zero c doc doc' h h' same = ground (arith, h, h')
racing-IsVersioned (suc zero) c doc doc' h h' same =
    overtake_versioned (c "audit" "head") c doc doc' refl h h' same
racing-IsVersioned (suc (suc i)) c doc doc' h h' same = ground (arith, h, h')

abbrev ended : Places
ended =
    set "audit" "head" (some (record { path = "audit"; key = "head"; value = 11; rev = 2 }))
      (overtake (start "audit" "head") start)

update_commits_example : Committed toy_driver racing bump "audit" "head" 0 start 2 ended
unfolding update
update_commits_example =
    update_commits toy_driver racing bump true ("audit" ∷ []) "audit" "head" 0 2 start ended
      toy_driver-Lawful racing-IsVersioned refl refl

update_answers_example :
    is_answer (update toy_driver racing true ("audit" ∷ []) "head" bump 0 start).0 ≡ true
unfolding update
update_answers_example =
    update_answers toy_driver bump ("audit" ∷ []) "audit" "head" racing true 1 0 start
      toy_driver-Reliable refl (λ m. refl) (λ c. refl) (omega arith)
