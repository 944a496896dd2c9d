-- ===== src/Store/Mongo/Progress.antt =====
-- When an update does not give up.
use mnemoca.Prelude.{
  ℕ, zero, suc, ◌+◌, ◌*◌, ◌≤◌, ◌<◌, String, Bool, true, false, none, some, List, Result, ok, err,
  ◌≡◌, refl, ◌⊎◌, inl, inr, arith, Bool-cases, ltb, Result-cases,
}
use mnemoca.Store.Driver.{Driver, Doc, Reliable}
use mnemoca.Store.Mongo.{
  Setting, Callback, Ended, on_missing, on_found, on_read, update_from, update, MongoError,
  after_create, after_replace, join_path,
}

-- the update ended by itself: it is done, the callback refused, or there is no document to update
abbrev pub is_answer : {E : Type 0} → Result (MongoError E) (Unit {0}) → Bool
is_answer (ok _) = true
is_answer (err (MongoError.rejected e)) = true
is_answer (err MongoError.not_found) = true
is_answer (err MongoError.empty_path) = false
is_answer (err MongoError.cancelled) = false
is_answer (err MongoError.failed) = false
is_answer (err MongoError.gave_up) = false

module _ {V : Type 0} (d : Driver V) {E S : Type 0} (fn : Callback d E S) (p k : String) where
  -- In the pause the document stays as it is, or the next attempt has an answer.
  abbrev Helps : (d.Coll → d.Coll) → d.Coll → (S → d.Coll → Ended d E S) → Type 0
  Helps pause c again =
      (d.view (pause c) p k ≡ d.view c p k)
      ⊎ ((s : S) (c' : d.Coll) → is_answer (again s c').0 ≡ true)

  missing_answers :
      Reliable d
      → (create : Bool) (pause : d.Coll → d.Coll) (s : S) (c : d.Coll)
        (again : S → d.Coll → Ended d E S)
      → d.view c p k ≡ none
      → Helps pause c again
      → is_answer (on_missing d fn p k create pause s c again).0 ≡ true
  unfolding on_missing
  missing_answers sound false pause s c again absent helps = refl
  missing_answers sound true pause s c again absent helps = elim (Result-cases (fn s none).0) [
    | inl (e, q) ↦ rw (q, on_missing) refl
    | inr (v, q) ↦ elim (sound.creates p k v (pause c)) [
      | inl done ↦ rw (q, on_missing, done, after_create) refl
      | inr (dup, there) ↦ elim helps [
        | inl calm ↦ absurd (ground (arith, there, calm, absent))
        | inr later ↦ rw (q, on_missing, dup, after_create) (later _ _)
      ]
    ]
  ]

  found_answers :
      Reliable d
      → (doc : Doc V) (pause : d.Coll → d.Coll) (s : S) (c : d.Coll)
        (again : S → d.Coll → Ended d E S)
      → d.view c p k ≡ some doc
      → doc.path ≡ p
      → doc.key ≡ k
      → Helps pause c again
      → is_answer (on_found d fn p k doc pause s c again).0 ≡ true
  unfolding on_found
  found_answers sound doc pause s c again seen at_p at_k helps =
      elim (Result-cases (fn s (some doc.value)).0) [
        | inl (e, q) ↦ rw (q, on_found) refl
        | inr (v, q) ↦ elim (sound.replaces (record doc { value = v }) (pause c)) [
          | inl done ↦ rw (q, on_found, done, after_replace) refl
          | inr (late, changed) ↦ elim helps [
            | inl calm ↦ absurd (changed doc (cc) refl)
            | inr later ↦ rw (q, on_found, late, after_replace) (later _ _)
          ]
        ]
      ]

  read_answers :
      Reliable d
      → (create : Bool) (pause : d.Coll → d.Coll) (s : S) (c : d.Coll)
        (again : S → d.Coll → Ended d E S)
      → Helps pause c again
      → is_answer (on_read d fn p k create (d.find_one p k c) pause s c again).0 ≡ true
  unfolding on_read
  read_answers sound create pause s c again helps = elim (sound.finds p k c) [
    | inl (doc, e, seen, at_p, at_k) ↦
        rw (e, on_read) (found_answers sound doc pause s c again seen at_p at_k helps)
    | inr (e, absent) ↦ rw (e, on_read) (missing_answers sound create pause s c again absent helps)
  ]

  -- `j` is the first attempt in which no other writer touches the document.
  loop_answers :
      Reliable d
      → (env : Setting d.Coll) (create : Bool) (j n i : ℕ) (s : S) (c : d.Coll)
      → ((m : ℕ) → env.is_cancelled m ≡ false)
      → ((c' : d.Coll) → d.view (env.others (2 * j + 1) c') p k ≡ d.view c' p k)
      → i ≤ j
      → j < i + n
      → is_answer (update_from d fn p k env create n i s c).0 ≡ true
  unfolding update_from
  loop_answers sound env create j zero i s c on calm reached left = absurd (omega arith)
  loop_answers sound env create j (suc n) i s c on calm reached left =
      rw (on, update_from)
        (read_answers sound create (env.others (2 * i + 1)) s (env.others (2 * i) c)
          (update_from d fn p k env create n (suc i))
          (elim (Bool-cases (ltb i j)) [
            | inl sooner ↦ inr λ s₁ c₁.
                loop_answers sound env create j n (suc i) s₁ c₁ on calm (ground (arith, sooner))
                  (omega (arith, left))
            | inr here ↦
                let same : i ≡ j = ground (arith, here, reached) in
                inl (rw same (calm (env.others (2 * j) c)))
          ]))

-- While the context is not cancelled and no call of the driver fails, an update in whose first 128
-- attempts there is one where no other writer touches the document between the read and the write
-- ends by itself: it is done, or reports its callback's error or the missing document.
pub update_answers :
    {V : Type 0} (d : Driver V) {E S : Type 0} (fn : Callback d E S) (path : List String)
    (p k : String) (env : Setting d.Coll) (create : Bool) (j : ℕ) (s : S) (c : d.Coll)
    → Reliable d
    → join_path path ≡ some p
    → ((m : ℕ) → env.is_cancelled m ≡ false)
    → ((c' : d.Coll) → d.view (env.others (2 * j + 1) c') p k ≡ d.view c' p k)
    → j < 128
    → is_answer (update d env create path k fn s c).0 ≡ true
unfolding update
update_answers d fn path p k env create j s c sound joins on calm early =
    rw (joins, update)
      (loop_answers d fn p k sound env create j 128 0 s c on calm (omega arith) (omega arith))
