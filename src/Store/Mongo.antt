-- ===== src/Store/Mongo.antt =====
-- internal/store/mongo.go: `Mongo`, the store of several replicas, over the object mapper and the
-- driver that it calls. `Coll` is the state of the two collections and of the connection.
pub mod Commits
pub mod Progress
use mnemoca.Prelude.{
  ℕ, zero, suc, ◌+◌, ◌*◌, ◌%◌, ◌^◌, String, Bool, true, false, Option, none, some, List, [], ◌∷◌,
  Result, ok, err, ◌>>=◌, some_or,
}
use Prim.Native.String.{◌++◌ as text_append}
use mnemoca.Store.Driver.{Driver, Doc, DriverError}

-- `ErrNotFound`, an empty path, the error of a cancelled context, the callback's, the driver's, and
-- the end of the attempts.
pub data MongoError {ℓ} (E : Type ℓ) : Type ℓ where
  not_found empty_path cancelled failed gave_up : MongoError E
  rejected : E → MongoError E

-- strings.Join(segments, "/")
unfoldable pub join_segments : String → List String → String
join_segments first [] = first
join_segments first (seg ∷ segs) = text_append first (text_append "/" (join_segments seg segs))

-- none of an empty path
unfoldable pub join_path : List String → Option String
unfolding join_segments
join_path [] = none
join_path (seg ∷ segs) = some (join_segments seg segs)

abbrev pub update_max_attempts : ℕ
update_max_attempts = 128

-- What surrounds an operation: whether the context is cancelled at each attempt, and what other
-- writers do in the pauses between the calls, two to an attempt.
pub record Setting (Coll : Type 0) : Type 0 where
  pub is_cancelled : ℕ → Bool
  pub others : ℕ → Coll → Coll

module _ {V : Type 0} (d : Driver V) where
  -- FindOne's outcomes, as the operations tell them apart
  abbrev pub read_doc {ℓ} : {E : Type ℓ} → Result DriverError (Doc V) → Result (MongoError E) V
  read_doc (ok doc) = ok doc.value
  read_doc (err DriverError.not_found) = err MongoError.not_found
  read_doc (err DriverError.duplicate) = err MongoError.failed
  read_doc (err DriverError.conflict) = err MongoError.failed
  read_doc (err DriverError.failed) = err MongoError.failed

  unfoldable pub get {ℓ} : {E : Type ℓ} → List String → String → d.Coll → Result (MongoError E) V
  unfolding join_path
  get path key c = do
    p ← some_or MongoError.empty_path (join_path path)
    read_doc (d.find_one p key c)

  abbrev pub created {ℓ} : {E : Type ℓ} → Result DriverError (Unit {0}) → Result (MongoError E) Bool
  created (ok _) = ok true
  created (err DriverError.duplicate) = ok false
  created (err DriverError.not_found) = err MongoError.failed
  created (err DriverError.conflict) = err MongoError.failed
  created (err DriverError.failed) = err MongoError.failed

  unfoldable pub put_if_absent {ℓ} :
      {E : Type ℓ} → List String → String → V → d.Coll → Result (MongoError E) Bool × d.Coll
  unfolding join_path
  put_if_absent path key v c = elim (join_path path) [
    | none ↦ (err MongoError.empty_path, c)
    | some p ↦ let (r, c') = d.create p key v c in (created r, c')
  ]

  unfoldable pub take {ℓ} :
      {E : Type ℓ} → List String → String → d.Coll → Result (MongoError E) V × d.Coll
  unfolding join_path
  take path key c = elim (join_path path) [
    | none ↦ (err MongoError.empty_path, c)
    | some p ↦ let (r, c') = d.find_delete p key c in (read_doc r, c')
  ]

  abbrev pub deleted {ℓ} :
      {E : Type ℓ} → Result DriverError (Unit {0}) → Result (MongoError E) (Unit {0})
  deleted (ok _) = ok tt
  deleted (err DriverError.not_found) = ok tt
  deleted (err DriverError.duplicate) = err MongoError.failed
  deleted (err DriverError.conflict) = err MongoError.failed
  deleted (err DriverError.failed) = err MongoError.failed

  unfoldable pub delete {ℓ} :
      {E : Type ℓ} → List String → String → d.Coll → Result (MongoError E) (Unit {0}) × d.Coll
  unfolding join_path
  delete path key c = elim (join_path path) [
    | none ↦ (err MongoError.empty_path, c)
    | some p ↦ let (r, c') = d.delete_one p key c in (deleted r, c')
  ]

  -- Update's callback, with the variables that it captures: it may run at every attempt.
  abbrev pub Callback : Type 0 → Type 0 → Type 0
  Callback E S = S → Option V → Result E V × S

  abbrev pub Ended : Type 0 → Type 0 → Type 0
  Ended E S = Result (MongoError E) (Unit {0}) × S × d.Coll

  -- how an attempt goes on after its write; `again` is the next attempt
  abbrev pub after_create :
      {E S : Type 0} → Result DriverError (Unit {0}) → S → d.Coll → Ended E S → Ended E S
  after_create (ok _) s c again = (ok tt, s, c)
  after_create (err DriverError.duplicate) s c again = again
  after_create (err DriverError.not_found) s c again = (err MongoError.failed, s, c)
  after_create (err DriverError.conflict) s c again = (err MongoError.failed, s, c)
  after_create (err DriverError.failed) s c again = (err MongoError.failed, s, c)

  abbrev pub after_replace :
      {E S : Type 0} → Result DriverError (Unit {0}) → S → d.Coll → Ended E S → Ended E S
  after_replace (ok _) s c again = (ok tt, s, c)
  after_replace (err DriverError.conflict) s c again = again
  after_replace (err DriverError.not_found) s c again = again
  after_replace (err DriverError.duplicate) s c again = (err MongoError.failed, s, c)
  after_replace (err DriverError.failed) s c again = (err MongoError.failed, s, c)

  module _ {E S : Type 0} (fn : Callback E S) (p : String) (key : String) where
    -- the branch of an attempt that found no document; `pause` is what happens before its write
    unfoldable pub on_missing :
        Bool → (d.Coll → d.Coll) → S → d.Coll → (S → d.Coll → Ended E S) → Ended E S
    on_missing false pause s c again = (err MongoError.not_found, s, c)
    on_missing true pause s c again = elim ((fn s none).0) [
      | err e ↦ (err (MongoError.rejected e), (fn s none).1, c)
      | ok v ↦
          let (w, c') = d.create p key v (pause c) in
          after_create w (fn s none).1 c' (again (fn s none).1 c')
    ]

    -- the branch of an attempt that found one
    unfoldable pub on_found :
        Doc V → (d.Coll → d.Coll) → S → d.Coll → (S → d.Coll → Ended E S) → Ended E S
    on_found doc pause s c again = elim ((fn s (some doc.value)).0) [
      | err e ↦ (err (MongoError.rejected e), (fn s (some doc.value)).1, c)
      | ok v ↦
          let (w, c') = d.replace (record doc { value = v }) (pause c) in
          after_replace w (fn s (some doc.value)).1 c' (again (fn s (some doc.value)).1 c')
    ]

    unfoldable pub on_read :
        Bool
        → Result DriverError (Doc V)
        → (d.Coll → d.Coll)
        → S
        → d.Coll
        → (S → d.Coll → Ended E S)
        → Ended E S
    unfolding on_missing on_found
    on_read create (ok doc) pause s c again = on_found doc pause s c again
    on_read create (err DriverError.not_found) pause s c again = on_missing create pause s c again
    on_read create (err DriverError.duplicate) pause s c again = (err MongoError.failed, s, c)
    on_read create (err DriverError.conflict) pause s c again = (err MongoError.failed, s, c)
    on_read create (err DriverError.failed) pause s c again = (err MongoError.failed, s, c)

    -- the loop of Update, with the number of attempts that are left and that of this one
    unfoldable pub update_from : Setting d.Coll → Bool → ℕ → ℕ → S → d.Coll → Ended E S
    unfolding on_read
    update_from env create zero i s c = (err MongoError.gave_up, s, c)
    update_from env create (suc n) i s c =
        let c' = env.others (2 * i) c in
        elim (env.is_cancelled i) [
          | true ↦ (err MongoError.cancelled, s, c)
          | false ↦
              on_read create (d.find_one p key c') (env.others (2 * i + 1)) s c'
                (update_from env create n (suc i))
        ]

  unfoldable pub update :
      {E S : Type 0}
      → Setting d.Coll
      → Bool
      → List String
      → String
      → Callback E S
      → S
      → d.Coll
      → Ended E S
  unfolding join_path update_from
  update env create path key fn s c = elim (join_path path) [
    | none ↦ (err MongoError.empty_path, s, c)
    | some p ↦ update_from fn p key env create update_max_attempts 0 s c
  ]

  unfoldable pub put :
      {E : Type 0} → Setting d.Coll → List String → String → V → d.Coll → Ended E (Unit {0})
  unfolding update
  put env path key v c = update env true path key (λ s _. (ok v, s)) tt c

  abbrev pub after_inc :
      {E : Type 0}
      → Result DriverError ℕ
      → d.Coll
      → Result (MongoError E) ℕ × d.Coll
      → Result (MongoError E) ℕ × d.Coll
  after_inc (ok n) c again = (ok (n % 2 ^ 64), c)
  after_inc (err DriverError.duplicate) c again = again
  after_inc (err DriverError.not_found) c again = (err MongoError.failed, c)
  after_inc (err DriverError.conflict) c again = (err MongoError.failed, c)
  after_inc (err DriverError.failed) c again = (err MongoError.failed, c)

  -- the loop of NextSeq
  unfoldable pub next_seq_from :
      {E : Type 0} → Setting d.Coll → String → ℕ → ℕ → d.Coll → Result (MongoError E) ℕ × d.Coll
  next_seq_from env p zero i c = (err MongoError.gave_up, c)
  next_seq_from env p (suc n) i c = elim (env.is_cancelled i) [
    | true ↦ (err MongoError.cancelled, c)
    | false ↦
        let (r, c') = d.upsert_inc p (env.others i c) in
        after_inc r c' (next_seq_from env p n (suc i) c')
  ]

  unfoldable pub next_seq :
      {E : Type 0} → Setting d.Coll → List String → d.Coll → Result (MongoError E) ℕ × d.Coll
  unfolding join_path next_seq_from
  next_seq env path c = elim (join_path path) [
    | none ↦ (err MongoError.empty_path, c)
    | some p ↦ next_seq_from env p update_max_attempts 0 c
  ]
