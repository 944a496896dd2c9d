-- ===== src/Store/Driver.antt =====
-- What internal/store/mongo.go takes from the object mapper and the driver, and relies on of them.
use mnemoca.Prelude.{ℕ, String, Option, none, some, Result, ok, err, ◌≡◌, ◌≢◌, ◌⊎◌}

-- A document, with the revision that the mapper compares and sets at every write of it.
pub record Doc (V : Type 0) : Type 0 where
  pub path : String
  pub key : String
  pub value : V
  pub rev : ℕ

pub data DriverError : Type 0 where
  not_found duplicate conflict failed : DriverError

-- `view` is what is stored under a path and a key.
pub record Driver (V : Type 0) : Type 1 where
  pub Coll : Type 0
  pub view : Coll → String → String → Option (Doc V)
  pub find_one : String → String → Coll → Result DriverError (Doc V)
  pub create : String → String → V → Coll → Result DriverError (Unit {0}) × Coll
  pub replace : Doc V → Coll → Result DriverError (Unit {0}) × Coll
  pub find_delete : String → String → Coll → Result DriverError (Doc V) × Coll
  pub delete_one : String → String → Coll → Result DriverError (Unit {0}) × Coll
  pub upsert_inc : String → Coll → Result DriverError ℕ × Coll

module _ {V : Type 0} (d : Driver V) where
  -- The document at the place holds the value `v`.
  abbrev pub Holds : d.Coll → String → String → V → Type 0
  Holds c p k v = (doc : Doc V) × (d.view c p k ≡ some doc) × (doc.value ≡ v)

  -- The two states agree everywhere but at one place.
  abbrev pub Elsewhere : String → String → d.Coll → d.Coll → Type 0
  Elsewhere p k c c' = (q j : String) → (q ≢ p) ⊎ (j ≢ k) → d.view c' q j ≡ d.view c q j

  -- Reads are of what is stored; the unique index refuses a second document at a place; a
  -- replacement is of the revision that was read, and the mapper reports one that is not.
  pub record Lawful : Type 0 where
    pub found :
        (p k : String) (c : d.Coll) (doc : Doc V)
        → d.find_one p k c ≡ ok doc
        → (d.view c p k ≡ some doc) × (doc.path ≡ p) × (doc.key ≡ k)
    pub missing :
        (p k : String) (c : d.Coll)
        → d.find_one p k c ≡ err DriverError.not_found
        → d.view c p k ≡ none
    pub created :
        (p k : String) (v : V) (c : d.Coll)
        → (d.create p k v c).0 ≡ ok tt
        → (d.view c p k ≡ none)
          × Holds (d.create p k v c).1 p k v
          × Elsewhere p k c (d.create p k v c).1
    pub replaced :
        (doc : Doc V) (c : d.Coll)
        → (d.replace doc c).0 ≡ ok tt
        → ((old : Doc V) × (d.view c doc.path doc.key ≡ some old) × (old.rev ≡ doc.rev))
          × Holds (d.replace doc c).1 doc.path doc.key doc.value
          × Elsewhere doc.path doc.key c (d.replace doc c).1
    pub duplicated :
        (p k : String) (v : V) (c : d.Coll)
        → (d.create p k v c).0 ≡ err DriverError.duplicate
        → (q j : String) → d.view (d.create p k v c).1 q j ≡ d.view c q j
    pub outdated :
        (doc : Doc V) (c : d.Coll)
        → ((d.replace doc c).0 ≡ err DriverError.conflict)
          ⊎ ((d.replace doc c).0 ≡ err DriverError.not_found)
        → (q j : String) → d.view (d.replace doc c).1 q j ≡ d.view c q j

  -- The connection holds: no call fails, and a write that nothing stands in the way of is made.
  pub record Reliable : Type 0 where
    pub finds :
        (p k : String) (c : d.Coll)
        → ((doc : Doc V) × (d.find_one p k c ≡ ok doc)
            × (d.view c p k ≡ some doc)
            × (doc.path ≡ p)
            × (doc.key ≡ k))
          ⊎ ((d.find_one p k c ≡ err DriverError.not_found) × (d.view c p k ≡ none))
    pub creates :
        (p k : String) (v : V) (c : d.Coll)
        → ((d.create p k v c).0 ≡ ok tt)
          ⊎ (((d.create p k v c).0 ≡ err DriverError.duplicate) × (d.view c p k ≢ none))
    pub replaces :
        (doc : Doc V) (c : d.Coll)
        → ((d.replace doc c).0 ≡ ok tt)
          ⊎ (((d.replace doc c).0 ≡ err DriverError.conflict)
              × ((old : Doc V) → d.view c doc.path doc.key ≡ some old → old.rev ≢ doc.rev))
