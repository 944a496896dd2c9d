-- ===== src/Store/Bucket.antt =====
-- internal/store/store.go: what `Store` promises of the documents under one bucket path. A
-- document is kept as the value that its JSON stands for, so `PutJSON`, `GetJSON`, `TakeJSON`,
-- `ForEachJSON` and `UpdateJSON` are the operations themselves; a document that does not decode
-- is a failing call.
pub mod Laws
use mnemoca.Prelude.{
  ℕ, ◌+◌, ◌%◌, ◌^◌, String, Bool, true, false, Option, none, some, List, [], ◌∷◌, Dict, lookup,
  insert, remove, Result, ok, err, some_or,
}
use mnemoca.Store.Fault.{
  Fault, fine, refused, ghost, StoreError, not_found, unavailable, UpdateError, of_store, rejected,
  commit,
}

pub record Bucket {ℓ} (V : Type ℓ) : Type ℓ where
  pub docs : Dict V
  pub seq : ℕ

abbrev pub empty {ℓ} : {V : Type ℓ} → Bucket V
empty = record { docs = []; seq = 0 }

-- A call that only reads fails in one way.
abbrev read {ℓ} : {A : Type ℓ} → Fault → Result StoreError A → Result StoreError A
read fine r = r
read refused r = err unavailable
read ghost r = err unavailable

module _ {ℓ} {V : Type ℓ} where
  unfoldable pub get : Fault → String → Bucket V → Result StoreError V
  get f k b = read f (some_or not_found (lookup k b.docs))

  unfoldable pub put : Fault → String → V → Bucket V → Result StoreError (Unit {0}) × Bucket V
  put f k v b = commit f unavailable tt b (record b { docs = insert k v b.docs })

  unfoldable pub put_if_absent : Fault → String → V → Bucket V → Result StoreError Bool × Bucket V
  put_if_absent f k v b = elim (lookup k b.docs) [
    | some _ ↦ (read f (ok false), b)
    | none ↦ commit f unavailable true b (record b { docs = insert k v b.docs })
  ]

  unfoldable pub take : Fault → String → Bucket V → Result StoreError V × Bucket V
  take f k b = elim (lookup k b.docs) [
    | none ↦ (read f (err not_found), b)
    | some v ↦ commit f unavailable v b (record b { docs = remove k b.docs })
  ]

  unfoldable pub delete : Fault → String → Bucket V → Result StoreError (Unit {0}) × Bucket V
  delete f k b = commit f unavailable tt b (record b { docs = remove k b.docs })

  -- The callback sees the current document, or none if it is absent and may be created.
  abbrev pub store_out {κ} :
      {E : Type κ}
      → Fault
      → String
      → Bucket V
      → Result E V
      → Result (UpdateError E) (Unit {0}) × Bucket V
  store_out f k b (err e) = (err (rejected e), b)
  store_out f k b (ok v) =
      commit f (of_store unavailable) tt b (record b { docs = insert k v b.docs })

  unfoldable pub update {κ} :
      {E : Type κ}
      → Fault
      → Bool
      → String
      → (Option V → Result E V)
      → Bucket V
      → Result (UpdateError E) (Unit {0}) × Bucket V
  update f create k fn b = elim (lookup k b.docs) [
    | some v ↦ store_out f k b (fn (some v))
    | none ↦ elim create [
      | true ↦ store_out f k b (fn none)
      | false ↦ (err (of_store not_found), b)
    ]
  ]

  -- a uint64 counter
  unfoldable pub next_seq : Fault → Bucket V → Result StoreError ℕ × Bucket V
  next_seq f b = let n = (b.seq + 1) % 2 ^ 64 in commit f unavailable n b (record b { seq = n })

-- `ForEach` hands the callback each document, in the order of the keys, up to its first error.
unfoldable pub for_each {ℓ κ μ} :
    {V : Type ℓ} {E : Type κ} {A : Type μ} → (A → String → V → Result E A) → A → Dict V → Result E A
for_each fn a [] = ok a
for_each fn a ((k, v) ∷ rest) = elim (fn a k v) [ err e ↦ err e | ok a' ↦ for_each fn a' rest ]
