-- ===== src/Store/Bucket/Laws.antt =====
-- What the operations of a bucket guarantee to concurrent callers.
use mnemoca.Prelude.{
  Result, Option-cases, ◌⊎◌, inl, inr, is_ok, true, Option, refl, ℕ, suc, ◌≤◌, ◌≡◌, ◌≢◌, String,
  false, some, List, [], ◌∷◌, arith, lookup, lookup-insert, lookup-remove, eq_refl, eq_iff, ok, err,
}
use mnemoca.Store.Fault.{fine, refused, ghost, Fault}
use mnemoca.Store.Bucket.{rejected, get, update, store_out, Bucket, put_if_absent, take, put}

module _ {ℓ} {V : Type ℓ} where
  -- Once a `take` has returned a document, no later `take` of that key returns one, whatever the
  -- two calls' faults.
  pub take_once :
      (f g : Fault) (k : String) (b : Bucket V) {v w : V}
      → (take f k b).0 ≡ ok v
      → (take g k (take f k b).1).0 ≢ ok w
  unfolding take
  take_once f g k b h = ground (arith, lookup-remove k k b.docs, eq_refl k)

  -- `n` callers race to create one key.
  pub creations : String → List (Fault × V) → Bucket V → ℕ
  creations k [] b = 0
  creations k ((f, v) ∷ rest) b =
      let n = creations k rest (put_if_absent f k v b).1 in
      elim (put_if_absent f k v b).0 [ ok true ↦ suc n | ok false ↦ n | err _ ↦ n ]

  creations_present :
      (k : String) (calls : List (Fault × V)) (b : Bucket V) {v : V}
      → lookup k b.docs ≡ some v
      → creations k calls b ≡ 0
  unfolding creations put_if_absent
  creations_present k [] b h = refl
  creations_present k ((f, w) ∷ rest) b h = ground (arith, creations_present k rest b h)

  -- Of any number of callers at most one is told that it created the key.
  pub creations-le-one :
      (k : String) (calls : List (Fault × V)) (b : Bucket V) → creations k calls b ≤ 1
  unfolding creations put_if_absent
  creations-le-one k [] b = omega arith
  creations-le-one k ((f, w) ∷ rest) b = ground (
    arith,
    creations-le-one k rest b,
    creations_present k rest (put_if_absent f k w b).1 {v = w},
    lookup-insert k k w b.docs,
    eq_refl k,
  )

module _ {ℓ κ} {V : Type ℓ} {E : Type κ} where
  -- An update that may create hands its callback whatever document there is.
  pub update_create :
      (f : Fault) (k : String) (fn : Option V → Result E V) (b : Bucket V)
      → update f true k fn b ≡ store_out f k b (fn (lookup k b.docs))
  unfolding update
  update_create f k fn b = elim (Option-cases (lookup k b.docs)) [
    | inl e ↦ rw (e, update)
    | inr (v, e) ↦ rw (e, update)
  ]

  -- A write that returns leaves the new document; one that fails leaves the old or the new one.
  pub store_out_cases :
      (f : Fault) (k : String) (b : Bucket V) (r : Result E V)
      → let (ended, b') = store_out f k b r in
        ((b' ≡ b) × (is_ok ended ≡ false)) ⊎ ((v : V) × (r ≡ ok v) × (lookup k b'.docs ≡ some v))
  store_out_cases f k b (err e) = inl (refl, refl)
  store_out_cases fine k b (ok v) = inr (v, refl, rw (lookup-insert, eq_refl))
  store_out_cases refused k b (ok v) = inl (refl, refl)
  store_out_cases ghost k b (ok v) = inr (v, refl, rw (lookup-insert, eq_refl))

  -- A callback that fails leaves the bucket as it was.
  pub store_out_rejected :
      (f : Fault) (k : String) (b : Bucket V) (r : Result E V) {e : E}
      → (store_out f k b r).0 ≡ err (rejected e)
      → (store_out f k b r).1 ≡ b
  store_out_rejected f k b (err e) h = refl
  store_out_rejected fine k b (ok v) h = cc
  store_out_rejected refused k b (ok v) h = refl
  store_out_rejected ghost k b (ok v) h = cc

module _ {ℓ} {V : Type ℓ} where
  pub get_found :
      (f : Fault) (k : String) (b : Bucket V) {v : V} → get f k b ≡ ok v → lookup k b.docs ≡ some v
  unfolding get
  get_found f k b h = ground arith

  -- After a `put`, a key has the document that it had, or is the key and has the new one.
  pub put-lookup :
      (f : Fault) (k : String) (v : V) (b : Bucket V) (id : String)
      → let b' = (put f k v b).1 in
        (lookup id b'.docs ≡ lookup id b.docs) ⊎ ((id ≡ k) × (lookup id b'.docs ≡ some v))
  unfolding put
  put-lookup refused k v b id = inl refl
  put-lookup fine k v b id = ground (arith, lookup-insert k id v b.docs, eq_iff k id)
  put-lookup ghost k v b id = ground (arith, lookup-insert k id v b.docs, eq_iff k id)
