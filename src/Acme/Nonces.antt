-- ===== src/Acme/Nonces.antt =====
-- internal/acme/nonce.go: the replay nonces. Times are in seconds.
use mnemoca.Store.Fault.{Fault, fine, StoreError}
use mnemoca.Store.Bucket.{Bucket, put, take}
use mnemoca.Prelude.{
  insert, eq_iff, arith, ◌≡◌, ◌≢◌, ◌+◌, ℕ, String, Bool, true, false, Result, ok, err, str_eq, ltb,
  lookup-insert, lookup-remove, lookup, ◌<◌, Option-cases, some, none, inl, inr, eq_refl,
  if◌then◌else◌,
}

pub record NonceRec : Type 0 where
  pub expires : ℕ

-- 10 minutes
abbrev pub nonce_ttl : ℕ
nonce_ttl = 600

-- `n` is the fresh random value.
unfoldable pub issue_nonce :
    Fault → ℕ → String → Bucket NonceRec → Result StoreError (Unit {0}) × Bucket NonceRec
issue_nonce f now n b = put f n (record { expires = now + nonce_ttl }) b

abbrev pub consumed : ℕ → Result StoreError NonceRec → Result StoreError Bool
consumed now (ok rec) = ok (ltb now rec.expires)
consumed now (err StoreError.not_found) = ok false
consumed now (err StoreError.empty_path) = err StoreError.empty_path
consumed now (err StoreError.unavailable) = err StoreError.unavailable

unfoldable pub consume_nonce :
    Fault → ℕ → String → Bucket NonceRec → Result StoreError Bool × Bucket NonceRec
consume_nonce f now n b =
    if str_eq n "" then (ok false, b) else (let (r, b') = take f n b in (consumed now r, b'))

-- A non-empty nonce that was issued is accepted at its first use, if that is within ten minutes, and
-- never again, whatever the outcomes of the later calls.
pub nonce_once :
    (f : Fault) (now later last : ℕ) (n : String) (b : Bucket NonceRec)
    → n ≢ ""
    → let issued = (issue_nonce fine now n b).1 in
      let (r, used) = consume_nonce fine later n issued in
      (r ≡ ok (ltb later (now + 600))) × ((consume_nonce f last n used).0 ≢ ok true)
unfolding issue_nonce consume_nonce take put
nonce_once f now later last n b some_n =
    let rec : NonceRec = record { expires = now + nonce_ttl } in
    ground (
      arith,
      some_n,
      eq_iff n "",
      lookup-insert n n rec b.docs,
      eq_refl n,
      lookup-remove n n (insert n rec b.docs),
    )

-- A nonce that was accepted is not accepted again.
pub consume_nonce_twice :
    (f g : Fault) (now later : ℕ) (n : String) (b : Bucket NonceRec)
    → (consume_nonce f now n b).0 ≡ ok true
    → (consume_nonce g later n (consume_nonce f now n b).1).0 ≢ ok true
unfolding consume_nonce take
consume_nonce_twice f g now later n b h again =
    ground (arith, h, again, lookup-remove n n b.docs, eq_refl n)

-- An accepted nonce was stored and had not expired, and it is not stored any more.
pub consume_nonce_used :
    (f : Fault) (now : ℕ) (n : String) (b : Bucket NonceRec)
    → (consume_nonce f now n b).0 ≡ ok true
    → (rec : NonceRec) × (lookup n b.docs ≡ some rec)
      × (now < rec.expires)
      × (lookup n (consume_nonce f now n b).1.docs ≡ none)
unfolding consume_nonce take
consume_nonce_used f now n b h = elim (Option-cases (lookup n b.docs)) [
  | inl bad ↦ absurd (ground (arith, h, bad))
  | inr (rec, found) ↦ (
    rec,
    found,
    ground (arith, h, found),
    ground (arith, h, found, lookup-remove n n b.docs, eq_refl n),
  )
]
