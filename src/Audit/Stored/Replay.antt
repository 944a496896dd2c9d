-- ===== src/Audit/Stored/Replay.antt =====
-- The verifier's loop over the stored records, and what it has seen when it finds no error.
use mnemoca.Prelude.{
  ℕ, zero, suc, ◌+◌, ◌^◌, ◌<◌, ◌≤◌, String, [], ◌∷◌, ◌++◌, none, some, Result, ok, err, Dict,
  lookup, All, length, ◌≡◌, ◌≢◌, refl, inl, inr, arith, Result-cases, Bool-cases, eq_iff, ap, ◌==◌,
  sym, ◌∙◌,
}
use mnemoca.Audit.Record.{Record, Primitives}
use mnemoca.Audit.Chain.{AuditError, verify_record}
use mnemoca.Audit.Chain.Linked.{verify_record-IsLinked}
use mnemoca.Audit.Keys.{seq_key}
use mnemoca.Store.Fault.{Fault, StoreError}
use mnemoca.Store.Bucket.{Bucket, get}
use mnemoca.Store.Bucket.Laws.{get_found}
use mnemoca.Audit.Stored.{replay, check_end, check_head, ChainHead, head_key}

-- Every record is stored under the key of its sequence number, and no number is above `m`.
abbrev pub IsKeyed : ℕ → Dict Record → Type 0
IsKeyed m docs = All (λ (d : String × Record). (d.0 ≡ seq_key d.1.seq) × (d.1.seq ≤ m)) docs

pub IsKeyed-le : (m n : ℕ) (docs : Dict Record) → m ≤ n → IsKeyed m docs → IsKeyed n docs
IsKeyed-le m n [] h keyed = tt
IsKeyed-le m n (d ∷ docs) h ((key, le), rest) =
    ((key, omega (arith, h, le)), IsKeyed-le m n docs h rest)

listed_first :
    (key : String) (rec : Record) (docs : Dict Record) (j : ℕ)
    → key ≡ seq_key rec.seq
    → j ≡ rec.seq
    → lookup (seq_key j) ((key, rec) ∷ docs) ≢ none
unfolding lookup
listed_first key rec docs j named here gone =
    let same : key ≡ seq_key j = named ∙ ap seq_key (sym here) in
    ground (arith, gone, same, eq_iff key (seq_key j))

listed_later :
    (key : String) (rec : Record) (docs : Dict Record) (j : ℕ)
    → lookup (seq_key j) ((key, rec) ∷ docs) ≡ none
    → lookup (seq_key j) docs ≡ none
unfolding lookup
listed_later key rec docs j gone = ground (arith, gone)

module _ (p : Primitives) where
  check_head-none :
      (n : ℕ) (hash : String) (m : ℕ) (r : Result StoreError ChainHead)
      → (check_head p n hash m r).1 ≡ none
      → (h : ChainHead) × (r ≡ ok h) × (h.seq ≡ m) × (h.hash ≡ hash)
  check_head-none n hash m (ok head) h =
      (head, refl, ground (arith, h), ground (arith, h, eq_iff head.hash hash))
  check_head-none zero hash m (err StoreError.not_found) h = absurd (ground (arith, h))
  check_head-none (suc n) hash m (err StoreError.not_found) h = absurd (ground (arith, h))
  check_head-none n hash m (err StoreError.empty_path) h = absurd (ground (arith, h))
  check_head-none n hash m (err StoreError.unavailable) h = absurd (ground (arith, h))

  pub replay-append :
      (xs ys : Dict Record) (q : String) (k c n : ℕ) (hash : String) (m : ℕ)
      → replay p q k c xs ≡ (n, ok (hash, m))
      → replay p q k c (xs ++ ys) ≡ replay p hash m n ys
  unfolding replay
  replay-append [] ys q k c n hash m h = ground (arith, h)
  replay-append ((key, rec) ∷ xs) ys q k c n hash m h =
      ground (arith, h, replay-append xs ys rec.hash rec.seq (c + 1) n hash m)

  -- The records that the loop has passed are numbered one after the other.
  pub replay_listed :
      (docs : Dict Record) (q : String) (k c n : ℕ) (hash : String) (m top : ℕ)
      → IsKeyed top docs
      → k + length docs < 2 ^ 64
      → replay p q k c docs ≡ (n, ok (hash, m))
      → (n ≡ c + length docs)
        × (m ≡ k + length docs)
        × ((j : ℕ) → k < j → j ≤ m → lookup (seq_key j) docs ≢ none)
  unfolding replay lookup
  replay_listed [] q k c n hash m top keyed small h =
      (ground (arith, h), ground (arith, h), λ j low high. absurd (ground (arith, h, low, high)))
  replay_listed ((key, rec) ∷ docs) q k c n hash m top ((named, le), keyed) small h =
      elim (Result-cases (verify_record p rec q k)) [
        | inl (e, bad) ↦ absurd (ground (arith, h, bad))
        | inr (_, good) ↦
            let linked = verify_record-IsLinked p rec q k good in
            let next : rec.seq ≡ k + 1 = omega (arith, linked.4, small) in
            let (count, last, listed) =
              replay_listed docs rec.hash rec.seq (c + 1) n hash m top keyed
                (omega (arith, next, small)) (ground (arith, h, good)) in
            (
              omega (arith, count),
              omega (arith, last, next),
              λ j low high. elim (Bool-cases (j == k + 1)) [
                | inl first ↦
                    λ gone. listed_first key rec docs j named (ground (arith, first, next)) gone
                | inr later ↦ λ gone.
                    listed j (ground (arith, later, next, low)) high
                      (listed_later key rec docs j gone)
              ],
            )
      ]

  -- A verification without error has passed all records, and the head is at the last.
  pub check_end-none :
      (f : Fault) (b : Bucket ChainHead) (t : ℕ × Result AuditError (String × ℕ))
      → (check_end p f b t).1 ≡ none
      → (n : ℕ) × (hash : String) × (m : ℕ) × (h : ChainHead) × (t ≡ (n, ok (hash, m)))
        × (lookup head_key b.docs ≡ some h)
        × (h.seq ≡ m)
        × (h.hash ≡ hash)
  check_end-none f b (n, err e) h = absurd (ground (arith, h))
  check_end-none f b (n, ok (hash, m)) h =
      let (head, found, at_seq, at_hash) = check_head-none n hash m (get f head_key b) h in
      (n, hash, m, head, refl, get_found f head_key b found, at_seq, at_hash)

  pub replay_first :
      (key : String) (rec : Record) (docs : Dict Record) (q : String) (k c n : ℕ) (hm : String × ℕ)
      → replay p q k c ((key, rec) ∷ docs) ≡ (n, ok hm)
      → (verify_record p rec q k ≡ ok tt) × (replay p rec.hash rec.seq (c + 1) docs ≡ (n, ok hm))
  unfolding replay
  replay_first key rec docs q k c n hm h = ground (arith, h)
