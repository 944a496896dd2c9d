-- ===== src/Audit/File/Laws.antt =====
-- What the file log guarantees: what it has appended verifies, and it resumes where it stood.
use mnemoca.Audit.Record.{Record, Primitives, Lawful, Bytes}
use mnemoca.Audit.Chain.{
  canonical, chain_hash, Line, entry, broken, seal_record, verify_record, verify_from, verify,
}
use mnemoca.Audit.Chain.Linked.{head_after}
use mathlib.Core.Path.{sym, subst}
use mnemoca.Prelude.{
  refl, ◌∷◌, eq_iff, inr, inl, eq_refl, Option-cases, true, ◌^◌, ◌%◌, ◌+◌, arith, ◌≢◌, ap, length,
  ◌≡◌, [],
}
use mnemoca.Audit.File.{some, ok, none, ◌++◌, ℕ, List, String, Log}

-- the sequence number of the last record, after `k`
unfoldable pub seq_after : ℕ → List Line → ℕ
seq_after k [] = k
seq_after k (entry rec ∷ lines) = seq_after rec.seq lines
seq_after k (broken ∷ lines) = seq_after k lines

pub head_after-append :
    (q : String) (xs ys : List Line) → head_after q (xs ++ ys) ≡ head_after (head_after q xs) ys
unfolding head_after
head_after-append q [] ys = refl
head_after-append q (entry rec ∷ xs) ys = head_after-append rec.hash xs ys
head_after-append q (broken ∷ xs) ys = head_after-append q xs ys

pub seq_after-append :
    (k : ℕ) (xs ys : List Line) → seq_after k (xs ++ ys) ≡ seq_after (seq_after k xs) ys
unfolding seq_after
seq_after-append k [] ys = refl
seq_after-append k (entry rec ∷ xs) ys = seq_after-append rec.seq xs ys
seq_after-append k (broken ∷ xs) ys = seq_after-append k xs ys

module _ (p : Primitives) where
  pub verify_from-append :
      (xs ys : List Line) (q : String) (k c n : ℕ)
      → verify_from p q k c xs ≡ (n, none)
      → verify_from p q k c (xs ++ ys) ≡ verify_from p (head_after q xs) (seq_after k xs) n ys
  unfolding verify_from head_after seq_after
  verify_from-append [] ys q k c n h = ap (λ m. verify_from p q k m ys) (ap (λ u. u.0) h)
  verify_from-append (broken ∷ xs) ys q k c n h = absurd (ground (arith, h))
  verify_from-append (entry rec ∷ xs) ys q k c n h =
      ground (arith, h, verify_from-append xs ys rec.hash rec.seq (c + 1) n)

  -- The file verifies, and the memory stands at its end.
  pub record IsSound (l : Log) : Type 0 where
    pub verified : verify p l.lines ≡ (length l.lines, none)
    pub at_head : head_after "" l.lines ≢ "" → l.head ≡ head_after "" l.lines
    pub at_seq : l.seq ≡ length l.lines
    pub ends : seq_after 0 l.lines ≡ l.seq

  pub sealed_as :
      (rand : Bytes) (rec sealed : Record)
      → seal_record p rand rec ≡ ok sealed
      → (prev : Bytes) × (sig : Bytes) × (p.unhex rec.prev_hash ≡ some prev)
        × (p.sign rand (p.sha256 (prev ++ canonical p rec)) ≡ some sig)
        × (sealed ≡ record rec { hash = p.hex (p.sha256 (prev ++ canonical p rec)); sig = sig })
  unfolding seal_record chain_hash
  sealed_as rand rec sealed h = elim (Option-cases (p.unhex rec.prev_hash)) [
    | inl e ↦ absurd (ground (arith, e, h))
    | inr (prev, e) ↦ elim (Option-cases (p.sign rand (p.sha256 (prev ++ canonical p rec)))) [
      | inl none_signed ↦ absurd (ground (arith, e, none_signed, h))
      | inr (sig, signed) ↦ (prev, sig, e, signed, ground (arith, e, signed, h))
    ]
  ]

  verify_sealed :
      (rec : Record) (prev sig : Bytes) (q : String) (k : ℕ)
      → p.unhex rec.prev_hash ≡ some prev
      → p.valid (p.sha256 (prev ++ canonical p rec)) sig ≡ true
      → (q ≢ "" → rec.prev_hash ≡ q)
      → rec.seq ≡ (k + 1) % 2 ^ 64
      → verify_record p
          (record rec { hash = p.hex (p.sha256 (prev ++ canonical p rec)); sig = sig })
          q
          k
        ≡ ok tt
  unfolding verify_record chain_hash canonical
  verify_sealed rec prev sig q k e good link next = ground (
    arith,
    e,
    good,
    link,
    next,
    eq_refl (p.hex (p.sha256 (prev ++ canonical p rec))),
    eq_iff q "",
    eq_iff rec.prev_hash q,
  )

  pub seal_record-verified :
      Lawful p
      → (rand : Bytes) (rec sealed : Record) (q : String) (k : ℕ)
      → seal_record p rand rec ≡ ok sealed
      → (q ≢ "" → rec.prev_hash ≡ q)
      → rec.seq ≡ (k + 1) % 2 ^ 64
      → (verify_record p sealed q k ≡ ok tt) × (sealed.seq ≡ rec.seq)
  seal_record-verified law rand rec sealed q k h link next =
      let (prev, sig, e, signed, same) = sealed_as rand rec sealed h in
      let good = law.signed rand (p.sha256 (prev ++ canonical p rec)) sig signed in
      (
        subst (λ r. verify_record p r q k ≡ ok tt) (sym same)
            (verify_sealed rec prev sig q k e good link next),
        ap (λ r. r.seq) same,
      )
