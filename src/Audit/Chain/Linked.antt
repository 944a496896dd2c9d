-- ===== src/Audit/Chain/Linked.antt =====
-- What a record has passed that verifies, and what a log commits to.

use mnemoca.Prelude.{drop, take, [], length, List, inl, inr}
use mnemoca.Audit.Record.{Record, Primitives, Bytes}
use mnemoca.Prelude.{
  eq_iff, inr, inl, Option-cases, arith, ◌^◌, ◌%◌, drop-append, ap, ◌∙◌, take-append, sym, ◌≢◌, ◌+◌,
  ◌++◌, ◌∷◌, ◌≡◌,
}
use mnemoca.Audit.Chain.{
  some, ok, none, ℕ, String, Line, entry, broken, canonical, chain_hash, verify_record, verify_from,
}

-- the hash of the last record, after `hash`
unfoldable pub head_after : String → List Line → String
head_after hash [] = hash
head_after hash (entry rec ∷ lines) = head_after rec.hash lines
head_after hash (broken ∷ lines) = head_after hash lines

-- what is hashed of a record: all but its hash and its signature
abbrev pub clear : Record → Record
clear rec = record rec { hash = ""; sig = [] }

unfoldable pub contents : List Line → List Record
contents [] = []
contents (entry rec ∷ lines) = clear rec ∷ contents lines
contents (broken ∷ lines) = contents lines

pub split-append :
    (xs ys : Bytes) {us vs : Bytes}
    → length xs ≡ length ys
    → xs ++ us ≡ ys ++ vs
    → (xs ≡ ys) × (us ≡ vs)
split-append xs ys {us} {vs} same h = (
  sym (take-append xs us)
      ∙ ap (take (length xs)) h
      ∙ ap (λ n. take n (ys ++ vs)) same
      ∙ take-append ys vs,
  sym (drop-append xs us)
      ∙ ap (drop (length xs)) h
      ∙ ap (λ n. drop n (ys ++ vs)) same
      ∙ drop-append ys vs,
)

module _ (p : Primitives) where
  -- The hash is the hex form of 32 bytes.
  abbrev pub IsDigest : String → Type 0
  IsDigest s = (b : Bytes) × (p.unhex s ≡ some b) × (length b ≡ 32)

  -- What a record that verifies after `q` and `k` has passed.
  abbrev pub IsLinked : String → ℕ → Record → Type 0
  IsLinked q k rec =
      (prev : Bytes) × (p.unhex rec.prev_hash ≡ some prev)
      × (rec.hash ≡ p.hex (p.sha256 (prev ++ canonical p rec)))
      × (q ≢ "" → rec.prev_hash ≡ q)
      × (rec.seq ≡ (k + 1) % 2 ^ 64)

  pub verify_record-IsLinked :
      (rec : Record) (q : String) (k : ℕ) → verify_record p rec q k ≡ ok tt → IsLinked q k rec
  unfolding verify_record chain_hash
  verify_record-IsLinked rec q k h = elim (Option-cases (p.unhex rec.prev_hash)) [
    | inl e ↦ absurd (ground (arith, e))
    | inr (prev, e) ↦ (
      prev,
      e,
      ground (arith, e, eq_iff (p.hex (p.sha256 (prev ++ canonical p rec))) rec.hash),
      λ nonempty. ground (arith, e, eq_iff q "", eq_iff rec.prev_hash q),
      ground (arith, e),
    )
  ]

  pub verify_entry :
      (rec : Record) (lines : List Line) (q : String) (k c : ℕ)
      → (verify_from p q k c (entry rec ∷ lines)).1 ≡ none
      → IsLinked q k rec × ((verify_from p rec.hash rec.seq (c + 1) lines).1 ≡ none)
  unfolding verify_from
  verify_entry rec lines q k c h = (ground (arith, verify_record-IsLinked rec q k), ground arith)
