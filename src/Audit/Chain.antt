-- ===== src/Audit/Chain.antt =====
-- internal/audit/audit.go: sealing a record, and verifying one and a whole log.
pub mod Linked
pub mod Tamper
use mnemoca.Prelude.{
  ◌||◌, ℕ, ◌+◌, ◌%◌, ◌^◌, String, Bool, true, false, Option, none, some, List, [], ◌∷◌, ◌++◌, ◌==◌,
  ◌&&◌, not, str_eq, Result, ok, err, some_or, guard, ◌>>=◌, ◌>>◌,
}
use mnemoca.Audit.Record.{Record, Primitives, Bytes}

pub data AuditError : Type 0 where
  bad_prev_hash signing_failed write_failed sync_failed : AuditError
  sequence_gap chain_break hash_mismatch bad_signature corrupt_json : AuditError

-- A line of the log is a record, or bytes that do not decode; a stray closing bracket, at which the loops
-- over the decoder stop without an error, is left out.
pub data Line : Type 0 where
  entry : Record → Line
  broken : Line

module _ (p : Primitives) where
  unfoldable pub canonical : Record → Bytes
  canonical rec = p.marshal (record rec { hash = ""; sig = [] })

  unfoldable pub chain_hash : Record → Result AuditError Bytes
  unfolding canonical
  chain_hash rec = do
    prev ← some_or bad_prev_hash (p.unhex rec.prev_hash)
    ok (p.sha256 (prev ++ canonical rec))

  -- with the randomness that the signer reads
  unfoldable pub seal_record : Bytes → Record → Result AuditError Record
  unfolding chain_hash
  seal_record rand rec = do
    sum ← chain_hash rec
    sig ← some_or signing_failed (p.sign rand sum)
    ok (record rec { hash = p.hex sum; sig = sig })

  unfoldable pub verify_record : Record → String → ℕ → Result AuditError (Unit {0})
  unfolding chain_hash
  verify_record rec prev_hash prev_seq = do
    guard (rec.seq == (prev_seq + 1) % 2 ^ 64) sequence_gap
    guard (str_eq prev_hash "" || str_eq rec.prev_hash prev_hash) chain_break
    sum ← chain_hash rec
    guard (str_eq (p.hex sum) rec.hash) hash_mismatch
    guard (p.valid sum rec.sig) bad_signature

  -- the loop of Verify: how many records it has verified, and what stopped it
  unfoldable pub verify_from : String → ℕ → ℕ → List Line → ℕ × Option AuditError
  verify_from prev_hash prev_seq count [] = (count, none)
  verify_from prev_hash prev_seq count (broken ∷ lines) = (count, some corrupt_json)
  verify_from prev_hash prev_seq count (entry rec ∷ lines) =
      elim (verify_record rec prev_hash prev_seq) [
        | err e ↦ (count, some e)
        | ok _ ↦ verify_from rec.hash rec.seq (count + 1) lines
      ]

  unfoldable pub verify : List Line → ℕ × Option AuditError
  verify lines = verify_from "" 0 0 lines
