-- ===== src/Audit/Stored.antt =====
-- internal/audit/storelog.go: `StoreLog`, the log that replicas share in the store, and its
-- verification.
pub mod Replay
pub mod Effects
pub mod Complete
pub mod Gaps
pub mod Genesis
use mnemoca.Prelude.{
  ℕ, zero, suc, ◌+◌, ◌%◌, ◌^◌, String, List, [], ◌∷◌, Option, none, some, Result, ok, err, ◌==◌,
  ◌&&◌, str_eq, if◌then◌else◌, Dict, Bool, true, false,
}
use mnemoca.Store.Fault.{Fault, StoreError, UpdateError, of_store, rejected}
use mnemoca.Store.Bucket.{Bucket, get, put}
use mnemoca.Store.Retried.{retried}
use mnemoca.Audit.Record.{Record, Primitives, Bytes}
use mnemoca.Audit.Chain.{AuditError, seal_record, verify_record}
use mnemoca.Audit.File.{genesis_record}
use mnemoca.Audit.Keys.{seq_key}

pub record ChainHead : Type 0 where
  pub seq : ℕ
  pub hash : String

-- the two buckets of the log
pub record StoreLog : Type 0 where
  pub records : Bucket Record
  pub meta : Bucket ChainHead

pub data StoredError : Type 0 where
  of_audit : AuditError → StoredError
  in_store : StoreError → StoredError
  uninitialized head_mismatch : StoredError

abbrev pub head_key : String
head_key = "head"

-- What one call meets: the key of the signer, the clock, the ends of its two writes, the values on
-- which its callback ran in vain, and the random bytes of each run, as an anchor and for the signer.
pub record LogCall : Type 0 where
  pub key_id : String
  pub now : ℕ
  pub on_head : Fault
  pub on_record : Fault
  pub lost : List (Option ChainHead)
  pub anchors : ℕ → Bytes
  pub rands : ℕ → Bytes

-- the variables that a callback captures: the number of its runs, and the sealed record
pub record Vars : Type 0 where
  pub runs : ℕ
  pub sealed : Option Record

abbrev pub no_vars : Vars
no_vars = record { runs = 0; sealed = none }

abbrev pub head_of : Record → ChainHead
head_of rec = record { seq = rec.seq; hash = rec.hash }

abbrev pub stored_error : UpdateError AuditError → StoredError
stored_error (of_store e) = in_store e
stored_error (rejected e) = of_audit e

abbrev pub written : {A : Type 0} → Result StoreError A → Result StoredError (Unit {0})
written (ok _) = ok tt
written (err e) = err (in_store e)

module _ (p : Primitives) where
  abbrev pub sealed_head : Vars → Result AuditError Record → Result AuditError ChainHead × Vars
  sealed_head s (err e) = (err e, record s { runs = suc s.runs })
  sealed_head s (ok rec) = (ok (head_of rec), record { runs = suc s.runs; sealed = some rec })

  abbrev pub first_record : LogCall → ℕ → Record
  first_record c logged_all = record genesis_record {
    seq = 1;
    time = c.now;
    prev_hash = p.hex (c.anchors logged_all);
    key_id = c.key_id;
  }

  -- the callback of ensureGenesis; it never resets the record that it made
  abbrev pub genesis_run : LogCall → Vars → Option ChainHead → Result AuditError ChainHead × Vars
  genesis_run c s (some h) = (ok h, s)
  genesis_run c s none = sealed_head s (seal_record p (c.rands s.runs) (first_record c s.runs))

  -- the write of the record that the update left in its variables, if there is one
  abbrev pub put_sealed :
      Fault → Option Record → StoreLog → Result StoredError (Unit {0}) × StoreLog
  put_sealed f none l = (ok tt, l)
  put_sealed f (some rec) l =
      let (r, b) = put f (seq_key rec.seq) rec l.records in (written r, record l { records = b })

  abbrev pub then_put :
      Fault
      → Result (UpdateError AuditError) (Unit {0})
      → Option Record
      → StoreLog
      → Result StoredError (Unit {0}) × StoreLog
  then_put f (err e) rec l = (err (stored_error e), l)
  then_put f (ok _) rec l = put_sealed f rec l

  unfoldable pub ensure_genesis : LogCall → StoreLog → Result StoredError (Unit {0}) × StoreLog
  unfolding retried
  ensure_genesis c l =
      let (r, s, b) = retried c.on_head true head_key (genesis_run c) c.lost no_vars l.meta in
      then_put c.on_record r s.sealed (record l { meta = b })

  abbrev pub next_record : LogCall → Record → ChainHead → Record
  next_record c rec h = record rec {
    seq = (h.seq + 1) % 2 ^ 64;
    time = if rec.time == 0 then c.now else rec.time;
    prev_hash = h.hash;
    key_id = c.key_id;
  }

  abbrev pub or_zero_head : Option ChainHead → ChainHead
  or_zero_head none = record { seq = 0; hash = "" }
  or_zero_head (some h) = h

  -- the callback of Log
  abbrev pub log_run :
      LogCall → Record → Vars → Option ChainHead → Result AuditError ChainHead × Vars
  log_run c rec s h =
      sealed_head s (seal_record p (c.rands s.runs) (next_record c rec (or_zero_head h)))

  -- a missing head is a chain that was not initialized
  abbrev pub log_error : UpdateError AuditError → StoredError
  log_error (of_store StoreError.not_found) = uninitialized
  log_error (of_store StoreError.empty_path) = in_store StoreError.empty_path
  log_error (of_store StoreError.unavailable) = in_store StoreError.unavailable
  log_error (rejected e) = of_audit e

  abbrev pub then_append :
      Fault
      → Result (UpdateError AuditError) (Unit {0})
      → Option Record
      → StoreLog
      → Result StoredError (Unit {0}) × StoreLog
  then_append f (err e) rec l = (err (log_error e), l)
  then_append f (ok _) rec l = put_sealed f rec l

  unfoldable pub log : LogCall → Record → StoreLog → Result StoredError (Unit {0}) × StoreLog
  unfolding retried
  log c rec l =
      let (r, s, b) = retried c.on_head false head_key (log_run c rec) c.lost no_vars l.meta in
      then_append c.on_record r s.sealed (record l { meta = b })

  -- the loop of VerifyStore: how many records it has verified, and the last one's hash and number
  unfoldable pub replay : String → ℕ → ℕ → Dict Record → ℕ × Result AuditError (String × ℕ)
  replay prev_hash prev_seq count [] = (count, ok (prev_hash, prev_seq))
  replay prev_hash prev_seq count ((_, rec) ∷ docs) =
      elim (verify_record p rec prev_hash prev_seq) [
        | err e ↦ (count, err e)
        | ok _ ↦ replay rec.hash rec.seq (count + 1) docs
      ]

  abbrev pub check_head : ℕ → String → ℕ → Result StoreError ChainHead → ℕ × Option StoredError
  check_head count hash seq (ok h) =
      if h.seq == seq && str_eq h.hash hash then (count, none) else (count, some head_mismatch)
  check_head zero hash seq (err StoreError.not_found) = (0, some uninitialized)
  check_head (suc n) hash seq (err StoreError.not_found) =
      (suc n, some (in_store StoreError.not_found))
  check_head count hash seq (err StoreError.empty_path) =
      (count, some (in_store StoreError.empty_path))
  check_head count hash seq (err StoreError.unavailable) =
      (count, some (in_store StoreError.unavailable))

  abbrev pub check_end :
      Fault → Bucket ChainHead → ℕ × Result AuditError (String × ℕ) → ℕ × Option StoredError
  check_end f b (count, err e) = (count, some (of_audit e))
  check_end f b (count, ok (hash, seq)) = check_head count hash seq (get f head_key b)

  -- `f` is the end of the head's read; the scan of the records succeeds
  unfoldable pub verify_store : Fault → StoreLog → ℕ × Option StoredError
  unfolding replay get
  verify_store f l = check_end f l.meta (replay "" 0 0 l.records.docs)
