-- ===== src/Audit/File.antt =====
-- internal/audit/audit.go: `Log`, the log in a file: opening it, and appending to it.
pub mod Laws
pub mod Appends
pub mod Open
pub mod Failed
use mnemoca.Prelude.{
  ℕ, ◌+◌, ◌%◌, ◌^◌, String, List, [], ◌∷◌, ◌++◌, Option, none, some, Result, ok, err, ◌==◌,
  if◌then◌else◌,
}
use mnemoca.Audit.Record.{Record, Primitives, Bytes}
use mnemoca.Audit.Chain.{Line, entry, broken, AuditError, seal_record}

-- `seq` and `head` are kept in memory, `lines` is the file.
pub record Log : Type 0 where
  pub lines : List Line
  pub key_id : String
  pub seq : ℕ
  pub head : String

-- How the write of a line ends: it is durable, nothing was written, a part of the line was
-- written, or all of it was written and the sync failed.
pub data WriteEnd : Type 0 where
  durable unwritten torn unsynced : WriteEnd

-- What one call of `Log` meets: the clock, the signer's randomness, and the end of its write.
pub record Conditions : Type 0 where
  pub now : ℕ
  pub rand : Bytes
  pub write : WriteEnd

abbrev pub write_line : WriteEnd → Record → Log → Result AuditError (Unit {0}) × Log
write_line durable rec l = (ok tt, record l { lines = l.lines ++ entry rec ∷ []; head = rec.hash })
write_line unwritten rec l = (err AuditError.write_failed, l)
write_line torn rec l = (err AuditError.write_failed, record l { lines = l.lines ++ broken ∷ [] })
write_line unsynced rec l =
    (err AuditError.sync_failed, record l { lines = l.lines ++ entry rec ∷ [] })

abbrev pub genesis_record : Record
genesis_record = record {
  seq = 0;
  time = 0;
  tenant = "";
  actor = record { kind = "system"; id = "mnemoca"; ip = "" };
  action = "audit.genesis";
  object = record { kind = "audit"; id = "genesis" };
  detail = [];
  prev_hash = "";
  hash = "";
  key_id = "";
  sig = [];
}

-- the last record of the file, or none if it is empty
unfoldable pub last_record : List Line → Option Record → Result AuditError (Option Record)
last_record [] last = ok last
last_record (broken ∷ lines) last = err AuditError.corrupt_json
last_record (entry rec ∷ lines) last = last_record lines (some rec)

module _ (p : Primitives) where
  -- the record with its sequence number, time and chain fields
  abbrev pub chained : Conditions → Record → Log → Record
  chained c rec l = record rec {
    seq = (l.seq + 1) % 2 ^ 64;
    time = if rec.time == 0 then c.now else rec.time;
    prev_hash = l.head;
    key_id = l.key_id;
  }

  -- `l.seq++` comes before everything that can fail.
  unfoldable pub log : Conditions → Record → Log → Result AuditError (Unit {0}) × Log
  log c rec l =
      let l' = record l { seq = (l.seq + 1) % 2 ^ 64 } in
      elim (seal_record p c.rand (chained c rec l)) [
        | err e ↦ (err e, l')
        | ok sealed ↦ write_line c.write sealed l'
      ]

  -- `anchor` is the random start of a new chain.
  unfoldable pub open_log :
      Conditions → Bytes → String → List Line → Result AuditError (Unit {0}) × Log
  open_log c anchor key_id lines = elim (last_record lines none) [
    | err e ↦ (err e, record { lines = lines; key_id = key_id; seq = 0; head = "" })
    | ok none ↦
        log c genesis_record
          (record { lines = lines; key_id = key_id; seq = 0; head = p.hex anchor })
    | ok (some last) ↦
        (ok tt, record { lines = lines; key_id = key_id; seq = last.seq; head = last.hash })
  ]
