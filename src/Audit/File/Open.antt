-- ===== src/Audit/File/Open.antt =====
-- Opening the file log, new or old, and whole runs of appends.
use mathlib.Core.Path.{ap, sym, subst}
use mnemoca.Audit.Record.{Record, Primitives, Lawful, Bytes}
use mnemoca.Audit.Chain.{Line, entry, broken, AuditError, verify_from, verify}
use mnemoca.Audit.Chain.Linked.{head_after}
use mnemoca.Audit.File.{
  some, none, ℕ, String, Log, Conditions, log, open_log, last_record, genesis_record,
}
use mnemoca.Audit.File.Laws.{seq_after, IsSound}
use mnemoca.Audit.File.Appends.{log-IsSound}
use mnemoca.Prelude.{
  inr, ◌∙◌, inl, Result-cases, ◌^◌, arith, ◌<◌, ◌+◌, ◌≡◌, ◌∷◌, [], List, length, Result, ok, err,
  refl,
}

-- The appends of a list, up to the first that fails.
unfoldable pub log_all :
    Primitives → List (Conditions × Record) → Log → Result AuditError (Unit {0}) × Log
log_all p [] l = (ok tt, l)
log_all p ((c, rec) ∷ rest) l =
    let (r, l') = log p c rec l in
    let later = log_all p rest l' in elim r [ err e ↦ (err e, l') | ok _ ↦ later ]

module _ {p : Primitives} (law : Lawful p) where
  log_all_on :
      (c : Conditions) (rec : Record) (rest : List (Conditions × Record)) (l : Log)
      → (log p c rec l).0 ≡ ok tt
      → log_all p ((c, rec) ∷ rest) l ≡ log_all p rest (log p c rec l).1
  unfolding log_all
  log_all_on c rec rest l h = rw (log_all, h) refl

  log_all_off :
      (c : Conditions) (rec : Record) (rest : List (Conditions × Record)) (l : Log) {e : AuditError}
      → (log p c rec l).0 ≡ err e
      → (log_all p ((c, rec) ∷ rest) l).0 ≡ err e
  unfolding log_all
  log_all_off c rec rest l h = rw (log_all, h) refl

  log_all-IsSound :
      (calls : List (Conditions × Record)) (l : Log)
      → IsSound p l
      → length l.lines + length calls < 2 ^ 64
      → (log_all p calls l).0 ≡ ok tt
      → IsSound p (log_all p calls l).1
        × (length (log_all p calls l).1.lines ≡ length l.lines + length calls)
  unfolding log_all
  log_all-IsSound [] l sound room h = (sound, omega arith)
  log_all-IsSound ((c, rec) ∷ rest) l sound room h = elim (Result-cases (log p c rec l).0) [
    | inl (e, failed) ↦ absurd (ground (arith, sym h ∙ log_all_off c rec rest l failed))
    | inr (_, done) ↦
        let on = log_all_on c rec rest l done in
        let (next, one_more) = log-IsSound law c rec l sound (omega (arith, room)) done in
        let (end, more) =
          log_all-IsSound rest (log p c rec l).1 next (omega (arith, room, one_more))
            (sym (ap (λ u. u.0) on) ∙ h) in
        (
          subst (λ u. IsSound p u.1) (sym on) end,
          ap (λ u. length u.1.lines) on ∙ more ∙ omega (arith, one_more),
        )
  ]

  abbrev blank : Bytes → String → Log
  blank anchor key_id = record { lines = []; key_id = key_id; seq = 0; head = p.hex anchor }

  blank-IsSound : (anchor : Bytes) (key_id : String) → IsSound p (blank anchor key_id)
  unfolding verify verify_from head_after seq_after
  blank-IsSound anchor key_id = record {
    verified = refl;
    at_head = λ h. absurd (h refl);
    at_seq = refl;
    ends = refl;
  }

  -- A new log that has been opened without an error holds its first record and verifies.
  pub open_log-IsSound :
      (c : Conditions) (anchor : Bytes) (key_id : String)
      → (open_log p c anchor key_id []).0 ≡ ok tt
      → IsSound p (open_log p c anchor key_id []).1
        × (length (open_log p c anchor key_id []).1.lines ≡ 1)
  unfolding open_log last_record
  open_log-IsSound c anchor key_id h =
      log-IsSound law c genesis_record (blank anchor key_id) (blank-IsSound anchor key_id)
        (omega arith) h

  -- The last record that opening finds is the one at which verification ends.
  last_record_at :
      (lines : List Line) (rec : Record) (k c : ℕ)
      → (verify_from p rec.hash k c lines).1 ≡ none
      → (last : Record) × (last_record lines (some rec) ≡ ok (some last))
        × (last.hash ≡ head_after rec.hash lines)
        × (last.seq ≡ seq_after rec.seq lines)
  unfolding last_record head_after seq_after verify_from
  last_record_at [] rec k c h = (rec, refl, refl, refl)
  last_record_at (broken ∷ lines) rec k c h = absurd (ground (arith, h))
  last_record_at (entry next ∷ lines) rec k c h =
      last_record_at lines next next.seq (c + 1) (ground (arith, h))

  last_found :
      (lines : List Line)
      → 0 < length lines
      → (verify p lines).1 ≡ none
      → (last : Record) × (last_record lines none ≡ ok (some last))
        × (last.hash ≡ head_after "" lines)
        × (last.seq ≡ seq_after 0 lines)
  unfolding last_record head_after seq_after verify_from verify
  last_found [] some_line h = absurd (omega (arith, some_line))
  last_found (broken ∷ lines) some_line h = absurd (ground (arith, h))
  last_found (entry rec ∷ lines) some_line h =
      last_record_at lines rec rec.seq 1 (ground (arith, h))

  -- Opening the file of a sound log that has a record succeeds, leaves the file as it is, and
  -- gives a sound log again.
  pub open_log_resumes :
      (c : Conditions) (anchor : Bytes) (l : Log)
      → IsSound p l
      → 0 < length l.lines
      → let (r, l') = open_log p c anchor l.key_id l.lines in
        (r ≡ ok tt) × IsSound p l' × (l'.lines ≡ l.lines)
  unfolding open_log
  open_log_resumes c anchor l sound some_line =
      let (last, found, hash, seq) = last_found l.lines some_line (ap (λ u. u.1) sound.verified) in
      rw (open_log, found)
        (
          refl,
          record {
            verified = sound.verified;
            at_head = λ _. hash;
            at_seq = seq ∙ sound.ends ∙ sound.at_seq;
            ends = sym seq;
          },
          refl,
        )

  -- A new log that opens, and then a list of appends that all succeed, leave a file that verifies
  -- with one record for the opening and one for each append, as long as there are less than 2^64.
  pub log_verifies :
      (c : Conditions) (anchor : Bytes) (key_id : String) (calls : List (Conditions × Record))
      → (open_log p c anchor key_id []).0 ≡ ok tt
      → length calls + 1 < 2 ^ 64
      → (log_all p calls (open_log p c anchor key_id []).1).0 ≡ ok tt
      → verify p (log_all p calls (open_log p c anchor key_id []).1).1.lines
        ≡ (length calls + 1, none)
  log_verifies c anchor key_id calls opened room h =
      let (start, one) = open_log-IsSound c anchor key_id opened in
      let (end, more) = log_all-IsSound calls _ start (omega (arith, one, room)) h in
      end.verified ∙ ap (λ n. (n, none)) (omega (arith, more, one))
