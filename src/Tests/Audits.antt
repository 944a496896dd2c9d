-- ===== src/Tests/Audits.antt =====
-- The theorems on the audit log, applied to logs under the toy primitives.
use mnemoca.Audit.Record.{Record}
use mnemoca.Audit.Chain.{verify_record, verify_from, seal_record, entry, verify, sequence_gap}
use mnemoca.Audit.Chain.Linked.{head_after, contents}
use mnemoca.Audit.Chain.Tamper.{tamper_evident}
use mnemoca.Audit.Record.{Collision}
use mnemoca.Audit.File.{last_record, Log, Conditions, log, open_log, durable, unwritten}
use mnemoca.Audit.File.Open.{open_log-IsSound, log_all, log_verifies, open_log_resumes}
use mnemoca.Audit.File.Failed.{failed_append_gap}
use mnemoca.Audit.File.Laws.{IsSound}
use mnemoca.Tests.Toy.{zeros, toy, toy-Lawful}
use mnemoca.Prelude.{err, ◌⊎◌, some, ok, none, ◌+◌, ℕ, List, ◌≡◌, ◌∷◌, [], refl, arith}

abbrev fair : Conditions
fair = record { now = 7; rand = []; write = durable }

abbrev issued : Record
issued = record {
  seq = 0;
  time = 0;
  tenant = "t";
  actor = record { kind = "apikey"; id = "k"; ip = "" };
  action = "cert.issue";
  object = record { kind = "cert"; id = "1" };
  detail = [];
  prev_hash = "";
  hash = "";
  key_id = "";
  sig = [];
}

abbrev calls : List (Conditions × Record)
calls = (fair, issued) ∷ (fair, issued) ∷ []

abbrev anchor : List ℕ
anchor = []

abbrev opened : Log
opened = (open_log toy fair anchor "audit" []).1

log_verifies_example :
    verify toy (log_all toy calls (open_log toy fair anchor "audit" []).1).1.lines ≡ (2 + 1, none)
unfolding open_log last_record log seal_record toy log_all
log_verifies_example = log_verifies toy-Lawful fair anchor "audit" calls refl (omega arith) refl

opened-IsSound : IsSound toy opened
unfolding open_log last_record log seal_record toy
opened-IsSound = (open_log-IsSound toy-Lawful fair anchor "audit" refl).0

open_log_resumes_example :
    let (r, l) = open_log toy fair [] opened.key_id opened.lines in
    (r ≡ ok tt) × IsSound toy l × (l.lines ≡ opened.lines)
unfolding open_log last_record log seal_record toy
open_log_resumes_example = open_log_resumes toy-Lawful fair [] opened opened-IsSound (omega arith)

abbrev full_disk : Conditions
full_disk = record { now = 8; rand = []; write = unwritten }

failed_append_gap_example :
    verify toy (log toy fair issued (log toy full_disk issued opened).1).1.lines
    ≡ (1, some sequence_gap)
unfolding open_log last_record log seal_record toy
failed_append_gap_example =
    failed_append_gap toy-Lawful full_disk fair issued issued opened opened-IsSound (omega arith)
      refl refl

abbrev sealed : List ℕ → Record
sealed rand =
    elim (seal_record toy rand (record issued { seq = 1; prev_hash = toy.hex (zeros 32) })) [
      | ok rec ↦ rec
      | err _ ↦ issued
    ]

tamper_evident_example :
    (contents (entry (sealed []) ∷ []) ≡ contents (entry (sealed (1 ∷ [])) ∷ [])) ⊎ Collision toy
unfolding verify toy seal_record verify_from verify_record head_after
tamper_evident_example =
    tamper_evident toy-Lawful (sealed []) (sealed (1 ∷ [])) [] [] 1 (zeros 32, refl, refl)
      (zeros 32, refl, refl) refl refl refl
