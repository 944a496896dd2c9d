-- ===== src/Tests/Stored.antt =====
-- The theorems on the log in the store, applied.
use mnemoca.Prelude.{
  [], ◌∷◌, none, some, ok, err, ap, false, true, str_eq, ◌≡◌, ◌≢◌, refl, arith, ◌+◌, lookup, insert,
}
use mnemoca.Store.Fault.{fine, refused}
use mnemoca.Audit.Record.{Record}
use mnemoca.Audit.Chain.{seal_record, verify_record}
use mnemoca.Audit.File.{genesis_record}
use mnemoca.Audit.Keys.{seq_key}
use mnemoca.Audit.Stored.{
  StoreLog, LogCall, head_key, log, verify_store, ensure_genesis, first_record,
}
use mnemoca.Audit.Stored.Complete.{stored_log_verifies, appended, fresh}
use mnemoca.Audit.Stored.Gaps.{gap_reported, logged_all}
use mnemoca.Audit.Stored.Genesis.{lost_race_breaks}
use mnemoca.Store.Bucket.{put}
use mnemoca.Tests.Toy.{toy, toy-Lawful}

abbrev call : LogCall
call = record {
  key_id = "k";
  now = 5;
  on_head = fine;
  on_record = fine;
  lost = [];
  anchors = λ n. 1 ∷ [];
  rands = λ n. [];
}

abbrev event : Record
event = record genesis_record { action = "cert.issue" }

stored_log_verifies_example :
    let (n, l) =
      appended toy
        ((record call { lost = none ∷ some (record { seq = 7; hash = "" }) ∷ [] }, event)
          ∷ (call, event)
          ∷ [])
        (ensure_genesis toy call (fresh toy)).1 in
    verify_store toy fine l ≡ (n + 1, none)
unfolding ensure_genesis seal_record lookup toy put
stored_log_verifies_example =
    stored_log_verifies toy toy-Lawful call
      ((record call { lost = none ∷ some (record { seq = 7; hash = "" }) ∷ [] }, event)
        ∷ (call, event)
        ∷ [])
      (refl, refl) refl refl ((refl, refl), ((refl, refl), tt)) (omega arith)

abbrev begun : StoreLog
begun = record {
  records = record { docs = (seq_key 1, record event { seq = 1 }) ∷ []; seq = 0 };
  meta = record { docs = (head_key, record { seq = 1; hash = "1." }) ∷ []; seq = 0 };
}

gap_reported_example :
    (verify_store toy fine (
      logged_all toy
        ((call, event) ∷ [])
        (log toy (record call { on_record = refused }) event begun).1)).1
    ≢ none
unfolding log seal_record toy logged_all lookup insert put seq_key
gap_reported_example =
    gap_reported toy (record call { on_record = refused }) event begun
      (record { seq = 1; hash = "1." }) refl ((refl, omega arith), tt) (λ e. ground (arith, e)) refl
      ((call, event) ∷ []) fine (omega arith) (omega arith)

sealed_by : LogCall → Record
unfolding seal_record
sealed_by c = elim (seal_record toy (c.rands 0) (first_record toy c 0)) [
  | ok rec ↦ rec
  | err e ↦ event
]

abbrev loser : LogCall
loser = record call { lost = none ∷ []; anchors = λ n. 1 ∷ 1 ∷ [] }

abbrev won : StoreLog
won = record {
  records = record { docs = (seq_key 1, sealed_by call) ∷ []; seq = 0 };
  meta = record {
    docs = (head_key, record { seq = 1; hash = (sealed_by call).hash }) ∷ [];
    seq = 0;
  };
}

hashes_differ : (sealed_by loser).hash ≢ (sealed_by call).hash
unfolding seal_record toy sealed_by
hashes_differ e =
    let confused : false ≡ true = ap (λ h. str_eq h (sealed_by call).hash) e in
    ground (arith, confused)

lost_race_breaks_example :
    let (r, l) = ensure_genesis toy loser won in
    (r ≡ ok tt)
    × (l.records.docs ≡ (seq_key 1, sealed_by loser) ∷ [])
    × ((verify_store toy fine l).1 ≢ none)
unfolding seal_record toy verify_store lookup sealed_by verify_record
lost_race_breaks_example =
    lost_race_breaks toy-Lawful loser won (record { seq = 1; hash = (sealed_by call).hash })
      (sealed_by call) (sealed_by loser) [] refl refl refl refl refl refl refl hashes_differ
