-- ===== src/Audit/Stored/Complete.antt =====
-- A log whose calls have gone well verifies, and has a record for each of them.
use mnemoca.Prelude.{
  ℕ, suc, ◌+◌, ◌^◌, ◌<◌, ◌≤◌, String, List, [], ◌∷◌, ◌++◌, Option, none, some, Result, ok, err,
  Dict, lookup, insert, All, length, ◌≡◌, refl, arith, eq_refl, ap, sym, ◌∙◌, true, is_ok,
  insert_last, if◌then◌else◌,
}
use mathlib.Core.Path.{subst, ap₂}
use Prim.Native.String.{compare}
use Prim.Native.Nat.{Ordering}
use mnemoca.Store.Fault.{Fault, fine}
use mnemoca.Store.Bucket.{empty, get, put, store_out, update}
use mnemoca.Store.Retried.{retried, replayed}
use mnemoca.Audit.Record.{Record, Primitives, Lawful}
use mnemoca.Audit.Chain.{seal_record, verify_record, AuditError}
use mnemoca.Audit.File.Laws.{seal_record-verified}
use mnemoca.Audit.Keys.{seq_key, compare-seq_key}
use mnemoca.Audit.Stored.{
  StoredError, StoreLog, ChainHead, LogCall, head_key, head_of, log, replay, verify_store,
  next_record, ensure_genesis, first_record, genesis_run, then_put, no_vars, sealed_head,
}
use mnemoca.Audit.Stored.Replay.{IsKeyed, IsKeyed-le, replay-append}
use mnemoca.Audit.Stored.Effects.{log_found, logged, last_rand, head_set}

keys_before :
    (rec : Record) (m : ℕ) (docs : Dict Record)
    → m < rec.seq
    → rec.seq < 2 ^ 64
    → IsKeyed m docs
    → All
        (λ (d : String × Record).
          (compare d.0 (seq_key rec.seq) ≡ Ordering.lt)
          × (compare (seq_key rec.seq) d.0 ≡ Ordering.gt))
        docs
keys_before rec m [] above small keyed = tt
keys_before rec m ((key, old) ∷ docs) above small ((named, le), keyed) = (
  rw named (compare-seq_key old.seq rec.seq (omega (arith, above, le)) small),
  keys_before rec m docs above small keyed,
)

IsKeyed-append :
    (rec : Record) (m : ℕ) (docs : Dict Record)
    → rec.seq ≤ m
    → IsKeyed m docs
    → IsKeyed m (docs ++ (seq_key rec.seq, rec) ∷ [])
IsKeyed-append rec m [] le keyed = ((refl, le), tt)
IsKeyed-append rec m (d ∷ docs) le (here, keyed) = (here, IsKeyed-append rec m docs le keyed)

module _ (p : Primitives) where
  -- All records verify, one for each number up to the head's, and the head is at the last.
  pub record IsWhole (l : StoreLog) : Type 0 where
    pub head : ChainHead
    pub stored : lookup head_key l.meta.docs ≡ some head
    pub keyed : IsKeyed head.seq l.records.docs
    pub replayed : replay p "" 0 0 l.records.docs ≡ (head.seq, ok (head.hash, head.seq))

  pub whole_verifies : (l : StoreLog) (w : IsWhole l) → verify_store p fine l ≡ (w.head.seq, none)
  unfolding verify_store get
  whole_verifies l w = ground (arith, w.replayed, w.stored, eq_refl w.head.hash)

  -- A whole log with one more record that verifies is whole.
  IsWhole-extended :
      (l l' : StoreLog) (w : IsWhole l) (rec : Record)
      → rec.seq ≡ w.head.seq + 1
      → rec.seq < 2 ^ 64
      → verify_record p rec w.head.hash w.head.seq ≡ ok tt
      → lookup head_key l'.meta.docs ≡ some (head_of rec)
      → l'.records.docs ≡ insert (seq_key rec.seq) rec l.records.docs
      → (w' : IsWhole l') × (w'.head.seq ≡ w.head.seq + 1)
  unfolding replay
  IsWhole-extended l l' w rec next small good stored grown =
      let docs =
        insert_last (seq_key rec.seq) rec l.records.docs
          (keys_before rec w.head.seq l.records.docs (omega (arith, next)) small w.keyed) in
      let lower = IsKeyed-le w.head.seq rec.seq l.records.docs (omega (arith, next)) w.keyed in
      (
        record {
          head = head_of rec;
          stored = stored;
          keyed =
              subst (IsKeyed rec.seq) (sym (grown ∙ docs))
                (IsKeyed-append rec rec.seq l.records.docs (omega arith) lower);
          replayed =
              ap (replay p "" 0 0) (grown ∙ docs)
              ∙ replay-append p l.records.docs ((seq_key rec.seq, rec) ∷ []) "" 0 0 w.head.seq
                  w.head.hash w.head.seq w.replayed
              ∙ ground (arith, good, next);
        },
        next,
      )

  -- the call's two writes go through
  abbrev pub IsSmooth : LogCall → Type 0
  IsSmooth c = (c.on_head ≡ fine) × (c.on_record ≡ fine)

  logged-IsWhole :
      Lawful p
      → (r : Result AuditError Record) (c : LogCall) (rec : Record) (l : StoreLog) (w : IsWhole l)
      → seal_record p (last_rand p c rec) (next_record p c rec w.head) ≡ r
      → w.head.seq + 1 < 2 ^ 64
      → (w' : IsWhole (logged p fine fine r l).1) × (w'.head.seq
          ≡ (if is_ok (logged p fine fine r l).0 then w.head.seq + 1 else w.head.seq))
  unfolding put
  logged-IsWhole law (err e) c rec l w made small = (w, refl)
  logged-IsWhole law (ok sealed) c rec l w made small =
      let (good, same) =
        seal_record-verified p law (last_rand p c rec) (next_record p c rec w.head) sealed
          w.head.hash w.head.seq made (λ _. refl) refl in
      IsWhole-extended l (logged p fine fine (ok sealed) l).1 w sealed (omega (arith, same, small))
        (omega (arith, same, small)) good (head_set sealed l) refl

  log-IsWhole :
      Lawful p
      → (c : LogCall) (rec : Record) (l : StoreLog) (w : IsWhole l) → IsSmooth c
      → w.head.seq + 1 < 2 ^ 64
      → (w' : IsWhole (log p c rec l).1) × (w'.head.seq
          ≡ (if is_ok (log p c rec l).0 then w.head.seq + 1 else w.head.seq))
  log-IsWhole law c rec l w (on_head, on_record) small =
      let r = seal_record p (last_rand p c rec) (next_record p c rec w.head) in
      let same : log p c rec l ≡ logged p fine fine r l =
        log_found p c rec l w.stored ∙ ap₂ (λ f g. logged p f g r l) on_head on_record in
      subst
        (λ (t : Result StoredError (Unit {0}) × StoreLog).
          (w' : IsWhole t.1) × (w'.head.seq ≡ (if is_ok t.0 then w.head.seq + 1 else w.head.seq)))
        (sym same) (logged-IsWhole law r c rec l w refl small)

  -- how many of the calls were told that their record is appended, and the log after them
  unfoldable pub appended : List (LogCall × Record) → StoreLog → ℕ × StoreLog
  appended [] l = (0, l)
  appended ((c, rec) ∷ calls) l =
      let (n, l') = appended calls (log p c rec l).1 in
      (if is_ok (log p c rec l).0 then suc n else n, l')

  appended_whole :
      Lawful p
      → (calls : List (LogCall × Record)) (l : StoreLog) (w : IsWhole l)
      → All (λ (t : LogCall × Record). IsSmooth t.0) calls
      → w.head.seq + length calls < 2 ^ 64
      → verify_store p fine (appended calls l).1 ≡ (w.head.seq + (appended calls l).0, none)
  unfolding appended
  appended_whole law [] l w smooth small = whole_verifies l w ∙ ap (λ n. (n, none)) (omega arith)
  appended_whole law ((c, rec) ∷ calls) l w (here, smooth) small =
      let (w', counted) = log-IsWhole law c rec l w here (omega (arith, small)) in
      ground (arith, counted, small, appended_whole law calls (log p c rec l).1 w' smooth)

  abbrev pub fresh : StoreLog
  fresh = record { records = empty; meta = empty }

  begun_lem :
      (r : Result AuditError Record)
      → let (ended, b) = store_out fine head_key fresh.meta (sealed_head p no_vars r).0 in
        then_put p fine ended (sealed_head p no_vars r).1.sealed (record fresh { meta = b })
        ≡ logged p fine fine r fresh
  begun_lem (err e) = refl
  begun_lem (ok rec) = refl

  genesis_on :
      LogCall → Fault → Fault → List (Option ChainHead) → Result StoredError (Unit {0}) × StoreLog
  genesis_on c f g lost =
      let (r, s, b) = retried f true head_key (genesis_run p c) lost no_vars fresh.meta in
      then_put p g r s.sealed (record fresh { meta = b })

  genesis_found :
      (c : LogCall)
      → IsSmooth c
      → c.lost ≡ []
      → ensure_genesis p c fresh
        ≡ logged p fine fine (seal_record p (c.rands 0) (first_record p c 0)) fresh
  unfolding ensure_genesis genesis_on retried replayed update lookup seal_record
  genesis_found c (on_head, on_record) nothing_lost =
      let same : ensure_genesis p c fresh ≡ genesis_on c fine fine [] =
        λ i. genesis_on c (on_head i) (on_record i) (nothing_lost i) in
      same ∙ begun_lem (seal_record p (c.rands 0) (first_record p c 0))

  begun-IsWhole :
      Lawful p
      → (c : LogCall) (r : Result AuditError Record)
      → seal_record p (c.rands 0) (first_record p c 0) ≡ r
      → (logged p fine fine r fresh).0 ≡ ok tt
      → (w : IsWhole (logged p fine fine r fresh).1) × (w.head.seq ≡ 1)
  unfolding replay put insert
  begun-IsWhole law c (err e) made started = absurd (ground (arith, started))
  begun-IsWhole law c (ok sealed) made started =
      let (good, one) =
        seal_record-verified p law (c.rands 0) (first_record p c 0) sealed "" 0 made
          (λ some_hash. absurd (some_hash refl)) refl in
      (
        record {
          head = head_of sealed;
          stored = head_set sealed fresh;
          keyed = ((refl, omega arith), tt);
          replayed = ground (arith, good, one);
        },
        one,
      )

  genesis-IsWhole :
      Lawful p
      → (c : LogCall) → IsSmooth c
      → c.lost ≡ []
      → (ensure_genesis p c fresh).0 ≡ ok tt
      → (w : IsWhole (ensure_genesis p c fresh).1) × (w.head.seq ≡ 1)
  genesis-IsWhole law c smooth nothing_lost started =
      let same = genesis_found c smooth nothing_lost in
      subst (λ (t : Result StoredError (Unit {0}) × StoreLog). (w : IsWhole t.1) × (w.head.seq ≡ 1))
        (sym same)
        (begun-IsWhole law c (seal_record p (c.rands 0) (first_record p c 0)) refl
          (sym (ap (λ t. t.0) same) ∙ started))

  -- The log that a replica has begun in an empty store, and that replicas have then appended to by
  -- calls whose two writes go through, verifies with one record more than the calls that were told
  -- that they had appended one, however often other replicas came in between.
  pub stored_log_verifies :
      Lawful p
      → (first : LogCall) (calls : List (LogCall × Record)) → IsSmooth first
      → first.lost ≡ []
      → (ensure_genesis p first fresh).0 ≡ ok tt
      → All (λ (t : LogCall × Record). IsSmooth t.0) calls
      → length calls + 1 < 2 ^ 64
      → let (n, l) = appended calls (ensure_genesis p first fresh).1 in
        verify_store p fine l ≡ (n + 1, none)
  stored_log_verifies law first calls ready nothing_lost started smooth small =
      let (w, one) = genesis-IsWhole law first ready nothing_lost started in
      appended_whole law calls (ensure_genesis p first fresh).1 w smooth (omega (arith, one, small))
      ∙ ap (λ n. (n, none)) (omega (arith, one))
