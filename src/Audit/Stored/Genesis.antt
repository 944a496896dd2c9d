-- ===== src/Audit/Stored/Genesis.antt =====
-- Two replicas that begin the log at the same time.
use mnemoca.Prelude.{
  ℕ, String, List, [], ◌∷◌, ◌++◌, Option, none, some, Result, ok, Dict, lookup, insert, ◌≡◌, ◌≢◌,
  arith, lookup-insert, eq_refl, ap, sym, ◌∙◌,
}
use mathlib.Core.Path.{ap₂}
use mnemoca.Store.Fault.{Fault, fine, UpdateError}
use mnemoca.Store.Bucket.{Bucket, put}
use mnemoca.Store.Retried.{retried, replayed, retried_found}
use mnemoca.Audit.Record.{Record, Primitives, Lawful, Bytes}
use mnemoca.Audit.Chain.{seal_record, canonical, AuditError}
use mnemoca.Audit.Chain.Linked.{verify_record-IsLinked}
use mnemoca.Audit.File.Laws.{sealed_as}
use mnemoca.Audit.Keys.{seq_key}
use mnemoca.Audit.Stored.{
  true, StoredError, StoreLog, ChainHead, LogCall, Vars, head_key, replay, verify_store,
  ensure_genesis, first_record, genesis_run, then_put, no_vars, sealed_head,
}
use mnemoca.Audit.Stored.Replay.{check_end-none, replay_first}

module _ {p : Primitives} (law : Lawful p) where
  -- A digest in hex is no empty text.
  digest_ne : (x : Bytes) (s : String) → s ≡ p.hex (p.sha256 x) → s ≢ ""
  digest_ne x s h gone =
      let hex_gone : p.hex (p.sha256 x) ≡ "" = sym h ∙ gone in
      let bytes : some (p.sha256 x) ≡ some [] =
        sym (law.unhex-hex (p.sha256 x)) ∙ ap p.unhex hex_gone ∙ law.unhex_empty in
      ground (arith, bytes, law.digest_size x)

  -- Two chains that differ in the hash of their first record do not end in the same head.
  replay_apart :
      (old mine : Record) (key : String) (docs : Dict Record) (n n' m m' : ℕ) (hash : String)
      → mine.hash ≢ old.hash
      → replay p "" 0 0 ((key, old) ∷ docs) ≡ (n, ok (hash, m))
      → replay p "" 0 0 ((key, mine) ∷ docs) ≢ (n', ok (hash, m'))
  unfolding replay
  replay_apart old mine key [] n n' m m' hash apart h h' =
      let (_, rest) = replay_first p key old [] "" 0 0 n (hash, m) h in
      let (_, rest') = replay_first p key mine [] "" 0 0 n' (hash, m') h' in
      apart (ground (arith, rest, rest'))
  replay_apart old mine key ((k, rec) ∷ docs) n n' m m' hash apart h h' =
      let (good, rest) = replay_first p key old ((k, rec) ∷ docs) "" 0 0 n (hash, m) h in
      let (good', rest') = replay_first p key mine ((k, rec) ∷ docs) "" 0 0 n' (hash, m') h' in
      let (next, _) = replay_first p k rec docs old.hash old.seq 1 n (hash, m) rest in
      let (next', _) = replay_first p k rec docs mine.hash mine.seq 1 n' (hash, m') rest' in
      let first = verify_record-IsLinked p old "" 0 good in
      let first' = verify_record-IsLinked p mine "" 0 good' in
      let second = verify_record-IsLinked p rec old.hash old.seq next in
      let second' = verify_record-IsLinked p rec mine.hash mine.seq next' in
      apart (
        sym (second'.3 (digest_ne (first'.0 ++ canonical p mine) mine.hash first'.2))
        ∙ second.3 (digest_ne (first.0 ++ canonical p old) old.hash first.2))

  genesis_on :
      LogCall
      → StoreLog
      → Fault
      → Fault
      → List (Option ChainHead)
      → Result StoredError (Unit {0}) × StoreLog
  genesis_on c l f g lost =
      let (r, s, b) = retried f true head_key (genesis_run p c) lost no_vars l.meta in
      then_put p g r s.sealed (record l { meta = b })

  -- the log with the head as it was, and with a record put under the first number
  abbrev replaced : Record → ChainHead → StoreLog → StoreLog
  replaced mine h l = record {
    records = record l.records { docs = insert (seq_key mine.seq) mine l.records.docs };
    meta = record l.meta { docs = insert head_key h l.meta.docs };
  }

  genesis_replaces :
      (c : LogCall) (l : StoreLog) (h : ChainHead) (mine : Record)
      → c.on_head ≡ fine
      → c.on_record ≡ fine
      → c.lost ≡ none ∷ []
      → seal_record p (c.rands 0) (first_record p c 0) ≡ ok mine
      → lookup head_key l.meta.docs ≡ some h
      → ensure_genesis p c l ≡ (ok tt, replaced mine h l)
  unfolding ensure_genesis genesis_on replayed put
  genesis_replaces c l h mine on_head on_record lost made stored =
      let same : ensure_genesis p c l ≡ genesis_on c l fine fine (none ∷ []) =
        λ i. genesis_on c l (on_head i) (on_record i) (lost i) in
      same
      ∙ ap
          (λ (t : Result (UpdateError AuditError) (Unit {0}) × Vars × Bucket ChainHead).
            then_put p fine t.0 t.1.sealed (record l { meta = t.2 }))
          (retried_found fine true head_key (genesis_run p c) (none ∷ []) no_vars l.meta stored)
      ∙ ap
          (λ (r : Result AuditError Record).
            then_put p fine (ok tt) (sealed_head p no_vars r).1.sealed
              (record l { meta = record l.meta { docs = insert head_key h l.meta.docs } }))
          made

  -- A replica whose first run of the callback saw no head, and whose create then lost to another
  -- replica's, replaces the first record of that chain by its own. Its call answers without an error,
  -- and the log, which verified before, does not any more.
  pub lost_race_breaks :
      (c : LogCall) (l : StoreLog) (h : ChainHead) (old mine : Record) (rest : Dict Record)
      → c.on_head ≡ fine
      → c.on_record ≡ fine
      → c.lost ≡ none ∷ []
      → seal_record p (c.rands 0) (first_record p c 0) ≡ ok mine
      → lookup head_key l.meta.docs ≡ some h
      → l.records.docs ≡ (seq_key 1, old) ∷ rest
      → (verify_store p fine l).1 ≡ none
      → mine.hash ≢ old.hash
      → let (r, l') = ensure_genesis p c l in
        (r ≡ ok tt)
        × (l'.records.docs ≡ (seq_key 1, mine) ∷ rest)
        × ((verify_store p fine l').1 ≢ none)
  unfolding insert verify_store
  lost_race_breaks c l h old mine rest on_head on_record lost made stored docs sound apart =
      let same = genesis_replaces c l h mine on_head on_record lost made stored in
      let (_, _, _, _, fields) = sealed_as p (c.rands 0) (first_record p c 0) mine made in
      let one : mine.seq ≡ 1 = ap (λ (r : Record). r.seq) fields in
      let new : (replaced mine h l).records.docs ≡ (seq_key 1, mine) ∷ rest =
        ap₂ (λ n d. insert (seq_key n) mine d) one docs ∙ ground (arith, eq_refl (seq_key 1)) in
      (
        ap (λ t. t.0) same,
        ap (λ (t : Result StoredError (Unit {0}) × StoreLog). t.1.records.docs) same ∙ new,
        λ quiet.
            let quiet' : (verify_store p fine (replaced mine h l)).1 ≡ none =
              ap (λ (t : Result StoredError (Unit {0}) × StoreLog). (verify_store p fine t.1).1)
                (sym same)
              ∙ quiet in
            let (n, hash, m, head, loop, found, _, at_hash) =
              check_end-none p fine l.meta (replay p "" 0 0 l.records.docs) sound in
            let (n', hash', m', head', loop', found', _, at_hash') =
              check_end-none p fine (replaced mine h l).meta
                (replay p "" 0 0 (replaced mine h l).records.docs) quiet' in
            let ends : hash' ≡ hash = ground (
              arith,
              stored,
              found,
              at_hash,
              found',
              at_hash',
              lookup-insert head_key head_key h l.meta.docs,
            ) in
            replay_apart old mine (seq_key 1) rest n n' m m' hash apart
              (sym (ap (replay p "" 0 0) docs) ∙ loop)
              (sym (ap (replay p "" 0 0) new) ∙ loop' ∙ ap (λ x. (n', ok (x, m'))) ends),
      )
