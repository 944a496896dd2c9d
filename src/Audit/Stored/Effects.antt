-- ===== src/Audit/Stored/Effects.antt =====
-- What one call does to the two buckets of the log, whatever it meets.
use mnemoca.Prelude.{
  some, Result, ok, err, insert, lookup, ◌≡◌, refl, ◌⊎◌, inl, inr, lookup-insert, ap, ◌∙◌, sym, ◌+◌,
  ◌%◌, ◌^◌,
}
use mnemoca.Store.Fault.{Fault, fine, refused, ghost, StoreError, UpdateError}
use mnemoca.Store.Bucket.{store_out, Bucket, put}
use mnemoca.Store.Retried.{replayed, retried_found}
use mnemoca.Audit.Record.{Record, Primitives, Bytes}
use mnemoca.Audit.Chain.{AuditError, seal_record}
use mathlib.Core.Path.{subst}
use mnemoca.Audit.File.Laws.{sealed_as}
use mnemoca.Audit.Keys.{seq_key}
use mnemoca.Audit.Stored.{
  false, StoreLog, ChainHead, LogCall, Vars, no_vars, StoredError, of_audit, in_store, head_key,
  head_of, sealed_head, put_sealed, then_append, next_record, log_run, log,
}

abbrev pub with_head : Record → StoreLog → StoreLog
with_head rec l = record l {
  meta = record l.meta { docs = insert head_key (head_of rec) l.meta.docs };
}

pub head_set :
    (rec : Record) (l : StoreLog) → lookup head_key (with_head rec l).meta.docs ≡ some (head_of rec)
head_set rec l = lookup-insert head_key head_key (head_of rec) l.meta.docs

module _ (p : Primitives) where
  -- an append to a chain that has a head, given the end of the head's write, of the record's, and
  -- the sealed record
  abbrev pub logged :
      Fault → Fault → Result AuditError Record → StoreLog → Result StoredError (Unit {0}) × StoreLog
  logged f g (err e) l = (err (of_audit e), l)
  logged fine g (ok rec) l = put_sealed p g (some rec) (with_head rec l)
  logged refused g (ok rec) l = (err (in_store StoreError.unavailable), l)
  logged ghost g (ok rec) l = (err (in_store StoreError.unavailable), with_head rec l)

  logged_lem :
      (f g : Fault) (r : Result AuditError Record) (s : Vars) (l : StoreLog)
      → let (ended, b) = store_out f head_key l.meta (sealed_head p s r).0 in
        then_append p g ended (sealed_head p s r).1.sealed (record l { meta = b }) ≡ logged f g r l
  logged_lem f g (err e) s l = refl
  logged_lem fine g (ok rec) s l = refl
  logged_lem refused g (ok rec) s l = refl
  logged_lem ghost g (ok rec) s l = refl

  -- the random bytes of the run of the callback whose result is stored
  abbrev pub last_rand : LogCall → Record → Bytes
  last_rand c rec = c.rands (replayed (log_run p c rec) no_vars c.lost).runs

  pub log_found :
      (c : LogCall) (rec : Record) (l : StoreLog) {h : ChainHead}
      → lookup head_key l.meta.docs ≡ some h
      → log p c rec l
        ≡ logged c.on_head c.on_record (seal_record p (last_rand c rec) (next_record p c rec h)) l
  unfolding log
  log_found c rec l {h} found =
      ap
        (λ (t : Result (UpdateError AuditError) (Unit {0}) × Vars × Bucket ChainHead).
          then_append p c.on_record t.0 t.1.sealed (record l { meta = t.2 }))
        (retried_found c.on_head false head_key (log_run p c rec) c.lost no_vars l.meta found)
      ∙ logged_lem c.on_head c.on_record _ _ l

  -- The call has done nothing, or the head names the sealed record, which is stored or not.
  abbrev pub IsEffect : StoreLog → Record → StoreLog → Type 0
  IsEffect l rec l' =
      (lookup head_key l'.meta.docs ≡ some (head_of rec))
      × ((l'.records.docs ≡ l.records.docs)
          ⊎ (l'.records.docs ≡ insert (seq_key rec.seq) rec l.records.docs))

  logged-IsEffect :
      (f g : Fault) (r : Result AuditError Record) (l : StoreLog)
      → ((logged f g r l).1 ≡ l)
        ⊎ ((rec : Record) × (r ≡ ok rec) × IsEffect l rec (logged f g r l).1)
  unfolding insert put
  logged-IsEffect f g (err e) l = inl refl
  logged-IsEffect fine fine (ok rec) l = inr (rec, refl, (head_set rec l, inr refl))
  logged-IsEffect fine refused (ok rec) l = inr (rec, refl, (head_set rec l, inl refl))
  logged-IsEffect fine ghost (ok rec) l = inr (rec, refl, (head_set rec l, inr refl))
  logged-IsEffect refused g (ok rec) l = inl refl
  logged-IsEffect ghost g (ok rec) l = inr (rec, refl, (head_set rec l, inl refl))

  pub log-IsEffect :
      (c : LogCall) (rec : Record) (l : StoreLog) {h : ChainHead}
      → lookup head_key l.meta.docs ≡ some h
      → ((log p c rec l).1 ≡ l)
        ⊎ ((sealed : Record) × (seal_record p (last_rand c rec) (next_record p c rec h) ≡ ok sealed)
            × (sealed.seq ≡ (h.seq + 1) % 2 ^ 64)
            × IsEffect l sealed (log p c rec l).1)
  log-IsEffect c rec l {h} found =
      elim (logged-IsEffect c.on_head c.on_record
        (seal_record p (last_rand c rec) (next_record p c rec h)) l) [
          | inl same ↦ inl (ap (λ t. t.1) (log_found c rec l found) ∙ same)
          | inr (sealed, made, effect) ↦
              let (prev, sig, _, _, fields) =
                sealed_as p (last_rand c rec) (next_record p c rec h) sealed made in
              inr (
                sealed,
                made,
                ap (λ (r : Record). r.seq) fields,
                subst (λ t. IsEffect l sealed t.1) (sym (log_found c rec l found)) effect,
              )
        ]
