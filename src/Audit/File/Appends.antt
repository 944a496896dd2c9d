-- ===== src/Audit/File/Appends.antt =====
-- Appending to the file log, opening it again, and an append that has failed.
use mathlib.Core.Path.{sym, ap, subst}
use mnemoca.Audit.Record.{Record, Primitives, Lawful}
use mnemoca.Audit.Chain.{entry, AuditError, seal_record, verify_record, verify_from, verify}
use mnemoca.Audit.Chain.Linked.{head_after}
use mnemoca.Audit.File.{
  none, ℕ, String, Log, Conditions, WriteEnd, durable, unwritten, torn, unsynced, log, chained,
  write_line,
}
use mnemoca.Audit.File.Laws.{
  seq_after, seq_after-append, head_after-append, verify_from-append, IsSound, seal_record-verified,
}
use mnemoca.Prelude.{
  ◌%◌, arith, ◌^◌, ◌<◌, ◌∙◌, ◌++◌, ◌+◌, ◌≡◌, ◌∷◌, [], length, length-append, ok, err, inl, inr,
  Result-cases, refl,
}

seq_next : (n : ℕ) → n + 1 < 2 ^ 64 → (n + 1) % 2 ^ 64 ≡ n + 1
seq_next n h = omega (arith, h)

-- the log after `l.seq++`
abbrev pub counted : Log → Log
counted l = record l { seq = (l.seq + 1) % 2 ^ 64 }

module _ {p : Primitives} (law : Lawful p) where
  verify_entry-verified :
      (rec : Record) (q : String) (k n : ℕ)
      → verify_record p rec q k ≡ ok tt
      → verify_from p q k n (entry rec ∷ []) ≡ (n + 1, none)
  unfolding verify_from
  verify_entry-verified rec q k n h = rw (verify_from, h) refl

  -- one more verified record at the end
  extended-IsSound :
      (l : Log) (sealed : Record)
      → IsSound p l
      → verify_record p sealed (head_after "" l.lines) l.seq ≡ ok tt
      → sealed.seq ≡ length l.lines + 1
      → IsSound p
          (record l { lines = l.lines ++ entry sealed ∷ []; seq = sealed.seq; head = sealed.hash })
  unfolding verify head_after seq_after
  extended-IsSound l sealed sound good next = record {
    verified =
        verify_from-append p l.lines (entry sealed ∷ []) "" 0 0 (length l.lines) sound.verified
        ∙ ap (λ k. verify_from p (head_after "" l.lines) k (length l.lines) (entry sealed ∷ []))
            sound.ends
        ∙ verify_entry-verified sealed (head_after "" l.lines) l.seq (length l.lines) good
        ∙ ap (λ n. (n, none)) (sym (length-append l.lines (entry sealed ∷ [])));
    at_head = λ _. sym (head_after-append "" l.lines (entry sealed ∷ []));
    at_seq = next ∙ sym (length-append l.lines (entry sealed ∷ []));
    ends = seq_after-append 0 l.lines (entry sealed ∷ []);
  }

  pub log_sealed :
      (c : Conditions) (rec sealed : Record) (l : Log)
      → seal_record p c.rand (chained p c rec l) ≡ ok sealed
      → log p c rec l ≡ write_line c.write sealed (counted l)
  unfolding log
  log_sealed c rec sealed l h = rw (log, h) refl

  pub log_unsealed :
      (c : Conditions) (rec : Record) (l : Log) {e : AuditError}
      → seal_record p c.rand (chained p c rec l) ≡ err e
      → log p c rec l ≡ (err e, counted l)
  unfolding log
  log_unsealed c rec l h = rw (log, h) refl

  written :
      (w : WriteEnd) (sealed : Record) (l : Log)
      → (write_line w sealed l).0 ≡ ok tt
      → (write_line w sealed l).1
        ≡ record l { lines = l.lines ++ entry sealed ∷ []; head = sealed.hash }
  written durable sealed l h = refl
  written unwritten sealed l h = absurd (ground (arith, h))
  written torn sealed l h = absurd (ground (arith, h))
  written unsynced sealed l h = absurd (ground (arith, h))

  -- An append that succeeds adds one record, sealed on the chain.
  pub log_appended :
      (c : Conditions) (rec : Record) (l : Log)
      → (log p c rec l).0 ≡ ok tt
      → (sealed : Record) × (seal_record p c.rand (chained p c rec l) ≡ ok sealed)
        × ((log p c rec l).1
            ≡ record (counted l) { lines = l.lines ++ entry sealed ∷ []; head = sealed.hash })
  log_appended c rec l h = elim (Result-cases (seal_record p c.rand (chained p c rec l))) [
    | inl (e, failed) ↦ absurd (ground (arith, sym h ∙ ap (λ u. u.0) (log_unsealed c rec l failed)))
    | inr (sealed, done) ↦
        let same = log_sealed c rec sealed l done in
        (
          sealed,
          done,
          ap (λ u. u.1) same ∙ written c.write sealed (counted l) (sym (ap (λ u. u.0) same) ∙ h),
        )
  ]

  -- An append that succeeds on a sound log leaves a sound log with one more record.
  pub log-IsSound :
      (c : Conditions) (rec : Record) (l : Log)
      → IsSound p l
      → length l.lines + 1 < 2 ^ 64
      → (log p c rec l).0 ≡ ok tt
      → IsSound p (log p c rec l).1 × (length (log p c rec l).1.lines ≡ length l.lines + 1)
  log-IsSound c rec l sound room h =
      let (sealed, done, same) = log_appended c rec l h in
      let next = seq_next (length l.lines) room in
      let (good, seq) =
        seal_record-verified p law c.rand (chained p c rec l) sealed (head_after "" l.lines) l.seq
          done sound.at_head refl in
      let at = seq ∙ ap (λ n. (n + 1) % 2 ^ 64) sound.at_seq ∙ next in
      let extended = extended-IsSound l sealed sound good at in
      (
        subst (IsSound p)
            (sym (
              same
              ∙ ap
                  (λ n. record l {
                    lines = l.lines ++ entry sealed ∷ [];
                    seq = n;
                    head = sealed.hash;
                  })
                  (sym seq)))
            extended,
        ap (λ t. length t.lines) same ∙ length-append l.lines (entry sealed ∷ []),
      )
