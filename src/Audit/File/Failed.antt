-- ===== src/Audit/File/Failed.antt =====
-- An append that fails before it has written anything still uses up a sequence number.
use mathlib.Core.Path.{sym, ap}
use mnemoca.Audit.Record.{Record, Primitives, Lawful}
use mnemoca.Audit.Chain.{
  broken, seal_record, entry, sequence_gap, verify_record, verify_from, verify,
}
use mnemoca.Audit.Chain.Linked.{head_after}
use mnemoca.Audit.File.{
  some, ℕ, String, Log, Conditions, log, chained, write_line, durable, unwritten, torn, unsynced,
  WriteEnd,
}
use mnemoca.Audit.File.Laws.{seq_after, IsSound, verify_from-append, seal_record-verified}
use mnemoca.Audit.File.Appends.{log_appended, log_sealed, log_unsealed, counted}
use mnemoca.Prelude.{
  length-append, ◌++◌, arith, ◌∙◌, ◌%◌, ◌^◌, inr, inl, ◌<◌, Result-cases, ◌+◌, ◌≡◌, ◌≢◌, ◌∷◌, [],
  length, ok, refl,
}

unwritten_counted :
    (w : WriteEnd) (sealed : Record) (l : Log)
    → length (write_line w sealed l).1.lines ≡ length l.lines
    → (write_line w sealed l).1 ≡ l
unwritten_counted durable sealed l h =
    absurd (omega (arith, h, length-append l.lines (entry sealed ∷ [])))
unwritten_counted unwritten sealed l h = refl
unwritten_counted torn sealed l h = absurd (omega (arith, h, length-append l.lines (broken ∷ [])))
unwritten_counted unsynced sealed l h =
    absurd (omega (arith, h, length-append l.lines (entry sealed ∷ [])))

module _ {p : Primitives} (law : Lawful p) where
  -- An append that adds no line has moved the sequence number on.
  pub log_unwritten :
      (c : Conditions) (rec : Record) (l : Log)
      → length (log p c rec l).1.lines ≡ length l.lines
      → (log p c rec l).1 ≡ counted l
  log_unwritten c rec l h = elim (Result-cases (seal_record p c.rand (chained p c rec l))) [
    | inl (e, failed) ↦ ap (λ u. u.1) (log_unsealed law c rec l failed)
    | inr (sealed, done) ↦
        let same = log_sealed law c rec sealed l done in
        ap (λ u. u.1) same
        ∙ unwritten_counted c.write sealed (counted l) (ap (λ u. length u.1.lines) (sym same) ∙ h)
  ]

  gap_found :
      (rec : Record) (q : String) (k n : ℕ)
      → rec.seq ≢ (k + 1) % 2 ^ 64
      → verify_from p q k n (entry rec ∷ []) ≡ (n, some sequence_gap)
  unfolding verify_from verify_record
  gap_found rec q k n h = ground (arith, h)

  -- After an append that has failed without writing a line, the next append that succeeds is one
  -- at which verification stops, with a sequence gap.
  pub failed_append_gap :
      (c c' : Conditions) (rec rec' : Record) (l : Log)
      → IsSound p l
      → length l.lines + 2 < 2 ^ 64
      → (log p c rec l).1.lines ≡ l.lines
      → (log p c' rec' (log p c rec l).1).0 ≡ ok tt
      → verify p (log p c' rec' (log p c rec l).1).1.lines ≡ (length l.lines, some sequence_gap)
  unfolding verify
  failed_append_gap c c' rec rec' l sound room kept h =
      let moved = log_unwritten c rec l (ap length kept) in
      let (sealed, done, same) = log_appended law c' rec' (log p c rec l).1 h in
      let (_, seq) =
        seal_record-verified p law c'.rand (chained p c' rec' (log p c rec l).1) sealed ""
          (counted l).seq done (λ e. absurd (e refl)) (ap (λ t. (t.seq + 1) % 2 ^ 64) moved) in
      let number : sealed.seq ≡ ((l.seq + 1) % 2 ^ 64 + 1) % 2 ^ 64 =
        seq ∙ ap (λ t. (t.seq + 1) % 2 ^ 64) moved in
      let gap : sealed.seq ≢ (seq_after 0 l.lines + 1) % 2 ^ 64 =
        λ e. absurd (omega (arith, room, number, e, sound.ends, sound.at_seq)) in
      ap (λ t. verify_from p "" 0 0 t.lines) same
      ∙ ap (λ t. verify_from p "" 0 0 (t ++ entry sealed ∷ [])) kept
      ∙ verify_from-append p l.lines (entry sealed ∷ []) "" 0 0 (length l.lines) sound.verified
      ∙ gap_found sealed (head_after "" l.lines) (seq_after 0 l.lines) (length l.lines) gap
