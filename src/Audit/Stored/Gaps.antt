-- ===== src/Audit/Stored/Gaps.antt =====
-- A head that has advanced past a record that is not stored: the chain stays broken.
use mnemoca.Prelude.{
  ℕ, ◌+◌, ◌%◌, ◌^◌, ◌<◌, ◌≤◌, List, [], ◌∷◌, none, some, Dict, lookup, insert, length, ◌≡◌, ◌≢◌,
  refl, inl, inr, arith, lookup-insert, str_eq, ap, sym, ◌∙◌,
}
use mathlib.Core.Path.{subst}
use mnemoca.Store.Fault.{Fault}
use mnemoca.Store.Bucket.{Bucket}
use mnemoca.Audit.Record.{Record, Primitives}
use mnemoca.Audit.Keys.{seq_key, compare-seq_key}
use mnemoca.Audit.Stored.{
  false, StoreLog, ChainHead, LogCall, head_key, head_of, log, replay, verify_store,
}
use mnemoca.Audit.Stored.Replay.{IsKeyed, IsKeyed-le, replay_listed, check_end-none}
use mnemoca.Audit.Stored.Effects.{log-IsEffect, IsEffect}

-- the keys of two numbers of 64 bits differ if the numbers do
seq_key_ne :
    (i j : ℕ)
    → i < j
    → j < 2 ^ 64
    → (str_eq (seq_key i) (seq_key j) ≡ false) × (str_eq (seq_key j) (seq_key i) ≡ false)
seq_key_ne i j less small = ground (arith, compare-seq_key i j less small)

IsKeyed-insert :
    (rec : Record) (m : ℕ) (docs : Dict Record)
    → rec.seq ≤ m
    → IsKeyed m docs
    → IsKeyed m (insert (seq_key rec.seq) rec docs)
unfolding insert
IsKeyed-insert rec m [] le keyed = ((refl, le), tt)
IsKeyed-insert rec m ((key, old) ∷ docs) le ((named, below), keyed) =
    ground (arith, le, named, below, keyed, IsKeyed-insert rec m docs le keyed)

-- The records are stored under their numbers, none is above the head's, and one of them, `j`, is not
-- there.
pub record IsGapped (j : ℕ) (l : StoreLog) : Type 0 where
  pub head : ChainHead
  pub stored : lookup head_key l.meta.docs ≡ some head
  pub keyed : IsKeyed head.seq l.records.docs
  pub below : 0 < j
  pub reached : j ≤ head.seq
  pub gone : lookup (seq_key j) l.records.docs ≡ none

module _ (p : Primitives) where
  -- calls of Log, by any replicas
  unfoldable pub logged_all : List (LogCall × Record) → StoreLog → StoreLog
  logged_all [] l = l
  logged_all ((c, rec) ∷ calls) l = logged_all calls (log p c rec l).1

  lookup_above :
      (docs : Dict Record) (m j : ℕ)
      → IsKeyed m docs
      → m < j
      → j < 2 ^ 64
      → lookup (seq_key j) docs ≡ none
  unfolding lookup
  lookup_above [] m j keyed low high = refl
  lookup_above ((key, rec) ∷ docs) m j ((named, le), keyed) low high =
      let (differ, _) = seq_key_ne rec.seq j (omega (arith, le, low)) high in
      ground
        (arith, ap (λ k. str_eq k (seq_key j)) named ∙ differ, lookup_above docs m j keyed low high)

  effect-IsGapped :
      (j : ℕ) (l l' : StoreLog) (sealed : Record) (g : IsGapped j l)
      → g.head.seq + 1 < 2 ^ 64
      → sealed.seq ≡ (g.head.seq + 1) % 2 ^ 64
      → IsEffect p l sealed l'
      → (g' : IsGapped j l') × (g'.head.seq ≡ g.head.seq + 1)
  effect-IsGapped j l l' sealed g small next (stored, records) =
      let grown : sealed.seq ≡ g.head.seq + 1 = omega (arith, next, small) in
      let keyed = IsKeyed-le g.head.seq sealed.seq l.records.docs (omega (arith, grown)) g.keyed in
      (
        record {
          head = head_of sealed;
          stored = stored;
          keyed = elim records [
            | inl same ↦ subst (IsKeyed sealed.seq) (sym same) keyed
            | inr new ↦
                subst (IsKeyed sealed.seq) (sym new)
                  (IsKeyed-insert sealed sealed.seq l.records.docs (omega arith) keyed)
          ];
          below = g.below;
          reached = omega (arith, grown, g.reached);
          gone = elim records [
            | inl same ↦ ap (lookup (seq_key j)) same ∙ g.gone
            | inr new ↦
                ap (lookup (seq_key j)) new
                ∙ lookup-insert (seq_key sealed.seq) (seq_key j) sealed l.records.docs
                ∙ ground (
                  arith,
                  seq_key_ne j sealed.seq (omega (arith, grown, g.reached))
                      (omega (arith, grown, small)),
                  g.gone,
                )
          ];
        },
        grown,
      )

  logged_all-IsGapped :
      (j : ℕ) (calls : List (LogCall × Record)) (l : StoreLog) (g : IsGapped j l)
      → g.head.seq + length calls < 2 ^ 64
      → IsGapped j (logged_all calls l)
  unfolding logged_all
  logged_all-IsGapped j [] l g small = g
  logged_all-IsGapped j ((c, rec) ∷ calls) l g small = elim (log-IsEffect p c rec l g.stored) [
    | inl same ↦
        subst (λ x. IsGapped j (logged_all calls x)) (sym same)
          (logged_all-IsGapped j calls l g (omega (arith, small)))
    | inr (sealed, made, next, effect) ↦
        let (g', grown) =
          effect-IsGapped j l (log p c rec l).1 sealed g (omega (arith, small)) next effect in
        logged_all-IsGapped j calls (log p c rec l).1 g' (omega (arith, small, grown))
  ]

  gapped_reported :
      (j : ℕ) (f : Fault) (l : StoreLog)
      → IsGapped j l
      → length l.records.docs < 2 ^ 64
      → (verify_store p f l).1 ≢ none
  unfolding verify_store
  gapped_reported j f l g small h =
      let (n, hash, m, head, loop, stored, at_seq, _) =
        check_end-none p f l.meta (replay p "" 0 0 l.records.docs) h in
      let (_, _, listed) =
        replay_listed p l.records.docs "" 0 0 n hash m g.head.seq g.keyed (omega (arith, small))
          loop in
      let top : m ≡ g.head.seq = ground (arith, at_seq, stored, g.stored) in
      listed j g.below (omega (arith, top, g.reached)) g.gone

  -- A head that has advanced while no record was stored is reported by every later verification,
  -- whatever is appended in between.
  pub gap_reported :
      (c : LogCall) (rec : Record) (l : StoreLog) (h : ChainHead)
      → lookup head_key l.meta.docs ≡ some h
      → IsKeyed h.seq l.records.docs
      → lookup head_key (log p c rec l).1.meta.docs ≢ some h
      → (log p c rec l).1.records ≡ l.records
      → (calls : List (LogCall × Record)) (f : Fault) → h.seq + 1 + length calls < 2 ^ 64
      → length (logged_all calls (log p c rec l).1).records.docs < 2 ^ 64
      → (verify_store p f (logged_all calls (log p c rec l).1)).1 ≢ none
  gap_reported c rec l h stored keyed advanced lacking calls f small few =
      elim (log-IsEffect p c rec l stored) [
        | inl same ↦
            absurd (advanced (ap (λ (x : StoreLog). lookup head_key x.meta.docs) same ∙ stored))
        | inr (sealed, made, next, (head, _)) ↦
            let grown : sealed.seq ≡ h.seq + 1 = omega (arith, next, small) in
            let l' = (log p c rec l).1 in
            let docs = sym (ap (λ (b : Bucket Record). b.docs) lacking) in
            gapped_reported sealed.seq f (logged_all calls l')
              (logged_all-IsGapped sealed.seq calls l'
                (record {
                  head = head_of sealed;
                  stored = head;
                  keyed =
                      subst (IsKeyed sealed.seq) docs
                        (IsKeyed-le h.seq sealed.seq l.records.docs (omega (arith, grown)) keyed);
                  below = omega (arith, grown);
                  reached = omega arith;
                  gone =
                      subst (λ x. lookup (seq_key sealed.seq) x ≡ none) docs
                        (lookup_above l.records.docs h.seq sealed.seq keyed (omega (arith, grown))
                          (omega (arith, grown, small)));
                })
                (omega (arith, grown, small)))
              few
      ]
