-- ===== src/Audit/Chain/Tamper.antt =====
-- What a verified chain commits to: its last hash fixes every record.
use mnemoca.Audit.Chain.Linked.{
  head_after, clear, contents, split-append, IsDigest, IsLinked, verify_entry,
}
use mathlib.Core.Option.{some-injective}
use mathlib.Core.Path.{subst}
use mathlib.Core.List.{List-discrete}
use mnemoca.Prelude.{◌⊎◌, [], length, List, ℕ_discrete, inl, inr, refl}
use mnemoca.Audit.Record.{Record, Primitives, Lawful, Collision, Bytes}
use mnemoca.Prelude.{inr, inl, arith, ap, ◌∙◌, sym, ◌≢◌, ◌+◌, ◌++◌, ◌∷◌, ◌≡◌}
use mnemoca.Audit.Chain.{none, ℕ, String, Line, entry, broken, canonical, verify_from, verify}

module _ {p : Primitives} (law : Lawful p) where
  hex_injective : (b c : Bytes) → p.hex b ≡ p.hex c → b ≡ c
  hex_injective b c h = some-injective _ _ (sym (law.unhex-hex b) ∙ ap p.unhex h ∙ law.unhex-hex c)

  hex-IsDigest : (b : Bytes) → IsDigest p (p.hex (p.sha256 b))
  hex-IsDigest b = (p.sha256 b, law.unhex-hex (p.sha256 b), law.digest_size b)

  IsDigest-nonempty : (q : String) → IsDigest p q → q ≢ ""
  IsDigest-nonempty q (b, e, size) h =
      let none_left : b ≡ [] = some-injective _ _ (sym e ∙ ap p.unhex h ∙ law.unhex_empty) in
      absurd (omega (arith, sym size ∙ ap length none_left))

  -- Two records with one hash, whose chain fields have one size, agree on all that is hashed.
  same_hash :
      (r s : Record) (q q' : String) (k k' : ℕ)
      → IsDigest p q
      → IsDigest p q'
      → IsLinked p q k r
      → IsLinked p q' k' s
      → r.hash ≡ s.hash
      → ((q ≡ q') × (clear r ≡ clear s)) ⊎ Collision p
  unfolding canonical
  same_hash r s q q' k k' (b, eb, sb) (b', eb', sb') (u, eu, hu, lu, _) (v, ev, hv, lv, _) h =
      let at_q = lu (IsDigest-nonempty q (b, eb, sb)) in
      let at_q' = lv (IsDigest-nonempty q' (b', eb', sb')) in
      let ub : u ≡ b = some-injective _ _ (sym eu ∙ ap p.unhex at_q ∙ eb) in
      let vb : v ≡ b' = some-injective _ _ (sym ev ∙ ap p.unhex at_q' ∙ eb') in
      let sums = hex_injective _ _ (sym hu ∙ h ∙ hv) in
      elim (List-discrete ℕ_discrete (u ++ canonical p r) (v ++ canonical p s)) [
        | no differ ↦ inr (u ++ canonical p r, v ++ canonical p s, differ, sums)
        | yes same ↦
            let (_, canon) = split-append u v (ap length ub ∙ sb ∙ sym (ap length vb ∙ sb')) same in
            let equal = law.marshal_injective _ _ canon in
            inl (sym at_q ∙ ap (λ rec. rec.prev_hash) equal ∙ at_q', equal)
      ]

  -- From the agreement of what follows to that of the two logs.
  joined :
      (r s : Record) (rs ss : List Line) (q q' : String) (k k' : ℕ)
      → IsDigest p q
      → IsDigest p q'
      → IsLinked p q k r
      → IsLinked p q' k' s
      → ((r.hash ≡ s.hash) × (contents rs ≡ contents ss)) ⊎ Collision p
      → ((q ≡ q') × (contents (entry r ∷ rs) ≡ contents (entry s ∷ ss))) ⊎ Collision p
  unfolding contents
  joined r s rs ss q q' k k' d d' lr ls (inr hit) = inr hit
  joined r s rs ss q q' k k' d d' lr ls (inl (hashes, rest)) =
      elim (same_hash r s q q' k k' d d' lr ls hashes) [
        | inr hit ↦ inr hit
        | inl (starts, firsts) ↦ inl (starts, cc)
      ]

  linked-IsDigest : (r : Record) (q : String) (k : ℕ) → IsLinked p q k r → IsDigest p r.hash
  linked-IsDigest r q k link = subst (IsDigest p) (sym link.2) (hex-IsDigest _)

  broken_unverified :
      (q : String) (k c : ℕ) (lines : List Line) → (verify_from p q k c (broken ∷ lines)).1 ≢ none
  unfolding verify_from
  broken_unverified q k c lines h = ground (arith, h)

  tamper_from :
      (rs ss : List Line) (q q' : String) (k k' c c' : ℕ)
      → IsDigest p q
      → IsDigest p q'
      → length rs ≡ length ss
      → (verify_from p q k c rs).1 ≡ none
      → (verify_from p q' k' c' ss).1 ≡ none
      → head_after q rs ≡ head_after q' ss
      → ((q ≡ q') × (contents rs ≡ contents ss)) ⊎ Collision p
  unfolding head_after
  tamper_from [] [] q q' k k' c c' d d' _ _ _ h = inl (h, refl)
  tamper_from [] (s ∷ ss) q q' k k' c c' d d' same _ _ h = absurd (omega (arith, same))
  tamper_from (r ∷ rs) [] q q' k k' c c' d d' same _ _ h = absurd (omega (arith, same))
  tamper_from (broken ∷ rs) (s ∷ ss) q q' k k' c c' d d' same vr vs h =
      absurd (broken_unverified q k c rs vr)
  tamper_from (entry r ∷ rs) (broken ∷ ss) q q' k k' c c' d d' same vr vs h =
      absurd (broken_unverified q' k' c' ss vs)
  tamper_from (entry r ∷ rs) (entry s ∷ ss) q q' k k' c c' d d' same vr vs h =
      let (lr, tail_r) = verify_entry p r rs q k c vr in
      let (ls, tail_s) = verify_entry p s ss q' k' c' vs in
      let dr = linked-IsDigest r q k lr in
      let ds = linked-IsDigest s q' k' ls in
      joined r s rs ss q q' k k' d d' lr ls (
        tamper_from rs ss r.hash s.hash r.seq s.seq (c + 1) (c' + 1) dr ds (omega (arith, same))
          tail_r tail_s h)

  count_from :
      (lines : List Line) (q : String) (k c : ℕ)
      → (verify_from p q k c lines).1 ≡ none
      → (verify_from p q k c lines).0 ≡ c + length lines
  unfolding verify_from
  count_from [] q k c h = omega arith
  count_from (broken ∷ lines) q k c h = absurd (ground (arith, h))
  count_from (entry r ∷ lines) q k c h = ground (arith, count_from lines r.hash r.seq (c + 1))

  -- Two logs that start at 32-byte anchors, verify with one count and end at one hash have the same
  -- records, signatures apart, unless two inputs of SHA-256 with one digest are at hand.
  pub tamper_evident :
      (r s : Record) (rs ss : List Line) (n : ℕ)
      → IsDigest p r.prev_hash
      → IsDigest p s.prev_hash
      → verify p (entry r ∷ rs) ≡ (n, none)
      → verify p (entry s ∷ ss) ≡ (n, none)
      → head_after "" (entry r ∷ rs) ≡ head_after "" (entry s ∷ ss)
      → (contents (entry r ∷ rs) ≡ contents (entry s ∷ ss)) ⊎ Collision p
  unfolding verify head_after
  tamper_evident r s rs ss n dr ds vr vs h =
      let one = ap (λ u. u.1) vr in
      let other = ap (λ u. u.1) vs in
      let ((u, eu, hu, _, nu), tail_r) = verify_entry p r rs "" 0 0 one in
      let ((v, ev, hv, _, nv), tail_s) = verify_entry p s ss "" 0 0 other in
      let lr : IsLinked p r.prev_hash 0 r = (u, eu, hu, λ _. refl, nu) in
      let ls : IsLinked p s.prev_hash 0 s = (v, ev, hv, λ _. refl, nv) in
      let counts =
        sym (count_from (entry r ∷ rs) "" 0 0 one)
        ∙ ap (λ u. u.0) (vr ∙ sym vs)
        ∙ count_from (entry s ∷ ss) "" 0 0 other in
      let later =
        tamper_from rs ss r.hash s.hash r.seq s.seq 1 1 (linked-IsDigest r r.prev_hash 0 lr)
          (linked-IsDigest s s.prev_hash 0 ls) (omega (arith, counts)) tail_r tail_s h in
      elim (joined r s rs ss r.prev_hash s.prev_hash 0 0 dr ds lr ls later) [
        | inl (_, same) ↦ inl same
        | inr hit ↦ inr hit
      ]
