-- ===== src/Tests/Toy.antt =====
-- Concrete stand-ins for the primitives of the audit log, with the laws that the log relies on.
use Prim.Native.Char.{code}
use mathlib.Core.Path.{ap₂}
use text.Mathlib.TextEquality.{Char-path}
use mnemoca.Audit.Record.{Record, Bytes, Primitives, Lawful}
use mnemoca.Prelude.{
  length-append, ◌==◌, zero, if◌then◌else◌, ◌∙◌, leb, ◌≡◌, length, ◌∷◌, [], String, ℕ, suc, ◌+◌,
  ◌%◌, List, ◌++◌, some, refl, ap, arith,
}

-- A text, each character one more than its number, then 0.
coded : String → Bytes → Bytes
coded String.[] rest = 0 ∷ rest
coded (String.◌∷◌ c s) rest = suc (code c) ∷ coded s rest

coded_injective : (s t : String) (u v : Bytes) → coded s u ≡ coded t v → (s ≡ t) × (u ≡ v)
unfolding coded
coded_injective String.[] String.[] u v h = (refl, ground (arith, h))
coded_injective String.[] (String.◌∷◌ d t) u v h = absurd (ground (arith, h))
coded_injective (String.◌∷◌ c s) String.[] u v h = absurd (ground (arith, h))
coded_injective (String.◌∷◌ c s) (String.◌∷◌ d t) u v h =
    let (same, rest) = coded_injective s t u v (ground (arith, h)) in
    (ap₂ String.◌∷◌ (Char-path c d (ground (arith, h))) same, rest)

detailed : List (String × String) → Bytes → Bytes
detailed [] rest = 0 ∷ rest
detailed ((k, v) ∷ more) rest = 1 ∷ coded k (coded v (detailed more rest))

detailed_injective :
    (ds es : List (String × String)) (u v : Bytes)
    → detailed ds u ≡ detailed es v
    → (ds ≡ es) × (u ≡ v)
unfolding detailed
detailed_injective [] [] u v h = (refl, ground (arith, h))
detailed_injective [] ((k, x) ∷ es) u v h = absurd (ground (arith, h))
detailed_injective ((k, x) ∷ ds) [] u v h = absurd (ground (arith, h))
detailed_injective ((k, x) ∷ ds) ((l, y) ∷ es) u v h =
    let (keys, after) = coded_injective k l _ _ (ground (arith, h)) in
    let (values, later) = coded_injective x y _ _ after in
    let (rest, ends) = detailed_injective ds es u v later in
    (ap₂ (λ (d : String × String) ts. d ∷ ts) (λ i. (keys i, values i)) rest, ends)

written : Record → Bytes
written r =
    r.seq
    ∷ r.time
    ∷ coded r.tenant (
        coded r.actor.kind (
          coded r.actor.id (
            coded r.actor.ip (
              coded r.action (
                coded r.object.kind (
                  coded r.object.id (
                    coded r.prev_hash
                      (coded r.hash (coded r.key_id (detailed r.detail r.sig))))))))))

written_injective : (r s : Record) → written r ≡ written s → r ≡ s
unfolding written
written_injective r s h =
    let seqs : r.seq ≡ s.seq = ground (arith, h) in
    let times : r.time ≡ s.time = ground (arith, h) in
    let (a, h₁) = coded_injective r.tenant s.tenant _ _ (ground (arith, h)) in
    let (b, h₂) = coded_injective r.actor.kind s.actor.kind _ _ h₁ in
    let (c, h₃) = coded_injective r.actor.id s.actor.id _ _ h₂ in
    let (d, h₄) = coded_injective r.actor.ip s.actor.ip _ _ h₃ in
    let (e, h₅) = coded_injective r.action s.action _ _ h₄ in
    let (f, h₆) = coded_injective r.object.kind s.object.kind _ _ h₅ in
    let (g, h₇) = coded_injective r.object.id s.object.id _ _ h₆ in
    let (k, h₈) = coded_injective r.prev_hash s.prev_hash _ _ h₇ in
    let (l, h₉) = coded_injective r.hash s.hash _ _ h₈ in
    let (m, h₁₀) = coded_injective r.key_id s.key_id _ _ h₉ in
    let (n, o) = detailed_injective r.detail s.detail _ _ h₁₀ in
    λ i. record {
      seq = seqs i;
      time = times i;
      tenant = a i;
      actor = record { kind = b i; id = c i; ip = d i };
      action = e i;
      object = record { kind = f i; id = g i };
      detail = n i;
      prev_hash = k i;
      hash = l i;
      key_id = m i;
      sig = o i;
    }

-- bytes as a text: each in unary, then a stop
unary : ℕ → String → String
unary zero s = String.◌∷◌ "." s
unary (suc n) s = String.◌∷◌ "1" (unary n s)

dots : Bytes → String
dots [] = String.[]
dots (b ∷ bs) = unary b (dots bs)

undots : ℕ → String → Bytes
undots n String.[] = []
undots n (String.◌∷◌ c s) =
    let next = undots 0 s in
    let more = undots (suc n) s in if code c == b'.' then n ∷ next else more

undots-unary : (n k : ℕ) (s : String) → undots k (unary n s) ≡ (k + n) ∷ undots 0 s
unfolding undots unary
undots-unary zero k s = ground arith
undots-unary (suc n) k s = ground (arith, undots-unary n (suc k) s)

undots-dots : (bs : Bytes) → undots 0 (dots bs) ≡ bs
unfolding dots undots
undots-dots [] = refl
undots-dots (b ∷ bs) =
    undots-unary b 0 (dots bs)
    ∙ ap (λ n. n ∷ undots 0 (dots bs)) (omega arith)
    ∙ ap (λ t. b ∷ t) (undots-dots bs)

abbrev pub zeros : ℕ → Bytes
zeros zero = []
zeros (suc n) = 0 ∷ zeros n

unfoldable pub toy : Primitives
unfolding undots dots written unary coded detailed
toy = record {
  sha256 = λ b. (length b % 5) ∷ zeros 31;
  hex = dots;
  unhex = λ s. some (undots 0 s);
  marshal = written;
  sign = λ r b. some (b ++ r);
  valid = λ b s. leb (length b) (length s);
}

pub toy-Lawful : Lawful toy
unfolding toy
toy-Lawful = record {
  unhex-hex = λ b. ap some (undots-dots b);
  unhex_empty = refl;
  digest_size = λ b. refl;
  signed = λ r b s h. ground (arith, h, length-append b r);
  marshal_injective = written_injective;
}
