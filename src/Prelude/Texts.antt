-- ===== src/Prelude/Texts.antt =====
-- The functions of Go's packages strings and encoding/hex that the program uses on texts.
use Prim.Native.Nat.{ℕ, zero, suc, ◌+◌, ◌*◌, ◌/◌, ◌%◌}
use Prim.Native.Char.{Char, code, len_utf8}
use Prim.Native.String.{String, len, ◌++◌ as text_append}
use Prim.Native.String.append
use Prim.Native.String.len
use mathlib.Core.Path.{◌≡◌, refl, ap, ◌∙◌}
use mathlib.Core.Bool.{Bool, true, false, ◌&&◌, ◌||◌}
use mathlib.Core.Option.{Option, none, some}
use mathlib.Core.Logic.{inl, inr}
use mathlib.Core.List.{List, [], ◌∷◌}
use native.Mathlib.Omega.{arith}
use text.Mathlib.TextEquality.{Char-path}
use mnemoca.Prelude.Tests.{if◌then◌else◌, ◌==◌, leb, Bool-cases}
use mnemoca.Prelude.Lists.{length}

-- strings.CutPrefix(s, prefix): the rest, or none
unfoldable pub cut_prefix : String → String → Option String
cut_prefix String.[] s = some s
cut_prefix (String.◌∷◌ c p) String.[] = none
cut_prefix (String.◌∷◌ c p) (String.◌∷◌ d s) =
    let rest = cut_prefix p s in if code c == code d then rest else none

-- one character more before the separator
abbrev pub cut_after : Char → Option (String × String) → Option (String × String)
cut_after c none = none
cut_after c (some (before, after)) = some (String.◌∷◌ c before, after)

-- strings.Cut(s, sep) for a separator of one character
unfoldable pub cut : Char → String → Option (String × String)
cut sep String.[] = none
cut sep (String.◌∷◌ c s) =
    let later = cut sep s in if code c == code sep then some (String.[], s) else cut_after c later

-- unicode.IsSpace
abbrev pub is_space : Char → Bool
is_space c =
    leb 9 (code c) && leb (code c) 13
    || code c == 32
    || code c == 133
    || code c == 160
    || code c == 5760
    || leb 8192 (code c) && leb (code c) 8202
    || code c == 8232
    || code c == 8233
    || code c == 8239
    || code c == 8287
    || code c == 12288

unfoldable pub trim_left : String → String
trim_left String.[] = String.[]
trim_left (String.◌∷◌ c s) = let rest = trim_left s in if is_space c then rest else String.◌∷◌ c s

abbrev pub trim_right_step : Char → String → String
trim_right_step c String.[] = if is_space c then String.[] else String.◌∷◌ c String.[]
trim_right_step c (String.◌∷◌ d s) = String.◌∷◌ c (String.◌∷◌ d s)

unfoldable pub trim_right : String → String
trim_right String.[] = String.[]
trim_right (String.◌∷◌ c s) = trim_right_step c (trim_right s)

-- strings.TrimSpace
unfoldable pub trim_space : String → String
unfolding trim_left trim_right
trim_space s = trim_right (trim_left s)

-- a digit of hex.EncodeToString; the byte is below 256
abbrev pub hex_digit : ℕ → Char
hex_digit zero = "0"
hex_digit (suc zero) = "1"
hex_digit (suc (suc zero)) = "2"
hex_digit (suc (suc (suc zero))) = "3"
hex_digit (suc (suc (suc (suc zero)))) = "4"
hex_digit (suc (suc (suc (suc (suc zero))))) = "5"
hex_digit (suc (suc (suc (suc (suc (suc zero)))))) = "6"
hex_digit (suc (suc (suc (suc (suc (suc (suc zero))))))) = "7"
hex_digit (suc (suc (suc (suc (suc (suc (suc (suc zero)))))))) = "8"
hex_digit (suc (suc (suc (suc (suc (suc (suc (suc (suc zero))))))))) = "9"
hex_digit (suc (suc (suc (suc (suc (suc (suc (suc (suc (suc zero)))))))))) = "a"
hex_digit (suc (suc (suc (suc (suc (suc (suc (suc (suc (suc (suc zero))))))))))) = "b"
hex_digit (suc (suc (suc (suc (suc (suc (suc (suc (suc (suc (suc (suc zero)))))))))))) = "c"
hex_digit (suc (suc (suc (suc (suc (suc (suc (suc (suc (suc (suc (suc (suc zero))))))))))))) = "d"
hex_digit (suc (suc (suc (suc (suc (suc (suc (suc (suc (suc (suc (suc (suc (suc zero)))))))))))))) =
    "e"
hex_digit
      (suc (suc (suc (suc (suc (suc (suc (suc (suc (suc (suc (suc (suc (suc (suc d))))))))))))))) =
    "f"

unfoldable pub hex_text : List ℕ → String
hex_text [] = String.[]
hex_text (b ∷ bs) = String.◌∷◌ (hex_digit (b / 16)) (String.◌∷◌ (hex_digit (b % 16)) (hex_text bs))

-- c >= '0' && c <= '9' || c >= 'a' && c <= 'f'
abbrev pub is_hex : Char → Bool
is_hex c = leb 48 (code c) && leb (code c) 57 || leb 97 (code c) && leb (code c) 102

-- Every character of the text passes the test.
unfoldable pub all_chars : (Char → Bool) → String → Bool
all_chars test String.[] = true
all_chars test (String.◌∷◌ c s) = let rest = all_chars test s in test c && rest

pub hex_digit-is_hex : (d : ℕ) → (is_hex (hex_digit d) ≡ true) × (len_utf8 (hex_digit d) ≡ 1)
hex_digit-is_hex zero = (refl, refl)
hex_digit-is_hex (suc zero) = (refl, refl)
hex_digit-is_hex (suc (suc zero)) = (refl, refl)
hex_digit-is_hex (suc (suc (suc zero))) = (refl, refl)
hex_digit-is_hex (suc (suc (suc (suc zero)))) = (refl, refl)
hex_digit-is_hex (suc (suc (suc (suc (suc zero))))) = (refl, refl)
hex_digit-is_hex (suc (suc (suc (suc (suc (suc zero)))))) = (refl, refl)
hex_digit-is_hex (suc (suc (suc (suc (suc (suc (suc zero))))))) = (refl, refl)
hex_digit-is_hex (suc (suc (suc (suc (suc (suc (suc (suc zero)))))))) = (refl, refl)
hex_digit-is_hex (suc (suc (suc (suc (suc (suc (suc (suc (suc zero))))))))) = (refl, refl)
hex_digit-is_hex (suc (suc (suc (suc (suc (suc (suc (suc (suc (suc zero)))))))))) = (refl, refl)
hex_digit-is_hex (suc (suc (suc (suc (suc (suc (suc (suc (suc (suc (suc zero))))))))))) =
    (refl, refl)
hex_digit-is_hex (suc (suc (suc (suc (suc (suc (suc (suc (suc (suc (suc (suc zero)))))))))))) =
    (refl, refl)
hex_digit-is_hex
      (suc (suc (suc (suc (suc (suc (suc (suc (suc (suc (suc (suc (suc zero))))))))))))) =
    (refl, refl)
hex_digit-is_hex
      (suc (suc (suc (suc (suc (suc (suc (suc (suc (suc (suc (suc (suc (suc zero)))))))))))))) =
    (refl, refl)
hex_digit-is_hex
      (suc (suc (suc (suc (suc (suc (suc (suc (suc (suc (suc (suc (suc (suc (suc d))))))))))))))) =
    (refl, refl)

pub all_chars-hex_text : (bs : List ℕ) → all_chars is_hex (hex_text bs) ≡ true
unfolding all_chars hex_text
all_chars-hex_text [] = refl
all_chars-hex_text (b ∷ bs) =
    ground
      (arith, (hex_digit-is_hex (b / 16)).0, (hex_digit-is_hex (b % 16)).0, all_chars-hex_text bs)

pub len-hex_text : (bs : List ℕ) → len (hex_text bs) ≡ 2 * length bs
unfolding hex_text
len-hex_text [] = refl
len-hex_text (b ∷ bs) =
    len.cons (hex_digit (b / 16)) (String.◌∷◌ (hex_digit (b % 16)) (hex_text bs))
    ∙ ap (λ n. len_utf8 (hex_digit (b / 16)) + n) (len.cons (hex_digit (b % 16)) (hex_text bs))
    ∙ omega (arith, (hex_digit-is_hex (b / 16)).1, (hex_digit-is_hex (b % 16)).1, len-hex_text bs)

pub cut_prefix-append : (p s : String) → cut_prefix p (text_append p s) ≡ some s
unfolding cut_prefix
cut_prefix-append String.[] s = ap some (append.nil s)
cut_prefix-append (String.◌∷◌ c p) s =
    ap (cut_prefix (String.◌∷◌ c p)) (append.cons c p s) ∙ ground (arith, cut_prefix-append p s)

-- The first separator of a text without one, before a separator, is that one.
pub cut-append :
    (sep : Char) (test : Char → Bool) (a b : String)
    → test sep ≡ false
    → all_chars test a ≡ true
    → cut sep (text_append a (String.◌∷◌ sep b)) ≡ some (a, b)
unfolding cut all_chars
cut-append sep test String.[] b apart good =
    ap (cut sep) (append.nil (String.◌∷◌ sep b)) ∙ ground arith
cut-append sep test (String.◌∷◌ c a) b apart good =
    ap (cut sep) (append.cons c a (String.◌∷◌ sep b)) ∙ elim (Bool-cases (code c == code sep)) [
      | inl hit ↦
          let same : test c ≡ test sep = ap test (Char-path c sep (ground (arith, hit))) in
          absurd (ground (arith, same, apart, good))
      | inr miss ↦ ground (arith, miss, good, cut-append sep test a b apart)
    ]

trim_right_step_same :
    (c : Char) (s : String) → is_space c ≡ false → trim_right_step c s ≡ String.◌∷◌ c s
trim_right_step_same c String.[] h = rw h refl
trim_right_step_same c (String.◌∷◌ d s) h = refl

module _ (test : Char → Bool) (none_space : (c : Char) → test c ≡ true → is_space c ≡ false) where
  trim_left_same : (s : String) → all_chars test s ≡ true → trim_left s ≡ s
  unfolding trim_left all_chars
  trim_left_same String.[] good = refl
  trim_left_same (String.◌∷◌ c s) good =
      let solid = none_space c (ground (arith, good)) in rw solid refl

  trim_right_same : (s : String) → all_chars test s ≡ true → trim_right s ≡ s
  unfolding trim_right all_chars
  trim_right_same String.[] good = refl
  trim_right_same (String.◌∷◌ c s) good =
      ap (trim_right_step c) (trim_right_same s (ground (arith, good)))
      ∙ trim_right_step_same c s (none_space c (ground (arith, good)))

  pub trim_space_same : (s : String) → all_chars test s ≡ true → trim_space s ≡ s
  unfolding trim_space
  trim_space_same s good = ap trim_right (trim_left_same s good) ∙ trim_right_same s good

pub all_chars-append :
    (test : Char → Bool) (a b : String)
    → all_chars test a ≡ true
    → all_chars test b ≡ true
    → all_chars test (text_append a b) ≡ true
unfolding all_chars
all_chars-append test String.[] b ha hb = ap (all_chars test) (append.nil b) ∙ hb
all_chars-append test (String.◌∷◌ c a) b ha hb =
    ap (all_chars test) (append.cons c a b)
    ∙ ground (arith, ha, all_chars-append test a b (ground (arith, ha)) hb)

pub all_chars_weaken :
    (test other : Char → Bool) (s : String)
    → ((c : Char) → test c ≡ true → other c ≡ true)
    → all_chars test s ≡ true
    → all_chars other s ≡ true
unfolding all_chars
all_chars_weaken test other String.[] weaker good = refl
all_chars_weaken test other (String.◌∷◌ c s) weaker good =
    ground (arith, good, weaker c, all_chars_weaken test other s weaker)
