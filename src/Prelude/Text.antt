-- ===== src/Prelude/Text.antt =====
-- Text: comparison, `format!` as concatenation, decimal numbers, and ASCII lower case.
use Prim.Native.Nat.{ℕ, zero, suc, ◌-◌, ◌/◌, ◌%◌, ◌<◌}
use Prim.Native.Char.{Char, code}
use Prim.Native.String.{String, char_at, ◌++◌}
use text.Mathlib.Text.{◌==◌ as string_eq}
use mathlib.Core.Path.{◌≡◌, refl, ap, ◌∙◌}
use Prim.Native.String.append
use mathlib.Core.Bool.{Bool, true, false, not, ◌&&◌, ◌||◌}
use mathlib.Core.Logic.{inl, inr}
use native.Mathlib.Omega.{arith}
use mathlib.Core.List.{List, [], ◌∷◌}
use mcp_host.Prelude.Tests.{◌==◌, ==_iff, ==_refl, Bool-cases, ltb, leb, if◌then◌else◌}
use mcp_host.Prelude.Int.{ℤ, pos, negsuc}

-- `s == t` on `str`.
abbrev pub str_eq : String → String → Bool
str_eq s t = string_eq s t

-- `format!`, given the pieces of the text.
abbrev pub format : List String → String
format [] = ""
format (s ∷ ss) = s ++ format ss

digit : ℕ → Char
digit d = char_at "0123456789" d

show_digits : ℕ → ℕ → String → String
unfolding digit
show_digits zero n acc = acc
show_digits (suc fuel) n acc =
    let rest = show_digits fuel (n / 10) (String.◌∷◌ (digit (n % 10)) acc) in
    if ltb n 10 then String.◌∷◌ (digit n) acc else rest

-- `{n}` for a natural number: a number below 10 ^ k has at most k digits, so the fuel is enough.
unfoldable pub show_nat : ℕ → String
unfolding show_digits
show_nat n = show_digits (suc n) n ""

-- `{n}` for an integer.
unfoldable pub show_int : ℤ → String
unfolding show_nat
show_int (pos n) = show_nat n
show_int (negsuc n) = "-" ++ show_nat (suc n)

show_int_tests :
    (show_int (pos 0) ≡ "0") × (show_int (pos 1203) ≡ "1203") × (show_int (negsuc 9) ≡ "-10")
unfolding show_int
show_int_tests = (refl, refl, refl)

is_upper : Char → Bool
is_upper c = leb 65 (code c) && leb (code c) 90

lower_char : Char → Char
unfolding is_upper
lower_char c = if is_upper c then char_at "abcdefghijklmnopqrstuvwxyz" (code c - 65) else c

-- `to_ascii_lowercase`, and `to_lowercase` of a text in ASCII.
unfoldable pub to_lowercase : String → String
unfolding lower_char
to_lowercase String.[] = ""
to_lowercase (String.◌∷◌ c s) = String.◌∷◌ (lower_char c) (to_lowercase s)

to_lowercase_test : to_lowercase "Staging-2" ≡ "staging-2"
unfolding to_lowercase
to_lowercase_test = refl

letter : ℕ → Char
letter n = char_at "abcdefghijklmnopqrstuvwxyz" n

-- None of the first letters is an upper one.
lower_letters : ℕ → Bool
unfolding is_upper letter
lower_letters zero = true
lower_letters (suc n) = not (is_upper (letter n)) && lower_letters n

lower_letter : (k n : ℕ) → lower_letters k ≡ true → n < k → is_upper (letter n) ≡ false
unfolding lower_letters
lower_letter zero n h l = absurd (omega (arith, l))
lower_letter (suc k) n h l = elim (Bool-cases (n == k)) [
  | inl e ↦ rw ((==_iff n k).0 e) (ground (arith, h))
  | inr e ↦ lower_letter k n (ground (arith, h)) (ground (arith, l))
]

lowered : (c : Char) → is_upper c ≡ true → is_upper (letter (code c - 65)) ≡ false
unfolding lower_letters is_upper letter
lowered c u = lower_letter 26 (code c - 65) refl (ground arith)

lower_char_idem : (c : Char) → lower_char (lower_char c) ≡ lower_char c
unfolding lower_char letter
lower_char_idem c = elim (Bool-cases (is_upper c)) [
  | inl u ↦ rw u (rw (lowered c u) refl)
  | inr u ↦ rw u (rw u refl)
]

pub to_lowercase_idem : (s : String) → to_lowercase (to_lowercase s) ≡ to_lowercase s
unfolding to_lowercase
to_lowercase_idem String.[] = refl
to_lowercase_idem (String.◌∷◌ c s) = rw (lower_char_idem c) (rw (to_lowercase_idem s) refl)

is_space : Char → Bool
is_space c = leb 9 (code c) && leb (code c) 13 || code c == 32

-- `trim_start` and `trim_end`, of texts in ASCII
trim_start : String → String
unfolding is_space
trim_start String.[] = ""
trim_start (String.◌∷◌ c s) = let rest = trim_start s in if is_space c then rest else String.◌∷◌ c s

unless_blank : Char → String → String
unfolding is_space
unless_blank c String.[] = if is_space c then "" else String.◌∷◌ c ""
unless_blank c (String.◌∷◌ d s) = String.◌∷◌ c (String.◌∷◌ d s)

trim_end : String → String
unfolding unless_blank
trim_end String.[] = ""
trim_end (String.◌∷◌ c s) = unless_blank c (trim_end s)

-- `trim`
unfoldable pub trim : String → String
unfolding trim_start trim_end
trim s = trim_end (trim_start s)

trim_test : (trim " \t Re stored \n" ≡ "Re stored") × (trim "   " ≡ "")
unfolding trim
trim_test = (refl, refl)

-- `starts_with`, by characters
unfoldable pub starts_with : String → String → Bool
starts_with String.[] t = true
starts_with (String.◌∷◌ c s) String.[] = false
starts_with (String.◌∷◌ c s) (String.◌∷◌ d t) = (code c == code d) && starts_with s t

code_refl : (c : Char) → (code c == code c) ≡ true
code_refl c = ==_refl (code c)

-- A text starts with each of its parts that stand first.
pub starts_with-append : (s t : String) → starts_with s (s ++ t) ≡ true
unfolding starts_with
starts_with-append String.[] t = refl
starts_with-append (String.◌∷◌ c s) t =
    ap (starts_with (String.◌∷◌ c s)) (append.cons c s t)
    ∙ rw (code_refl c) (starts_with-append s t)

-- And with no text that has another first character.
pub starts_with-other :
    (c d : Char) (s u t : String)
    → (code c == code d) ≡ false
    → starts_with (String.◌∷◌ c s) ((String.◌∷◌ d u) ++ t) ≡ false
unfolding starts_with
starts_with-other c d s u t h = ap (starts_with (String.◌∷◌ c s)) (append.cons d u t) ∙ rw h refl
