-- ===== src/Base/Text.antt =====
-- Text tests of the Rust standard library that the program uses.
use Prim.Native.Nat.{ℕ, ◌+◌, ◌/◌, ◌%◌}
use Prim.Native.Char.{Char, code}
use mathlib.Core.Path.{◌≡◌, refl, sym, ap, ◌∙◌}
use Prim.Native.String.append as append_laws
use Prim.Native.String.{String, ◌++◌ as append}
use mathlib.Core.Bool.{Bool, true, ◌&&◌, ◌||◌}
use mathlib.Core.List.{List, [], ◌∷◌, ◌++◌}
use mathlib.Core.Option
use mathlib.Core.Option.{Option, none, some}
use kiteframe.Base.Tests.{ltb, leb, if◌then◌else◌}
use kiteframe.Base.Equality.{ℕ_discrete, ◌==◌, nat_eq}

-- `char::is_whitespace`: the code points with the Unicode property White_Space.
unfoldable pub is_whitespace : ℕ → Bool
unfolding ℕ_discrete
is_whitespace c =
    leb 9 c && leb c 13
    || c == 32
    || c == 0x85
    || c == 0xA0
    || c == 0x1680
    || leb 0x2000 c && leb c 0x200A
    || c == 0x2028
    || c == 0x2029
    || c == 0x202F
    || c == 0x205F
    || c == 0x3000

-- The characters of a text, and the text of some characters.
abbrev pub chars : String → List Char
chars String.[] = []
chars (String.◌∷◌ c s) = c ∷ chars s

abbrev pub of_chars : List Char → String
of_chars [] = String.[]
of_chars (c ∷ cs) = String.◌∷◌ c (of_chars cs)

pub chars-of_chars : (cs : List Char) → chars (of_chars cs) ≡ cs
chars-of_chars [] = refl
chars-of_chars (c ∷ cs) = ap (λ rest. c ∷ rest) (chars-of_chars cs)

pub of_chars-chars : (s : String) → of_chars (chars s) ≡ s
of_chars-chars String.[] = refl
of_chars-chars (String.◌∷◌ c s) = ap (λ rest. String.◌∷◌ c rest) (of_chars-chars s)

pub chars-append : (s t : String) → chars (append s t) ≡ chars s ++ chars t
chars-append String.[] t = ap chars (append_laws.nil t)
chars-append (String.◌∷◌ c s) t =
    ap chars (append_laws.cons c s t) ∙ ap (λ rest. c ∷ rest) (chars-append s t)

pub of_chars-append : (xs ys : List Char) → of_chars (xs ++ ys) ≡ append (of_chars xs) (of_chars ys)
of_chars-append [] ys = sym (append_laws.nil (of_chars ys))
of_chars-append (c ∷ cs) ys =
    ap (λ rest. String.◌∷◌ c rest) (of_chars-append cs ys)
    ∙ sym (append_laws.cons c (of_chars cs) (of_chars ys))

-- The code points of a text, in order.
abbrev pub codes : String → List ℕ
codes String.[] = []
codes (String.◌∷◌ c s) = code c ∷ codes s

-- `s.trim().is_empty()`: nothing is left when white space is cut off both ends.
unfoldable pub is_blank : String → Bool
unfolding is_whitespace
is_blank String.[] = true
is_blank (String.◌∷◌ c s) = is_whitespace (code c) && is_blank s

-- `u8::is_ascii_control`
unfoldable pub is_ascii_control : ℕ → Bool
unfolding ℕ_discrete
is_ascii_control c = leb c 31 || c == 127

-- `u8::is_ascii_whitespace`: tab, line feed, form feed, carriage return and space.
unfoldable pub is_ascii_whitespace : ℕ → Bool
unfolding ℕ_discrete
is_ascii_whitespace c = c == 9 || c == 10 || c == 12 || c == 13 || c == 32

-- What follows the prefix, if the text begins with it: `strip_prefix`.
unfoldable pub strip_prefix : List ℕ → List ℕ → Option (List ℕ)
unfolding ℕ_discrete
strip_prefix [] text = some text
strip_prefix (p ∷ ps) [] = none
strip_prefix (p ∷ ps) (c ∷ cs) = if p == c then strip_prefix ps cs else none

-- `split_once`: the text before and behind the first occurrence of the separator.
unfoldable pub split_once : List ℕ → List ℕ → Option (List ℕ × List ℕ)
unfolding strip_prefix
split_once separator [] = Option.map (λ rest. ([], rest)) (strip_prefix separator [])
split_once separator (c ∷ cs) = elim (strip_prefix separator (c ∷ cs)) [
  | some rest ↦ some ([], rest)
  | none ↦ Option.map (λ (before, rest). (c ∷ before, rest)) (split_once separator cs)
]

-- The UTF-8 bytes of a code point.
unfoldable pub utf8_char : ℕ → List ℕ
utf8_char c =
    if ltb c 0x80
    then c ∷ []
    else if ltb c 0x800
    then (192 + c / 64) ∷ (128 + c % 64) ∷ []
    else if ltb c 0x10000
    then (224 + c / 4096) ∷ (128 + c / 64 % 64) ∷ (128 + c % 64) ∷ []
    else (240 + c / 262144) ∷ (128 + c / 4096 % 64) ∷ (128 + c / 64 % 64) ∷ (128 + c % 64) ∷ []

-- `as_bytes`
unfoldable pub utf8 : String → List ℕ
unfolding utf8_char
utf8 String.[] = []
utf8 (String.◌∷◌ c s) = utf8_char (code c) ++ utf8 s
