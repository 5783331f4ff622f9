-- ===== src/Text.antt =====
-- Python's `str` and `bytes`. A `str` is its sequence of code points, lone surrogates included, since
-- `json.loads` makes them from `\ud800`; a `bytes` is a sequence of numbers below 256.
pub mod Laws
use Prim.Native.Char.{code}
use mathlib.Core.List.{reverse}
use aitp_verifier_py.Prelude.{
  ℕ, zero, suc, ◌+◌, ◌-◌, ◌*◌, ◌/◌, ◌%◌, String, Bool, true, false, ◌&&◌, ◌||◌, Option, none, some,
  List, [], ◌∷◌, ◌++◌, leb, ltb, ◌==◌, if◌then◌else◌, length, any,
}

abbrev pub Text : Type 0
Text = List ℕ

abbrev pub Bytes : Type 0
Bytes = List ℕ

-- A literal of the source.
unfoldable pub txt : String → Text
txt String.[] = []
txt (String.◌∷◌ c s) = code c ∷ txt s

-- `a == b` on two strings or two byte strings.
unfoldable pub text_eq : Text → Text → Bool
text_eq [] [] = true
text_eq [] (y ∷ ys) = false
text_eq (x ∷ xs) [] = false
text_eq (x ∷ xs) (y ∷ ys) = x == y && text_eq xs ys

-- `s in names` for a set, a tuple or a list of strings.
unfoldable pub mem_text : Text → List Text → Bool
unfolding text_eq
mem_text s [] = false
mem_text s (t ∷ ts) = text_eq s t || mem_text s ts

-- `xs <= ys` on sets of strings, as `issubset` has it.
unfoldable pub subset : List Text → List Text → Bool
unfolding mem_text
subset [] ys = true
subset (x ∷ xs) ys = mem_text x ys && subset xs ys

-- The text after a prefix, if it is there: `s.startswith(p)` with `s[len(p):]`.
unfoldable pub strip_prefix : Text → Text → Option Text
strip_prefix [] s = some s
strip_prefix (p ∷ ps) [] = none
strip_prefix (p ∷ ps) (c ∷ cs) = if p == c then strip_prefix ps cs else none

-- `s.partition(sep)` for one character: what stands before it, whether it is there, and the rest.
unfoldable pub partition : ℕ → Text → Text × Bool × Text
partition sep [] = ([], false, [])
partition sep (c ∷ cs) =
    if c == sep then ([], true, cs) else let (a, found, b) = partition sep cs in (c ∷ a, found, b)

-- The first part of `s.split(sep)` goes on in front of the others.
abbrev cons_head : ℕ → List Text → List Text
cons_head c [] = (c ∷ []) ∷ []
cons_head c (p ∷ ps) = (c ∷ p) ∷ ps

-- `s.split(sep)` for one character. It has always at least one part.
unfoldable pub split : ℕ → Text → List Text
split sep [] = [] ∷ []
split sep (c ∷ cs) = let rest = split sep cs in if c == sep then [] ∷ rest else cons_head c rest

-- `part in s` for two strings.
unfoldable pub contains_text : Text → Text → Bool
unfolding strip_prefix
contains_text part [] = elim (strip_prefix part []) [ none ↦ false | some _ ↦ true ]
contains_text part (c ∷ cs) = elim (strip_prefix part (c ∷ cs)) [
  | none ↦ contains_text part cs
  | some _ ↦ true
]

-- `int.from_bytes(b, "big")`.
unfoldable pub from_bytes : ℕ → Bytes → ℕ
from_bytes acc [] = acc
from_bytes acc (b ∷ bs) = from_bytes (acc * 256 + b) bs

-- A character class of a pattern.
abbrev pub in_range : ℕ → ℕ → ℕ → Bool
in_range lo hi c = leb lo c && leb c hi

-- `pattern.fullmatch(s)` for a sequence of character classes.
unfoldable pub full_match : List (ℕ → Bool) → Text → Bool
full_match [] [] = true
full_match [] (c ∷ cs) = false
full_match (p ∷ ps) [] = false
full_match (p ∷ ps) (c ∷ cs) = p c && full_match ps cs

-- The UTF-8 form of one code point; a surrogate has none.
unfoldable pub utf8_point : ℕ → Option Bytes
utf8_point c =
    if ltb c 0x80
    then some (c ∷ [])
    else if ltb c 0x800
    then some ((0xC0 + c / 0x40) ∷ (0x80 + c % 0x40) ∷ [])
    else if in_range 0xD800 0xDFFF c
    then none
    else if ltb c 0x10000
    then some ((0xE0 + c / 0x1000) ∷ (0x80 + c / 0x40 % 0x40) ∷ (0x80 + c % 0x40) ∷ [])
    else some (
        (0xF0 + c / 0x40000)
        ∷ (0x80 + c / 0x1000 % 0x40)
        ∷ (0x80 + c / 0x40 % 0x40)
        ∷ (0x80 + c % 0x40)
        ∷ [])

-- `c.encode("utf-16-be")` of one code point; a surrogate has none.
unfoldable pub utf16_point : ℕ → Option Bytes
utf16_point c =
    if in_range 0xD800 0xDFFF c
    then none
    else if ltb c 0x10000
    then some (c / 0x100 ∷ c % 0x100 ∷ [])
    else let v = c - 0x10000 in
      some ((0xD8 + v / 0x40000) ∷ v / 0x400 % 0x100 ∷ (0xDC + v % 0x400 / 0x100) ∷ v % 0x100 ∷ [])

-- `s.encode(...)`: `none` is the `UnicodeEncodeError`.
unfoldable pub encode : (ℕ → Option Bytes) → Text → Option Bytes
encode point [] = some []
encode point (c ∷ cs) = elim (point c) [
  | none ↦ none
  | some b ↦ elim (encode point cs) [ none ↦ none | some bs ↦ some (b ++ bs) ]
]
