-- ===== src/Regex.antt =====
-- The patterns of Python's `re` that the verifiers apply with `fullmatch`, by derivatives. What the
-- library's engine finds by backtracking is the same set of texts.
pub mod Language
use aitp_verifier_py.Prelude.{
  ℕ, zero, suc, Bool, true, false, ◌&&◌, ◌||◌, [], ◌∷◌, if◌then◌else◌, ◌==◌,
}
use aitp_verifier_py.Text.{Text}

pub data Regex : Type 0 where
  never : Regex
  empty : Regex
  class : (ℕ → Bool) → Regex
  seq : Regex → Regex → Regex
  alt : Regex → Regex → Regex
  star : Regex → Regex

-- Whether a pattern takes the empty text.
unfoldable pub nullable : Regex → Bool
nullable never = false
nullable empty = true
nullable (class p) = false
nullable (seq r s) = nullable r && nullable s
nullable (alt r s) = nullable r || nullable s
nullable (star r) = true

-- Sequence and choice that drop what takes nothing, to keep derivatives small.
unfoldable pub follow : Regex → Regex → Regex
follow never s = never
follow empty s = s
follow r s = seq r s

unfoldable pub either : Regex → Regex → Regex
either never s = s
either r never = r
either r s = alt r s

-- What a pattern takes after the character `c`.
unfoldable pub derive : ℕ → Regex → Regex
unfolding nullable follow either
derive c never = never
derive c empty = never
derive c (class p) = if p c then empty else never
derive c (seq r s) =
    let rest = derive c s in
    let first = follow (derive c r) s in if nullable r then either first rest else first
derive c (alt r s) = either (derive c r) (derive c s)
derive c (star r) = follow (derive c r) (star r)

-- `pattern.fullmatch(s) is not None`
unfoldable pub matches : Regex → Text → Bool
unfolding derive nullable
matches r [] = nullable r
matches r (c ∷ cs) = matches (derive c r) cs

-- `r+`, `r?`, `r{n}`, at most `n` of `r`, and a literal text.
abbrev pub some_of : Regex → Regex
some_of r = seq r (star r)

abbrev pub maybe : Regex → Regex
maybe r = alt empty r

abbrev pub exactly : ℕ → Regex → Regex
exactly zero r = empty
exactly (suc n) r = seq r (exactly n r)

abbrev pub at_most : ℕ → Regex → Regex
at_most zero r = empty
at_most (suc n) r = alt empty (seq r (at_most n r))

abbrev pub literal : Text → Regex
literal [] = empty
literal (c ∷ cs) = seq (class (λ d. d == c)) (literal cs)
