-- ===== src/B64.antt =====
-- aitp_verifier/b64.py: unpadded base64url (RFC 4648 §5), with the decoder of Python's `base64`,
-- which drops the unused low bits of a last partial group.
pub mod RoundTrip
pub mod Boundary
use aitp_verifier_py.Prelude.{
  ℕ, ◌+◌, ◌-◌, ◌*◌, ◌/◌, ◌%◌, Bool, true, false, Option, none, some, List, [], ◌∷◌, ltb, ◌==◌,
  if◌then◌else◌,
}
use aitp_verifier_py.Text.{Text, Bytes, in_range}
use aitp_verifier_py.Outcome.{Result, value_error, or_raise, ◌>>=◌}

-- The value of an alphabet character; `none` outside `_ALPHABET`.
unfoldable pub sextet : ℕ → Option ℕ
sextet c =
    if in_range b'A' b'Z' c
    then some (c - b'A')
    else if in_range b'a' b'z' c
    then some (c - b'a' + 26)
    else if in_range b'0' b'9' c
    then some (c - b'0' + 52)
    else if c == b'-'
    then some 62
    else if c == b'_'
    then some 63
    else none

unfoldable pub character : ℕ → ℕ
character s =
    if ltb s 26
    then s + b'A'
    else if ltb s 52
    then s - 26 + b'a'
    else if ltb s 62
    then s - 52 + b'0'
    else if s == 62
    then b'-'
    else b'_'

-- `ch in _ALPHABET`.
unfoldable pub in_alphabet : ℕ → Bool
unfolding sextet
in_alphabet c = elim (sextet c) [ none ↦ false | some _ ↦ true ]

-- The values of all characters, or `none` at the first stray one.
unfoldable pub sextets : Text → Option (List ℕ)
sextets [] = some []
sextets (c ∷ cs) = elim (sextet c) [
  | none ↦ none
  | some s ↦ elim (sextets cs) [ none ↦ none | some ss ↦ some (s ∷ ss) ]
]

-- The bytes of the groups; one character alone is `binascii.Error`.
unfoldable pub ungroup : List ℕ → Option Bytes
ungroup [] = some []
ungroup (a ∷ []) = none
ungroup (a ∷ b ∷ []) = some ((a * 4 + b / 16) ∷ [])
ungroup (a ∷ b ∷ c ∷ []) = some ((a * 4 + b / 16) ∷ (b % 16 * 16 + c / 4) ∷ [])
ungroup (a ∷ b ∷ c ∷ d ∷ rest) = elim (ungroup rest) [
  | none ↦ none
  | some bs ↦ some ((a * 4 + b / 16) ∷ (b % 16 * 16 + c / 4) ∷ (c % 4 * 64 + d) ∷ bs)
]

unfoldable pub b64url_decode : Text → Result Bytes
b64url_decode text = do ss ← or_raise value_error (sextets text); or_raise value_error (ungroup ss)

unfoldable pub group : Bytes → List ℕ
group [] = []
group (x ∷ []) = x / 4 ∷ x % 4 * 16 ∷ []
group (x ∷ y ∷ []) = x / 4 ∷ (x % 4 * 16 + y / 16) ∷ y % 16 * 4 ∷ []
group (x ∷ y ∷ z ∷ rest) =
    x / 4 ∷ (x % 4 * 16 + y / 16) ∷ (y % 16 * 4 + z / 64) ∷ z % 64 ∷ group rest

unfoldable pub characters : List ℕ → Text
characters [] = []
characters (s ∷ ss) = character s ∷ characters ss

unfoldable pub b64url_encode : Bytes → Text
b64url_encode bytes = characters (group bytes)
