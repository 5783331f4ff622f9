-- ===== src/Jcs.antt =====
-- aitp_verifier/jcs.py: RFC 8785 canonicalization, with its two caps.
pub mod Number
mod Order
pub mod Caps
pub mod Boundary
unfoldable pub use Number.{format_number}
unfoldable pub use Order.{sort_members}
use aitp_verifier_py.Prelude.{
  ℕ, zero, suc, ◌+◌, ◌-◌, ◌/◌, ◌%◌, Bool, true, false, Option, none, some, List, [], ◌∷◌, ◌++◌, ltb,
  ◌==◌, if◌then◌else◌, leb,
}
use aitp_verifier_py.Text.{Text, Bytes, txt, encode, utf8_point}
use aitp_verifier_py.Json.{
  Value, null, bool, int, float, str, list, obj, Items, nil, item, Members, end, member, dyadic,
  items,
}
use aitp_verifier_py.Outcome.{
  Code, Result, Check, ok, err, raised, or_raise, jcs_error, unicode_error, ◌>>=◌, ◌>>◌,
}
use aitp_verifier_py.Platform.{Platform}

abbrev pub max_depth : ℕ
max_depth = 256

abbrev pub max_nodes_visited : ℕ
max_nodes_visited = 200000

-- One of the sixteen digits of `\u%04x`.
unfoldable pub hex : ℕ → ℕ
hex d = if ltb d 10 then d + b'0' else d - 10 + b'a'

-- `_NAMED_ESCAPES` and the branches of the loop in `_format_string`.
unfoldable pub format_char : ℕ → Text
unfolding hex
format_char c =
    if c == 0x08
    then 0x5C ∷ b'b' ∷ []
    else if c == 0x09
    then 0x5C ∷ b't' ∷ []
    else if c == 0x0A
    then 0x5C ∷ b'n' ∷ []
    else if c == 0x0C
    then 0x5C ∷ b'f' ∷ []
    else if c == 0x0D
    then 0x5C ∷ b'r' ∷ []
    else if c == 0x22
    then 0x5C ∷ 0x22 ∷ []
    else if c == 0x5C
    then 0x5C ∷ 0x5C ∷ []
    else if ltb c 0x20
    then 0x5C ∷ b'u' ∷ b'0' ∷ b'0' ∷ hex (c / 16) ∷ hex (c % 16) ∷ []
    else c ∷ []

format_chars : Text → Text
unfolding format_char
format_chars [] = 0x22 ∷ []
format_chars (c ∷ cs) = format_char c ++ format_chars cs

unfoldable pub format_string : Text → Text
unfolding format_chars
format_string s = 0x22 ∷ format_chars s

-- `_visit`, with the counter box as a value that is passed on.
unfoldable pub visit : ℕ → Result ℕ
visit visits = if ltb max_nodes_visited (visits + 1) then raised jcs_error else ok (visits + 1)

-- A serializer of one value: from the visit counter to the output and the new counter.
abbrev pub Serializer : Type 0
Serializer = Value → ℕ → Result (Text × ℕ)

-- The loop over a list: a comma before every item but the first.
unfoldable pub serialize_items : Serializer → Bool → List Value → ℕ → Result (Text × ℕ)
serialize_items each first [] visits = ok (b']' ∷ [], visits)
serialize_items each first (v ∷ vs) visits = each v visits >>= λ (out, visits1).
    serialize_items each false vs visits1 >>= λ (rest, visits2).
    ok ((if first then [] else b',' ∷ []) ++ (out ++ rest), visits2)

-- The loop over the sorted members.
unfoldable pub serialize_members : Serializer → Bool → List (Text × Value) → ℕ → Result (Text × ℕ)
unfolding format_string
serialize_members each first [] visits = ok (b'}' ∷ [], visits)
serialize_members each first ((k, v) ∷ m) visits = each v visits >>= λ (out, visits1).
    serialize_members each false m visits1 >>= λ (rest, visits2).
    ok ((if first then [] else b',' ∷ []) ++ (format_string k ++ (b':' ∷ (out ++ rest))), visits2)

module _ ⦃π : Platform⦄ where
  -- The dispatch on the value's type, once both caps have passed.
  unfoldable pub serialize_body : Serializer → Value → ℕ → Result (Text × ℕ)
  serialize_body each null visits = ok (txt "null", visits)
  serialize_body each (bool true) visits = ok (txt "true", visits)
  serialize_body each (bool false) visits = ok (txt "false", visits)
  serialize_body each (str s) visits = ok (format_string s, visits)
  serialize_body each (int n) visits = do t ← format_number (int n); ok (t, visits)
  serialize_body each (float f) visits = do t ← format_number (float f); ok (t, visits)
  serialize_body each (list l) visits =
      serialize_items each true (items l) visits >>= λ (out, visits1). ok (b'[' ∷ out, visits1)
  serialize_body each (obj m) visits = do
    sorted ← sort_members m
    serialize_members each true sorted visits >>= λ (out, visits1). ok (b'{' ∷ out, visits1)

  -- `_serialize` with `depth = max_depth + 1 - levels`: at no level left the depth is past the cap.
  unfoldable pub serialize : ℕ → Serializer
  serialize zero v visits = visit visits >>= λ visits1. raised jcs_error
  serialize (suc levels) v visits =
      visit visits >>= λ visits1. serialize_body (serialize levels) v visits1

  unfoldable pub dumps : Value → Result Text
  dumps v = serialize (suc max_depth) v 0 >>= λ (out, visits). ok out

  -- `.encode("utf-8")` raises on a lone surrogate.
  unfoldable pub canonicalize : Value → Result Bytes
  canonicalize v = do out ← dumps v; or_raise unicode_error (encode utf8_point out)
