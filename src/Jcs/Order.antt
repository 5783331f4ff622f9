-- ===== src/Jcs/Order.antt =====
-- `sorted(value.keys(), key=lambda k: k.encode("utf-16-be"))`.
use aitp_verifier_py.Prelude.{Bool, true, false, List, [], ◌∷◌, ltb, ◌==◌, if◌then◌else◌}
use aitp_verifier_py.Text.{Text, Bytes, encode, utf16_point}
use aitp_verifier_py.Json.{Value, Members, end, member}
use aitp_verifier_py.Outcome.{Result, ok, or_raise, unicode_error, ◌>>=◌}

-- `a < b` on byte strings.
unfoldable pub bytes_lt : Bytes → Bytes → Bool
bytes_lt [] [] = false
bytes_lt [] (y ∷ ys) = true
bytes_lt (x ∷ xs) [] = false
bytes_lt (x ∷ xs) (y ∷ ys) = let rest = bytes_lt xs ys in if x == y then rest else ltb x y

-- A member behind its sort key.
abbrev pub Keyed : Type 0
Keyed = Bytes × Text × Value

unfoldable pub insert_keyed : Keyed → List Keyed → List Keyed
unfolding bytes_lt
insert_keyed m [] = m ∷ []
insert_keyed m (n ∷ ns) =
    let rest = insert_keyed m ns in if bytes_lt n.0 m.0 then n ∷ rest else m ∷ n ∷ ns

unfoldable pub sort_keyed : List Keyed → List Keyed
unfolding insert_keyed
sort_keyed [] = []
sort_keyed (m ∷ ms) = insert_keyed m (sort_keyed ms)

-- The keys of all members; a lone surrogate in a name is a `UnicodeEncodeError`.
unfoldable pub keyed : Members → Result (List Keyed)
keyed end = ok []
keyed (member k v m) = do
  b ← or_raise unicode_error (encode utf16_point k)
  rest ← keyed m
  ok ((b, k, v) ∷ rest)

unfoldable pub unkeyed : List Keyed → List (Text × Value)
unkeyed [] = []
unkeyed ((b, k, v) ∷ ms) = (k, v) ∷ unkeyed ms

unfoldable pub sort_members : Members → Result (List (Text × Value))
unfolding sort_keyed keyed unkeyed
sort_members m = keyed m >>= λ ms. ok (unkeyed (sort_keyed ms))
