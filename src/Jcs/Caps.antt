-- ===== src/Jcs/Caps.antt =====
-- The two caps bound what is serialized: nesting and the number of values visited.
use Prim.Native.Nat.{max}
use aitp_verifier_py.Prelude.{
  ℕ, zero, suc, ◌+◌, ◌≤◌, ◌<◌, ◌≡◌, refl, Bool, true, false, List, [], ◌∷◌, arith, ◌∙◌, Bool-cases,
  inl, inr,
}
use aitp_verifier_py.Text.{Text, Bytes, encode, utf16_point}
use aitp_verifier_py.Json.{
  Value, null, bool, int, float, str, list, obj, Items, nil, item, Members, end, member, items,
}
use aitp_verifier_py.Outcome.{ok, or_raise, unicode_error, >>=-eq-ok}
use aitp_verifier_py.Platform.{Platform}
use aitp_verifier_py.Jcs.{
  max_depth, max_nodes_visited, visit, Serializer, serialize_items, serialize_members,
  serialize_body, serialize, dumps, canonicalize, sort_members, format_number,
}
use aitp_verifier_py.Jcs.Order.{bytes_lt, Keyed, insert_keyed, sort_keyed, keyed, unkeyed}

-- How deep containers stand in one another below a value, and how many values it holds.
unfoldable mutual
  pub height : Value → ℕ
  height (list l) = height_items l
  height (obj m) = height_members m
  height _ = 0

  height_items : Items → ℕ
  height_items nil = 0
  height_items (item v l) = max (suc (height v)) (height_items l)

  height_members : Members → ℕ
  height_members end = 0
  height_members (member k v m) = max (suc (height v)) (height_members m)

unfoldable mutual
  pub nodes : Value → ℕ
  nodes (list l) = suc (nodes_items l)
  nodes (obj m) = suc (nodes_members m)
  nodes _ = 1

  nodes_items : Items → ℕ
  nodes_items nil = 0
  nodes_items (item v l) = nodes v + nodes_items l

  nodes_members : Members → ℕ
  nodes_members end = 0
  nodes_members (member k v m) = nodes v + nodes_members m

-- The same two measures of the lists that the loops walk.
nodes_list : List (Text × Value) → ℕ
nodes_list [] = 0
nodes_list ((k, v) ∷ m) = nodes v + nodes_list m

height_list : List (Text × Value) → ℕ
height_list [] = 0
height_list ((k, v) ∷ m) = max (suc (height v)) (height_list m)

insert_measures :
    (b : Bytes) (k : Text) (v : Value) (ms : List Keyed)
    → (nodes_list (unkeyed (insert_keyed (b, k, v) ms)) ≡ nodes v + nodes_list (unkeyed ms))
      × (height_list (unkeyed (insert_keyed (b, k, v) ms))
          ≡ max (suc (height v)) (height_list (unkeyed ms)))
unfolding insert_keyed unkeyed nodes_list height_list
insert_measures b k v [] = (refl, refl)
insert_measures b k v ((c, j, w) ∷ ms) = elim (Bool-cases (bytes_lt c b)) [
  | inl lower ↦ let (p, q) = insert_measures b k v ms in rw lower (omega arith, omega arith)
  | inr upper ↦ rw upper (refl, refl)
]

sort_measures :
    (ms : List Keyed)
    → (nodes_list (unkeyed (sort_keyed ms)) ≡ nodes_list (unkeyed ms))
      × (height_list (unkeyed (sort_keyed ms)) ≡ height_list (unkeyed ms))
unfolding sort_keyed unkeyed nodes_list height_list
sort_measures [] = (refl, refl)
sort_measures ((b, k, v) ∷ ms) =
    let (p, q) = sort_measures ms in
    let (r, s) = insert_measures b k v (sort_keyed ms) in (omega arith, omega arith)

keyed_measures :
    (m : Members) (ms : List Keyed)
    → keyed m ≡ ok ms
    → (nodes_list (unkeyed ms) ≡ nodes_members m) × (height_list (unkeyed ms) ≡ height_members m)
unfolding keyed unkeyed nodes_list height_list nodes height
keyed_measures end ms h = (ground arith, ground arith)
keyed_measures (member k v m) ms h =
    let (b, p, q) = >>=-eq-ok (or_raise unicode_error (encode utf16_point k)) _ h in
    let (rest, r, s) = >>=-eq-ok (keyed m) _ q in
    let (t, u) = keyed_measures m rest r in (ground arith, ground arith)

sort_members_measures :
    (m : Members) (ms : List (Text × Value))
    → sort_members m ≡ ok ms
    → (nodes_list ms ≡ nodes_members m) × (height_list ms ≡ height_members m)
unfolding sort_members
sort_members_measures m ms h =
    let (ks, p, q) = >>=-eq-ok (keyed m) _ h in
    let (r, s) = keyed_measures m ks p in
    let (t, u) = sort_measures ks in
    let e : unkeyed (sort_keyed ks) ≡ ms = cc in (rw (← e) (t ∙ r), rw (← e) (u ∙ s))

-- What a serializer guarantees of the counter and of the nesting when it returns.
abbrev Counts : ℕ → Serializer → Type 0
Counts levels each =
    (v : Value) (n : ℕ) (r : Text × ℕ)
    → each v n ≡ ok r
    → (r.1 ≡ n + nodes v) × (height v < levels) × (r.1 ≤ max_nodes_visited)

module _ (levels : ℕ) (each : Serializer) (counts : Counts levels each) where
  serialize_items-counts :
      (first : Bool) (l : Items) (n : ℕ) (r : Text × ℕ)
      → n ≤ max_nodes_visited
      → serialize_items each first (items l) n ≡ ok r
      → (r.1 ≡ n + nodes_items l) × (height_items l ≤ levels) × (r.1 ≤ max_nodes_visited)
  unfolding serialize_items items nodes height
  serialize_items-counts first nil n r le h = (ground arith, omega arith, ground arith)
  serialize_items-counts first (item v l) n r le h =
      let (a, p, q) = >>=-eq-ok (each v n) _ h in
      let (b, s, t) = >>=-eq-ok (serialize_items each false (items l) a.1) _ q in
      let (c, d, e) = counts v n a p in
      let (f, g, k) = serialize_items-counts false l a.1 b e s in
      let same : r.1 ≡ b.1 = ground (arith, t) in (omega arith, omega arith, omega arith)

  serialize_members-counts :
      (first : Bool) (m : List (Text × Value)) (n : ℕ) (r : Text × ℕ)
      → n ≤ max_nodes_visited
      → serialize_members each first m n ≡ ok r
      → (r.1 ≡ n + nodes_list m) × (height_list m ≤ levels) × (r.1 ≤ max_nodes_visited)
  unfolding serialize_members nodes_list height_list
  serialize_members-counts first [] n r le h = (ground arith, omega arith, ground arith)
  serialize_members-counts first ((k, v) ∷ m) n r le h =
      let (a, p, q) = >>=-eq-ok (each v n) _ h in
      let (b, s, t) = >>=-eq-ok (serialize_members each false m a.1) _ q in
      let (c, d, e) = counts v n a p in
      let (f, g, i) = serialize_members-counts false m a.1 b e s in
      let same : r.1 ≡ b.1 = ground (arith, t) in (omega arith, omega arith, omega arith)

  -- The body adds the nodes below the value, which has been counted already.
  serialize_body-counts :
      ⦃π : Platform⦄ (v : Value) (n : ℕ) (r : Text × ℕ)
      → n ≤ max_nodes_visited
      → serialize_body each v n ≡ ok r
      → (r.1 + 1 ≡ n + nodes v) × (height v ≤ levels) × (r.1 ≤ max_nodes_visited)
  unfolding serialize_body nodes height
  serialize_body-counts null n r le h = (ground arith, omega arith, ground arith)
  serialize_body-counts (bool true) n r le h = (ground arith, omega arith, ground arith)
  serialize_body-counts (bool false) n r le h = (ground arith, omega arith, ground arith)
  serialize_body-counts (str s) n r le h = (ground arith, omega arith, ground arith)
  serialize_body-counts (int z) n r le h =
      let (t, p, q) = >>=-eq-ok (format_number (int z)) _ h in
      (ground arith, omega arith, ground arith)
  serialize_body-counts (float f) n r le h =
      let (t, p, q) = >>=-eq-ok (format_number (float f)) _ h in
      (ground arith, omega arith, ground arith)
  serialize_body-counts (list l) n r le h =
      let (a, p, q) = >>=-eq-ok (serialize_items each true (items l) n) _ h in
      let (b, c, d) = serialize_items-counts true l n a le p in
      let same : r.1 ≡ a.1 = ground (arith, q) in (omega arith, omega arith, omega arith)
  serialize_body-counts (obj m) n r le h =
      let (ms, p, q) = >>=-eq-ok (sort_members m) _ h in
      let (a, s, t) = >>=-eq-ok (serialize_members each true ms n) _ q in
      let (b, c, d) = serialize_members-counts true ms n a le s in
      let (e, f) = sort_members_measures m ms p in
      let same : r.1 ≡ a.1 = ground (arith, t) in (omega arith, omega arith, omega arith)

visit-le : (n m : ℕ) → visit n ≡ ok m → (m ≡ n + 1) × (m ≤ max_nodes_visited)
unfolding visit
visit-le n m h = (ground arith, ground arith)

module _ ⦃π : Platform⦄ where
  serialize-Counts : (levels : ℕ) → Counts levels (serialize levels)
  unfolding serialize
  serialize-Counts zero v n r h = let (m, p, q) = >>=-eq-ok (visit n) _ h in cc
  serialize-Counts (suc levels) v n r h =
      let (m, p, q) = >>=-eq-ok (visit n) _ h in
      let (a, b) = visit-le n m p in
      let (c, d, e) =
        serialize_body-counts levels (serialize levels) (serialize-Counts levels) v m r b q in
      (omega arith, omega arith, e)

  -- What is canonicalized stands at most 256 levels deep and holds at most 200,000 values.
  pub canonicalize-caps :
      (v : Value) (out : Bytes)
      → canonicalize v ≡ ok out
      → (height v ≤ max_depth) × (nodes v ≤ max_nodes_visited)
  unfolding canonicalize dumps
  canonicalize-caps v out h =
      let (t, p, q) = >>=-eq-ok (dumps v) _ h in
      let (r, s, u) = >>=-eq-ok (serialize (suc max_depth) v 0) _ p in
      let (a, b, c) = serialize-Counts (suc max_depth) v 0 r s in (omega arith, omega arith)
