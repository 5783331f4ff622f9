-- ===== src/Jwk/Issuer/Caps.antt =====
-- The walk of `_issuer_keys_from` of aitp_verifier/jwk.py stays within its caps, whatever it is given.
use aitp_verifier_py.Prelude.{
  ℕ, ◌+◌, ◌≤◌, ◌≡◌, subst, false, Option, none, some, List, [], ◌∷◌, ◌++◌, leb, ltb, length,
  length-append, All, arith,
}
use aitp_verifier_py.Text.{txt}
use aitp_verifier_py.Json.{
  Value, null, bool, int, float, str, list, obj, Items, nil, item, Members, get, items,
}
use aitp_verifier_py.Outcome.{Result, ok, value_error, >>=-eq-ok, ok-injective, raised-eq-ok}
use aitp_verifier_py.Platform.{Platform}
use aitp_verifier_py.Jwk.Issuer.{
  IssuerKey, issuer_key_from_jwk, max_candidates, max_key_nodes, max_key_depth, Walk, visit_node,
  reserve, walk_keys, walk_jwks, walk_object, enter, collect, collect_items, issuer_keys_from,
}
use aitp_verifier_py.Jwk.Issuer.Bounds.{
  refuse_if-eq-ok, All-append, IsStructural, issuer_key_from_jwk-IsStructural,
  issuer_key_from_config-IsStructural,
}

module _ ⦃π : Platform⦄ where
  -- At most 64 candidates and 4096 nodes, and every candidate's algorithm is its own key's.
  pub record IsCapped (w : Walk) : Type 0 where
    pub few_candidates : length w.out ≤ 64
    pub few_nodes : w.visits ≤ 4096
    pub structural : All IsStructural w.out

  visit_node-IsCapped : (w v : Walk) → IsCapped w → visit_node w ≡ ok v → IsCapped v
  unfolding visit_node
  visit_node-IsCapped w v c h =
      let (p, h1) = refuse_if-eq-ok (ltb max_key_nodes (w.visits + 1)) _ h in
      subst IsCapped (ok-injective h1) (record {
        few_candidates = c.few_candidates;
        few_nodes = ground arith;
        structural = c.structural;
      })

  enter-IsCapped : (depth : ℕ) (w v : Walk) → IsCapped w → enter depth w ≡ ok v → IsCapped v
  unfolding enter
  enter-IsCapped depth w v c h =
      let (u, p, h1) = >>=-eq-ok (visit_node w) _ h in
      let (q, h2) = refuse_if-eq-ok (ltb max_key_depth depth) _ h1 in
      subst IsCapped (ok-injective h2) (visit_node-IsCapped w u c p)

  one_more :
      {A : Type 0} (l : List A) (a : A) → leb 64 (length l) ≡ false → length (l ++ (a ∷ [])) ≤ 64
  one_more l a h = ground (arith, length-append l (a ∷ []))

  reserve-IsCapped :
      (parse : Result IssuerKey) (w v : Walk)
      → ((k : IssuerKey) → parse ≡ ok k → IsStructural k)
      → IsCapped w
      → reserve parse w ≡ ok v
      → IsCapped v
  unfolding reserve
  reserve-IsCapped parse w v parsed c h =
      let (p, h1) = refuse_if-eq-ok (leb max_candidates (length w.out)) _ h in
      let (k, q, h2) = >>=-eq-ok parse _ h1 in
      subst IsCapped (ok-injective h2) (record {
        few_candidates = one_more w.out k p;
        few_nodes = c.few_nodes;
        structural = All-append IsStructural w.out (k ∷ []) c.structural (parsed k q, tt);
      })

  walk_keys-IsCapped :
      (ks : List Value) (w v : Walk) → IsCapped w → walk_keys ks w ≡ ok v → IsCapped v
  unfolding walk_keys
  walk_keys-IsCapped [] w v c h = subst IsCapped (ok-injective h) c
  walk_keys-IsCapped (k ∷ ks) w v c h =
      let (u, p, h1) = >>=-eq-ok (reserve (issuer_key_from_jwk k) w) _ h in
      walk_keys-IsCapped ks u v (reserve-IsCapped _ w u (issuer_key_from_jwk-IsStructural k) c p) h1

  walk_jwks-IsCapped :
      (keys : Value) (w v : Walk) → IsCapped w → walk_jwks keys w ≡ ok v → IsCapped v
  unfolding walk_jwks
  walk_jwks-IsCapped (list ks) w v c h = walk_keys-IsCapped (items ks) w v c h
  walk_jwks-IsCapped keys w v c h = cc

  keys_case :
      (value : Members) (o : Option Value) (w v : Walk)
      → IsCapped w
      → (elim o as (λ _. Result Walk) [
        | some keys ↦ walk_jwks keys w
        | none ↦ reserve (issuer_key_from_jwk (obj value)) w
      ])
        ≡ ok v
      → IsCapped v
  keys_case value (some keys) w v c h = walk_jwks-IsCapped keys w v c h
  keys_case value none w v c h =
      reserve-IsCapped _ w v (issuer_key_from_jwk-IsStructural (obj value)) c h

  walk_object-IsCapped :
      (value : Members) (w v : Walk) → IsCapped w → walk_object value w ≡ ok v → IsCapped v
  unfolding walk_object
  walk_object-IsCapped value w v c h = keys_case value (get (txt "keys") value) w v c h

  mutual
    unfolding collect

    collect-IsCapped :
        (value : Value) (depth : ℕ) (w v : Walk)
        → IsCapped w
        → collect value depth w ≡ ok v
        → IsCapped v
    collect-IsCapped (list values) depth w v c h =
        let (u, p, h1) = >>=-eq-ok (enter depth w) _ h in
        collect_items-IsCapped values (depth + 1) u v (enter-IsCapped depth w u c p) h1
    collect-IsCapped null depth w v c h = enter-IsCapped depth w v c h
    collect-IsCapped (str s) depth w v c h =
        let (u, p, h1) = >>=-eq-ok (enter depth w) _ h in
        reserve-IsCapped _ u v (issuer_key_from_config-IsStructural s)
          (enter-IsCapped depth w u c p) h1
    collect-IsCapped (obj value) depth w v c h =
        let (u, p, h1) = >>=-eq-ok (enter depth w) _ h in
        walk_object-IsCapped value u v (enter-IsCapped depth w u c p) h1
    collect-IsCapped (bool b) depth w v c h =
        let (u, p, h1) = >>=-eq-ok (enter depth w) _ h in raised-eq-ok value_error h1
    collect-IsCapped (int n) depth w v c h =
        let (u, p, h1) = >>=-eq-ok (enter depth w) _ h in raised-eq-ok value_error h1
    collect-IsCapped (float f) depth w v c h =
        let (u, p, h1) = >>=-eq-ok (enter depth w) _ h in raised-eq-ok value_error h1

    collect_items-IsCapped :
        (values : Items) (depth : ℕ) (w v : Walk)
        → IsCapped w
        → collect_items values depth w ≡ ok v
        → IsCapped v
    collect_items-IsCapped nil depth w v c h = subst IsCapped (ok-injective h) c
    collect_items-IsCapped (item x xs) depth w v c h =
        let (u, p, h1) = >>=-eq-ok (collect x depth w) _ h in
        collect_items-IsCapped xs depth u v (collect-IsCapped x depth w u c p) h1

  -- Whatever value a caller supplies, at most 64 candidate keys come out of it, and the algorithm of
  -- each is the one that the kind of its key implies.
  pub issuer_keys_from-bounded :
      (value : Value) (keys : List IssuerKey)
      → issuer_keys_from value ≡ ok keys
      → (length keys ≤ 64) × All IsStructural keys
  unfolding issuer_keys_from
  issuer_keys_from-bounded value keys h =
      let (w, p, h1) = >>=-eq-ok (collect value 0 (record { out = []; visits = 0 })) _ h in
      let c =
        collect-IsCapped value 0 _ w
          (record { few_candidates = omega arith; few_nodes = omega arith; structural = tt }) p in
      let e : w.out ≡ keys = ok-injective h1 in
      (
        subst (λ l. length l ≤ 64) e c.few_candidates,
        subst (λ l. All IsStructural l) e c.structural,
      )
