-- ===== src/Jwk/Issuer/Boundary.antt =====
-- Whatever `issuer_keys_from` of aitp_verifier/jwk.py is given, it raises nothing but `ValueError`.
use aitp_verifier_py.Prelude.{ℕ, ◌+◌, Bool, true, false, Option, none, some, List, [], ◌∷◌}
use aitp_verifier_py.Text.{Text, Bytes, txt}
use aitp_verifier_py.Json.{
  Value, null, bool, int, float, str, list, obj, Items, nil, item, Members, get, items,
}
use aitp_verifier_py.Outcome.{
  Code, Result, value_error, on_value_error, IsVerdict, IsVerdictUpTo, returns, stray, up_to_rules,
  if-IsVerdictUpTo, >>=-IsVerdictUpTo, on_value_error-IsVerdict,
}
use aitp_verifier_py.Platform.{Platform}
use aitp_verifier_py.B64.Boundary.{b64url_decode-up_to}
use aitp_verifier_py.Crypto.{Alg, ed25519, p256}
use aitp_verifier_py.Aid.Boundary.{of_key-up_to, from_raw-up_to}
use aitp_verifier_py.Jwk.Issuer.{
  refuse_if, kid_of, require_str, decode_jwk_member, IssuerKey, rsa_of, from_rsa_numbers, okp_key,
  ec_key, rsa_issuer_key, key_of_type, issuer_key_from_jwk, config_key, issuer_key_from_config,
  Walk, visit_node, reserve, walk_keys, walk_jwks, walk_object, enter, collect, collect_items,
  issuer_keys_from,
}

refuse_if-up_to : (t : Bool) → IsVerdictUpTo value_error (refuse_if t)
refuse_if-up_to true = stray
refuse_if-up_to false = returns tt

kid_of-up_to : (v : Value) → IsVerdictUpTo value_error (kid_of v)
unfolding kid_of
kid_of-up_to null = returns _
kid_of-up_to (str s) = returns _
kid_of-up_to v = stray

require_str-up_to : (v : Value) → IsVerdictUpTo value_error (require_str v)
unfolding require_str
require_str-up_to (str s) = returns _
require_str-up_to v = stray

decode_jwk_member-up_to :
    (m : Members) (k : Text) → IsVerdictUpTo value_error (decode_jwk_member m k)
unfolding decode_jwk_member
decode_jwk_member-up_to m k =
    search (up_to_rules, refuse_if-up_to, require_str-up_to, b64url_decode-up_to) depth 12

ruleset key_rules = (refuse_if-up_to, kid_of-up_to, decode_jwk_member-up_to, b64url_decode-up_to)

module _ ⦃π : Platform⦄ where
  rsa_of-up_to : (o : Option π.Key) → IsVerdictUpTo value_error (rsa_of o)
  unfolding rsa_of
  rsa_of-up_to none = stray
  rsa_of-up_to (some k) = returns _

  from_rsa_numbers-up_to : (n e : Bytes) → IsVerdictUpTo value_error (from_rsa_numbers n e)
  unfolding from_rsa_numbers
  from_rsa_numbers-up_to n e = search (up_to_rules, key_rules, rsa_of-up_to) depth 20

  okp_key-up_to : (m : Members) (kid : Option Text) → IsVerdictUpTo value_error (okp_key m kid)
  unfolding okp_key
  okp_key-up_to m kid = search (up_to_rules, key_rules, from_raw-up_to) depth 20

  ec_key-up_to : (m : Members) (kid : Option Text) → IsVerdictUpTo value_error (ec_key m kid)
  unfolding ec_key
  ec_key-up_to m kid = search (up_to_rules, key_rules, of_key-up_to) depth 24

  rsa_issuer_key-up_to :
      (m : Members) (kid : Option Text) → IsVerdictUpTo value_error (rsa_issuer_key m kid)
  unfolding rsa_issuer_key
  rsa_issuer_key-up_to m kid = search (up_to_rules, key_rules, from_rsa_numbers-up_to) depth 20

  key_of_type-up_to :
      (kty : Value) (m : Members) (kid : Option Text)
      → IsVerdictUpTo value_error (key_of_type kty m kid)
  unfolding key_of_type
  key_of_type-up_to kty m kid = if-IsVerdictUpTo value_error _ (okp_key-up_to m kid) (
      if-IsVerdictUpTo value_error _ (ec_key-up_to m kid)
        (if-IsVerdictUpTo value_error _ (rsa_issuer_key-up_to m kid) stray))

  issuer_key_from_jwk-up_to : (v : Value) → IsVerdictUpTo value_error (issuer_key_from_jwk v)
  unfolding issuer_key_from_jwk
  issuer_key_from_jwk-up_to (obj m) = search (up_to_rules, key_rules, key_of_type-up_to) depth 10
  issuer_key_from_jwk-up_to v = stray

  config_key-up_to : (a : Alg) (s : Text) → IsVerdictUpTo value_error (config_key a s)
  unfolding config_key
  config_key-up_to a s = search (up_to_rules, key_rules, from_raw-up_to) depth 10

  issuer_key_from_config-up_to : (s : Text) → IsVerdictUpTo value_error (issuer_key_from_config s)
  unfolding issuer_key_from_config
  issuer_key_from_config-up_to s =
      if-IsVerdictUpTo value_error _ (config_key-up_to ed25519 s)
        (if-IsVerdictUpTo value_error _ (config_key-up_to p256 s) stray)

  visit_node-up_to : (w : Walk) → IsVerdictUpTo value_error (visit_node w)
  unfolding visit_node
  visit_node-up_to w = search (up_to_rules, key_rules) depth 8

  enter-up_to : (depth : ℕ) (w : Walk) → IsVerdictUpTo value_error (enter depth w)
  unfolding enter
  enter-up_to depth w = search (up_to_rules, key_rules, visit_node-up_to) depth 10

  reserve-up_to :
      (parse : Result IssuerKey) (w : Walk)
      → IsVerdictUpTo value_error parse
      → IsVerdictUpTo value_error (reserve parse w)
  unfolding reserve
  reserve-up_to parse w h = search (up_to_rules, key_rules, h) depth 10

  walk_keys-up_to : (ks : List Value) (w : Walk) → IsVerdictUpTo value_error (walk_keys ks w)
  unfolding walk_keys
  walk_keys-up_to [] w = returns w
  walk_keys-up_to (k ∷ ks) w =
      >>=-IsVerdictUpTo value_error _ _ (reserve-up_to _ w (issuer_key_from_jwk-up_to k))
        (λ u e. walk_keys-up_to ks u)

  walk_jwks-up_to : (v : Value) (w : Walk) → IsVerdictUpTo value_error (walk_jwks v w)
  unfolding walk_jwks
  walk_jwks-up_to (list ks) w = walk_keys-up_to (items ks) w
  walk_jwks-up_to v w = stray

  keys_case :
      (value : Members) (o : Option Value) (w : Walk)
      → IsVerdictUpTo value_error (elim o as (λ _. Result Walk) [
        | some keys ↦ walk_jwks keys w
        | none ↦ reserve (issuer_key_from_jwk (obj value)) w
      ])
  keys_case value (some keys) w = walk_jwks-up_to keys w
  keys_case value none w = reserve-up_to _ w (issuer_key_from_jwk-up_to (obj value))

  walk_object-up_to : (m : Members) (w : Walk) → IsVerdictUpTo value_error (walk_object m w)
  unfolding walk_object
  walk_object-up_to m w = keys_case m (get (txt "keys") m) w

  mutual
    unfolding collect

    collect-up_to :
        (v : Value) (depth : ℕ) (w : Walk) → IsVerdictUpTo value_error (collect v depth w)
    collect-up_to (list vs) depth w =
        >>=-IsVerdictUpTo value_error _ _ (enter-up_to depth w)
          (λ u e. collect_items-up_to vs (depth + 1) u)
    collect-up_to null depth w = enter-up_to depth w
    collect-up_to (str s) depth w =
        >>=-IsVerdictUpTo value_error _ _ (enter-up_to depth w)
          (λ u e. reserve-up_to _ u (issuer_key_from_config-up_to s))
    collect-up_to (obj m) depth w =
        >>=-IsVerdictUpTo value_error _ _ (enter-up_to depth w) (λ u e. walk_object-up_to m u)
    collect-up_to (bool b) depth w =
        >>=-IsVerdictUpTo value_error _ _ (enter-up_to depth w) (λ u e. stray)
    collect-up_to (int n) depth w =
        >>=-IsVerdictUpTo value_error _ _ (enter-up_to depth w) (λ u e. stray)
    collect-up_to (float f) depth w =
        >>=-IsVerdictUpTo value_error _ _ (enter-up_to depth w) (λ u e. stray)

    collect_items-up_to :
        (vs : Items) (depth : ℕ) (w : Walk) → IsVerdictUpTo value_error (collect_items vs depth w)
    collect_items-up_to nil depth w = returns w
    collect_items-up_to (item v vs) depth w =
        >>=-IsVerdictUpTo value_error _ _ (collect-up_to v depth w)
          (λ u e. collect_items-up_to vs depth u)

  -- `issuer_keys_from` of any value at all returns or raises `ValueError`, which `_verify_oidc`
  -- converts: the resolution of a key is a verdict.
  pub issuer_keys_from-IsVerdict :
      (c : Code) (v : Value) → IsVerdict (on_value_error c (issuer_keys_from v))
  unfolding issuer_keys_from
  issuer_keys_from-IsVerdict c v =
      on_value_error-IsVerdict c
        (>>=-IsVerdictUpTo value_error _ _ (collect-up_to v 0 _) (λ w e. returns w.out))
