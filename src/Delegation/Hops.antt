-- ===== src/Delegation/Hops.antt =====
-- The hops of a chain in aitp_verifier/delegation.py, and the single token, which is one hop.
use aitp_verifier_py.Prelude.{
  ℕ, ◌+◌, not, none, some, List, [], ◌∷◌, ◌++◌, ltb, length, if◌then◌else◌,
}
use aitp_verifier_py.Prelude.Int.{ℤ, leb_ℤ, ltb_ℤ}
use aitp_verifier_py.Text.{Text, txt, text_eq, mem_text, subset}
use aitp_verifier_py.Json.{
  Value, str, list, obj, Members, get, get_or_null, at, has, is_text, names, items,
}
use aitp_verifier_py.Json.Access.{text_at, texts_at, members_at, int_at}
use aitp_verifier_py.Outcome.{
  Result, Check, ok, err, raised, type_error, raise_if, on_value_error, ◌>>=◌, ◌>>◌,
  unknown_version, delegation_invalid_signature, delegation_invalid_voucher, delegation_expired,
  delegation_scope_exceeded, delegation_audience_mismatch, delegation_hop_limit_exceeded,
  delegation_chain_hash_mismatch,
}
use aitp_verifier_py.Platform.{Platform}
use aitp_verifier_py.Aid.{parse_aid}
use aitp_verifier_py.Jwk.{thumbprint}
use aitp_verifier_py.Jws.{parse_compact, verify_jws}
use aitp_verifier_py.Voucher.{no_check}
use aitp_verifier_py.Revocation.{protocol_version, policy_of, policy_fail_mode}
use aitp_verifier_py.Delegation.Claims.{
  check_delegation_claims_shape, compute_chain_hash, delegation_codes, verify_root_voucher,
}
use aitp_verifier_py.Delegation.Denied.{
  verified_snapshot_bodies, check_source_tct_revocation, fresh_bodies, sweep,
}

abbrev pub max_delegation_hops : ℕ
max_delegation_hops = 3

-- `len(chain)` and `for entry in chain` of the unverified `chain` claim, and `chain + [token]`.
unfoldable pub length_of : Value → Result ℕ
length_of (list l) = ok (length (items l))
length_of (str s) = ok (length s)
length_of (obj m) = ok (length (names m))
length_of _ = raised type_error

unfoldable pub strings : List Text → List Value
strings [] = []
strings (s ∷ ss) = str s ∷ strings ss

unfoldable pub characters_of : Text → List Value
characters_of [] = []
characters_of (c ∷ cs) = str (c ∷ []) ∷ characters_of cs

unfoldable pub entries_of : Value → Result (List Value)
entries_of (list l) = ok (items l)
entries_of (str s) = ok (characters_of s)
entries_of (obj m) = ok (strings (names m))
entries_of _ = raised type_error

unfoldable pub hops_of : Value → Value → Result (List Value)
hops_of (list l) token = ok (items l ++ (token ∷ []))
hops_of _ token = raised type_error

-- `jti = hc.get("jti")`, which is a string where it is there; `not jti or jti in seen_jti`.
unfoldable pub new_jti : Value → List Text → Result Text
new_jti (str (c ∷ s)) seen =
    if mem_text (c ∷ s) seen then err delegation_invalid_voucher else ok (c ∷ s)
new_jti _ seen = err delegation_invalid_voucher

module _ ⦃π : Platform⦄ where
  -- The step of a later hop against the hop before it.
  unfoldable pub check_next : Members → Members → Check
  check_next prev hc = do
    raise_if (has (txt "voucher") hc) delegation_invalid_voucher
    iss ← text_at (txt "iss") hc
    prev_sub ← text_at (txt "sub") prev
    raise_if (not (text_eq iss prev_sub)) delegation_invalid_voucher
    exp ← int_at (txt "exp") hc
    prev_exp ← int_at (txt "exp") prev
    raise_if (ltb_ℤ prev_exp exp) delegation_expired
    scope ← texts_at (txt "scope") hc
    prev_scope ← texts_at (txt "scope") prev
    raise_if (not (subset scope prev_scope)) delegation_scope_exceeded

  -- `cnf.jkt` of a hop against the key in its `sub`.
  unfoldable pub check_hop_binding : Members → Check
  check_hop_binding hc = do
    sub ← text_at (txt "sub") hc
    sub_aid ← on_value_error delegation_invalid_voucher (parse_aid sub)
    cnf ← members_at (txt "cnf") hc
    raise_if (not (is_text (thumbprint sub_aid) (get_or_null (txt "jkt") cnf)))
        delegation_invalid_voucher

  -- The limit and the commitment, before any signature work.
  unfoldable pub check_chain : Members → Value → Check
  check_chain outer chain = do
    count ← length_of chain
    raise_if (ltb max_delegation_hops (count + 1)) delegation_hop_limit_exceeded
    entries ← entries_of chain
    commitment ← compute_chain_hash entries
    raise_if (not (is_text commitment (get_or_null (txt "chain_hash") outer)))
        delegation_chain_hash_mismatch

  -- The revocation part of `_verify_multihop`.
  unfoldable pub check_chain_revocation : Members → Text → ℤ → List Value → Members → Check
  check_chain_revocation inp self_aid now hops voucher = do
    bodies ← verified_snapshot_bodies inp self_aid
    src_jti ← text_at (txt "src_jti") voucher
    check_source_tct_revocation inp bodies self_aid src_jti now
    fresh ← fresh_bodies (policy_of inp) now bodies
    sweep (policy_fail_mode inp) fresh hops

-- `resolve_key str(iss) manifests now` is `resolve_key_from_manifests` of aitp_verifier/manifest.py.
module _ ⦃π : Platform⦄ (resolve_key : Value → Value → ℤ → Check) where
  -- `_resolve_issuer`
  unfoldable pub resolve_issuer : Members → Value → ℤ → Check
  resolve_issuer inp iss now = elim (get (txt "issuer_manifests") inp) [
    | none ↦ ok tt
    | some manifests ↦ resolve_key iss manifests now
  ]

  -- A token's claims: parsed, its issuer resolved, verified under its own `iss`, and shaped.
  unfoldable pub token_claims : Members → Value → ℤ → Result Members
  token_claims inp token now = do
    parsed ← parse_compact token delegation_invalid_signature
    resolve_issuer inp (get_or_null (txt "iss") parsed.claims) now
    claims ←
        verify_jws token (get_or_null (txt "iss") parsed.claims) (txt "aitp-delegation+jwt")
          delegation_codes no_check
    check_delegation_claims_shape claims delegation_invalid_signature
    ok claims

  -- The checks of the loop of `_verify_multihop` that every hop runs, with its `jti`.
  unfoldable pub check_hop : Members → Text → ℤ → List Text → Value → Result (Members × Text)
  check_hop inp self_aid now seen hop = do
    hc ← token_claims inp hop now
    raise_if (not (is_text protocol_version (get_or_null (txt "ver") hc))) unknown_version
    iss ← text_at (txt "iss") hc
    sub ← text_at (txt "sub") hc
    raise_if (text_eq iss sub) delegation_invalid_signature
    raise_if (not (is_text self_aid (get_or_null (txt "aud") hc))) delegation_audience_mismatch
    check_hop_binding hc
    jti ← new_jti (get_or_null (txt "jti") hc) seen
    exp ← int_at (txt "exp") hc
    raise_if (leb_ℤ exp now) delegation_expired
    ok (hc, jti)

  -- The rounds `i > 0`: the previous hop and the `jti`s seen go in, the last hop comes out.
  unfoldable pub walk : Members → Text → ℤ → List Text → Members → List Value → Result Members
  walk inp self_aid now seen prev [] = ok prev
  walk inp self_aid now seen prev (hop ∷ hops) =
      check_hop inp self_aid now seen hop >>= λ (hc, jti).
      check_next prev hc >> walk inp self_aid now (jti ∷ seen) hc hops

  -- The round `i = 0` and the others: the root voucher and the last hop.
  unfoldable pub verify_hops : Members → Text → ℤ → List Value → Result (Members × Members)
  verify_hops inp self_aid now [] = raised type_error
  verify_hops inp self_aid now (hop ∷ hops) = check_hop inp self_aid now [] hop >>= λ (root, jti).
      verify_root_voucher root self_aid now >>= λ voucher.
      walk inp self_aid now (jti ∷ []) root hops >>= λ last. ok (voucher, last)

  -- `_verify_multihop`
  unfoldable pub verify_multihop : Members → Value → Members → Text → ℤ → Result Value
  verify_multihop inp token outer self_aid now = do
    chain ← at (txt "chain") outer
    check_chain outer chain
    hops ← hops_of chain token
    verify_hops inp self_aid now hops >>= λ (voucher, last).
        check_chain_revocation inp self_aid now hops voucher >> at (txt "scope") last
