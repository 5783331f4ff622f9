-- ===== src/Delegation/Denied.antt =====
-- The revocation steps of aitp_verifier/delegation.py: the source TCT in the verifier's own deny list
-- and the sweep over the hops' issuers.
use aitp_verifier_py.Prelude.{Bool, true, false, ◌||◌, List, [], ◌∷◌, ◌++◌, if◌then◌else◌}
use aitp_verifier_py.Prelude.Int.{ℤ}
use aitp_verifier_py.Text.{Text, txt, text_eq}
use aitp_verifier_py.Json.{Value, null, str, list, obj, Members, get_or_null, items}
use aitp_verifier_py.Json.Access.{list_at, text_at}
use aitp_verifier_py.Outcome.{
  Result, Check, ok, err, raised, raise_if, ◌>>=◌, ◌>>◌, revocation_snapshot_invalid,
  delegation_invalid_signature, delegation_source_tct_revoked,
}
use aitp_verifier_py.Platform.{Platform}
use aitp_verifier_py.Jws.{parse_compact}
use aitp_verifier_py.Revocation.{
  FailMode, fail_closed, policy_of, policy_fail_mode, snapshot_is_stale, verify_snapshot_trust,
  lists_jti,
}

-- `record.get(key) if isinstance(record, dict) else None`
unfoldable pub record_member : Text → Value → Value
record_member key (obj m) = get_or_null key m
record_member key _ = null

-- Whether a record that did not verify may be the verifier's own list: `not isinstance(label, str) or
-- label == self_aid`.
unfoldable pub may_be_own : Text → Value → Bool
may_be_own self_aid (str label) = text_eq label self_aid
may_be_own self_aid _ = true

-- `try: bodies.append(...) except AitpError: ...`
unfoldable pub keep_body : Bool → Result Members → Result (List Members)
keep_body own (ok body) = ok (body ∷ [])
keep_body own (err c) = if own then err c else ok []
keep_body own (raised x) = raised x

-- `revocation_snapshots`, where `None` is no snapshot and anything but a list is malformed.
unfoldable pub snapshots_of : Value → Result (List Value)
snapshots_of null = ok []
snapshots_of (list l) = ok (items l)
snapshots_of _ = err revocation_snapshot_invalid

-- `_apply_absence`
unfoldable pub apply_absence : FailMode → Check
apply_absence fail_closed = err delegation_source_tct_revoked
apply_absence _ = ok tt

-- The bodies of one issuer: `[body for body in bodies if body["issuer"] == self_aid]`.
unfoldable pub issued_by : Text → List Members → Result (List Members)
issued_by aid [] = ok []
issued_by aid (body ∷ bodies) = do
  issuer ← text_at (txt "issuer") body
  rest ← issued_by aid bodies
  ok (if text_eq issuer aid then body ∷ rest else rest)

-- Whether an entry of one of the bodies names the `jti`.
unfoldable pub any_lists : Text → List Members → Result Bool
any_lists jti [] = ok false
any_lists jti (body ∷ bodies) = do
  entries ← list_at (txt "entries") body
  rest ← any_lists jti bodies
  ok (lists_jti jti entries || rest)

module _ ⦃π : Platform⦄ where
  unfoldable pub collect_bodies : Text → List Value → Result (List Members)
  collect_bodies self_aid [] = ok []
  collect_bodies self_aid (snap ∷ snaps) = do
    bodies ←
        keep_body (may_be_own self_aid (record_member (txt "issuer_aid") snap))
          (verify_snapshot_trust (record_member (txt "snapshot") snap))
    rest ← collect_bodies self_aid snaps
    ok (bodies ++ rest)

  -- `_verified_snapshot_bodies`
  unfoldable pub verified_snapshot_bodies : Members → Text → Result (List Members)
  verified_snapshot_bodies inp self_aid = do
    snaps ← snapshots_of (get_or_null (txt "revocation_snapshots") inp)
    collect_bodies self_aid snaps

  -- `[body for body in bodies if not snapshot_is_stale(body, policy, now)]`
  unfoldable pub fresh_bodies : Members → ℤ → List Members → Result (List Members)
  fresh_bodies policy now [] = ok []
  fresh_bodies policy now (body ∷ bodies) = do
    is_old ← snapshot_is_stale body policy now
    rest ← fresh_bodies policy now bodies
    ok (if is_old then rest else body ∷ rest)

  -- `_check_source_tct_revocation`
  unfoldable pub scan_own : FailMode → Text → List Members → Check
  scan_own mode src_jti [] = apply_absence mode
  scan_own mode src_jti (body ∷ bodies) = do
    listed ← any_lists src_jti (body ∷ bodies)
    raise_if listed delegation_source_tct_revoked

  unfoldable pub check_source_tct_revocation : Members → List Members → Text → Text → ℤ → Check
  check_source_tct_revocation inp bodies self_aid src_jti now = do
    own ← issued_by self_aid bodies
    applicable ← fresh_bodies (policy_of inp) now own
    scan_own (policy_fail_mode inp) src_jti applicable

  -- One round of the per-hop sweep. `_revocation_index` files the bodies under their issuers: the
  -- hop's issuer is in it when one body is the issuer's, and the revoked `jti`s are those bodies'.
  unfoldable pub sweep_hop : FailMode → List Members → Value → Check
  sweep_hop mode fresh hop = do
    parsed ← parse_compact hop delegation_invalid_signature
    iss ← text_at (txt "iss") parsed.claims
    jti ← text_at (txt "jti") parsed.claims
    own ← issued_by iss fresh
    scan_own mode jti own

  unfoldable pub sweep : FailMode → List Members → List Value → Check
  sweep mode fresh [] = ok tt
  sweep mode fresh (hop ∷ hops) = do sweep_hop mode fresh hop; sweep mode fresh hops
