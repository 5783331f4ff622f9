-- ===== src/Revocation/Verdict.antt =====
-- What `verify_revocation_snapshot` of aitp_verifier/revocation.py answers, and when.
use aitp_verifier_py.Prelude.{
  ◌≡◌, ◌⊎◌, inl, inr, refl, sym, Bool, true, false, not, ◌&&◌, Option, some, List, if◌then◌else◌,
}
use aitp_verifier_py.Prelude.Int.{ℤ}
use aitp_verifier_py.Text.{Text, txt}
use aitp_verifier_py.Json.{
  Value, null, bool, int, float, str, list, obj, Members, get, get_or_null, at, is_text,
}
use aitp_verifier_py.Json.Access.{list_at, text_at}
use aitp_verifier_py.Json.Access.Laws.{at-eq-ok}
use aitp_verifier_py.Outcome.{ok, >>=-eq-ok, raise_if-eq-ok, ok-injective, tct_revoked}
use aitp_verifier_py.Platform.{Platform}
use aitp_verifier_py.Revocation.{
  FailMode, fail_closed, fail_open, soft_fail, policy_of, policy_fail_mode, snapshot_is_stale,
  verify_snapshot_trust, Status, not_revoked, stale, lists_jti, absent, look_up, clock, evaluate,
  verify_revocation_snapshot,
}
use aitp_verifier_py.Revocation.Trust.{IsTrusted, verify_snapshot_trust-IsTrusted}

-- Whether the list names the queried `jti`, when one was queried.
unfoldable pub names_queried : Value → List Value → Bool
names_queried (str queried) entries = lists_jti queried entries
names_queried _ entries = false

look_up_inv :
    (v : Value) (entries : List Value) (s : Status)
    → look_up v entries ≡ ok s
    → (names_queried v entries ≡ false) × (s ≡ not_revoked)
unfolding look_up names_queried
look_up_inv (str q) entries s h =
    let (a, b) = raise_if-eq-ok (lists_jti q entries) tct_revoked _ h in (a, sym (ok-injective b))
look_up_inv null entries s h = (refl, sym (ok-injective h))
look_up_inv (bool b) entries s h = (refl, sym (ok-injective h))
look_up_inv (int n) entries s h = (refl, sym (ok-injective h))
look_up_inv (float f) entries s h = (refl, sym (ok-injective h))
look_up_inv (list l) entries s h = (refl, sym (ok-injective h))
look_up_inv (obj m) entries s h = (refl, sym (ok-injective h))

-- The mode that lets an absent snapshot pass.
pub IsPermissive : FailMode → Type 0
IsPermissive m = (m ≡ fail_open) ⊎ (m ≡ soft_fail)

absent_inv : (m : FailMode) (s : Status) → absent m ≡ ok s → (s ≡ stale) × IsPermissive m
unfolding absent IsPermissive
absent_inv fail_closed s h = cc
absent_inv fail_open s h = (sym (ok-injective h), inl refl)
absent_inv soft_fail s h = (sym (ok-injective h), inr refl)

module _ ⦃π : Platform⦄ where
  -- A trusted list of the expected issuer, fresh at `time`, that does not name the queried token.
  pub record IsClear (inp body : Members) (time : ℤ) : Type 0 where
    pub issuer : Text
    pub has_issuer : text_at (txt "issuer") body ≡ ok issuer
    pub expected : is_text issuer (get_or_null (txt "expected_issuer") inp) ≡ true
    pub fresh : snapshot_is_stale body (policy_of inp) time ≡ ok false
    pub entries : List Value
    pub has_entries : list_at (txt "entries") body ≡ ok entries
    pub not_named : names_queried (get_or_null (txt "queried_jti") inp) entries ≡ false

  -- The two answers: cleared, or let pass by a permissive mode.
  pub IsAnswer : Members → Members → ℤ → Status → Type 0
  IsAnswer inp body time s =
      ((s ≡ not_revoked) × IsClear inp body time)
      ⊎ ((s ≡ stale) × IsPermissive (policy_fail_mode inp))

  decide_inv :
      (inp body : Members) (time : ℤ) (s : Status) (issuer : Text) (old expected : Bool)
      (entries : List Value)
      → text_at (txt "issuer") body ≡ ok issuer
      → snapshot_is_stale body (policy_of inp) time ≡ ok old
      → list_at (txt "entries") body ≡ ok entries
      → is_text issuer (get_or_null (txt "expected_issuer") inp) ≡ expected
      → (if not (expected && not old)
          then absent (policy_fail_mode inp)
          else look_up (get_or_null (txt "queried_jti") inp) entries)
        ≡ ok s
      → IsAnswer inp body time s
  unfolding IsAnswer
  decide_inv inp body time s issuer old false entries a b c d h = inr (absent_inv _ s h)
  decide_inv inp body time s issuer true true entries a b c d h = inr (absent_inv _ s h)
  decide_inv inp body time s issuer false true entries a b c d h =
      let (p, q) = look_up_inv (get_or_null (txt "queried_jti") inp) entries s h in
      inl (
        q,
        record {
          issuer = issuer;
          has_issuer = a;
          expected = d;
          fresh = b;
          entries = entries;
          has_entries = c;
          not_named = p;
        },
      )

  -- An answer is about a snapshot that was verified first, whatever the policy says: it is
  -- `not_revoked` for a fresh list of the expected issuer that does not name the token, and `stale`
  -- only under a permissive mode, so that `fail_closed` never answers on an absent list.
  pub verify_revocation_snapshot-IsAnswer :
      (inp : Members) (now : Option ℤ) (s : Status)
      → verify_revocation_snapshot inp now ≡ ok s
      → (time : ℤ) × (clock inp now ≡ ok time)
        × (snapshot : Value) × (get (txt "snapshot") inp ≡ some snapshot)
        × (body : Members) × IsTrusted snapshot body
        × IsAnswer inp body time s
  unfolding verify_revocation_snapshot evaluate
  verify_revocation_snapshot-IsAnswer inp now s h =
      let (time, a, h1) = >>=-eq-ok (clock inp now) _ h in
      let (snapshot, b, h2) = >>=-eq-ok (at (txt "snapshot") inp) _ h1 in
      let (body, c, h3) = >>=-eq-ok (verify_snapshot_trust snapshot) _ h2 in
      let (issuer, d, h4) = >>=-eq-ok (text_at (txt "issuer") body) _ h3 in
      let (old, e, h5) = >>=-eq-ok (snapshot_is_stale body (policy_of inp) time) _ h4 in
      let (entries, f, h6) = >>=-eq-ok (list_at (txt "entries") body) _ h5 in
      (
        time,
        a,
        snapshot,
        at-eq-ok (txt "snapshot") inp snapshot b,
        body,
        verify_snapshot_trust-IsTrusted snapshot body c,
        decide_inv inp body time s issuer old _ entries d e f refl h6,
      )
