-- ===== src/Tct/Denied.antt =====
-- RFC-AITP-0008 §3.1 and §3.3 in `_check_revocation` of aitp_verifier/tct.py.
use aitp_verifier_py.Prelude.{
  ◌≡◌, refl, ap, ◌∙◌, Bool, true, false, not, Option, none, some, List, subst, not-false,
  if◌then◌else◌,
}
use aitp_verifier_py.Prelude.Int.{ℤ}
use aitp_verifier_py.Text.{Text, txt}
use aitp_verifier_py.Json.{
  Value, null, bool, int, float, str, list, obj, Members, get_or_null, is_text,
}
use aitp_verifier_py.Json.Access.{list_at, text_at}
use aitp_verifier_py.Outcome.{
  Result, Check, ok, err, raised, >>=-eq-ok, raise_if_silent, tct_revoked,
}
use aitp_verifier_py.Platform.{Platform}
use aitp_verifier_py.Revocation.{
  fail_closed, policy_of, policy_fail_mode, snapshot_is_stale, verify_snapshot_trust, lists_jti,
}
use aitp_verifier_py.Revocation.Trust.{IsTrusted, verify_snapshot_trust-IsTrusted}
use aitp_verifier_py.Tct.{
  apply_absence, trusted_body, scan, consult, check_source, check_revocation,
}

module _ ⦃π : Platform⦄ where
  -- What clears a token: a trusted, fresh list that its own issuer signed and that does not name it.
  pub record IsCleared (claims inp : Members) (now : ℤ) : Type 0 where
    pub revlist : Members
    pub supplied : get_or_null (txt "issuer_revocation_list") inp ≡ obj revlist
    pub body : Members
    pub trusted : IsTrusted (get_or_null (txt "snapshot") revlist) body
    pub issuer : Text
    pub has_issuer : text_at (txt "issuer") body ≡ ok issuer
    pub same_issuer : is_text issuer (get_or_null (txt "iss") claims) ≡ true
    pub fresh : snapshot_is_stale body (policy_of inp) now ≡ ok false
    pub entries : List Value
    pub has_entries : list_at (txt "entries") body ≡ ok entries
    pub jti : Text
    pub has_jti : text_at (txt "jti") claims ≡ ok jti
    pub not_listed : lists_jti jti entries ≡ false

  trusted_body-eq-ok :
      (r : Result Members) (found : Option Members)
      → trusted_body r ≡ ok found
      → (body : Members) → found ≡ some body
      → r ≡ ok body
  unfolding trusted_body
  trusted_body-eq-ok (ok b) found h body e = cc
  trusted_body-eq-ok (err c) found h body e = cc
  trusted_body-eq-ok (raised x) found h body e = cc

  module _ (claims inp : Members) (now : ℤ) (closed : policy_fail_mode inp ≡ fail_closed) where
    no_absence : apply_absence (policy_fail_mode inp) ≡ ok tt → ⊥
    unfolding apply_absence
    no_absence h =
        let q : apply_absence fail_closed ≡ ok tt = subst (λ m. apply_absence m ≡ ok tt) closed h in
        cc

    not_absent :
        (b : Bool) (r : Check)
        → (if b then apply_absence (policy_fail_mode inp) else r) ≡ ok tt
        → (b ≡ false) × (r ≡ ok tt)
    not_absent true r h = elim (no_absence h) [ ]
    not_absent false r h = (refl, h)

    scan-passed :
        (body : Members)
        → scan claims inp now body ≡ ok tt
        → (snapshot_is_stale body (policy_of inp) now ≡ ok false)
          × (es : List Value) × (list_at (txt "entries") body ≡ ok es)
          × (jti : Text) × (text_at (txt "jti") claims ≡ ok jti)
          × (lists_jti jti es ≡ false)
    unfolding scan
    scan-passed body h =
        let (old, p, h1) = >>=-eq-ok (snapshot_is_stale body (policy_of inp) now) _ h in
        let (es, q, h2) = >>=-eq-ok (list_at (txt "entries") body) _ h1 in
        let (jti, r, h3) = >>=-eq-ok (text_at (txt "jti") claims) _ h2 in
        let (f, h4) = not_absent old _ h3 in
        (p ∙ ap ok f, es, q, jti, r, raise_if_silent (lists_jti jti es) tct_revoked h4)

    consulted :
        (rl : Members) (found : Option Members)
        → get_or_null (txt "issuer_revocation_list") inp ≡ obj rl
        → ((body : Members)
            → found ≡ some body
            → verify_snapshot_trust (get_or_null (txt "snapshot") rl) ≡ ok body)
        → consult claims inp now found ≡ ok tt
        → IsCleared claims inp now
    unfolding consult
    consulted rl none e t h = elim (no_absence h) [ ]
    consulted rl (some body) e t h =
        let (issuer, p, h1) = >>=-eq-ok (text_at (txt "issuer") body) _ h in
        let (same, h2) = not_absent (not (is_text issuer (get_or_null (txt "iss") claims))) _ h1 in
        let (fresh, es, q, jti, r, f) = scan-passed body h2 in
        record {
          revlist = rl;
          supplied = e;
          body = body;
          trusted = verify_snapshot_trust-IsTrusted _ body (t body refl);
          issuer = issuer;
          has_issuer = p;
          same_issuer = not-false _ same;
          fresh = fresh;
          entries = es;
          has_entries = q;
          jti = jti;
          has_jti = r;
          not_listed = f;
        }

    source_clears :
        (v : Value)
        → get_or_null (txt "issuer_revocation_list") inp ≡ v
        → check_source claims inp now v ≡ ok tt
        → IsCleared claims inp now
    unfolding check_source
    source_clears (obj rl) e h =
        let (found, p, h1) =
          >>=-eq-ok (trusted_body (verify_snapshot_trust (get_or_null (txt "snapshot") rl))) _ h in
        consulted rl found e (trusted_body-eq-ok _ found p) h1
    source_clears null e h = elim (no_absence h) [ ]
    source_clears (bool b) e h = elim (no_absence h) [ ]
    source_clears (int n) e h = elim (no_absence h) [ ]
    source_clears (float f) e h = elim (no_absence h) [ ]
    source_clears (str s) e h = elim (no_absence h) [ ]
    source_clears (list l) e h = elim (no_absence h) [ ]

    pub check_revocation-IsCleared :
        check_revocation claims inp now ≡ ok tt → IsCleared claims inp now
    unfolding check_revocation
    check_revocation-IsCleared h = source_clears _ refl h
