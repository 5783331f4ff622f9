-- ===== src/Manifest/Hint.antt =====
-- The identity hint of type `spiffe` in aitp_verifier/manifest.py (`_validate_identity_hint`).
use aitp_verifier_py.Prelude.{
  ◌≡◌, ◌↔◌, refl, Bool, true, false, not, ◌||◌, ltb, length, ℕ, not-false, ◌≤◌, arith,
}
use aitp_verifier_py.Text.{Text, txt}
use aitp_verifier_py.Json.{Members, has}
use aitp_verifier_py.Json.Access.{text_at}
use aitp_verifier_py.Outcome.{ok, raise_if-eq-ok, raise_if_silent, >>=-eq-ok, manifest_invalid}
use aitp_verifier_py.Regex.{matches}
use aitp_verifier_py.Manifest.Uri.{spiffe_hint_subject}
use aitp_verifier_py.Manifest.Uri.Subject.{IsSpiffeId, matches-IsSpiffeId}
use aitp_verifier_py.Manifest.{check_spiffe_hint}

-- A hint of a SPIFFE ID of at most 2048 characters, without the members of the other two types.
pub record IsSpiffeHint (hint : Members) : Type 0 where
  pub no_issuer : has (txt "issuer") hint ≡ false
  pub no_key : has (txt "public_key") hint ≡ false
  pub subject : Text
  pub has_subject : text_at (txt "subject") hint ≡ ok subject
  pub short : length subject ≤ 2048
  pub is_id : IsSpiffeId subject

neither : (a b : Bool) → (a || not b) ≡ false → (a ≡ false) × (b ≡ true)
neither true b h = cc
neither false b h = (refl, not-false b h)

at_most_of : (a b : ℕ) → ltb a b ≡ false → b ≤ a
at_most_of a b h = ground arith

not_above : (a b : ℕ) → b ≤ a → ltb a b ≡ false
not_above a b h = ground arith

hint_sound : (hint : Members) → check_spiffe_hint hint ≡ ok tt → IsSpiffeHint hint
unfolding check_spiffe_hint
hint_sound hint h =
    let (p, h1) = raise_if-eq-ok (has (txt "issuer") hint) manifest_invalid _ h in
    let (q, h2) = raise_if-eq-ok (has (txt "public_key") hint) manifest_invalid _ h1 in
    let (s, r, h3) = >>=-eq-ok (text_at (txt "subject") hint) _ h2 in
    let (l, m) =
      neither (ltb 2048 (length s)) (matches spiffe_hint_subject s)
        (raise_if_silent _ manifest_invalid h3) in
    let (sound, complete) = matches-IsSpiffeId s in
    record {
      no_issuer = p;
      no_key = q;
      subject = s;
      has_subject = r;
      short = at_most_of 2048 (length s) l;
      is_id = sound m;
    }

hint_complete : (hint : Members) → IsSpiffeHint hint → check_spiffe_hint hint ≡ ok tt
unfolding check_spiffe_hint
hint_complete hint i =
    let (sound, complete) = matches-IsSpiffeId i.subject in
    let long : ltb 2048 (length i.subject) ≡ false = not_above 2048 (length i.subject) i.short in
    rw (i.no_issuer, i.no_key, i.has_subject, long, complete i.is_id) refl

-- The test on a hint of type `spiffe` passes exactly for a hint without issuer and public_key whose
-- subject is a text of at most 2048 characters: `spiffe://`, a trust domain of 1 to 255 lower-case
-- letters, digits, dots, underscores and dashes, and one or more path segments, each after a slash,
-- made of letters, digits, dots, underscores and dashes, not empty, not `.` and not `..`.
pub check_spiffe_hint_iff : (hint : Members) → (check_spiffe_hint hint ≡ ok tt) ↔ IsSpiffeHint hint
check_spiffe_hint_iff hint = (hint_sound hint, hint_complete hint)
