-- ===== src/Handshake/Bootstrap/Sound.antt =====
-- What `_verify_bootstrap` of aitp_verifier/handshake.py establishes, and in which order.
use aitp_verifier_py.Prelude.{◌≡◌, ap, ◌∙◌, Bool, true, false, not, ◌&&◌, some, not-false}
use aitp_verifier_py.Prelude.Int.{ℤ}
use aitp_verifier_py.Text.{Text, Bytes, txt}
use aitp_verifier_py.Json.{Value, obj, Members, get, get_or_null, at, has, is_text}
use aitp_verifier_py.Json.Access.{text_at, members_at}
use aitp_verifier_py.Json.Access.Laws.{at-eq-ok}
use aitp_verifier_py.Outcome.{
  Code, Check, ok, raise_if, peer_mismatch, nonce_mismatch, >>=-eq-ok, >>-eq-ok, raise_if-eq-ok,
  raise_if_passed, invalid_envelope, invalid_signature, identity_failed, incompatible_identity_type,
}
use aitp_verifier_py.Platform.{Platform}
use aitp_verifier_py.Crypto.{verify_digest}
use aitp_verifier_py.Aid.{Aid, parse_aid}
use aitp_verifier_py.Jws.{as_object}
use aitp_verifier_py.Jws.Sound.{as_object-eq-ok}
use aitp_verifier_py.Sigfield.{decode_tagged_signature}
use aitp_verifier_py.Envelope.{envelope_signing_input}
use aitp_verifier_py.Envelope.Contains.{equal}
use aitp_verifier_py.Manifest.{manifest_input, verify_manifest}
use aitp_verifier_py.Identity.Binding.{verify_identity}
use aitp_verifier_py.Handshake.Bootstrap.{
  is_ack, accepted_types, policy_in, is_accepted, check_peer, check_echo, check_hello_payload,
  check_envelope_signature, check_hint, check_identity, verify_bootstrap,
}

-- On an ACK, where the input has the member that a test is about, what the test compares is equal.
agrees :
    (ack there same : Bool) (c : Code)
    → raise_if (ack && (there && not same)) c ≡ ok tt
    → ack ≡ true
    → there ≡ true
    → same ≡ true
agrees true true same c h p q = raise_if_passed same c h
agrees true false same c h p q = cc
agrees false there same c h p q = cc

check_peer-agrees :
    (inp : Members) (mtype agent_id : Text)
    → check_peer inp mtype agent_id ≡ ok tt
    → is_ack mtype ≡ true
    → has (txt "peer_aid") inp ≡ true
    → is_text agent_id (get_or_null (txt "peer_aid") inp) ≡ true
unfolding check_peer
check_peer-agrees inp mtype agent_id h p q = agrees _ _ _ peer_mismatch h p q

check_echo-agrees :
    (inp payload : Members) (mtype : Text)
    → check_echo inp payload mtype ≡ ok tt
    → is_ack mtype ≡ true
    → has (txt "sent_pop_nonce") inp ≡ true
    → equal (get_or_null (txt "pop_nonce_echo") payload) (get_or_null (txt "sent_pop_nonce") inp)
      ≡ true
unfolding check_echo
check_echo-agrees inp payload mtype h p q = agrees _ _ _ nonce_mismatch h p q

module _ ⦃π : Platform⦄ where
  -- The sender's key signed the envelope.
  pub record IsSealed (env : Members) (agent_id : Text) : Type 0 where
    pub key : Aid
    pub key_parses : parse_aid agent_id ≡ ok key
    pub signature : Value
    pub has_signature : get (txt "signature") env ≡ some signature
    pub raw : Bytes
    pub decodes : decode_tagged_signature signature key.alg invalid_signature ≡ ok raw
    pub input : Bytes
    pub signing_input : envelope_signing_input env ≡ ok input
    pub signed : verify_digest key.public_key (π.sha256 input) raw ≡ true

  check_envelope_signature-IsSealed :
      (env : Members) (agent_id : Text)
      → check_envelope_signature env agent_id ≡ ok tt
      → IsSealed env agent_id
  unfolding check_envelope_signature
  check_envelope_signature-IsSealed env agent_id h =
      let (key, p, h1) = >>=-eq-ok (parse_aid agent_id) _ h in
      let (s, q, h2) = >>=-eq-ok (at (txt "signature") env) _ h1 in
      let (raw, r, h3) = >>=-eq-ok (decode_tagged_signature s key.alg invalid_signature) _ h2 in
      let (b, t, h4) = >>=-eq-ok (envelope_signing_input env) _ h3 in
      record {
        key = key;
        key_parses = p;
        signature = s;
        has_signature = at-eq-ok (txt "signature") env s q;
        raw = raw;
        decodes = r;
        input = b;
        signing_input = t;
        signed = raise_if_passed _ invalid_signature h4;
      }

  -- An accepted greeting: a verified Manifest of the sender, whose hint names the type of the
  -- identity, a verified identity of a type that the receiver accepts, and a sealed envelope.
  pub record IsGreeting (verify_spiffe : Members → Members → Value → Value → ℤ → Check)
      (inp env : Members) (mtype : Text) (now : ℤ) : Type 0 where
    pub payload : Members
    pub has_payload : members_at (txt "payload") env ≡ ok payload
    pub payload_shaped : check_hello_payload payload mtype ≡ ok tt
    pub sender : Members
    pub has_sender : members_at (txt "sender") env ≡ ok sender
    pub agent_id : Text
    pub has_agent_id : text_at (txt "agent_id") sender ≡ ok agent_id
    pub addressed :
        is_ack mtype ≡ true
        → has (txt "peer_aid") inp ≡ true
        → is_text agent_id (get_or_null (txt "peer_aid") inp) ≡ true
    pub supplied : Value
    pub has_manifest : get (txt "manifest") payload ≡ some supplied
    pub man : Members
    pub is_object : supplied ≡ obj man
    pub aid : Text
    pub manifest_verifies : verify_manifest (manifest_input supplied now) now ≡ ok aid
    pub of_sender : is_text agent_id (get_or_null (txt "aid") man) ≡ true
    pub identity : Members
    pub has_identity : get (txt "identity") payload ≡ some (obj identity)
    pub hint : Members
    pub has_hint : members_at (txt "identity_hint") man ≡ ok hint
    pub hint_agrees :
        equal (get_or_null (txt "type") hint) (get_or_null (txt "type") identity) ≡ true
    pub identity_verifies : verify_identity verify_spiffe identity env (policy_in inp) now ≡ ok tt
    pub sealed : IsSealed env agent_id
    pub itype : Value
    pub has_itype : get (txt "type") identity ≡ some itype
    pub accepted :
        is_accepted itype (accepted_types (get (txt "self_accepted_identity_types") inp)) ≡ true
    pub echoed :
        is_ack mtype ≡ true
        → has (txt "sent_pop_nonce") inp ≡ true
        → equal
            (get_or_null (txt "pop_nonce_echo") payload)
            (get_or_null (txt "sent_pop_nonce") inp)
          ≡ true

  -- `_verify_bootstrap` returns only where the payload's Manifest verifies and is the sender's, its
  -- hint names the type of an identity that verifies and that the receiver accepts, and the sender's
  -- key signed the envelope; an ACK also comes from the addressed peer and echoes the nonce.
  pub verify_bootstrap-IsGreeting :
      (verify_spiffe : Members → Members → Value → Value → ℤ → Check) (inp env : Members)
      (mtype : Text) (now : ℤ)
      → verify_bootstrap verify_spiffe inp env mtype now ≡ ok tt
      → IsGreeting verify_spiffe inp env mtype now
  unfolding verify_bootstrap check_identity check_hint
  verify_bootstrap-IsGreeting verify_spiffe inp env mtype now h =
      let (payload, p, h1) = >>=-eq-ok (members_at (txt "payload") env) _ h in
      let (q, h2) = >>-eq-ok (check_hello_payload payload mtype) _ h1 in
      let (v, r, h3) = >>=-eq-ok (at (txt "manifest") payload) _ h2 in
      let (sender, s, h4) = >>=-eq-ok (members_at (txt "sender") env) _ h3 in
      let (a, t, h5) = >>=-eq-ok (text_at (txt "agent_id") sender) _ h4 in
      let (u, h6) = >>-eq-ok (check_peer inp mtype a) _ h5 in
      let (aid, w, k) = >>=-eq-ok (verify_manifest (manifest_input v now) now) _ h6 in
      let (man, k0, k1) = >>=-eq-ok (as_object invalid_envelope v) _ k in
      let (k2, k3) =
        raise_if-eq-ok (not (is_text a (get_or_null (txt "aid") man))) invalid_envelope _ k1 in
      let (i, k4, k5) = >>=-eq-ok (at (txt "identity") payload) _ k3 in
      let (identity, k6, k7) = >>=-eq-ok (as_object identity_failed i) _ k5 in
      let (c, k8) = >>-eq-ok (check_hint man identity) _ k7 in
      let (hint, c1, c2) = >>=-eq-ok (members_at (txt "identity_hint") man) _ c in
      let (d, k9) =
        >>-eq-ok (verify_identity verify_spiffe identity env (policy_in inp) now) _ k8 in
      let (e, k10) = >>-eq-ok (check_envelope_signature env a) _ k9 in
      let (itype, f, k11) = >>=-eq-ok (at (txt "type") identity) _ k10 in
      let (g, k12) =
        raise_if-eq-ok
          (not (is_accepted itype (accepted_types (get (txt "self_accepted_identity_types") inp))))
          incompatible_identity_type _ k11 in
      record {
        payload = payload;
        has_payload = p;
        payload_shaped = q;
        sender = sender;
        has_sender = s;
        agent_id = a;
        has_agent_id = t;
        addressed = check_peer-agrees inp mtype a u;
        supplied = v;
        has_manifest = at-eq-ok (txt "manifest") payload v r;
        man = man;
        is_object = as_object-eq-ok invalid_envelope v man k0;
        aid = aid;
        manifest_verifies = w;
        of_sender = not-false _ k2;
        identity = identity;
        has_identity =
            at-eq-ok (txt "identity") payload i k4
            ∙ ap some (as_object-eq-ok identity_failed i identity k6);
        hint = hint;
        has_hint = c1;
        hint_agrees = raise_if_passed _ identity_failed c2;
        identity_verifies = d;
        sealed = check_envelope_signature-IsSealed env a e;
        itype = itype;
        has_itype = at-eq-ok (txt "type") identity itype f;
        accepted = not-false _ g;
        echoed = check_echo-agrees inp payload mtype k12;
      }
