-- ===== src/Identity/Pinned/Sound.antt =====
-- What `_verify_pinned_key` of aitp_verifier/identity.py establishes.
use aitp_verifier_py.Prelude.{
  ◌≡◌, refl, ap, ◌∙◌, sym, subst, true, false, not, ◌==◌, some, not-false, length,
}
use aitp_verifier_py.Prelude.Int.{ℤ}
use aitp_verifier_py.Json.Access.{to_int}
use aitp_verifier_py.Proofinput.{pinned_key_domain}
use aitp_verifier_py.Proofinput.Framing.{IsFramed, handshake_proof_input-IsFramed}
use aitp_verifier_py.Text.{Text, Bytes, txt, text_eq}
use aitp_verifier_py.Json.{Value, str, Members, get, get_or_null, at, has}
use aitp_verifier_py.Json.Access.Laws.{at-eq-ok}
use aitp_verifier_py.Outcome.{
  ok, >>=-eq-ok, >>-eq-ok, raise_if-eq-ok, raise_if_passed, on_raised, on_raised-eq-ok,
  ok-injective, identity_failed,
}
use aitp_verifier_py.Platform.{Platform}
use aitp_verifier_py.B64.{b64url_decode}
use aitp_verifier_py.Crypto.{verify_digest}
use aitp_verifier_py.Aid.{Aid, identifier_length}
use aitp_verifier_py.Sigfield.{decode_tagged_signature}
use aitp_verifier_py.Jws.{parse_aid_value}
use aitp_verifier_py.Identity.{is_trusted}
use aitp_verifier_py.Identity.Pinned.{
  item_at, string_of, store_of, check_own_key, pinned_key_proof_input, read_pinned, check_proof,
  verify_pinned_key,
}

module _ ⦃π : Platform⦄ where
  -- The descriptor's `public_key` is the sender's, in the form of its algorithm.
  pub record IsOwnKey (pub_key : Value) (sender : Aid) : Type 0 where
    pub text : Text
    pub is_string : pub_key ≡ str text
    pub own_length : (length text == identifier_length sender.alg) ≡ true
    pub raw : Bytes
    pub decodes : b64url_decode text ≡ ok raw
    pub own_key : text_eq raw sender.raw_key ≡ true

  check_own_key-IsOwnKey :
      (v : Value) (sender : Aid) → check_own_key v sender ≡ ok tt → IsOwnKey v sender
  unfolding check_own_key
  check_own_key-IsOwnKey (str s) sender h =
      let (p, h1) =
        raise_if-eq-ok (not (length s == identifier_length sender.alg)) identity_failed _ h in
      let (raw, q, h2) = >>=-eq-ok (b64url_decode s) _ h1 in
      record {
        text = s;
        is_string = refl;
        own_length = not-false _ p;
        raw = raw;
        decodes = q;
        own_key = raise_if_passed _ identity_failed h2;
      }
  check_own_key-IsOwnKey v sender h = cc

  -- The bytes of a proof: the pinned-key domain, then the sender's and the verifier's AID, the
  -- envelope's message_id and timestamp and the payload's nonce, each but the last ended by a NUL.
  pub record IsMessage (envelope : Members) (agent_id self_aid : Value) (b : Bytes) : Type 0 where
    pub sender_aid : Text
    pub from_sender : agent_id ≡ str sender_aid
    pub receiver_aid : Text
    pub to_verifier : self_aid ≡ str receiver_aid
    pub message_id : Text
    pub has_message_id : get (txt "message_id") envelope ≡ some (str message_id)
    pub time : Value
    pub has_time : get (txt "timestamp") envelope ≡ some time
    pub timestamp : ℤ
    pub whole : to_int time ≡ ok timestamp
    pub payload : Value
    pub has_payload : get (txt "payload") envelope ≡ some payload
    pub pop_nonce : Text
    pub has_nonce : item_at payload (txt "pop_nonce") ≡ ok (str pop_nonce)
    pub framed : IsFramed pinned_key_domain sender_aid receiver_aid message_id timestamp pop_nonce b

  string_of-eq-ok : (v : Value) (s : Text) → string_of v ≡ ok s → v ≡ str s
  unfolding string_of
  string_of-eq-ok (str t) s h = ap str (ok-injective h)
  string_of-eq-ok v s h = cc

  pinned_key_proof_input-IsMessage :
      (envelope : Members) (agent_id self_aid : Value) (b : Bytes)
      → pinned_key_proof_input envelope agent_id self_aid ≡ ok b
      → IsMessage envelope agent_id self_aid b
  unfolding pinned_key_proof_input
  pinned_key_proof_input-IsMessage envelope agent_id self_aid b h =
      let (s, p, h1) = >>=-eq-ok (string_of agent_id) _ h in
      let (r, q, h2) = >>=-eq-ok (string_of self_aid) _ h1 in
      let (i, k, h3) = >>=-eq-ok (at (txt "message_id") envelope) _ h2 in
      let (m, l, h4) = >>=-eq-ok (string_of i) _ h3 in
      let (time, t, h5) = >>=-eq-ok (at (txt "timestamp") envelope) _ h4 in
      let (n, u, h6) = >>=-eq-ok (to_int time) _ h5 in
      let (payload, v, h7) = >>=-eq-ok (at (txt "payload") envelope) _ h6 in
      let (nonce, w, h8) = >>=-eq-ok (item_at payload (txt "pop_nonce")) _ h7 in
      let (pop_nonce, x, h9) = >>=-eq-ok (string_of nonce) _ h8 in
      record {
        sender_aid = s;
        from_sender = string_of-eq-ok agent_id s p;
        receiver_aid = r;
        to_verifier = string_of-eq-ok self_aid r q;
        message_id = m;
        has_message_id = at-eq-ok (txt "message_id") envelope i k ∙ ap some (string_of-eq-ok i m l);
        time = time;
        has_time = at-eq-ok (txt "timestamp") envelope time t;
        timestamp = n;
        whole = u;
        payload = payload;
        has_payload = at-eq-ok (txt "payload") envelope payload v;
        pop_nonce = pop_nonce;
        has_nonce = w ∙ ap ok (string_of-eq-ok nonce pop_nonce x);
        framed = handshake_proof_input-IsFramed pinned_key_domain s r m n pop_nonce b h9;
      }

  -- An accepted pinned-key binding: the sender's own key is the descriptor's and in the trust store
  -- under its algorithm, and it signed the five fields of this message.
  pub record IsPinned (identity envelope : Members) (self_aid trust_store : Value) : Type 0 where
    pub no_issuer : has (txt "issuer") identity ≡ false
    pub sender_member : Value
    pub has_sender_member : get (txt "sender") envelope ≡ some sender_member
    pub agent_id : Value
    pub has_agent_id : item_at sender_member (txt "agent_id") ≡ ok agent_id
    pub sender : Aid
    pub sender_parses : parse_aid_value agent_id ≡ ok sender
    pub own_key : IsOwnKey (get_or_null (txt "public_key") identity) sender
    pub trusted : is_trusted (some (sender.alg, sender.raw_key)) (store_of trust_store) ≡ true
    pub proof_input : Bytes
    pub five_fields : IsMessage envelope agent_id self_aid proof_input
    pub sig : Bytes
    pub decodes :
        decode_tagged_signature (get_or_null (txt "proof") identity) sender.alg identity_failed
        ≡ ok sig
    pub signed : verify_digest sender.public_key (π.sha256 proof_input) sig ≡ true

  -- `_verify_pinned_key` returns only where the sender's own key is the descriptor's, is in the trust
  -- store under its algorithm, and signed this message's five fields, the verifier's AID among them.
  pub verify_pinned_key-IsPinned :
      (identity envelope : Members) (self_aid trust_store : Value)
      → verify_pinned_key identity envelope self_aid trust_store ≡ ok tt
      → IsPinned identity envelope self_aid trust_store
  unfolding verify_pinned_key read_pinned check_proof
  verify_pinned_key-IsPinned identity envelope self_aid trust_store h =
      let (p, h1) = raise_if-eq-ok (has (txt "issuer") identity) identity_failed _ h in
      let (pinned, q, h2) =
        >>=-eq-ok (on_raised identity_failed (read_pinned identity envelope self_aid trust_store)) _
          h1 in
      let k = on_raised-eq-ok identity_failed _ q in
      let (m, r, k1) = >>=-eq-ok (at (txt "sender") envelope) _ k in
      let (a, s, k2) = >>=-eq-ok (item_at m (txt "agent_id")) _ k1 in
      let (sender, t, k3) = >>=-eq-ok (parse_aid_value a) _ k2 in
      let (u, k4) =
        >>-eq-ok (check_own_key (get_or_null (txt "public_key") identity) sender) _ k3 in
      let (v, k5) =
        raise_if-eq-ok (not (is_trusted (some (sender.alg, sender.raw_key)) (store_of trust_store)))
          identity_failed _ k4 in
      let (b, w, k6) = >>=-eq-ok (pinned_key_proof_input envelope a self_aid) _ k5 in
      let (sig, x, k7) =
        >>=-eq-ok
          (decode_tagged_signature (get_or_null (txt "proof") identity) sender.alg identity_failed)
          _ k6 in
      record {
        no_issuer = p;
        sender_member = m;
        has_sender_member = at-eq-ok (txt "sender") envelope m r;
        agent_id = a;
        has_agent_id = s;
        sender = sender;
        sender_parses = t;
        own_key = check_own_key-IsOwnKey _ sender u;
        trusted = not-false _ v;
        proof_input = b;
        five_fields = pinned_key_proof_input-IsMessage envelope a self_aid b w;
        sig = sig;
        decodes = x;
        signed =
            raise_if_passed _ identity_failed
              (subst (λ z. check_proof z ≡ ok tt) (sym (ok-injective k7)) h2);
      }
