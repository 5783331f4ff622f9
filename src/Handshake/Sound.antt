-- ===== src/Handshake/Sound.antt =====
-- What `verify_handshake_payload` of aitp_verifier/handshake.py establishes, on each of its paths.
use aitp_verifier_py.Prelude.{◌≡◌, ap, subst, ◌∙◌, true, ◌&&◌, some}
use aitp_verifier_py.Prelude.Int.{ℤ}
use aitp_verifier_py.Text.{Text, txt, mem_text}
use aitp_verifier_py.Json.{Value, obj, Members, get, get_or_null, at, has}
use aitp_verifier_py.Json.Access.{text_at, members_at}
use aitp_verifier_py.Json.Access.Laws.{at-eq-ok}
use aitp_verifier_py.Outcome.{Check, ok, >>=-eq-ok, >>-eq-ok, if-eq-ok_by, ok-injective}
use aitp_verifier_py.Platform.{Platform}
use aitp_verifier_py.Envelope.{validate_envelope_shape}
use aitp_verifier_py.Handshake.Commit.{verify_commit}
use aitp_verifier_py.Handshake.Commit.Sound.{
  IsCommitted, verify_commit-IsCommitted, verify_commit_members-IsCommitted,
}
use aitp_verifier_py.Handshake.Bootstrap.{verify_bootstrap}
use aitp_verifier_py.Handshake.Bootstrap.Sound.{IsGreeting, verify_bootstrap-IsGreeting}
use aitp_verifier_py.Handshake.{
  bootstrap_types, commit_types, Greeting, greeted, granted, received_payload, side_members,
  verify_side, verify_sides, verify_message, verify_handshake_payload,
}

side_members-eq-ok : (v : Value) (m : Members) → side_members v ≡ ok m → v ≡ obj m
unfolding side_members
side_members-eq-ok (obj n) m h = ap obj (ok-injective h)
side_members-eq-ok v m h = cc

module _ ⦃π : Platform⦄ where
  -- One side of the exchange: an object whose received payload is an accepted commit for its own AID.
  pub record IsSide (inp : Members) (side : Text) (now : ℤ) (grants : Value) : Type 0 where
    pub peer : Members
    pub has_peer : get side inp ≡ some (obj peer)
    pub payload : Members
    pub has_payload : received_payload (obj peer) ≡ ok (obj payload)
    pub self_aid : Value
    pub has_self_aid : get (txt "self_aid") peer ≡ some self_aid
    pub claims : Members
    pub committed : IsCommitted peer payload self_aid now claims
    pub has_grants : get (txt "grants") claims ≡ some grants

  -- A greeting in round 1, a commit in round 2, or the commits of both sides, of which the answer has
  -- the grants of the second.
  pub data IsAgreed (verify_spiffe : Members → Members → Value → Value → ℤ → Check) (inp : Members)
      (now : ℤ) : Greeting → Type 0 where
    by_greeting :
        (env : Members) (mtype : Text)
        → validate_envelope_shape (get_or_null (txt "envelope") inp) ≡ ok env
        → text_at (txt "message_type") env ≡ ok mtype
        → mem_text mtype bootstrap_types ≡ true
        → IsGreeting verify_spiffe inp env mtype now
        → IsAgreed verify_spiffe inp now greeted
    by_commit :
        (env payload claims : Members) (mtype : Text) (grants : Value)
        → validate_envelope_shape (get_or_null (txt "envelope") inp) ≡ ok env
        → text_at (txt "message_type") env ≡ ok mtype
        → mem_text mtype commit_types ≡ true
        → members_at (txt "payload") env ≡ ok payload
        → IsCommitted inp payload (get_or_null (txt "self_aid") inp) now claims
        → get (txt "grants") claims ≡ some grants
        → IsAgreed verify_spiffe inp now (granted grants)
    by_sides :
        (first grants : Value)
        → IsSide inp (txt "peer_a") now first
        → IsSide inp (txt "peer_b") now grants
        → IsAgreed verify_spiffe inp now (granted grants)

module _ ⦃π : Platform⦄ (verify_spiffe : Members → Members → Value → Value → ℤ → Check) where
  verify_side-IsSide :
      (inp : Members) (side : Text) (now : ℤ) (grants : Value)
      → verify_side verify_spiffe inp side now ≡ ok grants
      → IsSide inp side now grants
  unfolding verify_side
  verify_side-IsSide inp side now grants h =
      let (v, p, h1) = >>=-eq-ok (at side inp) _ h in
      let (w, q, h2) = >>=-eq-ok (received_payload v) _ h1 in
      let (peer, r, h3) = >>=-eq-ok (side_members v) _ h2 in
      let (a, s, h4) = >>=-eq-ok (at (txt "self_aid") peer) _ h3 in
      let (m, e, claims, c, g) = verify_commit-IsCommitted peer w a now grants h4 in
      let is_object = side_members-eq-ok v peer r in
      record {
        peer = peer;
        has_peer = at-eq-ok side inp v p ∙ ap some is_object;
        payload = m;
        has_payload = cc;
        self_aid = a;
        has_self_aid = at-eq-ok (txt "self_aid") peer a s;
        claims = claims;
        committed = c;
        has_grants = g;
      }

  verify_message-IsAgreed :
      (inp env : Members) (mtype : Text) (now : ℤ) (g : Greeting)
      → validate_envelope_shape (get_or_null (txt "envelope") inp) ≡ ok env
      → text_at (txt "message_type") env ≡ ok mtype
      → verify_message verify_spiffe inp env mtype now ≡ ok g
      → IsAgreed verify_spiffe inp now g
  unfolding verify_message verify_commit
  verify_message-IsAgreed inp env mtype now g p q h =
      if-eq-ok_by (mem_text mtype bootstrap_types) _ _
        (λ t k.
          let (b, e) = >>-eq-ok (verify_bootstrap verify_spiffe inp env mtype now) _ k in
          subst (IsAgreed verify_spiffe inp now) (ok-injective e) (
            by_greeting env mtype p q t
              (verify_bootstrap-IsGreeting verify_spiffe inp env mtype now b)))
        (λ t k.
          if-eq-ok_by (mem_text mtype commit_types) _ _
            (λ t1 k1.
              let (m, r, k2) = >>=-eq-ok (members_at (txt "payload") env) _ k1 in
              let self_aid = get_or_null (txt "self_aid") inp in
              let (grants, c, e) = >>=-eq-ok (verify_commit inp (obj m) self_aid now) _ k2 in
              let (claims, d, f) = verify_commit_members-IsCommitted inp m self_aid now grants c in
              subst (IsAgreed verify_spiffe inp now) (ok-injective e)
                (by_commit env m claims mtype grants p q t1 r d f))
            (λ t1 k1. cc) k)
        h

  -- Whatever verify_handshake_payload returns, it returns on one of three grounds: a greeting of
  -- round 1 that is accepted, a commit of round 2 that is accepted and whose token has exactly these
  -- grants, or an accepted commit of each side, of which the second's token has exactly these grants.
  pub verify_handshake_payload-IsAgreed :
      (inp : Members) (now : ℤ) (g : Greeting)
      → verify_handshake_payload verify_spiffe inp now ≡ ok g
      → IsAgreed verify_spiffe inp now g
  unfolding verify_handshake_payload verify_sides
  verify_handshake_payload-IsAgreed inp now g h =
      if-eq-ok_by (has (txt "peer_a") inp && has (txt "peer_b") inp) _ _
        (λ t k.
          let (a, p, k1) = >>=-eq-ok (verify_side verify_spiffe inp (txt "peer_a") now) _ k in
          let (b, q, e) = >>=-eq-ok (verify_side verify_spiffe inp (txt "peer_b") now) _ k1 in
          subst (IsAgreed verify_spiffe inp now) (ok-injective e) (
            by_sides a b (verify_side-IsSide inp (txt "peer_a") now a p)
              (verify_side-IsSide inp (txt "peer_b") now b q)))
        (λ t k.
          let (env, p, k1) =
            >>=-eq-ok (validate_envelope_shape (get_or_null (txt "envelope") inp)) _ k in
          let (mtype, q, k2) = >>=-eq-ok (text_at (txt "message_type") env) _ k1 in
          verify_message-IsAgreed inp env mtype now g p q k2)
        h
