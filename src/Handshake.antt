-- ===== src/Handshake.antt =====
-- aitp_verifier/handshake.py: the payloads of the mutual handshake (RFC-AITP-0004).
pub mod Commit
pub mod Bootstrap
pub mod Sound
use aitp_verifier_py.Prelude.{
  Bool, true, false, not, ◌&&◌, ◌||◌, Option, none, some, List, [], ◌∷◌, if◌then◌else◌,
}
use aitp_verifier_py.Prelude.Int.{ℤ}
use aitp_verifier_py.Text.{Text, txt, mem_text}
use aitp_verifier_py.Json.{Value, obj, Members, end, get, get_or_null, at, has}
use aitp_verifier_py.Json.Access.{text_at, members_at}
use aitp_verifier_py.Outcome.{
  Code, Result, Check, ok, err, raised, attribute_error, ◌>>=◌, ◌>>◌, invalid_envelope,
}
use aitp_verifier_py.Platform.{Platform}
use aitp_verifier_py.Envelope.{validate_envelope_shape}
use aitp_verifier_py.Handshake.Commit.{verify_commit}
use aitp_verifier_py.Handshake.Bootstrap.{verify_bootstrap}

abbrev pub bootstrap_types : List Text
bootstrap_types = txt "mutual_hello" ∷ txt "mutual_hello_ack" ∷ []

abbrev pub commit_types : List Text
commit_types = txt "mutual_commit" ∷ txt "mutual_commit_ack" ∷ []

-- `{"ok": True}` of a bootstrap, and `{"grants": ...}` of a commit.
pub data Greeting : Type 0 where
  greeted : Greeting
  granted : Value → Greeting

-- `inp[side].get("received_payload", {})`
unfoldable pub received_payload : Value → Result Value
received_payload (obj side) =
    ok (elim (get (txt "received_payload") side) [ none ↦ obj end | some v ↦ v ])
received_payload _ = raised attribute_error

unfoldable pub side_members : Value → Result Members
side_members (obj side) = ok side
side_members _ = raised attribute_error

module _ ⦃π : Platform⦄ (verify_spiffe : Members → Members → Value → Value → ℤ → Check) where
  -- One round of the loop over `peer_a` and `peer_b`.
  unfoldable pub verify_side : Members → Text → ℤ → Result Value
  verify_side inp side now = do
    peer ← at side inp
    payload ← received_payload peer
    members ← side_members peer
    self_aid ← at (txt "self_aid") members
    verify_commit members payload self_aid now

  unfoldable pub verify_sides : Members → ℤ → Result Greeting
  verify_sides inp now = do
    first ← verify_side inp (txt "peer_a") now
    grants ← verify_side inp (txt "peer_b") now
    ok (granted grants)

  -- The branches on `message_type`.
  unfoldable pub verify_message : Members → Members → Text → ℤ → Result Greeting
  verify_message inp env mtype now =
      if mem_text mtype bootstrap_types
      then (verify_bootstrap verify_spiffe inp env mtype now >> ok greeted)
      else if mem_text mtype commit_types
      then (members_at (txt "payload") env >>= λ payload.
          verify_commit inp (obj payload) (get_or_null (txt "self_aid") inp) now >>= λ grants.
          ok (granted grants))
      else err invalid_envelope

  unfoldable pub verify_handshake_payload : Members → ℤ → Result Greeting
  verify_handshake_payload inp now =
      if has (txt "peer_a") inp && has (txt "peer_b") inp
      then verify_sides inp now
      else (validate_envelope_shape (get_or_null (txt "envelope") inp) >>= λ env.
          text_at (txt "message_type") env >>= λ mtype. verify_message inp env mtype now)
