-- ===== src/Lib.antt =====
-- Verification of aitp_verifier, the Agent Identity Trust Protocol verifier of this repository.
--
-- The program takes artifacts off the wire (tokens, envelopes, Manifests, handshake payloads, session
-- bundles, revocation snapshots, delegation tokens) and returns a verdict or raises an `AitpError`
-- with a wire code. Each entry point parses, checks the shape, verifies a signature under a key that
-- an AID or a trusted issuer carries, and only then applies the rules on time, audience, scope and
-- revocation. A handshake payload carries a Manifest and an identity in round 1 and a token in round
-- 2; a bundle carries a token per participant, and its coordinator's key comes from a Manifest.
--
-- Which file models which part:
--   Outcome       aitp_verifier/errors.py: `Result` is a returned value, an `AitpError`'s code, or one
--                 of Python's own exceptions, which no caller catches; `IsVerdict` and `IsVerdictUpTo`
--                 say which of the three a call can come to
--   Text, Json    strings as code points, bytes, and JSON values with Python's `dict` and `int`
--                 operations; Json.Decode is `loads` of aitp_verifier/jcs.py as a push-down machine
--   Platform      the `cryptography` package, `hashlib`, `ipaddress` and CPython's conversions of
--                 doubles, which are not in the repository: every definition that needs them takes a
--                 `Platform`
--   B64, Crypto, Aid, Sigfield, Fields, Jcs, Jwk, Jws
--                 the files of those names in aitp_verifier/
--   Revocation    aitp_verifier/revocation.py: `verify_snapshot_trust`, `verify_revocation_snapshot`
--   Regex         Python's `re.fullmatch` on the grammars the source writes, by derivatives;
--                 Regex.Language is the language that a pattern is written to take
--   Manifest      aitp_verifier/manifest.py; Manifest.Uri has its patterns, the `URI` rule of RFC 3986
--                 among them, and Manifest.Resolve is about `resolve_manifest`
--   Identity      aitp_verifier/identity.py: the trust store, Identity.Pinned and Identity.Oidc the two
--                 bindings, Identity.Binding is `verify_identity`; Jwk.Issuer is the part of
--                 aitp_verifier/jwk.py that reads an issuer's keys (`issuer_keys_from`)
--   Proofinput    aitp_verifier/proofinput.py
--   Handshake     `verify_handshake_payload` of aitp_verifier/handshake.py; Handshake.Bootstrap is its
--                 round 1 (`_verify_bootstrap`), Handshake.Commit its round 2 (`_verify_commit`)
--   SessionBundle aitp_verifier/sessionbundle.py; SessionBundle.Participants has the entries' tokens
--   Dispatch      aitp_verifier/verify.py: the operations and `missing_argument`
--   Tct           aitp_verifier/tct.py: `verify_tct` (`verify_token` is its JWS part, `check_claims`
--                 its checks on verified claims, `check_revocation` is `_check_revocation`)
--                 Tct.Issuer is `verify_tct_as_issuer`, `presenter_from_pop`, `verify_attestation`
--   Envelope      aitp_verifier/envelope.py; Envelope.Contains is Python's `in` on JSON values
--   Voucher       aitp_verifier/voucher.py
--   Delegation    aitp_verifier/delegation.py: Claims has the shapes, the chain hash and the voucher,
--                 Hops the loop of `_verify_multihop`, Denied the revocation lookups
--   Examples      runs on concrete inputs
--
-- A `raise` is a value and a sequence of statements a `do` block, so the order of the checks is the
-- code's. Integers are unbounded, as Python's. Loops over lists are structural recursion. The
-- serializer recurs on the levels that the cap of 256 leaves, which is the code's own bound: at level
-- zero it raises as the code does, so no fuel can run out early. The walk over an issuer's keys is
-- recursion on the value, with the code's caps on depth, visits and candidates, and a pattern is
-- matched by one derivative for each character of the text. `now` is an argument.
--
-- `verify_spiffe` of aitp_verifier/spiffe.py is an argument of the modules on identities and the
-- handshake. Delegation takes the resolution of a key as an argument; Delegation.Designated fills it
-- with `resolve_key_from_manifests`.
-- Not modelled: The SPIFFE binding, signing, minting, the harness and the command line. Error messages
-- are not kept. Python's memory and recursion limits are not modelled: where the code has a cap of its
-- own, the model has that cap. CPython's default limit of 4300 digits on reading and printing an integer is
-- kept, since its ValueError escapes.
pub mod Prelude
pub mod Regex
pub mod Outcome
pub mod Text
pub mod Json
pub mod Revocation
pub mod B64
pub mod Platform
pub mod Fields
pub mod Crypto
pub mod Jcs
pub mod Aid
pub mod Sigfield
pub mod Jws
pub mod Jwk
pub mod Identity
pub mod Tct
pub mod Envelope
pub mod Voucher
pub mod Delegation
pub mod Manifest
pub mod Proofinput
pub mod Handshake
pub mod SessionBundle
pub mod Dispatch
mod Examples
