-- ===== src/B64/RoundTrip.antt =====
-- Encoding and decoding undo one another as far as they do, and where decoding forgets.
use aitp_verifier_py.Prelude.{ℕ, ◌/◌, ◌<◌, ◌≡◌, refl, some, List, [], ◌∷◌, arith, All}
use aitp_verifier_py.Text.{Bytes}
use aitp_verifier_py.Outcome.{ok}
use aitp_verifier_py.B64.{
  sextet, character, sextets, ungroup, group, characters, b64url_decode, b64url_encode,
}

abbrev pub IsBytes : Bytes → Type 0
IsBytes = All (λ b. b < 256)

sextet-character : (s : ℕ) → s < 64 → sextet (character s) ≡ some s
unfolding sextet character
sextet-character s h = ground arith

sextets-characters : (ss : List ℕ) → All (λ s. s < 64) ss → sextets (characters ss) ≡ some ss
unfolding sextets characters
sextets-characters [] h = refl
sextets-characters (s ∷ ss) h = rw (sextet-character s h.0, sextets-characters ss h.1, sextets)

group-lt : (bs : Bytes) → IsBytes bs → All (λ s. s < 64) (group bs)
unfolding group
group-lt [] h = tt
group-lt (x ∷ []) h = omega arith
group-lt (x ∷ y ∷ []) h = omega arith
group-lt (x ∷ y ∷ z ∷ rest) h =
    (omega arith, (omega arith, (omega arith, (omega arith, group-lt rest h.1.1.1))))

ungroup-group : (bs : Bytes) → IsBytes bs → ungroup (group bs) ≡ some bs
unfolding ungroup group
ungroup-group [] h = refl
ungroup-group (x ∷ []) h = ground arith
ungroup-group (x ∷ y ∷ []) h = ground arith
ungroup-group (x ∷ y ∷ z ∷ rest) h = rw (ungroup-group rest h.1.1.1) (ground arith)

-- Every byte string survives encoding and decoding.
pub b64url_decode-b64url_encode :
    (bs : Bytes) → IsBytes bs → b64url_decode (b64url_encode bs) ≡ ok bs
unfolding b64url_decode b64url_encode
b64url_decode-b64url_encode bs h =
    rw (sextets-characters (group bs) (group-lt bs h), ungroup-group bs h, b64url_decode)

-- Decoding does not read the low four bits of a second-to-last character, so a text has others that
-- decode to the same bytes.
pub ungroup_forgets : (a b c : ℕ) → b / 16 ≡ c / 16 → ungroup (a ∷ b ∷ []) ≡ ungroup (a ∷ c ∷ [])
unfolding ungroup
ungroup_forgets a b c h = ground arith
