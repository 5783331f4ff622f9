-- ===== src/Manifest/Readable.antt =====
-- A challenge of the Manifest's form, 22 base64url characters, can be decoded.
use aitp_verifier_py.Prelude.{
  ℕ, zero, suc, ◌+◌, ◌*◌, ◌/◌, ◌%◌, ◌≡◌, refl, true, some, List, [], ◌∷◌, arith, length, replicate,
  Option-cases, inl, inr,
}
use aitp_verifier_py.Text.{Text, Bytes, full_match}
use aitp_verifier_py.Outcome.{ok}
use aitp_verifier_py.B64.{sextet, sextets, ungroup, b64url_decode}
use aitp_verifier_py.Envelope.{base64url_char}
use aitp_verifier_py.Manifest.{challenge_pattern}

sextet_of_char : (c : ℕ) → base64url_char c ≡ true → (v : ℕ) × (sextet c ≡ some v)
unfolding base64url_char sextet
sextet_of_char c h = elim (Option-cases (sextet c)) [
  | inl none_of ↦ absurd (ground arith)
  | inr found ↦ found
]

sextets_cons :
    (c v : ℕ) (cs : Text) (vs : List ℕ)
    → sextet c ≡ some v
    → sextets cs ≡ some vs
    → sextets (c ∷ cs) ≡ some (v ∷ vs)
unfolding sextets
sextets_cons c v cs vs e f = rw (e, f, sextets) refl

ungroup_group :
    (a b c d : ℕ) (rest : List ℕ) (bs : Bytes)
    → ungroup rest ≡ some bs
    → ungroup (a ∷ b ∷ c ∷ d ∷ rest)
      ≡ some ((a * 4 + b / 16) ∷ (b % 16 * 16 + c / 4) ∷ (c % 4 * 64 + d) ∷ bs)
unfolding ungroup
ungroup_group a b c d rest bs e = rw (e, ungroup) refl

sextets_of_match :
    (n : ℕ) (s : Text)
    → full_match (replicate n base64url_char) s ≡ true
    → (ss : List ℕ) × (sextets s ≡ some ss) × (length ss ≡ n)
unfolding full_match sextets
sextets_of_match zero [] h = ([], refl, refl)
sextets_of_match zero (c ∷ cs) h = cc
sextets_of_match (suc n) [] h = cc
sextets_of_match (suc n) (c ∷ cs) h =
    let (v, e) = sextet_of_char c (ground arith) in
    let (vs, f, l) = sextets_of_match n cs (ground arith) in
    (v ∷ vs, sextets_cons c v cs vs e f, omega (arith, l))

ungroup_two_more :
    (k : ℕ) (ss : List ℕ) → length ss ≡ 2 + 4 * k → (b : Bytes) × (ungroup ss ≡ some b)
unfolding ungroup
ungroup_two_more k [] h = absurd (omega (arith, h))
ungroup_two_more k (a ∷ []) h = absurd (omega (arith, h))
ungroup_two_more k (a ∷ b ∷ []) h = (_, refl)
ungroup_two_more k (a ∷ b ∷ c ∷ []) h = absurd (omega (arith, h))
ungroup_two_more zero (a ∷ b ∷ c ∷ d ∷ rest) h = absurd (omega (arith, h))
ungroup_two_more (suc k) (a ∷ b ∷ c ∷ d ∷ rest) h =
    let (bs, e) = ungroup_two_more k rest (omega (arith, h)) in (_, ungroup_group a b c d rest bs e)

decode_of :
    (s : Text) (ss : List ℕ) (b : Bytes)
    → sextets s ≡ some ss
    → ungroup ss ≡ some b
    → b64url_decode s ≡ ok b
unfolding b64url_decode
decode_of s ss b e f = rw (e, f) refl

pub challenge_decodes :
    (s : Text) → challenge_pattern s ≡ true → (b : Bytes) × (b64url_decode s ≡ ok b)
unfolding challenge_pattern
challenge_decodes s h =
    let (ss, e, l) = sextets_of_match 22 s h in
    let (b, f) = ungroup_two_more 5 ss (omega (arith, l)) in (b, decode_of s ss b e f)
