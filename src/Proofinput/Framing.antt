-- ===== src/Proofinput/Framing.antt =====
-- The NUL separators of `handshake_proof_input` of aitp_verifier/proofinput.py make its fields
-- unambiguous.
use aitp_verifier_py.Prelude.{
  ℕ, zero, suc, ◌+◌, ◌≡◌, ◌≢◌, refl, sym, ap, subst, Bool-cases, inl, inr, ◌^◌, ◌∙◌, [], ◌∷◌, ◌++◌,
  All, arith, ltb, ◌/◌, Option, none, some,
}
use aitp_verifier_py.Prelude.Int.{ℤ, pos, negsuc}
use aitp_verifier_py.Text.{Text, Bytes, encode, utf8_point}
use aitp_verifier_py.Outcome.{
  ok, unicode_error, >>=-eq-ok, ok-injective, or_raise-eq-ok, if-eq-ok, raised-eq-ok, value_error,
}
use aitp_verifier_py.B64.{b64url_decode}
use aitp_verifier_py.Jcs.Number.{show_on, show}
use aitp_verifier_py.Proofinput.{decimal_text, utf8, frame, handshake_proof_input}

-- No byte of a field is the separator.
abbrev pub HasNoNul : Bytes → Type 0
HasNoNul b = All (λ x. x ≢ 0) b

tail_eq : (x y : ℕ) (xs ys : Bytes) → (x ∷ xs) ≡ (y ∷ ys) → (x ≡ y) × (xs ≡ ys)
tail_eq x y xs ys h = ground arith

-- Where neither field has the separator in it, the first separator ends both.
field-injective :
    (a b r s : Bytes)
    → HasNoNul a
    → HasNoNul b
    → (a ++ (0 ∷ r)) ≡ (b ++ (0 ∷ s))
    → (a ≡ b) × (r ≡ s)
field-injective [] [] r s ha hb e = (refl, (tail_eq 0 0 r s e).1)
field-injective [] (y ∷ b) r s ha hb e = absurd (hb.0 (sym (tail_eq 0 y r (b ++ (0 ∷ s)) e).0))
field-injective (x ∷ a) [] r s ha hb e = absurd (ha.0 (tail_eq x 0 (a ++ (0 ∷ r)) s e).0)
field-injective (x ∷ a) (y ∷ b) r s ha hb e =
    let (p, q) = tail_eq x y (a ++ (0 ∷ r)) (b ++ (0 ∷ s)) e in
    let (i, j) = field-injective a b r s ha.1 hb.1 q in (rw (p, i) refl, j)

domain-injective : (d r s : Bytes) → (d ++ r) ≡ (d ++ s) → r ≡ s
domain-injective [] r s e = e
domain-injective (x ∷ d) r s e = domain-injective d r s (tail_eq x x (d ++ r) (d ++ s) e).1

point_case : (c : ℕ) (b : Bytes) → c ≢ 0 → utf8_point c ≡ some b → HasNoNul b
unfolding utf8_point
point_case c b nz h = ground arith

NoNul-append : (a b : Bytes) → HasNoNul a → HasNoNul b → HasNoNul (a ++ b)
NoNul-append [] b ha hb = hb
NoNul-append (x ∷ a) b ha hb = (ha.0, NoNul-append a b ha.1 hb)

joined :
    (o p : Option Bytes) (b : Bytes)
    → (elim o as (λ _. Option Bytes) [
      | none ↦ none
      | some c ↦ elim p as (λ _. Option Bytes) [ none ↦ none | some cs ↦ some (c ++ cs) ]
    ])
      ≡ some b
    → (c : Bytes) × (cs : Bytes) × (o ≡ some c) × (p ≡ some cs) × (c ++ cs ≡ b)
joined none p b h = cc
joined (some c) none b h = cc
joined (some c) (some cs) b h = (c, cs, refl, refl, ground arith)

encode-HasNoNul : (s : Text) (b : Bytes) → HasNoNul s → encode utf8_point s ≡ some b → HasNoNul b
unfolding encode
encode-HasNoNul [] b n h = let e : [] ≡ b = ground arith in subst HasNoNul e tt
encode-HasNoNul (c ∷ cs) b n h =
    let (p, ps, e, e', q) = joined (utf8_point c) (encode utf8_point cs) b h in
    subst HasNoNul q (NoNul-append p ps (point_case c p n.0 e) (encode-HasNoNul cs ps n.1 e'))

utf8-HasNoNul : (s : Text) (b : Bytes) → HasNoNul s → utf8 s ≡ ok b → HasNoNul b
unfolding utf8
utf8-HasNoNul s b n h = encode-HasNoNul s b n (or_raise-eq-ok unicode_error (encode utf8_point s) h)

show_on-HasNoNul : (f n : ℕ) → HasNoNul (show_on f n)
unfolding show_on
show_on-HasNoNul zero n = tt
show_on-HasNoNul (suc f) n =
    let ih = show_on-HasNoNul f (n / 10) in
    elim (Bool-cases (ltb n 10)) [
      | inl small ↦ rw small ((omega arith), tt)
      | inr large ↦ rw large (NoNul-append (show_on f (n / 10)) _ ih ((omega arith), tt))
    ]

decimal_text-HasNoNul : (n : ℤ) (b : Text) → decimal_text n ≡ ok b → HasNoNul b
unfolding decimal_text show
decimal_text-HasNoNul (pos n) b =
    if-eq-ok (ltb n (10 ^ 4300)) _ _
      (λ h. subst HasNoNul (ok-injective h) (show_on-HasNoNul (suc n) n)) (raised-eq-ok value_error)
decimal_text-HasNoNul (negsuc n) b =
    if-eq-ok (ltb (n + 1) (10 ^ 4300)) _ _
      (λ h. subst HasNoNul (ok-injective h) ((omega arith), show_on-HasNoNul (suc (n + 1)) (n + 1)))
      (raised-eq-ok value_error)

-- What a proof input was made of.
pub record IsFramed (domain : Bytes) (sender receiver message_id : Text) (timestamp : ℤ)
    (pop_nonce : Text) (b : Bytes) : Type 0 where
  pub s : Bytes
  pub r : Bytes
  pub m : Bytes
  pub t : Bytes
  pub p : Bytes
  pub has_s : utf8 sender ≡ ok s
  pub has_r : utf8 receiver ≡ ok r
  pub has_m : utf8 message_id ≡ ok m
  pub has_t : decimal_text timestamp ≡ ok t
  pub has_p : b64url_decode pop_nonce ≡ ok p
  pub framed : frame domain s r m t p ≡ b

pub handshake_proof_input-IsFramed :
    (domain : Bytes) (sender receiver message_id : Text) (timestamp : ℤ) (pop_nonce : Text)
    (b : Bytes)
    → handshake_proof_input domain sender receiver message_id timestamp pop_nonce ≡ ok b
    → IsFramed domain sender receiver message_id timestamp pop_nonce b
unfolding handshake_proof_input
handshake_proof_input-IsFramed domain sender receiver message_id timestamp pop_nonce b h =
    let (s, e1, h1) = >>=-eq-ok (utf8 sender) _ h in
    let (r, e2, h2) = >>=-eq-ok (utf8 receiver) _ h1 in
    let (m, e3, h3) = >>=-eq-ok (utf8 message_id) _ h2 in
    let (t, e4, h4) = >>=-eq-ok (decimal_text timestamp) _ h3 in
    let (p, e5, h5) = >>=-eq-ok (b64url_decode pop_nonce) _ h4 in
    record {
      s = s;
      r = r;
      m = m;
      t = t;
      p = p;
      has_s = e1;
      has_r = e2;
      has_m = e3;
      has_t = e4;
      has_p = e5;
      framed = ok-injective h5;
    }

-- Two proof inputs of one domain with the same bytes, made of texts without a NUL, have the same
-- fields: each text has the same UTF-8 form, the times have the same decimal text and the nonces
-- decode to the same bytes. A proof over one input is no proof over another.
pub handshake_proof_input-injective :
    (domain : Bytes) (sender receiver message_id : Text) (timestamp : ℤ) (pop_nonce : Text)
    (sender' receiver' message_id' : Text) (timestamp' : ℤ) (pop_nonce' : Text) (b : Bytes)
    → HasNoNul sender
    → HasNoNul receiver
    → HasNoNul message_id
    → HasNoNul sender'
    → HasNoNul receiver'
    → HasNoNul message_id'
    → handshake_proof_input domain sender receiver message_id timestamp pop_nonce ≡ ok b
    → handshake_proof_input domain sender' receiver' message_id' timestamp' pop_nonce' ≡ ok b
    → (utf8 sender ≡ utf8 sender')
      × (utf8 receiver ≡ utf8 receiver')
      × (utf8 message_id ≡ utf8 message_id')
      × (decimal_text timestamp ≡ decimal_text timestamp')
      × (b64url_decode pop_nonce ≡ b64url_decode pop_nonce')
handshake_proof_input-injective domain s r m t p s' r' m' t' p' b ns nr nm ns' nr' nm' h h' =
    let f = handshake_proof_input-IsFramed domain s r m t p b h in
    let g = handshake_proof_input-IsFramed domain s' r' m' t' p' b h' in
    let e = domain-injective domain _ _ (f.framed ∙ sym g.framed) in
    let (e1, k1) =
      field-injective f.s g.s _ _ (utf8-HasNoNul s f.s ns f.has_s)
        (utf8-HasNoNul s' g.s ns' g.has_s) e in
    let (e2, k2) =
      field-injective f.r g.r _ _ (utf8-HasNoNul r f.r nr f.has_r)
        (utf8-HasNoNul r' g.r nr' g.has_r) k1 in
    let (e3, k3) =
      field-injective f.m g.m _ _ (utf8-HasNoNul m f.m nm f.has_m)
        (utf8-HasNoNul m' g.m nm' g.has_m) k2 in
    let (e4, e5) =
      field-injective f.t g.t _ _ (decimal_text-HasNoNul t f.t f.has_t)
        (decimal_text-HasNoNul t' g.t g.has_t) k3 in
    (
      f.has_s ∙ (ap ok e1 ∙ sym g.has_s),
      f.has_r ∙ (ap ok e2 ∙ sym g.has_r),
      f.has_m ∙ (ap ok e3 ∙ sym g.has_m),
      f.has_t ∙ (ap ok e4 ∙ sym g.has_t),
      f.has_p ∙ (ap ok e5 ∙ sym g.has_p),
    )
