-- ===== src/Manifest/Uri/Segment.antt =====
-- The segments of a SPIFFE ID's path in aitp_verifier/manifest.py (`_SPIFFE_HINT_SUBJECT`).
use aitp_verifier_py.Prelude.{
  ℕ, ◌≡◌, ◌≢◌, ◌↔◌, ◌⊎◌, inl, inr, refl, sym, ap, subst, ◌∙◌, Bool, true, false, ◌&&◌, [], ◌∷◌,
  ◌++◌, ◌==◌, all, any, &&-true, true-||, arith,
}
use aitp_verifier_py.Text.{Text, txt}
use aitp_verifier_py.Regex.{Regex, class, seq, star, exactly}
use aitp_verifier_py.Regex.Language.{stop, again, Takes, Pieces-all, all-Pieces}
use aitp_verifier_py.Manifest.Uri.{letter, digit, spiffe_char, spiffe_word, spiffe_segment}

word-char : (c : ℕ) → spiffe_word c ≡ true → spiffe_char c ≡ true
unfolding spiffe_word spiffe_char txt
word-char c h = ground arith

dot-char : (c : ℕ) → spiffe_char c ≡ true → spiffe_word c ≡ false → c ≡ b'.'
unfolding spiffe_word spiffe_char txt
dot-char c h g = ground arith

abbrev is_dot : ℕ → Bool
is_dot c = c == b'.'

-- The pattern's first form: a character that is no dot, among others.
abbrev worded : Regex
worded = seq (star (class spiffe_char)) (seq (class spiffe_word) (star (class spiffe_char)))

all-append :
    (p : ℕ → Bool) (xs ys : Text) → all p xs ≡ true → all p ys ≡ true → all p (xs ++ ys) ≡ true
unfolding all
all-append p [] ys h g = g
all-append p (x ∷ xs) ys h g =
    let (a, b) = &&-true (p x) (all p xs) h in rw (a, all-append p xs ys b g) refl

-- A character of a sort at some place.
any-append :
    (p : ℕ → Bool) (xs : Text) (c : ℕ) (ys : Text) → p c ≡ true → any p (xs ++ c ∷ ys) ≡ true
unfolding any
any-append p [] c ys h = rw h refl
any-append p (x ∷ xs) c ys h = true-|| (p x) (any p (xs ++ c ∷ ys)) (inr (any-append p xs c ys h))

dots-char : (s : Text) → all is_dot s ≡ true → all spiffe_char s ≡ true
unfolding all spiffe_char letter digit txt any
dots-char [] h = refl
dots-char (c ∷ s) h =
    let (a, b) = &&-true (is_dot c) (all is_dot s) h in
    let is : c ≡ b'.' = ground arith in rw (is, dots-char s b) refl

-- Either a text of the segments' characters is all dots, or it has the pattern's first form.
dots_or_word : (s : Text) → all spiffe_char s ≡ true → (all is_dot s ≡ true) ⊎ Takes worded s
unfolding all
dots_or_word [] h = inl refl
dots_or_word (c ∷ s) h =
    let (a, b) = &&-true (spiffe_char c) (all spiffe_char s) h in
    here (spiffe_word c) refl a b (dots_or_word s b)
  where
    here :
        (w : Bool)
        → spiffe_word c ≡ w
        → spiffe_char c ≡ true
        → all spiffe_char s ≡ true
        → (all is_dot s ≡ true) ⊎ Takes worded s
        → (all is_dot (c ∷ s) ≡ true) ⊎ Takes worded (c ∷ s)
    here true w a b r =
        inr ([], c ∷ s, refl, stop, (c ∷ [], s, refl, (c, refl, w), all-Pieces spiffe_char s b))
    here false w a b (inl d) = inl (rw (dot-char c a w, d) refl)
    here false w a b (inr (xs, ys, e, ps, u)) =
        inr (c ∷ xs, ys, ap (λ z. c ∷ z) e, again (c ∷ xs) (c ∷ []) xs refl (c, refl, a) ps, u)

-- A segment: made of the characters allowed, not empty, and neither of the two that a path resolves.
abbrev pub IsSegment : Text → Type 0
IsSegment s = (all spiffe_char s ≡ true) × (s ≢ []) × (s ≢ txt ".") × (s ≢ txt "..")

worded-IsSegment : (s : Text) → Takes worded s → IsSegment s
unfolding all any spiffe_word letter digit txt
worded-IsSegment s (xs, zs, e, ps, (ws, ys, f, (c, g, w), qs)) =
    let split : s ≡ xs ++ c ∷ ys = e ∙ ap (λ z. xs ++ z) (f ∙ ap (λ z. z ++ ys) g) in
    let rest : all spiffe_char (c ∷ ys) ≡ true =
      rw (word-char c w, Pieces-all spiffe_char ys qs) refl in
    let chars : all spiffe_char s ≡ true =
      subst (λ z. all spiffe_char z ≡ true) (sym split)
        (all-append spiffe_char xs (c ∷ ys) (Pieces-all spiffe_char xs ps) rest) in
    let worded : any spiffe_word s ≡ true =
      subst (λ z. any spiffe_word z ≡ true) (sym split) (any-append spiffe_word xs c ys w) in
    (
      chars,
      (λ d. wordless [] refl d worded),
      (λ d. wordless (txt ".") refl d worded),
      (λ d. wordless (txt "..") refl d worded),
    )
  where
    wordless : (t : Text) → any spiffe_word t ≡ false → s ≡ t → any spiffe_word s ≡ true → ⊥
    wordless t n d h = cc

three_dots-IsSegment :
    (s : Text) → Takes (seq (exactly 3 (class is_dot)) (star (class is_dot))) s → IsSegment s
unfolding all txt
three_dots-IsSegment s
      (
        xs,
        ys,
        e,
        (x1, r1, e1, (c1, f1, h1), (x2, r2, e2, (c2, f2, h2), (x3, r3, e3, (c3, f3, h3), n))),
        ps,
      ) =
    let split : s ≡ c1 ∷ c2 ∷ c3 ∷ ys = cc in
    let dots : all is_dot (c1 ∷ c2 ∷ c3 ∷ ys) ≡ true =
      rw (h1, h2, h3, Pieces-all is_dot ys ps) refl in
    (
      subst (λ z. all spiffe_char z ≡ true) (sym split) (dots-char (c1 ∷ c2 ∷ c3 ∷ ys) dots),
      (λ d. cc),
      (λ d. cc),
      (λ d. cc),
    )

three_dots :
    (s : Text)
    → IsSegment s
    → all is_dot s ≡ true
    → Takes (seq (exactly 3 (class is_dot)) (star (class is_dot))) s
unfolding all txt
three_dots [] (c, n, o, t) h = absurd (n refl)
three_dots (x ∷ []) (c, n, o, t) h =
    let (a, b) = &&-true (is_dot x) true h in
    let is : x ≡ b'.' = ground arith in absurd (o (ap (λ z. z ∷ []) is))
three_dots (x ∷ y ∷ []) (c, n, o, t) h =
    let (a, b) = &&-true (is_dot x) (is_dot y && true) h in
    let (d, e) = &&-true (is_dot y) true b in
    let is : x ≡ b'.' = ground arith in
    let js : y ≡ b'.' = ground arith in absurd (t (rw (is, js) refl))
three_dots (x ∷ y ∷ z ∷ s) g h =
    let (a, b) = &&-true (is_dot x) (is_dot y && (is_dot z && all is_dot s)) h in
    let (c, d) = &&-true (is_dot y) (is_dot z && all is_dot s) b in
    let (e, f) = &&-true (is_dot z) (all is_dot s) d in
    (
      x ∷ y ∷ z ∷ [],
      s,
      refl,
      (
        x ∷ [],
        y ∷ z ∷ [],
        refl,
        (x, refl, a),
        (y ∷ [], z ∷ [], refl, (y, refl, c), (z ∷ [], [], refl, (z, refl, e), refl)),
      ),
      all-Pieces is_dot s f,
    )

-- The pattern of a path segment of a SPIFFE ID, an alternative of two shapes, takes exactly the texts
-- of letters, digits, dots, underscores and dashes that are not empty, not `.` and not `..`.
pub Takes-IsSegment : (s : Text) → Takes spiffe_segment s ↔ IsSegment s
unfolding spiffe_segment
Takes-IsSegment s = (segment, shaped)
  where
    segment : Takes spiffe_segment s → IsSegment s
    segment (inl t) = worded-IsSegment s t
    segment (inr t) = three_dots-IsSegment s t

    shaped : IsSegment s → Takes spiffe_segment s
    shaped g = elim (dots_or_word s g.0) [ inl d ↦ inr (three_dots s g d) | inr w ↦ inl w ]
