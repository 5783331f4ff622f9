-- ===== src/Manifest/Uri/Subject.antt =====
-- The SPIFFE IDs that `_SPIFFE_HINT_SUBJECT` of aitp_verifier/manifest.py is about.
use aitp_verifier_py.Prelude.{
  ◌≡◌, ◌≢◌, ◌↔◌, refl, ap, ◌∙◌, true, [], ◌∷◌, ◌++◌, ◌==◌, ◌≤◌, all, length, &&-true, arith,
}
use aitp_verifier_py.Text.{Text, txt}
use aitp_verifier_py.Regex.{class, seq, matches, some_of}
use aitp_verifier_py.Regex.Language.{
  Pieces, again, Takes, matches_iff, literal-Takes, Takes-literal, at_most-Takes, Takes-at_most,
  Pieces-map,
}
use aitp_verifier_py.Manifest.Uri.{spiffe_segment, trust_domain_char, spiffe_hint_subject}
use aitp_verifier_py.Manifest.Uri.Segment.{IsSegment, Takes-IsSegment}

-- A slash and a segment.
abbrev pub IsStep : Text → Type 0
IsStep t = (segment : Text) × (t ≡ b'/' ∷ segment) × IsSegment segment

-- `spiffe://`, a trust domain of 1 to 255 characters, and a path of at least one segment.
pub record IsSpiffeId (s : Text) : Type 0 where
  pub domain : Text
  pub path : Text
  pub split : s ≡ txt "spiffe://" ++ (domain ++ path)
  pub has_domain : domain ≢ []
  pub short : length domain ≤ 255
  pub domain_chars : all trust_domain_char domain ≡ true
  pub has_path : path ≢ []
  pub steps : Pieces IsStep path

step : (t : Text) → Takes (seq (class (λ c. c == b'/')) spiffe_segment) t → IsStep t
step t (xs, ys, e, (c, f, h), u) =
    let same : c ≡ b'/' = ground arith in
    let (sound, complete) = Takes-IsSegment ys in (ys, cc, sound u)

step_back : (t : Text) → IsStep t → Takes (seq (class (λ c. c == b'/')) spiffe_segment) t
step_back t (g, e, s) =
    let (sound, complete) = Takes-IsSegment g in (b'/' ∷ [], g, e, (b'/', refl, refl), complete s)

-- A path is one step and further ones.
path_steps :
    (t : Text)
    → Takes (some_of (seq (class (λ c. c == b'/')) spiffe_segment)) t
    → (t ≢ []) × Pieces IsStep t
path_steps t (xs, ys, e, u, ps) =
    let (g, f, s) = step xs u in
    let split : t ≡ b'/' ∷ (g ++ ys) = e ∙ ap (λ z. z ++ ys) f in
    ((λ d. cc), again t xs ys e (g, f, s) (Pieces-map ys step ps))

steps_path :
    (t : Text)
    → t ≢ []
    → Pieces IsStep t
    → Takes (some_of (seq (class (λ c. c == b'/')) spiffe_segment)) t
steps_path t n Pieces.stop = absurd (n refl)
steps_path t n (again v xs ys e u ps) = (xs, ys, e, step_back xs u, Pieces-map ys step_back ps)

subject-IsSpiffeId : (s : Text) → Takes spiffe_hint_subject s → IsSpiffeId s
unfolding spiffe_hint_subject all
subject-IsSpiffeId s (xs, ys, e, l, (ds, path, f, (ws, zs, g, (c, h, k), m), ps)) =
    let (n, a) = at_most-Takes 254 trust_domain_char zs m in
    let (has_path, steps) = path_steps path ps in
    let domain : ds ≡ c ∷ zs = cc in
    let scheme = literal-Takes (txt "spiffe://") xs l in
    record {
      domain = ds;
      path = path;
      split = e ∙ (ap (λ z. z ++ ys) scheme ∙ ap (λ z. txt "spiffe://" ++ z) f);
      has_domain = (λ d. cc);
      short = rw domain (omega arith);
      domain_chars = rw domain (rw (k, a) refl);
      has_path = has_path;
      steps = steps;
    }

IsSpiffeId-subject :
    (s domain path : Text)
    → s ≡ txt "spiffe://" ++ (domain ++ path)
    → domain ≢ []
    → length domain ≤ 255
    → all trust_domain_char domain ≡ true
    → path ≢ []
    → Pieces IsStep path
    → Takes spiffe_hint_subject s
unfolding spiffe_hint_subject all
IsSpiffeId-subject s [] path e n l a m ps = absurd (n refl)
IsSpiffeId-subject s (c ∷ zs) path e n l a m ps =
    let (h, b) = &&-true (trust_domain_char c) (all trust_domain_char zs) a in
    (
      txt "spiffe://",
      c ∷ (zs ++ path),
      e,
      Takes-literal (txt "spiffe://"),
      (
        c ∷ zs,
        path,
        refl,
        (c ∷ [], zs, refl, (c, refl, h), Takes-at_most 254 trust_domain_char zs (omega arith) b),
        steps_path path m ps,
      ),
    )

pub matches-IsSpiffeId : (s : Text) → (matches spiffe_hint_subject s ≡ true) ↔ IsSpiffeId s
matches-IsSpiffeId s =
    let (sound, complete) = matches_iff spiffe_hint_subject s in
    (
      (λ h. subject-IsSpiffeId s (sound h)),
      (λ i. complete (
          IsSpiffeId-subject s i.domain i.path i.split i.has_domain i.short i.domain_chars
            i.has_path i.steps)),
    )
