-- ===== src/Manifest/Resolve.antt =====
-- The key that a Manifest designates: `resolve_manifest` of aitp_verifier/manifest.py.
use aitp_verifier_py.Prelude.{
  ◌≡◌, refl, ap, ◌∙◌, subst, not, arith, Bool, true, false, List, [], ◌∷◌, ◌++◌, All, AnyOf, inl,
  inr, Bool-cases,
}
use aitp_verifier_py.Prelude.Int.{ℤ}
use aitp_verifier_py.Text.{Text, txt}
use aitp_verifier_py.Json.{
  Value, null, bool, int, float, str, list, obj, Members, get_or_null, is_text,
}
use aitp_verifier_py.Outcome.{
  Result, ok, err, raised, >>=-eq-ok, ok-injective, on_value_error-eq-ok, key_resolution_failed,
}
use aitp_verifier_py.Platform.{Platform}
use aitp_verifier_py.Aid.{Aid, parse_aid}
use aitp_verifier_py.Manifest.{
  candidates_of, manifest_input, verify_manifest, designated_key, on_failure, first_designated,
  resolve_manifest,
}

module _ ⦃π : Platform⦄ where
  -- One of the supplied Manifests has this AID and verifies at this time, and the key is the AID's.
  pub record IsDesignated (aid : Text) (candidates : List Value) (now : ℤ) (key : Aid)
      (man : Members) : Type 0 where
    pub supplied : AnyOf (λ v. v ≡ obj man) candidates
    pub of_aid : is_text aid (get_or_null (txt "aid") man) ≡ true
    pub verified : Text
    pub verifies : verify_manifest (manifest_input (obj man) now) now ≡ ok verified
    pub key_parses : parse_aid aid ≡ ok key

  on_failure-eq-ok : (r : Result Aid) (key : Aid) → on_failure r ≡ ok key → r ≡ ok key
  unfolding on_failure
  on_failure-eq-ok (ok a) key h = h
  on_failure-eq-ok (err c) key h = cc
  on_failure-eq-ok (raised x) key h = on_value_error-eq-ok key_resolution_failed (raised x) h

  later :
      (aid : Text) (v : Value) (candidates : List Value) (now : ℤ) (key : Aid) (man : Members)
      → IsDesignated aid candidates now key man
      → IsDesignated aid (v ∷ candidates) now key man
  later aid v candidates now key man d = record {
    supplied = inr d.supplied;
    of_aid = d.of_aid;
    verified = d.verified;
    verifies = d.verifies;
    key_parses = d.key_parses;
  }

  first_designated-IsDesignated :
      (aid : Text) (candidates : List Value) (now : ℤ) (key : Aid) (man : Members)
      → first_designated aid candidates now ≡ ok (key, man)
      → IsDesignated aid candidates now key man
  unfolding first_designated designated_key
  first_designated-IsDesignated aid [] now key man h = cc
  first_designated-IsDesignated aid (obj m ∷ rest) now key man h =
      elim (Bool-cases (is_text aid (get_or_null (txt "aid") m))) [
        | inl named ↦
            let (k, p, h1) = >>=-eq-ok (on_failure (designated_key aid m now)) _ (rw named at h) in
            let (t, q, h2) =
              >>=-eq-ok (verify_manifest (manifest_input (obj m) now) now) _
                (on_failure-eq-ok _ k p) in
            let same = ok-injective h1 in
            let same_key : k ≡ key = ap (λ r. r.0) same in
            let same_man : m ≡ man = ap (λ r. r.1) same in
            record {
              supplied = inl (ap obj same_man);
              of_aid = rw same_man at named;
              verified = t;
              verifies =
                  subst (λ d. verify_manifest (manifest_input (obj d) now) now ≡ ok t) same_man q;
              key_parses = h2 ∙ ap ok same_key;
            }
        | inr other ↦
            later aid (obj m) rest now key man
              (first_designated-IsDesignated aid rest now key man (rw other at h))
      ]
  first_designated-IsDesignated aid (null ∷ rest) now key man h =
      later aid null rest now key man (first_designated-IsDesignated aid rest now key man h)
  first_designated-IsDesignated aid (bool b ∷ rest) now key man h =
      later aid (bool b) rest now key man (first_designated-IsDesignated aid rest now key man h)
  first_designated-IsDesignated aid (int n ∷ rest) now key man h =
      later aid (int n) rest now key man (first_designated-IsDesignated aid rest now key man h)
  first_designated-IsDesignated aid (float f ∷ rest) now key man h =
      later aid (float f) rest now key man (first_designated-IsDesignated aid rest now key man h)
  first_designated-IsDesignated aid (str s ∷ rest) now key man h =
      later aid (str s) rest now key man (first_designated-IsDesignated aid rest now key man h)
  first_designated-IsDesignated aid (list l ∷ rest) now key man h =
      later aid (list l) rest now key man (first_designated-IsDesignated aid rest now key man h)

  -- `resolve_manifest` gives a key only with one of the supplied Manifests, which has the AID, verifies
  -- at this time, and is returned beside the key of that AID.
  pub resolve_manifest-IsDesignated :
      (aid : Text) (manifests : Value) (now : ℤ) (key : Aid) (man : Members)
      → resolve_manifest aid manifests now ≡ ok (key, man)
      → IsDesignated aid (candidates_of manifests) now key man
  unfolding resolve_manifest
  resolve_manifest-IsDesignated aid manifests now key man h =
      first_designated-IsDesignated aid (candidates_of manifests) now key man h

  -- A candidate that is no Manifest of this AID.
  abbrev pub names_other : Text → Value → Bool
  names_other aid (obj m) = not (is_text aid (get_or_null (txt "aid") m))
  names_other aid v = true

  skip_others :
      (aid : Text) (v : Value) (rest : List Value) (now : ℤ)
      → names_other aid v ≡ true
      → first_designated aid (v ∷ rest) now ≡ first_designated aid rest now
  unfolding first_designated
  skip_others aid (obj m) rest now e =
      let f : is_text aid (get_or_null (txt "aid") m) ≡ false = ground arith in rw f refl
  skip_others aid null rest now e = refl
  skip_others aid (bool b) rest now e = refl
  skip_others aid (int n) rest now e = refl
  skip_others aid (float f) rest now e = refl
  skip_others aid (str s) rest now e = refl
  skip_others aid (list l) rest now e = refl

  -- Where the first Manifest of the AID verifies, whatever stands before and after it, the AID is
  -- resolved, to that Manifest and the AID's key.
  pub first_designated-resolves :
      (aid : Text) (before after : List Value) (man : Members) (now : ℤ) (verified : Text)
      (key : Aid)
      → All (λ v. names_other aid v ≡ true) before
      → is_text aid (get_or_null (txt "aid") man) ≡ true
      → verify_manifest (manifest_input (obj man) now) now ≡ ok verified
      → parse_aid aid ≡ ok key
      → first_designated aid (before ++ (obj man ∷ after)) now ≡ ok (key, man)
  unfolding first_designated designated_key on_failure
  first_designated-resolves aid [] after man now verified key others named verifies parses =
      rw (named, verifies, parses) refl
  first_designated-resolves aid (v ∷ before) after man now verified key others named verifies
        parses =
      skip_others aid v (before ++ (obj man ∷ after)) now others.0
      ∙ first_designated-resolves aid before after man now verified key others.1 named verifies
          parses
