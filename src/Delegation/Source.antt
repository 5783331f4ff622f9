-- ===== src/Delegation/Source.antt =====
-- RFC-AITP-0006 §4 step 7 in aitp_verifier/delegation.py: the source TCT against the verifier's own
-- deny list.
use aitp_verifier_py.Prelude.{
  ◌≡◌, refl, sym, ap, ◌∙◌, inl, inr, AnyOf, Bool, true, false, List, [], ◌∷◌, ◌++◌, All, subst,
  if◌then◌else◌,
}
use aitp_verifier_py.Prelude.Int.{ℤ}
use aitp_verifier_py.Text.Laws.{text_eq_refl}
use aitp_verifier_py.Delegation.Attenuation.{or_false}
use aitp_verifier_py.Text.{Text, txt, text_eq}
use aitp_verifier_py.Json.{Value, null, str, list, Items, items, Members, get_or_null}
use aitp_verifier_py.Json.Access.{text_at, list_at}
use aitp_verifier_py.Outcome.{
  Result, Check, ok, err, raised, >>=-eq-ok, ok-injective, raise_if_silent,
  delegation_source_tct_revoked,
}
use aitp_verifier_py.Platform.{Platform}
use aitp_verifier_py.Revocation.{
  FailMode, fail_closed, policy_of, policy_fail_mode, snapshot_is_stale, verify_snapshot_trust,
  lists_jti,
}
use aitp_verifier_py.Revocation.Trust.{IsTrusted, verify_snapshot_trust-IsTrusted}
use aitp_verifier_py.Delegation.Denied.{
  record_member, may_be_own, keep_body, snapshots_of, apply_absence, issued_by, any_lists,
  collect_bodies, verified_snapshot_bodies, fresh_bodies, scan_own, check_source_tct_revocation,
}
use aitp_verifier_py.Delegation.{verify_delegation_token}
use aitp_verifier_py.Delegation.Granted.{IsGranted, verify_delegation_token-IsGranted}

module _ ⦃π : Platform⦄ where
  -- A body that one of the supplied records carries under a good signature.
  pub IsVerifiedBody : List Value → Members → Type 0
  IsVerifiedBody snaps body =
      AnyOf (λ snap. IsTrusted (record_member (txt "snapshot") snap) body) snaps

  All-later :
      (snap : Value) (snaps : List Value) (bodies : List Members)
      → All (IsVerifiedBody snaps) bodies
      → All (IsVerifiedBody (snap ∷ snaps)) bodies
  unfolding IsVerifiedBody
  All-later snap snaps [] a = tt
  All-later snap snaps (b ∷ bs) a = (inr a.0, All-later snap snaps bs a.1)

  All-++ {ℓ} :
      {A : Type 0} (P : A → Type ℓ) (xs ys : List A) → All P xs → All P ys → All P (xs ++ ys)
  All-++ P [] ys p q = q
  All-++ P (x ∷ xs) ys p q = (p.0, All-++ P xs ys p.1 q)

  keep_body-All :
      (own : Bool) (snap : Value) (snaps : List Value) (bodies : List Members) (r : Result Members)
      → verify_snapshot_trust (record_member (txt "snapshot") snap) ≡ r
      → keep_body own r ≡ ok bodies
      → All (IsVerifiedBody (snap ∷ snaps)) bodies
  unfolding keep_body IsVerifiedBody
  keep_body-All own snap snaps bodies (ok b) e h =
      subst (All (IsVerifiedBody (snap ∷ snaps))) (ok-injective h)
        (inl (verify_snapshot_trust-IsTrusted _ b e), tt)
  keep_body-All true snap snaps bodies (err c) e h = cc
  keep_body-All false snap snaps bodies (err c) e h =
      subst (All (IsVerifiedBody (snap ∷ snaps))) (ok-injective h) tt
  keep_body-All own snap snaps bodies (raised x) e h = cc

  collect_bodies-All :
      (self_aid : Text) (snaps : List Value) (bodies : List Members)
      → collect_bodies self_aid snaps ≡ ok bodies
      → All (IsVerifiedBody snaps) bodies
  unfolding collect_bodies
  collect_bodies-All self_aid [] bodies h = subst (All (IsVerifiedBody [])) (ok-injective h) tt
  collect_bodies-All self_aid (snap ∷ snaps) bodies h =
      let (b, p, h1) =
        >>=-eq-ok
          (keep_body (may_be_own self_aid (record_member (txt "issuer_aid") snap))
            (verify_snapshot_trust (record_member (txt "snapshot") snap)))
          _ h in
      let (rest, q, h2) = >>=-eq-ok (collect_bodies self_aid snaps) _ h1 in
      subst (All (IsVerifiedBody (snap ∷ snaps))) (ok-injective h2) (
        All-++ (IsVerifiedBody (snap ∷ snaps)) b rest (keep_body-All _ snap snaps b _ refl p)
          (All-later snap snaps rest (collect_bodies-All self_aid snaps rest q)))

  -- A verified body that the verifier itself issued.
  pub record IsOwn (snaps : List Value) (self_aid : Text) (body : Members) : Type 0 where
    pub supplied : IsVerifiedBody snaps body
    pub issuer : Text
    pub has_issuer : text_at (txt "issuer") body ≡ ok issuer
    pub same_issuer : text_eq issuer self_aid ≡ true

  keep-IsOwn :
      (snaps : List Value) (self_aid issuer : Text) (body : Members) (rest : List Members)
      → text_at (txt "issuer") body ≡ ok issuer
      → IsVerifiedBody snaps body
      → All (IsOwn snaps self_aid) rest
      → (b : Bool) → text_eq issuer self_aid ≡ b
      → All (IsOwn snaps self_aid) (if b then body ∷ rest else rest)
  unfolding IsVerifiedBody
  keep-IsOwn snaps self_aid issuer body rest e v a true s =
      (record { supplied = v; issuer = issuer; has_issuer = e; same_issuer = s }, a)
  keep-IsOwn snaps self_aid issuer body rest e v a false s = a

  issued_by-All :
      (snaps : List Value) (self_aid : Text) (bodies own : List Members)
      → All (IsVerifiedBody snaps) bodies
      → issued_by self_aid bodies ≡ ok own
      → All (IsOwn snaps self_aid) own
  unfolding issued_by
  issued_by-All snaps self_aid [] own a h = subst (All (IsOwn snaps self_aid)) (ok-injective h) tt
  issued_by-All snaps self_aid (body ∷ bodies) own a h =
      let (issuer, p, h1) = >>=-eq-ok (text_at (txt "issuer") body) _ h in
      let (rest, q, h2) = >>=-eq-ok (issued_by self_aid bodies) _ h1 in
      subst (All (IsOwn snaps self_aid)) (ok-injective h2) (
        keep-IsOwn snaps self_aid issuer body rest p a.0
          (issued_by-All snaps self_aid bodies rest a.1 q) _ refl)

  -- One that is fresh as well.
  pub IsApplicable : List Value → Members → Text → ℤ → Members → Type 0
  IsApplicable snaps policy self_aid now body =
      IsOwn snaps self_aid body × (snapshot_is_stale body policy now ≡ ok false)

  keep_fresh :
      (snaps : List Value) (policy : Members) (self_aid : Text) (now : ℤ) (body : Members)
      (rest : List Members)
      → IsOwn snaps self_aid body
      → All (IsApplicable snaps policy self_aid now) rest
      → (b : Bool) → snapshot_is_stale body policy now ≡ ok b
      → All (IsApplicable snaps policy self_aid now) (if b then rest else body ∷ rest)
  unfolding IsApplicable
  keep_fresh snaps policy self_aid now body rest o a true s = a
  keep_fresh snaps policy self_aid now body rest o a false s = ((o, s), a)

  fresh_bodies-All :
      (snaps : List Value) (policy : Members) (self_aid : Text) (now : ℤ)
      (own applicable : List Members)
      → All (IsOwn snaps self_aid) own
      → fresh_bodies policy now own ≡ ok applicable
      → All (IsApplicable snaps policy self_aid now) applicable
  unfolding fresh_bodies
  fresh_bodies-All snaps policy self_aid now [] applicable a h =
      subst (All (IsApplicable snaps policy self_aid now)) (ok-injective h) tt
  fresh_bodies-All snaps policy self_aid now (body ∷ bodies) applicable a h =
      let (old, p, h1) = >>=-eq-ok (snapshot_is_stale body policy now) _ h in
      let (rest, q, h2) = >>=-eq-ok (fresh_bodies policy now bodies) _ h1 in
      subst (All (IsApplicable snaps policy self_aid now)) (ok-injective h2) (
        keep_fresh snaps policy self_aid now body rest a.0
          (fresh_bodies-All snaps policy self_aid now bodies rest a.1 q) old p)

  -- A body does not name the `jti`.
  pub IsSilent : Text → Members → Type 0
  IsSilent jti body =
      (entries : List Value) × (list_at (txt "entries") body ≡ ok entries)
      × (lists_jti jti entries ≡ false)

  any_lists-All :
      (jti : Text) (bodies : List Members)
      → any_lists jti bodies ≡ ok false
      → All (IsSilent jti) bodies
  unfolding any_lists IsSilent
  any_lists-All jti [] h = tt
  any_lists-All jti (body ∷ bodies) h =
      let (es, p, h1) = >>=-eq-ok (list_at (txt "entries") body) _ h in
      let (b, q, h2) = >>=-eq-ok (any_lists jti bodies) _ h1 in
      let (none_here, none_later) = or_false (lists_jti jti es) b (ok-injective h2) in
      ((es, p, none_here), any_lists-All jti bodies (q ∙ ap ok none_later))

  -- What holds of the bodies that a filter keeps holds of every body that passes its test.
  kept :
      (P : Members → Type 0) (body : Members) (rest : List Members) (b : Bool)
      → All P (if b then body ∷ rest else rest)
      → ((b ≡ true → P body) × All P rest)
  kept P body rest true a = ((λ e. a.0), a.1)
  kept P body rest false a = ((λ e. cc), a)

  fresh-All :
      (P : Members → Type 0) (policy : Members) (now : ℤ) (bodies applicable : List Members)
      → fresh_bodies policy now bodies ≡ ok applicable
      → All P applicable
      → All (λ b. snapshot_is_stale b policy now ≡ ok false → P b) bodies
  unfolding fresh_bodies
  fresh-All P policy now [] applicable h a = tt
  fresh-All P policy now (body ∷ bodies) applicable h a =
      let (old, p, h1) = >>=-eq-ok (snapshot_is_stale body policy now) _ h in
      let (rest, q, h2) = >>=-eq-ok (fresh_bodies policy now bodies) _ h1 in
      let (here, later) = unless P body rest old (subst (All P) (sym (ok-injective h2)) a) in
      ((λ e. here (ok-injective (sym p ∙ e))), fresh-All P policy now bodies rest q later)
    where
      unless :
          (P : Members → Type 0) (body : Members) (rest : List Members) (b : Bool)
          → All P (if b then rest else body ∷ rest)
          → ((b ≡ false → P body) × All P rest)
      unless P body rest true a = ((λ e. cc), a)
      unless P body rest false a = ((λ e. a.0), a.1)

  own-All :
      (P : Members → Type 0) (self_aid : Text) (bodies own : List Members)
      → issued_by self_aid bodies ≡ ok own
      → All P own
      → All (λ b. text_at (txt "issuer") b ≡ ok self_aid → P b) bodies
  unfolding issued_by
  own-All P self_aid [] own h a = tt
  own-All P self_aid (body ∷ bodies) own h a =
      let (issuer, p, h1) = >>=-eq-ok (text_at (txt "issuer") body) _ h in
      let (rest, q, h2) = >>=-eq-ok (issued_by self_aid bodies) _ h1 in
      let (here, later) =
        kept P body rest (text_eq issuer self_aid) (subst (All P) (sym (ok-injective h2)) a) in
      (
        (λ e. here (
            subst (λ t. text_eq t self_aid ≡ true) (sym (ok-injective (sym p ∙ e)))
              (text_eq_refl self_aid))),
        own-All P self_aid bodies rest q later,
      )

  kept_body :
      (P : Members → Type 0) (own : Bool) (r : Result Members) (bodies rest : List Members)
      → keep_body own r ≡ ok bodies
      → All P (bodies ++ rest)
      → (((b : Members) → r ≡ ok b → P b) × All P rest)
  unfolding keep_body
  kept_body P own (ok c) bodies rest h a =
      let a1 = subst (λ l. All P (l ++ rest)) (sym (ok-injective h)) a in
      ((λ b e. subst P (ok-injective e) a1.0), a1.1)
  kept_body P true (err c) bodies rest h a = cc
  kept_body P false (err c) bodies rest h a =
      ((λ b e. cc), subst (λ l. All P (l ++ rest)) (sym (ok-injective h)) a)
  kept_body P own (raised x) bodies rest h a = cc

  supplied-All :
      (P : Members → Type 0) (self_aid : Text) (snaps : List Value) (bodies : List Members)
      → collect_bodies self_aid snaps ≡ ok bodies
      → All P bodies
      → All
          (λ s.
            (b : Members) → verify_snapshot_trust (record_member (txt "snapshot") s) ≡ ok b → P b)
          snaps
  unfolding collect_bodies
  supplied-All P self_aid [] bodies h a = tt
  supplied-All P self_aid (snap ∷ snaps) bodies h a =
      let (b, p, h1) =
        >>=-eq-ok
          (keep_body (may_be_own self_aid (record_member (txt "issuer_aid") snap))
            (verify_snapshot_trust (record_member (txt "snapshot") snap)))
          _ h in
      let (rest, q, h2) = >>=-eq-ok (collect_bodies self_aid snaps) _ h1 in
      let (here, later) = kept_body P _ _ b rest p (subst (All P) (sym (ok-injective h2)) a) in
      (here, supplied-All P self_aid snaps rest q later)

  -- What clears a source TCT: a fresh snapshot of the verifier's own among the supplied records, and no
  -- fresh snapshot of the verifier's own among them names the `jti`.
  pub record IsSourceCleared (inp : Members) (self_aid src_jti : Text) (now : ℤ) : Type 0 where
    pub records : Items
    pub supplied : get_or_null (txt "revocation_snapshots") inp ≡ list records
    pub own : Members
    pub applicable : IsApplicable (items records) (policy_of inp) self_aid now own
    pub none_names :
        All
          (λ s.
            (b : Members)
            → verify_snapshot_trust (record_member (txt "snapshot") s) ≡ ok b
            → text_at (txt "issuer") b ≡ ok self_aid
            → snapshot_is_stale b (policy_of inp) now ≡ ok false
            → IsSilent src_jti b)
          (items records)

  snapshots_of-list :
      (v : Value) (snaps : List Value) (body : Members)
      → snapshots_of v ≡ ok snaps
      → IsVerifiedBody snaps body
      → (l : Items) × (v ≡ list l) × (snaps ≡ items l)
  unfolding snapshots_of IsVerifiedBody
  snapshots_of-list null snaps body h a =
      absurd (subst (λ l. IsVerifiedBody l body) (sym (ok-injective h)) a)
  snapshots_of-list (list l) snaps body h a = (l, refl, sym (ok-injective h))
  snapshots_of-list v snaps body h a = cc

  scan_own-cleared :
      (mode : FailMode) (src_jti : Text) (P : Members → Type 0) (applicable : List Members)
      → mode ≡ fail_closed
      → All P applicable
      → scan_own mode src_jti applicable ≡ ok tt
      → ((body : Members) × P body) × All (IsSilent src_jti) applicable
  unfolding scan_own apply_absence
  scan_own-cleared mode src_jti P [] closed a h =
      let e : apply_absence fail_closed ≡ ok tt = subst (λ m. apply_absence m ≡ ok tt) closed h in
      cc
  scan_own-cleared mode src_jti P (body ∷ bodies) closed a h =
      let (listed, p, h1) = >>=-eq-ok (any_lists src_jti (body ∷ bodies)) _ h in
      let silent = raise_if_silent listed delegation_source_tct_revoked h1 in
      ((body, a.0), any_lists-All src_jti (body ∷ bodies) (p ∙ ap ok silent))

  check_source-cleared :
      (inp : Members) (self_aid src_jti : Text) (now : ℤ) (bodies : List Members)
      → policy_fail_mode inp ≡ fail_closed
      → verified_snapshot_bodies inp self_aid ≡ ok bodies
      → check_source_tct_revocation inp bodies self_aid src_jti now ≡ ok tt
      → IsSourceCleared inp self_aid src_jti now
  unfolding check_source_tct_revocation verified_snapshot_bodies IsApplicable
  check_source-cleared inp self_aid src_jti now bodies closed v h =
      let supplied = get_or_null (txt "revocation_snapshots") inp in
      let policy = policy_of inp in
      let (snaps, i, v1) = >>=-eq-ok (snapshots_of supplied) _ v in
      let (own, p, h1) = >>=-eq-ok (issued_by self_aid bodies) _ h in
      let (applicable, q, h2) = >>=-eq-ok (fresh_bodies policy now own) _ h1 in
      let owned =
        issued_by-All snaps self_aid bodies own (collect_bodies-All self_aid snaps bodies v1) p in
      let ((body, fresh), silent) =
        scan_own-cleared (policy_fail_mode inp) src_jti (IsApplicable snaps policy self_aid now)
          applicable closed (fresh_bodies-All snaps policy self_aid now own applicable owned q)
          h2 in
      let (l, e, same) = snapshots_of-list supplied snaps body i fresh.0.supplied in
      let by_body =
        own-All _ self_aid bodies own p
          (fresh-All (IsSilent src_jti) policy now own applicable q silent) in
      let by_record = supplied-All _ self_aid snaps bodies v1 by_body in
      record {
        records = l;
        supplied = e;
        own = body;
        applicable = subst (λ s. IsApplicable s policy self_aid now body) same fresh;
        none_names =
            subst
              (All (λ s.
                (b : Members)
                → verify_snapshot_trust (record_member (txt "snapshot") s) ≡ ok b
                → text_at (txt "issuer") b ≡ ok self_aid
                → snapshot_is_stale b policy now ≡ ok false
                → IsSilent src_jti b))
              same by_record;
      }

module _ ⦃π : Platform⦄ (resolve_key : Value → Value → ℤ → Check) where
  -- Under `fail_closed` a delegation is granted only if a trusted, fresh snapshot of the verifier's own
  -- is among the supplied records, and no trusted, fresh snapshot of its own among them names the
  -- voucher's source TCT.
  pub verify_delegation_token-IsSourceCleared :
      (inp : Members) (now : ℤ) (grants : Value)
      → policy_fail_mode inp ≡ fail_closed
      → verify_delegation_token resolve_key inp now ≡ ok grants
      → (self_aid : Text) × (get_or_null (txt "self_aid") inp ≡ str self_aid)
        × (g : IsGranted inp self_aid now grants) × IsSourceCleared inp self_aid g.src_jti now
  verify_delegation_token-IsSourceCleared inp now grants closed h =
      let (self_aid, e, g) = verify_delegation_token-IsGranted resolve_key inp now grants h in
      (
        self_aid,
        e,
        g,
        check_source-cleared inp self_aid g.src_jti now g.bodies closed g.verified g.not_revoked,
      )
