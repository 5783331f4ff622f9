-- ===== src/Outcome.antt =====
-- aitp_verifier/errors.py: what a verifier call comes to. It returns, raises an `AitpError` with a
-- wire code, or raises one of Python's own exceptions, which the callers of the library do not catch.
use aitp_verifier_py.Prelude.{◌≡◌, refl, Bool, true, false, not, Option, none, some, if◌then◌else◌}

-- The registry codes that the modelled modules raise. The message and `retryable` are not kept: no
-- verdict depends on them.
pub data Code : Type 0 where
  invalid_token unknown_field unknown_version invalid_envelope invalid_signature : Code
  timestamp_expired policy_violation key_resolution_failed : Code
  token_typ_mismatch token_alg_mismatch : Code
  tct_signature_invalid tct_expired tct_cnf_mismatch tct_expires_after_manifest tct_revoked : Code
  audience_mismatch pop_response_invalid pop_challenge_invalid : Code
  revocation_snapshot_invalid revocation_snapshot_signature_invalid : Code
  delegation_invalid_signature delegation_audience_mismatch delegation_expired : Code
  delegation_invalid_voucher delegation_scope_exceeded delegation_source_tct_revoked : Code
  delegation_multihop_not_supported delegation_hop_limit_exceeded : Code
  delegation_chain_hash_mismatch : Code
  manifest_invalid manifest_version_unknown manifest_expired manifest_pop_failed : Code
  manifest_signature_invalid : Code
  identity_failed incompatible_trust_anchors incompatible_identity_type : Code
  peer_mismatch nonce_mismatch pop_verification_failed grant_overflow : Code
  session_bundle_invalid bundle_version_mismatch bundle_expired bundle_empty_participants : Code
  bundle_participant_tct_invalid bundle_expiry_window_invariant bundle_invalid_signature : Code
  bundle_coordinator_issuer_mismatch bundle_audience_mismatch bundle_not_member : Code

-- Python's exceptions that the modelled code can meet. `JcsError`, `UnicodeError` and
-- `binascii.Error` are subclasses of `ValueError`.
pub data Exc : Type 0 where
  value_error jcs_error unicode_error type_error key_error attribute_error : Exc
  overflow_error : Exc

pub data Result {ℓ} (A : Type ℓ) : Type ℓ where
  ok : A → Result A
  err : Code → Result A
  raised : Exc → Result A

-- A step that returns nothing.
abbrev pub Check : Type 0
Check = Result (Unit {0})

-- Statements in sequence: the first refusal or exception is the outcome of the whole.
infixl 5 ◌>>=◌
abbrev pub ◌>>=◌ {κ ι} : {S : Type κ} {T : Type ι} → Result S → (S → Result T) → Result T
raised x >>= next = raised x
err c >>= next = err c
ok s >>= next = next s

infixl 5 ◌>>◌
abbrev pub ◌>>◌ {κ} : {T : Type κ} → Result (Unit {0}) → Result T → Result T
step >> rest = step >>= λ done. rest

-- A value, or the exception where there is none.
abbrev pub or_raise {ℓ} : {A : Type ℓ} → Exc → Option A → Result A
or_raise x none = raised x
or_raise x (some a) = ok a

-- `if test: raise AitpError(code)`.
abbrev pub raise_if : Bool → Code → Result (Unit {0})
raise_if true c = err c
raise_if false c = ok tt

-- `except ValueError`, its subclasses included.
abbrev pub is_value_error : Exc → Bool
is_value_error value_error = true
is_value_error jcs_error = true
is_value_error unicode_error = true
is_value_error _ = false

-- `try: ... except ValueError: raise AitpError(code)`.
abbrev pub on_value_error {ℓ} : {A : Type ℓ} → Code → Result A → Result A
on_value_error c (ok a) = ok a
on_value_error c (err d) = err d
on_value_error c (raised x) = if is_value_error x then err c else raised x

-- `try: ... except AitpError` with the handler's value.
abbrev pub on_aitp_error {ℓ} : {A : Type ℓ} → Result A → Result A → Result A
on_aitp_error h (ok a) = ok a
on_aitp_error h (err c) = h
on_aitp_error h (raised x) = raised x

-- `except AitpError: raise`, then a handler for every other exception of the model.
abbrev pub on_raised {ℓ} : {A : Type ℓ} → Code → Result A → Result A
on_raised c (ok a) = ok a
on_raised c (err d) = err d
on_raised c (raised x) = err c

-- The boundary contract: a verdict or an `AitpError`, never a stray Python exception.
pub data IsVerdict {ℓ} {A : Type ℓ} : Result A → Type ℓ where
  returned : (a : A) → IsVerdict (ok a)
  refused : (c : Code) → IsVerdict (err c)

-- Of a sequence that returned, every statement returned.
pub >>=-eq-ok {κ ι} :
    {S : Type κ} {T : Type ι} (step : Result S) (next : S → Result T) {t : T}
    → (step >>= next) ≡ ok t
    → (s : S) × (step ≡ ok s) × (next s ≡ ok t)
>>=-eq-ok (raised x) next p = cc
>>=-eq-ok (err c) next p = cc
>>=-eq-ok (ok s) next p = (s, refl, p)

pub >>-eq-ok {κ} :
    {T : Type κ} (step : Result (Unit {0})) (rest : Result T) {t : T}
    → (step >> rest) ≡ ok t
    → (step ≡ ok tt) × (rest ≡ ok t)
>>-eq-ok (raised x) rest p = cc
>>-eq-ok (err c) rest p = cc
>>-eq-ok (ok u) rest p = (refl, p)

pub raise_if-eq-ok {ℓ} :
    {B : Type ℓ} (t : Bool) (c : Code) (k : Result B) {b : B}
    → (raise_if t c >> k) ≡ ok b
    → (t ≡ false) × (k ≡ ok b)
raise_if-eq-ok true c k h = cc
raise_if-eq-ok false c k h = (refl, h)

pub not_raised {ℓ} : {A : Type ℓ} {r : Result A} {x : Exc} → IsVerdict r → r ≡ raised x → ⊥
not_raised (returned a) e = cc
not_raised (refused c) e = cc

-- The contract passes through a sequence of steps.
pub >>=-IsVerdict {ℓ κ} :
    {A : Type ℓ} {B : Type κ} (m : Result A) (f : A → Result B)
    → IsVerdict m
    → ((a : A) → m ≡ ok a → IsVerdict (f a))
    → IsVerdict (m >>= f)
>>=-IsVerdict (ok a) f v k = k a refl
>>=-IsVerdict (err c) f v k = refused c
>>=-IsVerdict (raised x) f v k = elim (not_raised v refl) [ ]

pub raise_if-IsVerdict : (t : Bool) (c : Code) → IsVerdict (raise_if t c)
raise_if-IsVerdict true c = refused c
raise_if-IsVerdict false c = returned tt

pub ruleset verdict_rules = (>>=-IsVerdict, raise_if-IsVerdict, returned, refused)

pub or_raise-eq-ok {ℓ} :
    {A : Type ℓ} (x : Exc) (o : Option A) {a : A} → or_raise x o ≡ ok a → o ≡ some a
or_raise-eq-ok x none h = cc
or_raise-eq-ok x (some b) h = cc

-- A verdict, or the one stray exception `x`.
pub data IsVerdictUpTo {ℓ} {A : Type ℓ} (x : Exc) : Result A → Type ℓ where
  returns : (a : A) → IsVerdictUpTo x (ok a)
  refuses : (c : Code) → IsVerdictUpTo x (err c)
  stray : IsVerdictUpTo x (raised x)

pub IsVerdict-up_to {ℓ} : {A : Type ℓ} (x : Exc) {r : Result A} → IsVerdict r → IsVerdictUpTo x r
IsVerdict-up_to x (returned a) = returns a
IsVerdict-up_to x (refused c) = refuses c

bind_up_to {ℓ κ} :
    {A : Type ℓ} {B : Type κ} (x : Exc) (m : Result A) (r : Result A) (f : A → Result B)
    → m ≡ r
    → IsVerdictUpTo x r
    → ((a : A) → m ≡ ok a → IsVerdictUpTo x (f a))
    → IsVerdictUpTo x (r >>= f)
bind_up_to x m r f e (returns a) k = k a e
bind_up_to x m r f e (refuses c) k = refuses c
bind_up_to x m r f e stray k = stray

pub >>=-IsVerdictUpTo {ℓ κ} :
    {A : Type ℓ} {B : Type κ} (x : Exc) (m : Result A) (f : A → Result B)
    → IsVerdictUpTo x m
    → ((a : A) → m ≡ ok a → IsVerdictUpTo x (f a))
    → IsVerdictUpTo x (m >>= f)
>>=-IsVerdictUpTo x m f v k = bind_up_to x m m f refl v k

pub raise_if-IsVerdictUpTo : (x : Exc) (t : Bool) (c : Code) → IsVerdictUpTo x (raise_if t c)
raise_if-IsVerdictUpTo x true c = refuses c
raise_if-IsVerdictUpTo x false c = returns tt

pub or_raise-IsVerdictUpTo {ℓ} :
    {A : Type ℓ} (x : Exc) (o : Option A) → IsVerdictUpTo x (or_raise x o)
or_raise-IsVerdictUpTo x none = stray
or_raise-IsVerdictUpTo x (some a) = returns a

pub if-IsVerdictUpTo {ℓ} :
    {A : Type ℓ} (x : Exc) (t : Bool) {r s : Result A}
    → IsVerdictUpTo x r
    → IsVerdictUpTo x s
    → IsVerdictUpTo x (if t then r else s)
if-IsVerdictUpTo x true p q = p
if-IsVerdictUpTo x false p q = q

pub ruleset up_to_rules = (
  >>=-IsVerdictUpTo, raise_if-IsVerdictUpTo, or_raise-IsVerdictUpTo, IsVerdict-up_to, returns,
  refuses, stray,
)

-- A verdict, or what canonicalizing a value that no verifier inspects can raise: the
-- `UnicodeEncodeError` of a lone surrogate, or the `ValueError` of an integer too long to print.
pub data IsCanonicalVerdict {ℓ} {A : Type ℓ} : Result A → Type ℓ where
  gives : (a : A) → IsCanonicalVerdict (ok a)
  rejects : (c : Code) → IsCanonicalVerdict (err c)
  not_unicode : IsCanonicalVerdict (raised unicode_error)
  too_long : IsCanonicalVerdict (raised value_error)

pub IsVerdict-IsCanonicalVerdict {ℓ} :
    {A : Type ℓ} {r : Result A} → IsVerdict r → IsCanonicalVerdict r
IsVerdict-IsCanonicalVerdict (returned a) = gives a
IsVerdict-IsCanonicalVerdict (refused c) = rejects c

bind_canonical {ℓ κ} :
    {A : Type ℓ} {B : Type κ} (m : Result A) (r : Result A) (f : A → Result B)
    → m ≡ r
    → IsCanonicalVerdict r
    → ((a : A) → m ≡ ok a → IsCanonicalVerdict (f a))
    → IsCanonicalVerdict (r >>= f)
bind_canonical m r f e (gives a) k = k a e
bind_canonical m r f e (rejects c) k = rejects c
bind_canonical m r f e not_unicode k = not_unicode
bind_canonical m r f e too_long k = too_long

pub >>=-IsCanonicalVerdict {ℓ κ} :
    {A : Type ℓ} {B : Type κ} (m : Result A) (f : A → Result B)
    → IsCanonicalVerdict m
    → ((a : A) → m ≡ ok a → IsCanonicalVerdict (f a))
    → IsCanonicalVerdict (m >>= f)
>>=-IsCanonicalVerdict m f v k = bind_canonical m m f refl v k

pub raise_if-IsCanonicalVerdict : (t : Bool) (c : Code) → IsCanonicalVerdict (raise_if t c)
raise_if-IsCanonicalVerdict true c = rejects c
raise_if-IsCanonicalVerdict false c = gives tt

pub ruleset canonical_rules = (
  >>=-IsCanonicalVerdict, raise_if-IsCanonicalVerdict, IsVerdict-IsCanonicalVerdict, gives, rejects,
)

-- A handler for `ValueError` makes a verdict of code that raises nothing else.
pub on_value_error-IsVerdict {ℓ} :
    {A : Type ℓ} (c : Code) {r : Result A}
    → IsVerdictUpTo value_error r
    → IsVerdict (on_value_error c r)
on_value_error-IsVerdict c (returns a) = returned a
on_value_error-IsVerdict c (refuses d) = refused d
on_value_error-IsVerdict c stray = refused c

pub on_value_error-eq-ok {ℓ} :
    {A : Type ℓ} (c : Code) (r : Result A) {a : A} → on_value_error c r ≡ ok a → r ≡ ok a
on_value_error-eq-ok c (ok b) h = h
on_value_error-eq-ok c (err d) h = cc
on_value_error-eq-ok c (raised value_error) h = cc
on_value_error-eq-ok c (raised jcs_error) h = cc
on_value_error-eq-ok c (raised unicode_error) h = cc
on_value_error-eq-ok c (raised x) h = cc

pub ok-injective {ℓ} : {A : Type ℓ} {a b : A} → ok a ≡ ok b → a ≡ b
ok-injective h = cc

-- A negated test that did not raise.
pub raise_if_passed : (t : Bool) (c : Code) → raise_if (not t) c ≡ ok tt → t ≡ true
raise_if_passed true c h = refl
raise_if_passed false c h = cc

-- A test that did not raise.
pub raise_if_silent : (t : Bool) (c : Code) → raise_if t c ≡ ok tt → t ≡ false
raise_if_silent true c h = cc
raise_if_silent false c h = refl

pub on_raised-eq-ok {ℓ} :
    {A : Type ℓ} (c : Code) (r : Result A) {a : A} → on_raised c r ≡ ok a → r ≡ ok a
on_raised-eq-ok c (ok b) h = h
on_raised-eq-ok c (err d) h = cc
on_raised-eq-ok c (raised x) h = cc

pub on_raised-IsVerdict {ℓ} : {A : Type ℓ} (c : Code) (r : Result A) → IsVerdict (on_raised c r)
on_raised-IsVerdict c (ok a) = returned a
on_raised-IsVerdict c (err d) = refused d
on_raised-IsVerdict c (raised x) = refused c

-- What both branches establish, whichever was taken.
pub if-eq-ok {ℓ κ} :
    {A : Type ℓ} {P : Type κ} (t : Bool) (r s : Result A) {a : A}
    → (r ≡ ok a → P)
    → (s ≡ ok a → P)
    → (if t then r else s) ≡ ok a
    → P
if-eq-ok true r s on_true on_false h = on_true h
if-eq-ok false r s on_true on_false h = on_false h

-- The same, where what a branch establishes needs the test that led to it.
pub if-eq-ok_by {ℓ κ} :
    {A : Type ℓ} {P : Type κ} (t : Bool) (r s : Result A) {a : A}
    → (t ≡ true → r ≡ ok a → P)
    → (t ≡ false → s ≡ ok a → P)
    → (if t then r else s) ≡ ok a
    → P
if-eq-ok_by true r s on_true on_false h = on_true refl h
if-eq-ok_by false r s on_true on_false h = on_false refl h

pub raised-eq-ok {ℓ κ} : {A : Type ℓ} {P : Type κ} (x : Exc) {a : A} → raised x ≡ ok a → P
raised-eq-ok x h = cc
