-- ===== src/Fields/Laws.antt =====
-- What passes the boundary checks: exactly the objects that the tables describe.
use aitp_verifier_py.Prelude.{
  ◌≡◌, refl, true, false, some, List, [], ◌∷◌, arith, All, all-All, Bool-cases, inl, inr,
}
use aitp_verifier_py.Text.{Text, text_eq}
use aitp_verifier_py.Json.{
  Value, str, obj, Members, end, member, get, has, PyType, str_type, dict_type,
}
use aitp_verifier_py.Outcome.{Code, ok}
use aitp_verifier_py.Fields.{
  has_extra, reject_unknown_members, require_members, Types, has_type, member_has_type, check_types,
}

pub get_of_has : (k : Text) (m : Members) → has k m ≡ true → (v : Value) × (get k m ≡ some v)
unfolding has get
get_of_has k end h = cc
get_of_has k (member j v m) h = elim (Bool-cases (text_eq k j)) [
  | inl same ↦ (v, rw same refl)
  | inr other ↦ let p : has k m ≡ true = rw other at h in rw other (get_of_has k m p)
]

pub has_of_get : (k : Text) (m : Members) (v : Value) → get k m ≡ some v → has k m ≡ true
unfolding has get
has_of_get k end v h = cc
has_of_get k (member j w m) v h = ground (arith, has_of_get k m v)

module _ (m : Members) (code : Code) where
  -- Every required member is there when the check passes.
  pub require_members-ok :
      (required : List Text)
      → require_members m required code ≡ ok tt
      → All (λ k. has k m ≡ true) required
  unfolding require_members
  require_members-ok required h = all-All (λ k. has k m) required (ground arith)

  pub check_types-ok :
      (types : Types)
      → check_types m types code ≡ ok tt
      → All (λ t. member_has_type m t ≡ true) types
  unfolding check_types
  check_types-ok types h = all-All (member_has_type m) types (ground arith)

-- A present member of a checked object has its declared type.
pub has_type_of_member :
    (m : Members) (k : Text) (allowed : List PyType) (v : Value)
    → member_has_type m (k, allowed) ≡ true
    → get k m ≡ some v
    → has_type v allowed ≡ true
unfolding member_has_type
has_type_of_member m k allowed v h e = rw (e, member_has_type) at h

pub str_of_type : (v : Value) → has_type v (str_type ∷ []) ≡ true → (s : Text) × (v ≡ str s)
unfolding has_type
str_of_type (str s) h = (s, refl)
str_of_type v h = cc

pub dict_of_type : (v : Value) → has_type v (dict_type ∷ []) ≡ true → (d : Members) × (v ≡ obj d)
unfolding has_type
dict_of_type (obj d) h = (d, refl)
dict_of_type v h = cc

module _ (m : Members) (k : Text) where
  -- A required member of a declared type can be read at it.
  pub str_member :
      has k m ≡ true
      → member_has_type m (k, str_type ∷ []) ≡ true
      → (s : Text) × (get k m ≡ some (str s))
  str_member p t =
      let (v, e) = get_of_has k m p in
      let (s, q) = str_of_type v (has_type_of_member m k (str_type ∷ []) v t e) in (s, rw (← q) e)

pub reject_unknown_members-ok :
    (m : Members) (allowed : List Text)
    → reject_unknown_members m allowed ≡ ok tt
    → has_extra m allowed ≡ false
unfolding reject_unknown_members
reject_unknown_members-ok m allowed h = ground arith
