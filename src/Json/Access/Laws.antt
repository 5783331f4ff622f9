-- ===== src/Json/Access/Laws.antt =====
-- What a successful read says of the object, and that a checked member can be read.
use aitp_verifier_py.Prelude.{◌≡◌, refl, ap, ◌∙◌, true, Option, none, some, List, [], ◌∷◌, arith}
use aitp_verifier_py.Prelude.Int.{ℤ, pos, negsuc}
use aitp_verifier_py.Text.{Text}
use aitp_verifier_py.Json.{
  Value, null, bool, int, float, str, list, obj, Members, get, has, at, items, int_of_float,
  is_integer, str_type, int_type, list_type, dict_type, Float, dyadic, infinity, nan,
}
use aitp_verifier_py.Json.Access.{
  iterate, list_at, as_text, text_at, as_members, members_at, to_int, int_at,
}
use aitp_verifier_py.Outcome.{Result, ok, raised, key_error, >>=-eq-ok}
use aitp_verifier_py.Platform.{Platform}
use aitp_verifier_py.Fields.{has_type, member_has_type}
use aitp_verifier_py.Fields.Laws.{get_of_has, has_type_of_member, str_of_type, dict_of_type}

at_option :
    (o : Option Value) {v : Value}
    → (elim o as (λ _. Result Value) [ none ↦ raised key_error | some w ↦ ok w ]) ≡ ok v
    → o ≡ some v
at_option none h = cc
at_option (some w) h = cc

pub at-eq-ok : (k : Text) (m : Members) (v : Value) → at k m ≡ ok v → get k m ≡ some v
unfolding at
at-eq-ok k m v h = at_option (get k m) h

pub at-eq_of_get : (k : Text) (m : Members) (v : Value) → get k m ≡ some v → at k m ≡ ok v
unfolding at
at-eq_of_get k m v h = rw (h, at)

as_text-eq-ok : (v : Value) (s : Text) → as_text v ≡ ok s → v ≡ str s
unfolding as_text
as_text-eq-ok (str t) s h = ground arith
as_text-eq-ok v s h = cc

pub text_at-eq-ok :
    (k : Text) (m : Members) (s : Text) → text_at k m ≡ ok s → get k m ≡ some (str s)
unfolding text_at
text_at-eq-ok k m s h =
    let (v, p, q) = >>=-eq-ok (at k m) _ h in at-eq-ok k m v p ∙ ap some (as_text-eq-ok v s q)

as_members-eq-ok : (v : Value) (d : Members) → as_members v ≡ ok d → v ≡ obj d
unfolding as_members
as_members-eq-ok (obj e) d h = ground arith
as_members-eq-ok v d h = cc

pub members_at-eq-ok : (k : Text) (m d : Members) → members_at k m ≡ ok d → get k m ≡ some (obj d)
unfolding members_at
members_at-eq-ok k m d h =
    let (v, p, q) = >>=-eq-ok (at k m) _ h in at-eq-ok k m v p ∙ ap some (as_members-eq-ok v d q)

-- Members that a shape check has passed can be read.
module _ (k : Text) (m : Members) (present : has k m ≡ true) where
  pub at_present : (v : Value) × (at k m ≡ ok v)
  at_present = let (v, e) = get_of_has k m present in (v, at-eq_of_get k m v e)

  pub text_at_checked :
      member_has_type m (k, str_type ∷ []) ≡ true → (s : Text) × (text_at k m ≡ ok s)
  unfolding text_at as_text
  text_at_checked t =
      let (v, e) = get_of_has k m present in
      let (s, q) = str_of_type v (has_type_of_member m k (str_type ∷ []) v t e) in
      (s, rw (at-eq_of_get k m v e, q))

  pub members_at_checked :
      member_has_type m (k, dict_type ∷ []) ≡ true → (d : Members) × (members_at k m ≡ ok d)
  unfolding members_at as_members
  members_at_checked t =
      let (v, e) = get_of_has k m present in
      let (d, q) = dict_of_type v (has_type_of_member m k (dict_type ∷ []) v t e) in
      (d, rw (at-eq_of_get k m v e, q))

  list_of_type :
      (v : Value) → has_type v (list_type ∷ []) ≡ true → (l : List Value) × (iterate v ≡ ok l)
  unfolding has_type iterate
  list_of_type (list l) h = (items l, refl)
  list_of_type v h = cc

  pub list_at_checked :
      member_has_type m (k, list_type ∷ []) ≡ true → (l : List Value) × (list_at k m ≡ ok l)
  unfolding list_at
  list_at_checked t =
      let (v, e) = get_of_has k m present in
      let (l, q) = list_of_type v (has_type_of_member m k (list_type ∷ []) v t e) in
      (l, rw (at-eq_of_get k m v e, q))

  int_of_whole : (f : Float) → is_integer f ≡ true → (n : ℤ) × (int_of_float f ≡ ok n)
  unfolding is_integer int_of_float
  int_of_whole (dyadic (pos n) e) h = (_, refl)
  int_of_whole (dyadic (negsuc n) e) h = (_, refl)
  int_of_whole (infinity s) h = cc
  int_of_whole nan h = cc

  module _ ⦃π : Platform⦄ where
    int_of_type : (v : Value) → has_type v (int_type ∷ []) ≡ true → (n : ℤ) × (to_int v ≡ ok n)
    unfolding has_type to_int
    int_of_type (int n) h = (n, refl)
    int_of_type (float f) h = int_of_whole f (ground arith)
    int_of_type null h = cc
    int_of_type (bool b) h = cc
    int_of_type (str s) h = cc
    int_of_type (list l) h = cc
    int_of_type (obj d) h = cc

    pub int_at_checked : member_has_type m (k, int_type ∷ []) ≡ true → (n : ℤ) × (int_at k m ≡ ok n)
    unfolding int_at
    int_at_checked t =
        let (v, e) = get_of_has k m present in
        let (n, q) = int_of_type v (has_type_of_member m k (int_type ∷ []) v t e) in
        (n, rw (at-eq_of_get k m v e, q))
