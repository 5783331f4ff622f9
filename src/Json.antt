-- ===== src/Json.antt =====
-- The JSON values that the verifiers read, as `jcs.loads` and a Python caller hand them over, with the
-- operations of Python's `dict` and `list` that the code uses on them.
pub mod Decode
pub mod Access
use mathlib.Core.Logic.{ite}
use aitp_verifier_py.Prelude.{
  ℕ, zero, suc, ◌+◌, ◌*◌, ◌/◌, ◌%◌, ◌^◌, Bool, true, false, not, ◌&&◌, ◌||◌, Option, none, some,
  List, [], ◌∷◌, ◌++◌, ◌==◌, if◌then◌else◌,
}
use aitp_verifier_py.Prelude.Int.{ℤ, pos, negsuc}
use aitp_verifier_py.Text.{Text, text_eq, mem_text}
use aitp_verifier_py.Outcome.{
  Result, ok, err, raised, Exc, value_error, overflow_error, type_error, key_error, attribute_error,
}

-- A double. Every finite one is an integer over a power of two; both zeros are `dyadic (pos 0) 0`,
-- since nothing in the program tells them apart.
pub data Float : Type 0 where
  dyadic : ℤ → ℕ → Float
  infinity : Bool → Float
  nan : Float

-- `Members` is a `dict` in its own order. A `dict` that `loads` or Python made has each name once.
mutual
  pub data Value : Type 0 where
    null : Value
    bool : Bool → Value
    int : ℤ → Value
    float : Float → Value
    str : Text → Value
    list : Items → Value
    obj : Members → Value

  pub data Items : Type 0 where
    nil : Items
    item : Value → Items → Items

  pub data Members : Type 0 where
    end : Members
    member : Text → Value → Members → Members

-- `d.get(key)`.
unfoldable pub get : Text → Members → Option Value
get k end = none
get k (member j v m) = if text_eq k j then some v else get k m

-- `key in d`.
unfoldable pub has : Text → Members → Bool
has k end = false
has k (member j v m) = text_eq k j || has k m

-- `d[key]`.
unfoldable pub at : Text → Members → Result Value
unfolding get
at k m = elim (get k m) [ none ↦ raised key_error | some v ↦ ok v ]

-- `d.get(key)` where an absent member reads as `None`.
unfoldable pub get_or_null : Text → Members → Value
unfolding get
get_or_null k m = elim (get k m) [ none ↦ null | some v ↦ v ]

-- `{k: v for k, v in d.items() if k != name}`.
unfoldable pub without : Text → Members → Members
without k end = end
without k (member j v m) = let rest = without k m in if text_eq j k then rest else member j v rest

unfoldable pub names : Members → List Text
names end = []
names (member j v m) = j ∷ names m

unfoldable pub items : Items → List Value
items nil = []
items (item v vs) = v ∷ items vs

unfoldable pub of_list : List Value → Items
of_list [] = nil
of_list (v ∷ vs) = item v (of_list vs)

unfoldable pub of_members : List (Text × Value) → Members
of_members [] = end
of_members ((k, v) ∷ m) = member k v (of_members m)

-- `value.is_integer()`.
abbrev pub magnitude : ℤ → ℕ
magnitude (pos n) = n
magnitude (negsuc n) = suc n

unfoldable pub is_integer : Float → Bool
is_integer (dyadic m k) = magnitude m % 2 ^ k == 0
is_integer (infinity s) = false
is_integer nan = false

-- `int(value)` of a float cuts towards zero.
abbrev pub negate : ℕ → ℤ
negate zero = pos 0
negate (suc n) = negsuc n

unfoldable pub int_of_float : Float → Result ℤ
int_of_float (dyadic (pos n) k) = ok (pos (n / 2 ^ k))
int_of_float (dyadic (negsuc n) k) = ok (negate (suc n / 2 ^ k))
int_of_float (infinity s) = raised overflow_error
int_of_float nan = raised value_error

-- The types that the schema tables name, and `isinstance(value, type)`. A `bool` is an `int`.
pub data PyType : Type 0 where
  str_type int_type bool_type list_type dict_type : PyType

unfoldable pub is_instance : Value → PyType → Bool
is_instance null t = false
is_instance (bool b) int_type = true
is_instance (bool b) bool_type = true
is_instance (bool b) _ = false
is_instance (int n) int_type = true
is_instance (int n) _ = false
is_instance (float f) t = false
is_instance (str s) str_type = true
is_instance (str s) _ = false
is_instance (list l) list_type = true
is_instance (list l) _ = false
is_instance (obj m) dict_type = true
is_instance (obj m) _ = false

-- Truth of a value in a Python test.
unfoldable pub truthy : Value → Bool
truthy null = false
truthy (bool b) = b
truthy (int n) = not (magnitude n == 0)
truthy (float (dyadic m k)) = not (magnitude m == 0)
truthy (float f) = true
truthy (str []) = false
truthy (str (c ∷ s)) = true
truthy (list nil) = false
truthy (list (item v l)) = true
truthy (obj end) = false
truthy (obj (member k v m)) = true

-- `isinstance(value, str) and value == s`, which is Python's `value == s` for a string `s`.
unfoldable pub is_text : Text → Value → Bool
unfolding text_eq
is_text s (str t) = text_eq t s
is_text s null = false
is_text s (bool b) = false
is_text s (int n) = false
is_text s (float f) = false
is_text s (list l) = false
is_text s (obj m) = false

-- `all(isinstance(g, str) for g in l)`, with the strings when it holds.
unfoldable pub all_texts : List Value → Option (List Text)
all_texts [] = some []
all_texts (str s ∷ vs) = elim (all_texts vs) [ none ↦ none | some ss ↦ some (s ∷ ss) ]
all_texts (v ∷ vs) = none
