-- ===== src/Dispatch/Arguments.antt =====
-- When a request of aitp_verifier/verify.py is complete, and that the adapter's complaint is apt.
use aitp_verifier_py.Prelude.{
  AnyOf, ℕ, ◌≡◌, ◌↔◌, inl, inr, refl, sym, subst, ◌∙◌, Bool, true, false, none, some, List, [], ◌∷◌,
  any, arith, Bool-cases, All, length, if◌then◌else◌,
}
use aitp_verifier_py.Text.{Text, text_eq}
use aitp_verifier_py.Json.{Members, has}
use aitp_verifier_py.Dispatch.{
  Arguments, required_arguments, look_up_sets, sets_or_empty_set, missing_of, none_missing,
  is_better, best_of, sized, first_name, first_of_best, missing_in, missing_argument,
}

-- A set whose every name the request carries.
abbrev pub IsComplete : Members → Arguments → Type 0
IsComplete params arguments = All (λ a. has a.0 params ≡ true) arguments

IsComplete-of_none :
    (params : Members) (arguments : Arguments)
    → none_missing (missing_of params arguments) ≡ true
    → IsComplete params arguments
unfolding none_missing missing_of
IsComplete-of_none params [] h = tt
IsComplete-of_none params ((name, type) ∷ arguments) h = elim (Bool-cases (has name params)) [
  | inl there ↦ (there, IsComplete-of_none params arguments (rw there at h))
  | inr absent ↦ absurd (let q : false ≡ true = rw absent at h in cc)
]

none_of_complete :
    (params : Members) (arguments : Arguments)
    → IsComplete params arguments
    → none_missing (missing_of params arguments) ≡ true
unfolding none_missing missing_of
none_of_complete params [] c = refl
none_of_complete params ((name, type) ∷ arguments) c =
    rw (c.0) (none_of_complete params arguments c.1)

some-IsComplete :
    (params : Members) (sets : List Arguments)
    → any (λ s. none_missing (missing_of params s)) sets ≡ true
    → AnyOf (IsComplete params) sets
unfolding any
some-IsComplete params [] h = cc
some-IsComplete params (s ∷ sets) h = elim (Bool-cases (none_missing (missing_of params s))) [
  | inl here ↦ inl (IsComplete-of_none params s here)
  | inr other ↦ inr (some-IsComplete params sets (rw other at h))
]

any_complete :
    (params : Members) (sets : List Arguments)
    → AnyOf (IsComplete params) sets
    → any (λ s. none_missing (missing_of params s)) sets ≡ true
unfolding any
any_complete params [] c = elim c [ ]
any_complete params (s ∷ sets) (inl c) = rw (none_of_complete params s c) refl
any_complete params (s ∷ sets) (inr c) = ground (arith, any_complete params sets c)

-- What `min` picks is one of the candidates.
abbrev IsOneOf : List Text → List (List Text × ℕ) → Type 0
IsOneOf names candidates = AnyOf (λ c. c.0 ≡ names) candidates

chosen :
    (names : List Text) (t : Bool) (best next : List Text × ℕ) (rest : List (List Text × ℕ))
    → IsOneOf names ((if t then next else best) ∷ rest)
    → IsOneOf names (best ∷ next ∷ rest)
chosen names true best next rest i = inr i
chosen names false best next rest (inl e) = inl e
chosen names false best next rest (inr i) = inr (inr i)

best_of-IsOneOf :
    (best : List Text × ℕ) (rest : List (List Text × ℕ)) → IsOneOf (best_of best rest) (best ∷ rest)
unfolding best_of
best_of-IsOneOf best [] = inl refl
best_of-IsOneOf best (next ∷ rest) =
    chosen _ (is_better next best) best next rest
      (best_of-IsOneOf (if is_better next best then next else best) rest)

-- No candidate of a request without a complete set is empty, and none has a name that is there.
IsLacking : Members → List Text → Type 0
IsLacking params names = (none_missing names ≡ false) × All (λ a. has a params ≡ false) names

absent_names :
    (params : Members) (arguments : Arguments)
    → All (λ a. has a params ≡ false) (missing_of params arguments)
unfolding missing_of
absent_names params [] = tt
absent_names params ((name, type) ∷ arguments) = elim (Bool-cases (has name params)) [
  | inl there ↦ rw there (absent_names params arguments)
  | inr absent ↦ rw absent (absent, absent_names params arguments)
]

candidates_lack :
    (params : Members) (sets : List Arguments)
    → any (λ s. none_missing (missing_of params s)) sets ≡ false
    → All (λ c. IsLacking params c.0) (sized params sets)
unfolding any sized IsLacking
candidates_lack params [] h = tt
candidates_lack params (s ∷ sets) h =
    ((ground arith, absent_names params s), candidates_lack params sets (ground arith))

picked_lacks :
    (params : Members) (names : List Text) (candidates : List (List Text × ℕ))
    → All (λ c. IsLacking params c.0) candidates
    → IsOneOf names candidates
    → IsLacking params names
picked_lacks params names [] h i = elim i [ ]
picked_lacks params names (c ∷ cs) h (inl e) = subst (IsLacking params) e h.0
picked_lacks params names (c ∷ cs) h (inr i) = picked_lacks params names cs h.1 i

lacking_name :
    (params : Members) (names : List Text)
    → IsLacking params names
    → (a : Text) × (first_name names ≡ some a) × (has a params ≡ false)
unfolding IsLacking none_missing first_name
lacking_name params [] h = cc
lacking_name params (a ∷ names) h = (a, refl, h.1.0)

some-injective : {A : Type 0} {a b : A} → some a ≡ some b → a ≡ b
some-injective h = ground arith

complete_silent :
    (params : Members) (sets : List Arguments)
    → any (λ s. none_missing (missing_of params s)) sets ≡ true
    → missing_in params sets ≡ none
unfolding missing_in
complete_silent params sets h = rw h refl

-- Of sets none of which is complete, the name that is reported is absent from the request.
reported :
    (params : Members) (s : Arguments) (sets : List Arguments)
    → any (λ s. none_missing (missing_of params s)) (s ∷ sets) ≡ false
    → (a : Text) × (missing_in params (s ∷ sets) ≡ some a) × (has a params ≡ false)
unfolding missing_in first_of_best sized
reported params s sets h =
    let best = best_of (missing_of params s, length s) (sized params sets) in
    let (a, e, absent) = lacking_name params best (
      picked_lacks params best (sized params (s ∷ sets)) (candidates_lack params (s ∷ sets) h)
        (best_of-IsOneOf (missing_of params s, length s) (sized params sets))) in
    (a, rw h e, absent)

verdict :
    (params : Members) (s : Arguments) (sets : List Arguments)
    → ((missing_in params (s ∷ sets) ≡ none) ↔ AnyOf (IsComplete params) (s ∷ sets))
      × ((a : Text) → missing_in params (s ∷ sets) ≡ some a → has a params ≡ false)
verdict params s sets =
    elim (Bool-cases (any (λ s. none_missing (missing_of params s)) (s ∷ sets))) [
      | inl complete ↦
          let e = complete_silent params (s ∷ sets) complete in
          (((λ h. some-IsComplete params (s ∷ sets) complete), (λ c. e)), (λ a h. cc))
      | inr lacking ↦
          let (b, e, absent) = reported params s sets lacking in
          (
            ((λ h. cc), (λ c. let q = any_complete params (s ∷ sets) c in cc)),
            (λ a h.
                let same : b ≡ a = some-injective (sym e ∙ h) in
                subst (λ x. has x params ≡ false) same absent),
          )
    ]

abbrev HasSet : List Arguments → Type 0
HasSet sets = (s : Arguments) × (rest : List Arguments) × (sets ≡ s ∷ rest)

a_set : {s : Arguments} {rest : List Arguments} → HasSet (s ∷ rest)
a_set = (_, _, refl)

found_set :
    (operation : Text) (table : List (Text × List Arguments))
    → All (λ e. HasSet e.1) table
    → HasSet (sets_or_empty_set (look_up_sets operation table))
unfolding look_up_sets sets_or_empty_set
found_set operation [] h = ([], [], refl)
found_set operation ((name, sets) ∷ table) h = elim (Bool-cases (text_eq operation name)) [
  | inl same ↦ rw same h.0
  | inr other ↦ rw other (found_set operation table h.1)
]

-- Every operation of the table has an argument set, and one that is not there has the empty set.
first_set :
    (operation : Text) → HasSet (sets_or_empty_set (look_up_sets operation required_arguments))
first_set operation =
    found_set operation required_arguments
      (a_set, (a_set, (a_set, (a_set, (a_set, (a_set, (a_set, (a_set, (a_set, (a_set, tt))))))))))

-- `missing_argument` has nothing to report exactly of a request that carries every name of one of the
-- operation's argument sets; of any other request it reports a name that the request does not carry.
pub missing_argument-IsComplete :
    (operation : Text) (params : Members)
    → ((missing_argument operation params ≡ none)
        ↔ AnyOf (IsComplete params) (sets_or_empty_set (look_up_sets operation required_arguments)))
      × ((a : Text) → missing_argument operation params ≡ some a → has a params ≡ false)
unfolding missing_argument
missing_argument-IsComplete operation params =
    let (s, sets, e) = first_set operation in rw e (verdict params s sets)
