-- ===== src/Regex/Language.antt =====
-- The texts that a pattern of aitp_verifier/manifest.py is written to take, without derivatives, and
-- that matching by derivatives finds exactly these.
use aitp_verifier_py.Prelude.{
  ℕ, ◌≡◌, refl, sym, ap, subst, ◌∙◌, ◌⊎◌, ◌↔◌, inl, inr, Bool, true, false, [], ◌∷◌, ◌++◌,
  if◌then◌else◌, &&-true, ||-true, true-||, all, ◌≤◌, zero, suc, length, arith,
}
use aitp_verifier_py.Text.{Text}
use aitp_verifier_py.Regex.{
  Regex, never, empty, class, seq, alt, star, nullable, follow, either, derive, matches, literal,
  at_most,
}

-- A text cut into pieces that all have `P`.
pub data Pieces (P : Text → Type 0) : Text → Type 0 where
  stop : Pieces P []
  again : (s xs ys : Text) → s ≡ xs ++ ys → P xs → Pieces P ys → Pieces P s

-- The language of a pattern.
abbrev pub Takes : Regex → Text → Type 0
Takes never s = ⊥
Takes empty s = s ≡ []
Takes (class p) s = (c : ℕ) × (s ≡ c ∷ []) × (p c ≡ true)
Takes (seq q r) s = (xs ys : Text) × (s ≡ xs ++ ys) × Takes q xs × Takes r ys
Takes (alt q r) s = Takes q s ⊎ Takes r s
Takes (star r) s = Pieces (Takes r) s

-- What `follow` and `either` drop takes nothing.
follow-Takes : (q r : Regex) (s : Text) → Takes (follow q r) s → Takes (seq q r) s
unfolding follow
follow-Takes never r s t = absurd t
follow-Takes empty r s t = ([], s, refl, refl, t)
follow-Takes q r s t = t

Takes-follow : (q r : Regex) (s : Text) → Takes (seq q r) s → Takes (follow q r) s
unfolding follow
Takes-follow never r s (xs, ys, e, t, u) = absurd t
Takes-follow empty r s (xs, ys, e, t, u) = subst (Takes r) (sym (e ∙ ap (λ z. z ++ ys) t)) u
Takes-follow q r s t = t

either-Takes : (q r : Regex) (s : Text) → Takes (either q r) s → Takes (alt q r) s
unfolding either
either-Takes never r s t = inr t
either-Takes q never s t = inl t
either-Takes q r s t = t

Takes-either : (q r : Regex) (s : Text) → Takes (alt q r) s → Takes (either q r) s
unfolding either
Takes-either never r s (inl t) = absurd t
Takes-either never r s (inr t) = t
Takes-either q never s (inl t) = t
Takes-either q never s (inr t) = absurd t
Takes-either q r s t = t

-- A choice that is there only under a test.
offered-Takes :
    (b : Bool) (q r : Regex) (s : Text)
    → Takes (if b then either q r else q) s
    → Takes q s ⊎ ((b ≡ true) × Takes r s)
offered-Takes true q r s t = elim (either-Takes q r s t) [ inl u ↦ inl u | inr u ↦ inr (refl, u) ]
offered-Takes false q r s t = inl t

Takes-offered :
    (b : Bool) (q r : Regex) (s : Text)
    → Takes q s ⊎ ((b ≡ true) × Takes r s)
    → Takes (if b then either q r else q) s
Takes-offered true q r s (inl t) = Takes-either q r s (inl t)
Takes-offered true q r s (inr (e, t)) = Takes-either q r s (inr t)
Takes-offered false q r s (inl t) = t
Takes-offered false q r s (inr (e, t)) = cc

taken :
    (b : Bool) (q : Regex) (s : Text) → Takes (if b then q else never) s → (b ≡ true) × Takes q s
taken true q s t = (refl, t)
taken false q s t = absurd t

nullable-Takes : (r : Regex) → nullable r ≡ true → Takes r []
unfolding nullable
nullable-Takes never h = cc
nullable-Takes empty h = refl
nullable-Takes (class p) h = cc
nullable-Takes (seq q r) h =
    let (a, b) = &&-true (nullable q) (nullable r) h in
    ([], [], refl, nullable-Takes q a, nullable-Takes r b)
nullable-Takes (alt q r) h = elim (||-true (nullable q) (nullable r) h) [
  | inl a ↦ inl (nullable-Takes q a)
  | inr b ↦ inr (nullable-Takes r b)
]
nullable-Takes (star r) h = stop

derive-Takes : (c : ℕ) (r : Regex) (s : Text) → Takes (derive c r) s → Takes r (c ∷ s)
unfolding derive
derive-Takes c never s t = absurd t
derive-Takes c empty s t = absurd t
derive-Takes c (class p) s t = let (h, e) = taken (p c) empty s t in (c, ap (λ z. c ∷ z) e, h)
derive-Takes c (seq q r) s t =
    elim (offered-Takes (nullable q) (follow (derive c q) r) (derive c r) s t) [
      | inl u ↦
          let (xs, ys, e, v, w) = follow-Takes (derive c q) r s u in
          (c ∷ xs, ys, ap (λ z. c ∷ z) e, derive-Takes c q xs v, w)
      | inr (h, u) ↦ ([], c ∷ s, refl, nullable-Takes q h, derive-Takes c r s u)
    ]
derive-Takes c (alt q r) s t = elim (either-Takes (derive c q) (derive c r) s t) [
  | inl u ↦ inl (derive-Takes c q s u)
  | inr u ↦ inr (derive-Takes c r s u)
]
derive-Takes c (star r) s t =
    let (xs, ys, e, v, w) = follow-Takes (derive c r) (star r) s t in
    again (c ∷ s) (c ∷ xs) ys (ap (λ z. c ∷ z) e) (derive-Takes c r xs v) w

matches-Takes : (r : Regex) (s : Text) → matches r s ≡ true → Takes r s
unfolding matches
matches-Takes r [] h = nullable-Takes r h
matches-Takes r (c ∷ cs) h = derive-Takes c r cs (matches-Takes (derive c r) cs h)

Takes-nullable : (r : Regex) → Takes r [] → nullable r ≡ true
unfolding nullable
Takes-nullable never t = absurd t
Takes-nullable empty t = refl
Takes-nullable (class p) (c, e, h) = cc
Takes-nullable (seq q r) ([], ys, e, t, u) =
    rw (Takes-nullable q t, Takes-nullable r (subst (Takes r) (sym e) u)) refl
Takes-nullable (seq q r) (x ∷ xs, ys, e, t, u) = cc
Takes-nullable (alt q r) (inl t) = true-|| (nullable q) (nullable r) (inl (Takes-nullable q t))
Takes-nullable (alt q r) (inr t) = true-|| (nullable q) (nullable r) (inr (Takes-nullable r t))
Takes-nullable (star r) t = refl

-- The first piece that is not empty.
first_piece :
    (P : Text → Type 0) (c : ℕ) (s w : Text)
    → Pieces P w
    → w ≡ c ∷ s
    → (xs ys : Text) × (s ≡ xs ++ ys) × P (c ∷ xs) × Pieces P ys
first_piece P c s w stop e = cc
first_piece P c s w (again v [] ys d t ps) e = first_piece P c s ys ps (sym d ∙ e)
first_piece P c s w (again v (x ∷ xs) ys d t ps) e =
    let head : x ≡ c = cc in (xs, ys, cc, subst (λ z. P (z ∷ xs)) head t, ps)

Takes-derive : (c : ℕ) (r : Regex) (s : Text) → Takes r (c ∷ s) → Takes (derive c r) s
unfolding derive
Takes-derive c never s t = absurd t
Takes-derive c empty s e = cc
Takes-derive c (class p) s (d, e, h) =
    let test : p c ≡ true = cc in
    let rest : s ≡ [] = cc in subst (λ b. Takes (if b then empty else never) s) (sym test) rest
Takes-derive c (seq q r) s ([], ys, e, t, u) =
    Takes-offered (nullable q) (follow (derive c q) r) (derive c r) s
      (inr (Takes-nullable q t, Takes-derive c r s (subst (Takes r) (sym e) u)))
Takes-derive c (seq q r) s (x ∷ xs, ys, e, t, u) =
    let head : x ≡ c = cc in
    let rest : s ≡ xs ++ ys = cc in
    Takes-offered (nullable q) (follow (derive c q) r) (derive c r) s (
      inl (
        Takes-follow (derive c q) r s
          (xs, ys, rest, Takes-derive c q xs (subst (λ z. Takes q (z ∷ xs)) head t), u)))
Takes-derive c (alt q r) s (inl t) =
    Takes-either (derive c q) (derive c r) s (inl (Takes-derive c q s t))
Takes-derive c (alt q r) s (inr t) =
    Takes-either (derive c q) (derive c r) s (inr (Takes-derive c r s t))
Takes-derive c (star r) s t =
    let (xs, ys, e, u, ps) = first_piece (Takes r) c s (c ∷ s) t refl in
    Takes-follow (derive c r) (star r) s (xs, ys, e, Takes-derive c r xs u, ps)

Takes-matches : (r : Regex) (s : Text) → Takes r s → matches r s ≡ true
unfolding matches
Takes-matches r [] t = Takes-nullable r t
Takes-matches r (c ∷ cs) t = Takes-matches (derive c r) cs (Takes-derive c r cs t)

-- A pattern matches exactly the texts of its language.
pub matches_iff : (r : Regex) (s : Text) → (matches r s ≡ true) ↔ Takes r s
matches_iff r s = (matches-Takes r s, Takes-matches r s)

-- A class, repeated.
pub Pieces-all : (p : ℕ → Bool) (s : Text) → Takes (star (class p)) s → all p s ≡ true
unfolding all
Pieces-all p s stop = refl
Pieces-all p s (again v xs ys e (c, f, h) ps) =
    let split : s ≡ c ∷ ys = cc in
    subst (λ z. all p z ≡ true) (sym split) (rw (h, Pieces-all p ys ps) refl)

pub all-Pieces : (p : ℕ → Bool) (s : Text) → all p s ≡ true → Takes (star (class p)) s
unfolding all
all-Pieces p [] h = stop
all-Pieces p (c ∷ s) h =
    let (a, b) = &&-true (p c) (all p s) h in
    again (c ∷ s) (c ∷ []) s refl (c, refl, a) (all-Pieces p s b)

-- A literal text, and a class repeated at most `n` times.
pub literal-Takes : (t s : Text) → Takes (literal t) s → s ≡ t
literal-Takes [] s e = e
literal-Takes (c ∷ cs) s (xs, ys, e, (d, f, h), u) =
    let same : d ≡ c = ground arith in let rest = literal-Takes cs ys u in cc

pub Takes-literal : (t : Text) → Takes (literal t) t
Takes-literal [] = refl
Takes-literal (c ∷ cs) = (c ∷ [], cs, refl, (c, refl, ground arith), Takes-literal cs)

pub at_most-Takes :
    (n : ℕ) (p : ℕ → Bool) (s : Text)
    → Takes (at_most n (class p)) s
    → (length s ≤ n) × (all p s ≡ true)
unfolding all
at_most-Takes zero p s e = rw e (omega arith, refl)
at_most-Takes (suc n) p s (inl e) = rw e (omega arith, refl)
at_most-Takes (suc n) p s (inr (xs, ys, e, (c, f, h), u)) =
    let split : s ≡ c ∷ ys = cc in
    let (l, a) = at_most-Takes n p ys u in rw split (omega arith, rw (h, a) refl)

pub Takes-at_most :
    (n : ℕ) (p : ℕ → Bool) (s : Text)
    → length s ≤ n
    → all p s ≡ true
    → Takes (at_most n (class p)) s
unfolding all
Takes-at_most zero p [] l a = refl
Takes-at_most zero p (c ∷ s) l a = absurd (omega arith)
Takes-at_most (suc n) p [] l a = inl refl
Takes-at_most (suc n) p (c ∷ s) l a =
    let (h, b) = &&-true (p c) (all p s) a in
    inr (c ∷ [], s, refl, (c, refl, h), Takes-at_most n p s (omega arith) b)

pub Pieces-map :
    {P Q : Text → Type 0} (s : Text) → ((t : Text) → P t → Q t) → Pieces P s → Pieces Q s
Pieces-map s f stop = stop
Pieces-map s f (again v xs ys e t ps) = again s xs ys e (f xs t) (Pieces-map ys f ps)
