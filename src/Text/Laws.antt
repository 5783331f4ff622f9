-- ===== src/Text/Laws.antt =====
-- What the operations on texts compute.
use aitp_verifier_py.Prelude.{◌≡◌, refl, true, ◌↔◌, some, List, [], ◌∷◌, ◌++◌, arith, ==_iff}
use aitp_verifier_py.Text.{Text, text_eq, mem_text, subset, strip_prefix}

pub text_eq→eq : (s t : Text) → text_eq s t ≡ true → s ≡ t
unfolding text_eq
text_eq→eq [] [] h = refl
text_eq→eq [] (y ∷ ys) h = cc
text_eq→eq (x ∷ xs) [] h = cc
text_eq→eq (x ∷ xs) (y ∷ ys) h = ground (arith, text_eq→eq xs ys)

pub text_eq_refl : (s : Text) → text_eq s s ≡ true
unfolding text_eq
text_eq_refl [] = refl
text_eq_refl (x ∷ xs) = ground (arith, text_eq_refl xs)

pub text_eq_iff : (s t : Text) → (text_eq s t ≡ true) ↔ (s ≡ t)
text_eq_iff s t = (text_eq→eq s t, λ e. rw e (text_eq_refl t))

-- Membership in a subset carries over.
pub mem_text_of_subset :
    (s : Text) (xs ys : List Text)
    → subset xs ys ≡ true
    → mem_text s xs ≡ true
    → mem_text s ys ≡ true
unfolding subset mem_text
mem_text_of_subset s [] ys sub m = cc
mem_text_of_subset s (x ∷ xs) ys sub m = ground (arith, text_eq_iff s x, mem_text_of_subset s xs ys)

pub subset_trans :
    (xs ys zs : List Text) → subset xs ys ≡ true → subset ys zs ≡ true → subset xs zs ≡ true
unfolding subset
subset_trans [] ys zs p q = refl
subset_trans (x ∷ xs) ys zs p q = ground (arith, subset_trans xs ys zs, mem_text_of_subset x ys zs)

pub strip_prefix-eq-some : (p s r : Text) → strip_prefix p s ≡ some r → s ≡ p ++ r
unfolding strip_prefix
strip_prefix-eq-some [] s r h = ground arith
strip_prefix-eq-some (p ∷ ps) [] r h = cc
strip_prefix-eq-some (p ∷ ps) (c ∷ cs) r h =
    ground (arith, ==_iff p c, strip_prefix-eq-some ps cs r)
