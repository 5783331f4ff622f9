-- ===== src/SessionBundle/Least.antt =====
-- `min` in aitp_verifier/sessionbundle.py: a lower bound of what it was given, and one of them.
use aitp_verifier_py.Prelude.{
  ◌≡◌, refl, Bool, true, false, ◌||◌, List, [], ◌∷◌, All, any, arith, if◌then◌else◌,
}
use aitp_verifier_py.Prelude.Int.{ℤ, leb_ℤ, eqb_ℤ, ◌≤ℤ◌, leb_ℤ-true, leb_ℤ-false, ≤ℤ_trans}
use aitp_verifier_py.SessionBundle.Participants.{least_of}

smaller :
    (t : Bool) (m n : ℤ) → leb_ℤ m n ≡ t → ((if t then m else n) ≤ℤ m) × ((if t then m else n) ≤ℤ n)
smaller true m n h = (omega arith, leb_ℤ-true m n h)
smaller false m n h = (omega (arith, leb_ℤ-false m n h), omega arith)

pub least_of-bound : (m : ℤ) (ns : List ℤ) → (least_of m ns ≤ℤ m) × All (λ n. least_of m ns ≤ℤ n) ns
unfolding least_of
least_of-bound m [] = (omega arith, tt)
least_of-bound m (n ∷ ns) =
    let (p, q) = least_of-bound (if leb_ℤ m n then m else n) ns in
    let (a, b) = smaller (leb_ℤ m n) m n refl in (≤ℤ_trans _ _ m p a, (≤ℤ_trans _ _ n p b, q))

or_middle : (a b c : Bool) → (a || c) ≡ true → (a || (b || c)) ≡ true
or_middle true b c h = refl
or_middle false true c h = refl
or_middle false false c h = h

or_last : (a b : Bool) → b ≡ true → (a || b) ≡ true
or_last true b h = refl
or_last false b h = h

pick_any :
    (e m n : ℤ) (t : Bool) (rest : Bool)
    → (eqb_ℤ e (if t then m else n) || rest) ≡ true
    → (eqb_ℤ e m || (eqb_ℤ e n || rest)) ≡ true
pick_any e m n true rest h = or_middle (eqb_ℤ e m) (eqb_ℤ e n) rest h
pick_any e m n false rest h = or_last (eqb_ℤ e m) (eqb_ℤ e n || rest) h

pub least_of-attained :
    (e m : ℤ) (ns : List ℤ) → eqb_ℤ e (least_of m ns) ≡ true → any (λ n. eqb_ℤ e n) (m ∷ ns) ≡ true
unfolding least_of any
least_of-attained e m [] h = rw h refl
least_of-attained e m (n ∷ ns) h =
    pick_any e m n (leb_ℤ m n) _ (least_of-attained e (if leb_ℤ m n then m else n) ns h)

eqb_ℤ-≤ℤ : (a b : ℤ) → eqb_ℤ a b ≡ true → a ≤ℤ b
eqb_ℤ-≤ℤ a b h = ground arith

below-All : (a b : ℤ) (ns : List ℤ) → a ≤ℤ b → All (λ n. b ≤ℤ n) ns → All (λ n. a ≤ℤ n) ns
below-All a b [] h k = tt
below-All a b (n ∷ ns) h k = (≤ℤ_trans a b n h k.0, below-All a b ns h k.1)

-- A number that equals the minimum is a lower bound, and one of the numbers.
pub least-bounds :
    (e m : ℤ) (ns : List ℤ)
    → eqb_ℤ e (least_of m ns) ≡ true
    → All (λ n. e ≤ℤ n) (m ∷ ns) × (any (λ n. eqb_ℤ e n) (m ∷ ns) ≡ true)
least-bounds e m ns h = (
  below-All e (least_of m ns) (m ∷ ns) (eqb_ℤ-≤ℤ e (least_of m ns) h) (least_of-bound m ns),
  least_of-attained e m ns h,
)
