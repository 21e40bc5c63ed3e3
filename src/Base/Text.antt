-- ===== src/Base/Text.antt =====
-- Strings as lists of UTF-16 code units, which is what `===`, `<` and the default `sort` compare.
use shape_and_flow.Base.Tests.{if◌then◌else◌}
use Prim.Native.Nat.{ℕ, compare, Ordering}
use mathlib.Core.Path.{◌≡◌, refl}
use mathlib.Core.Logic.{◌↔◌}
use mathlib.Core.Bool.{Bool, true, false}
use mathlib.Core.List.{List, [], ◌∷◌}
use native.Mathlib.Omega.{arith}

abbrev pub Text : Type 0
Text = List ℕ

-- Lexicographic; a proper prefix comes first.
unfoldable pub text_compare : Text → Text → Ordering
text_compare [] [] = Ordering.eq
text_compare [] (y ∷ ys) = Ordering.lt
text_compare (x ∷ xs) [] = Ordering.gt
text_compare (x ∷ xs) (y ∷ ys) = elim (compare x y) [
  | Ordering.lt ↦ Ordering.lt
  | Ordering.eq ↦ text_compare xs ys
  | Ordering.gt ↦ Ordering.gt
]

-- `a < b`.
unfoldable pub text_ltb : Text → Text → Bool
unfolding text_compare
text_ltb a b = elim (text_compare a b) [ Ordering.lt ↦ true | _ ↦ false ]

-- `a <= b`.
unfoldable pub text_leb : Text → Text → Bool
unfolding text_compare
text_leb a b = elim (text_compare a b) [ Ordering.gt ↦ false | _ ↦ true ]

-- `a === b`.
unfoldable pub text_eqb : Text → Text → Bool
unfolding text_compare
text_eqb a b = elim (text_compare a b) [ Ordering.eq ↦ true | _ ↦ false ]

text_compare_refl : (a : Text) → text_compare a a ≡ Ordering.eq
unfolding text_compare
text_compare_refl [] = refl
text_compare_refl (x ∷ xs) = ground (arith, text_compare_refl xs)

text_compare_eq : (a b : Text) → text_compare a b ≡ Ordering.eq → a ≡ b
unfolding text_compare
text_compare_eq [] [] h = refl
text_compare_eq [] (y ∷ ys) h = cc
text_compare_eq (x ∷ xs) [] h = cc
text_compare_eq (x ∷ xs) (y ∷ ys) h = ground (arith, text_compare_eq xs ys)

text_compare_gt : (a b : Text) → text_compare a b ≡ Ordering.gt → text_compare b a ≡ Ordering.lt
unfolding text_compare
text_compare_gt [] [] h = cc
text_compare_gt [] (y ∷ ys) h = cc
text_compare_gt (x ∷ xs) [] h = refl
text_compare_gt (x ∷ xs) (y ∷ ys) h = ground (arith, text_compare_gt xs ys)

text_compare_lt : (a b : Text) → text_compare a b ≡ Ordering.lt → text_compare b a ≡ Ordering.gt
unfolding text_compare
text_compare_lt [] [] h = cc
text_compare_lt [] (y ∷ ys) h = refl
text_compare_lt (x ∷ xs) [] h = cc
text_compare_lt (x ∷ xs) (y ∷ ys) h = ground (arith, text_compare_lt xs ys)

text_compare_trans :
    (a b c : Text)
    → text_compare a b ≡ Ordering.lt
    → text_compare b c ≡ Ordering.lt
    → text_compare a c ≡ Ordering.lt
unfolding text_compare
text_compare_trans [] [] c h k = cc
text_compare_trans [] (y ∷ ys) [] h k = cc
text_compare_trans [] (y ∷ ys) (z ∷ zs) h k = refl
text_compare_trans (x ∷ xs) [] c h k = cc
text_compare_trans (x ∷ xs) (y ∷ ys) [] h k = cc
text_compare_trans (x ∷ xs) (y ∷ ys) (z ∷ zs) h k = ground (arith, text_compare_trans xs ys zs)

pub text_eqb_iff : (a b : Text) → (text_eqb a b ≡ true) ↔ (a ≡ b)
unfolding text_eqb
text_eqb_iff a b =
    (λ h. text_compare_eq a b (ground arith), λ e. rw e (rw (text_compare_refl b, text_eqb)))

pub text_eqb_refl : (a : Text) → text_eqb a a ≡ true
text_eqb_refl a = (text_eqb_iff a a).1 refl

pub text_ltb_irrefl : (a : Text) → text_ltb a a ≡ false
unfolding text_ltb
text_ltb_irrefl a = ground (arith, text_compare_refl a)

pub text_ltb_asym : (a b : Text) → text_ltb a b ≡ true → text_ltb b a ≡ false
unfolding text_ltb
text_ltb_asym a b h = ground (arith, text_compare_lt a b)

pub text_ltb_trans :
    (a b c : Text) → text_ltb a b ≡ true → text_ltb b c ≡ true → text_ltb a c ≡ true
unfolding text_ltb
text_ltb_trans a b c h k = ground (arith, text_compare_trans a b c)

-- Two texts that neither comes before the other are one text.
pub text_ltb_connex : (a b : Text) → text_ltb a b ≡ false → text_ltb b a ≡ false → a ≡ b
unfolding text_ltb
text_ltb_connex a b h k = ground (arith, text_compare_gt a b, text_compare_eq a b)

pub text_leb-not-ltb : (a b : Text) → text_leb a b ≡ (if text_ltb b a then false else true)
unfolding text_leb text_ltb
text_leb-not-ltb a b = ground (arith, text_compare_gt a b, text_compare_lt b a)
