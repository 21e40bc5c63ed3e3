-- ===== src/Base/Lists.antt =====
-- Lists measured by native numbers, Boolean search, and predicates over every entry.
use Prim.Native.Nat.{ℕ, suc}
use mathlib.Core.Path.{◌≡◌, refl, subst}
use mathlib.Core.Bool.{Bool, true, false, ◌&&◌, ◌||◌}
use mathlib.Core.Option.{Option, none, some}
use mathlib.Core.Logic.{◌⊎◌, inl, inr}
use mathlib.Core.Logic.{◌⊎◌, ◌↔◌, inl, inr}
use mathlib.Core.List.{List, [], ◌∷◌, ◌++◌}
use native.Mathlib.Omega.{arith}
use shape_and_flow.Base.Tests.{if◌then◌else◌, Bool-cases}

module _ {ℓ} {A : Type ℓ} where
  abbrev pub length : List A → ℕ
  length [] = 0
  length (x ∷ xs) = suc (length xs)

  -- `Array.prototype.some`.
  abbrev pub any : (A → Bool) → List A → Bool
  any p [] = false
  any p (x ∷ xs) = p x || any p xs

  -- `Array.prototype.filter`.
  abbrev pub filter : (A → Bool) → List A → List A
  filter p [] = []
  filter p (x ∷ xs) = if p x then x ∷ filter p xs else filter p xs

  -- `Array.prototype.find`.
  abbrev pub find : (A → Bool) → List A → Option A
  find p [] = none
  find p (x ∷ xs) = if p x then some x else find p xs

  abbrev pub All {κ} : (A → Type κ) → List A → Type κ
  All P [] = Unit
  All P (x ∷ xs) = P x × All P xs

  pub any-append : (p : A → Bool) (xs ys : List A) → any p (xs ++ ys) ≡ (any p xs || any p ys)
  any-append p [] ys = refl
  any-append p (x ∷ xs) ys = ground (arith, any-append p xs ys)

  pub any-filter : (p q : A → Bool) (xs : List A) → any p (filter q xs) ≡ any (λ x. q x && p x) xs
  any-filter p q [] = refl
  any-filter p q (x ∷ xs) = ground (arith, any-filter p q xs)

  pub any_congr : (p q : A → Bool) (xs : List A) → ((x : A) → p x ≡ q x) → any p xs ≡ any q xs
  any_congr p q [] h = refl
  any_congr p q (x ∷ xs) h = ground (arith, h x, any_congr p q xs h)

  -- The entry that passes the test.
  pub any-witness : (p : A → Bool) (xs : List A) → any p xs ≡ true → (x : A) × (p x ≡ true)
  any-witness p [] h = absurd (cc)
  any-witness p (x ∷ xs) h = elim (Bool-cases (p x)) [
    | inl hit ↦ (x, hit)
    | inr miss ↦ any-witness p xs (ground arith)
  ]

  pub All-append {κ} : (P : A → Type κ) (xs ys : List A) → All P xs → All P ys → All P (xs ++ ys)
  All-append P [] ys hx hy = hy
  All-append P (x ∷ xs) ys hx hy = (hx.0, All-append P xs ys hx.1 hy)

  pub All-imp {κ μ} :
      (P : A → Type κ) (Q : A → Type μ) (xs : List A) → ((x : A) → P x → Q x) → All P xs → All Q xs
  All-imp P Q [] f h = tt
  All-imp P Q (x ∷ xs) f h = (f x h.0, All-imp P Q xs f h.1)

-- The entry stands in the list.
abbrev pub In : {A : Type 0} → A → List A → Type 0
In x [] = ⊥
In x (y ∷ ys) = (x ≡ y) ⊎ In x ys

pub In-append : {A : Type 0} (x : A) (xs ys : List A) → In x (xs ++ ys) ↔ (In x xs ⊎ In x ys)
In-append x [] ys = (λ h. inr h, λ h. ground arith)
In-append x (y ∷ xs) ys =
    (λ h. ground (arith, (In-append x xs ys).0), λ h. ground (arith, (In-append x xs ys).1))

pub In-find : {A : Type 0} (test : A → Bool) (xs : List A) (a : A) → find test xs ≡ some a → In a xs
In-find test [] a h = cc
In-find test (x ∷ xs) a h = elim (Bool-cases (test x)) [
  | inl hit ↦ inl (ground arith)
  | inr miss ↦ inr (In-find test xs a (ground arith))
]

pub find-passes :
    {A : Type 0} (test : A → Bool) (xs : List A) (a : A) → find test xs ≡ some a → test a ≡ true
find-passes test [] a h = absurd (cc)
find-passes test (x ∷ xs) a h = elim (Bool-cases (test x)) [
  | inl hit ↦ let same : x ≡ a = ground arith in subst (λ y. test y ≡ true) same hit
  | inr miss ↦ find-passes test xs a (rw (miss) at h)
]
