-- ===== src/Base/Sort.antt =====
-- `Array.prototype.sort` with a comparison: a stable sort, as the language prescribes.
use shape_and_flow.Base.Tests.{if◌then◌else◌, Bool-cases}
use shape_and_flow.Base.Lists.{In, All, any, length}
use Prim.Native.Nat.{suc}
use mathlib.Core.Path.{◌≡◌, refl, ap₂, ◌∙◌}
use mathlib.Core.Logic.{∥∥₁_elim, inl, inr}
use mathlib.Core.Bool.{Bool, true, false, ◌||◌}
use mathlib.Core.List.{List, [], ◌∷◌, Perm, Permᴰ}
use native.Mathlib.Omega.{arith}

-- `leq x y` says that the comparison of `x` with `y` is at most 0.
module _ {ℓ} {A : Type ℓ} (leq : A → A → Bool) where
  unfoldable pub insert : A → List A → List A
  insert x [] = x ∷ []
  insert x (y ∷ ys) = if leq x y then x ∷ y ∷ ys else y ∷ insert x ys

  -- An entry goes before those behind it that are equal to it, which keeps their order.
  unfoldable pub sort : List A → List A
  unfolding insert
  sort [] = []
  sort (x ∷ xs) = insert x (sort xs)

  abbrev pub AtLeast : A → List A → Type 0
  AtLeast x ys = All (λ y. leq x y ≡ true) ys

  abbrev pub IsSorted : List A → Type 0
  IsSorted [] = Unit
  IsSorted (x ∷ xs) = AtLeast x xs × IsSorted xs

  any-insert : (p : A → Bool) (x : A) (ys : List A) → any p (insert x ys) ≡ (p x || any p ys)
  unfolding insert
  any-insert p x [] = refl
  any-insert p x (y ∷ ys) = ground (arith, any-insert p x ys)

  pub any-sort : (p : A → Bool) (xs : List A) → any p (sort xs) ≡ any p xs
  unfolding sort
  any-sort p [] = refl
  any-sort p (x ∷ xs) = ground (arith, any-insert p x (sort xs), any-sort p xs)

  pub All-insert {κ} : (P : A → Type κ) (x : A) (ys : List A) → P x → All P ys → All P (insert x ys)
  unfolding insert
  All-insert P x [] hx h = (hx, tt)
  All-insert P x (y ∷ ys) hx h = elim (Bool-cases (leq x y)) [
    | inl e ↦ rw e (hx, h)
    | inr e ↦ rw e (h.0, All-insert P x ys hx h.1)
  ]

  pub All-sort {κ} : (P : A → Type κ) (xs : List A) → All P xs → All P (sort xs)
  unfolding sort
  All-sort P [] h = tt
  All-sort P (x ∷ xs) h = All-insert P x (sort xs) h.0 (All-sort P xs h.1)

  length-insert : (x : A) (ys : List A) → length (insert x ys) ≡ suc (length ys)
  unfolding insert
  length-insert x [] = refl
  length-insert x (y ∷ ys) = ground (arith, length-insert x ys)

  pub length-sort : (xs : List A) → length (sort xs) ≡ length xs
  unfolding sort
  length-sort [] = refl
  length-sort (x ∷ xs) = omega (arith, length-insert x (sort xs), length-sort xs)

module _ {A : Type 0} (leq : A → A → Bool) where
  In-insert : (x : A) (ys : List A) (a : A) → In a (insert leq x ys) → In a (x ∷ ys)
  unfolding insert
  In-insert x [] a h = h
  In-insert x (y ∷ ys) a h = elim (Bool-cases (leq x y)) [
    | inl e ↦ rw (e, insert) at h
    | inr e ↦
        let k : In a (y ∷ insert leq x ys) = rw (e, insert) at h in
        elim k [
          | inl f ↦ inr (inl f)
          | inr i ↦ elim (In-insert x ys a i) [ inl f ↦ inl f | inr r ↦ inr (inr r) ]
        ]
  ]

  pub In-sort : (xs : List A) (a : A) → In a (sort leq xs) → In a xs
  unfolding sort
  In-sort [] a h = h
  In-sort (x ∷ xs) a h = elim (In-insert x (sort leq xs) a h) [
    | inl e ↦ inl e
    | inr i ↦ inr (In-sort xs a i)
  ]

  All-of-insert {κ} :
      (P : A → Type κ) (x : A) (ys : List A) → All P (insert leq x ys) → P x × All P ys
  unfolding insert
  All-of-insert P x [] h = h
  All-of-insert P x (y ∷ ys) h = elim (Bool-cases (leq x y)) [
    | inl e ↦ rw (e, insert) at h
    | inr e ↦
        let k : P y × All P (insert leq x ys) = rw (e, insert) at h in
        let r = All-of-insert P x ys k.1 in (r.0, (k.0, r.1))
  ]

  pub All-of-sort {κ} : (P : A → Type κ) (xs : List A) → All P (sort leq xs) → All P xs
  unfolding sort
  All-of-sort P [] h = tt
  All-of-sort P (x ∷ xs) h =
      let r = All-of-insert P x (sort leq xs) h in (r.0, All-of-sort P xs r.1)

-- A comparison that orders any two entries, and is transitive, sorts.
module _ {ℓ} {A : Type ℓ} (leq : A → A → Bool)
    (total : (x y : A) → leq x y ≡ false → leq y x ≡ true)
    (trans : (x y z : A) → leq x y ≡ true → leq y z ≡ true → leq x z ≡ true) where
  AtLeast-trans : (x y : A) (zs : List A) → leq x y ≡ true → AtLeast leq y zs → AtLeast leq x zs
  AtLeast-trans x y [] h k = tt
  AtLeast-trans x y (z ∷ zs) h k = (trans x y z h k.0, AtLeast-trans x y zs h k.1)

  insert-IsSorted : (x : A) (ys : List A) → IsSorted leq ys → IsSorted leq (insert leq x ys)
  unfolding insert
  insert-IsSorted x [] h = (tt, tt)
  insert-IsSorted x (y ∷ ys) h = elim (Bool-cases (leq x y)) [
    | inl e ↦ rw e ((e, AtLeast-trans x y ys e h.0), h)
    | inr e ↦
        rw e (All-insert leq (λ z. leq y z ≡ true) x ys (total x y e) h.0, insert-IsSorted x ys h.1)
  ]

  pub sort-IsSorted : (xs : List A) → IsSorted leq (sort leq xs)
  unfolding sort
  sort-IsSorted [] = tt
  sort-IsSorted (x ∷ xs) = insert-IsSorted x (sort leq xs) (sort-IsSorted xs)

  module _ (antisym : (x y : A) → leq x y ≡ true → leq y x ≡ true → x ≡ y) where
    insert_comm :
        (x y : A) (zs : List A) → insert leq x (insert leq y zs) ≡ insert leq y (insert leq x zs)
    unfolding insert
    insert_comm x y [] = ground (arith, total x y, total y x, antisym x y)
    insert_comm x y (z ∷ zs) =
        ground
          (arith, total x y, total y x, antisym x y, trans x y z, trans y x z, insert_comm x y zs)

    sort-Permᴰ : {xs ys : List A} → Permᴰ xs ys → sort leq xs ≡ sort leq ys
    unfolding sort
    sort-Permᴰ Permᴰ.nil = refl
    sort-Permᴰ (Permᴰ.cons e p) = ap₂ (insert leq) e (sort-Permᴰ p)
    sort-Permᴰ (Permᴰ.swap {a = a} {b = b} {l = l} e f) =
        insert_comm a b (sort leq l) ∙ ap₂ (λ x y. insert leq x (insert leq y (sort leq l))) f e
    sort-Permᴰ (Permᴰ.trans p q) = sort-Permᴰ p ∙ sort-Permᴰ q

    -- The sort of a total order does not depend on the order of the entries.
    pub sort-Perm : {xs ys : List A} → IsSet (List A) → Perm xs ys → sort leq xs ≡ sort leq ys
    sort-Perm set p = ∥∥₁_elim p (set _ _) sort-Permᴰ
