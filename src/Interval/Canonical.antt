-- ===== src/Interval/Canonical.antt =====
-- A separated list is determined by the instants that it covers, so merging gives a normal form.
use shape_and_flow.Base.{
  ℕ, ◌≤◌, ◌<◌, ◌≡◌, refl, sym, ◌∙◌, inl, inr, true, false, List, [], ◌∷◌, arith, any, leb,
  Bool-cases,
}
use shape_and_flow.Interval.{Interval, contains, contains_instant, merge_adjacent}
use shape_and_flow.Interval.Cover.{covers}
use shape_and_flow.Interval.Merge.{
  After, IsSeparated, covers-merge_adjacent, merge_adjacent-IsSeparated,
}

-- Nothing is covered up to the point after which a separated list begins.
pub covers-After :
    (e t : ℕ) (xs : List Interval) → After e xs → IsSeparated xs → t ≤ e → covers xs t ≡ false
unfolding contains_instant
covers-After e t [] a s h = refl
covers-After e t (i ∷ rest) a s h = ground (arith, covers-After i.end t rest s.1 s.2)

covers-head :
    (i : Interval) (rest : List Interval) → i.start < i.end → covers (i ∷ rest) i.start ≡ true
unfolding contains_instant
covers-head i rest h = ground arith

start-le :
    (i j : Interval) (xs ys : List Interval)
    → IsSeparated (i ∷ xs)
    → IsSeparated (j ∷ ys)
    → ((t : ℕ) → covers (i ∷ xs) t ≡ covers (j ∷ ys) t)
    → j.start ≤ i.start
unfolding contains_instant
start-le i j xs ys s r same =
    ground (arith, same i.start, covers-head i xs s.0, covers-After j.end i.start ys r.1 r.2)

end-le :
    (i j : Interval) (xs ys : List Interval)
    → IsSeparated (i ∷ xs)
    → IsSeparated (j ∷ ys)
    → i.start ≡ j.start
    → ((t : ℕ) → covers (i ∷ xs) t ≡ covers (j ∷ ys) t)
    → j.end ≤ i.end
unfolding contains_instant
end-le i j xs ys s r e same = ground (arith, same i.end, covers-After i.end i.end xs s.1 s.2)

covers-tail :
    (i j : Interval) (xs ys : List Interval) (t : ℕ)
    → IsSeparated (i ∷ xs)
    → IsSeparated (j ∷ ys)
    → i.start ≡ j.start
    → i.end ≡ j.end
    → covers (i ∷ xs) t ≡ covers (j ∷ ys) t
    → covers xs t ≡ covers ys t
unfolding contains_instant
covers-tail i j xs ys t s r starts ends same =
    ground (arith, covers-After i.end t xs s.1 s.2, covers-After j.end t ys r.1 r.2)

-- Separated lists that cover the same instants are the same list.
pub separated_unique :
    (xs ys : List Interval)
    → IsSeparated xs
    → IsSeparated ys
    → ((t : ℕ) → covers xs t ≡ covers ys t)
    → xs ≡ ys
separated_unique [] [] s r same = refl
separated_unique [] (j ∷ ys) s r same = ground (arith, same j.start, covers-head j ys r.0)
separated_unique (i ∷ xs) [] s r same = ground (arith, same i.start, covers-head i xs s.0)
separated_unique (i ∷ xs) (j ∷ ys) s r same =
    let back : (t : ℕ) → covers (j ∷ ys) t ≡ covers (i ∷ xs) t = λ t. sym (same t) in
    let starts : i.start ≡ j.start =
      omega (arith, start-le i j xs ys s r same, start-le j i ys xs r s back) in
    let ends : i.end ≡ j.end =
      omega (arith, end-le i j xs ys s r starts same, end-le j i ys xs r s (sym starts) back) in
    let rest : xs ≡ ys =
      separated_unique xs ys s.2 r.2 (λ t. covers-tail i j xs ys t s r starts ends (same t)) in
    ground arith

-- Two collections of intervals that cover the same instants merge to the same list.
pub merge_adjacent_canonical :
    (xs ys : List Interval)
    → ((t : ℕ) → covers xs t ≡ covers ys t)
    → merge_adjacent xs ≡ merge_adjacent ys
merge_adjacent_canonical xs ys same =
    separated_unique _ _ (merge_adjacent-IsSeparated xs) (merge_adjacent-IsSeparated ys)
      λ t. covers-merge_adjacent xs t ∙ same t ∙ sym (covers-merge_adjacent ys t)

-- An interval that is covered from end to end by a separated list lies inside one entry of it.
pub contains_of_covers :
    (block : Interval) (xs : List Interval)
    → block.start < block.end
    → IsSeparated xs
    → ((t : ℕ) → contains_instant block t ≡ true → covers xs t ≡ true)
    → any (λ i. contains i block) xs ≡ true
unfolding contains contains_instant
contains_of_covers block [] n s h = ground (arith, h block.start)
contains_of_covers block (i ∷ rest) n s h = elim (Bool-cases (leb i.end block.start)) [
  | inl before ↦ ground (arith, contains_of_covers block rest n s.2 (λ t k. ground (arith, h t)))
  | inr within ↦ ground (
    arith,
    h block.start,
    h i.end,
    covers-After i.end block.start rest s.1 s.2,
    covers-After i.end i.end rest s.1 s.2,
  )
]
