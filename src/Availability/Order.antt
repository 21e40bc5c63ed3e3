-- ===== src/Availability/Order.antt =====
-- The slots of a day come in strictly rising order of their starts, and each ends as late as the
-- service takes.
use shape_and_flow.Base.{
  ℕ, ◌+◌, ◌<◌, ◌≡◌, ◌≢◌, refl, sym, inl, inr, true, false, List, [], ◌∷◌, map, arith, All, leb,
  ◌==◌, Bool-cases,
}
use shape_and_flow.Base.Text.{Text}
use shape_and_flow.Base.Sort.{sort, insert, IsSorted, sort-IsSorted, All-sort, All-insert}
use shape_and_flow.Availability.Types.{Slot}
use shape_and_flow.Availability.Candidates.{
  StartMap, add_start, add_starts, by_key, slot_of, slots_of,
}

-- No start is a key twice.
abbrev pub DistinctStarts : StartMap → Type 0
DistinctStarts [] = Unit
DistinctStarts (e ∷ m) = All (λ f. e.0 ≢ f.0) m × DistinctStarts m

add_start-ne :
    (id : Text) (key k : ℕ) (m : StartMap)
    → k ≢ key
    → All (λ f. k ≢ f.0) m
    → All (λ f. k ≢ f.0) (add_start id key m)
unfolding add_start
add_start-ne id key k [] n h = (n, tt)
add_start-ne id key k ((j, ids) ∷ m) n h = elim (Bool-cases (j == key)) [
  | inl e ↦ rw (e, add_start) (h.0, h.1)
  | inr e ↦ rw (e, add_start) (h.0, add_start-ne id key k m n h.1)
]

add_start-DistinctStarts :
    (id : Text) (key : ℕ) (m : StartMap) → DistinctStarts m → DistinctStarts (add_start id key m)
unfolding add_start
add_start-DistinctStarts id key [] h = (tt, tt)
add_start-DistinctStarts id key ((j, ids) ∷ m) h = elim (Bool-cases (j == key)) [
  | inl e ↦ rw (e, add_start) (h.0, h.1)
  | inr e ↦
      rw (e, add_start)
        (add_start-ne id key j m (ground arith) h.0, add_start-DistinctStarts id key m h.1)
]

pub add_starts-DistinctStarts :
    (id : Text) (ts : List ℕ) (m : StartMap)
    → DistinctStarts m
    → DistinctStarts (add_starts id ts m)
unfolding add_starts
add_starts-DistinctStarts id [] m h = h
add_starts-DistinctStarts id (t ∷ ts) m h =
    add_starts-DistinctStarts id ts (add_start id t m) (add_start-DistinctStarts id t m h)

-- In rising order, no two starts the same.
abbrev pub IsRising : List Slot → Type 0
IsRising [] = Unit
IsRising (s ∷ rest) = All (λ r. s.starts_at < r.starts_at) rest × IsRising rest

-- Each slot lasts as long as given.
abbrev pub Lasts : ℕ → List Slot → Type 0
Lasts d = All (λ s. s.ends_at ≡ s.starts_at + d)

insert-DistinctStarts :
    (e : ℕ × List Text) (m : StartMap)
    → All (λ f. e.0 ≢ f.0) m
    → DistinctStarts m
    → DistinctStarts (insert by_key e m)
unfolding insert
insert-DistinctStarts e [] n h = (tt, tt)
insert-DistinctStarts e (f ∷ m) n h = elim (Bool-cases (by_key e f)) [
  | inl first ↦ rw (first, insert) (n, h)
  | inr later ↦
      rw (later, insert)
        (
          All-insert by_key (λ g. f.0 ≢ g.0) e m (λ q. n.0 (sym q)) h.0,
          insert-DistinctStarts e m n.1 h.1,
        )
]

sort-DistinctStarts : (m : StartMap) → DistinctStarts m → DistinctStarts (sort by_key m)
unfolding sort
sort-DistinctStarts [] h = tt
sort-DistinctStarts (e ∷ m) h =
    insert-DistinctStarts e (sort by_key m) (All-sort by_key _ m h.0) (sort-DistinctStarts m h.1)

by_key_total : (a b : ℕ × List Text) → by_key a b ≡ false → by_key b a ≡ true
by_key_total a b h = ground arith

by_key_trans : (a b c : ℕ × List Text) → by_key a b ≡ true → by_key b c ≡ true → by_key a c ≡ true
by_key_trans a b c h k = ground arith

map-Above :
    (d k : ℕ) (m : StartMap)
    → All (λ f. leb k f.0 ≡ true) m
    → All (λ f. k ≢ f.0) m
    → All (λ s. k < s.starts_at) (map (slot_of d) m)
unfolding slot_of
map-Above d k [] h n = tt
map-Above d k (e ∷ m) h n = (ground (arith, h.0, n.0), map-Above d k m h.1 n.1)

map-IsRising :
    (d : ℕ) (m : StartMap) → IsSorted by_key m → DistinctStarts m → IsRising (map (slot_of d) m)
unfolding slot_of
map-IsRising d [] h n = tt
map-IsRising d (e ∷ m) h n = (map-Above d e.0 m h.0 n.0, map-IsRising d m h.1 n.1)

pub slots_of-IsRising : (d : ℕ) (m : StartMap) → DistinctStarts m → IsRising (slots_of d m)
unfolding slots_of
slots_of-IsRising d m h =
    map-IsRising d (sort by_key m) (sort-IsSorted by_key by_key_total by_key_trans m)
      (sort-DistinctStarts m h)

map-Lasts : (d : ℕ) (m : StartMap) → Lasts d (map (slot_of d) m)
unfolding slot_of
map-Lasts d [] = tt
map-Lasts d (e ∷ m) = (refl, map-Lasts d m)

pub slots_of-Lasts : (d : ℕ) (m : StartMap) → Lasts d (slots_of d m)
unfolding slots_of
slots_of-Lasts d m = map-Lasts d (sort by_key m)
