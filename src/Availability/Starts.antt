-- ===== src/Availability/Starts.antt =====
-- The map from starts to the employees who could take them, and the slots made of it.
use shape_and_flow.Base.{
  ℕ, ◌≡◌, refl, ap, ◌∙◌, inl, inr, Bool, ◌&&◌, ◌||◌, List, [], ◌∷◌, map, arith, any, ◌==◌,
  Bool-cases,
}
use shape_and_flow.Base.Text.{Text, text_eqb, text_leb, text_eqb_iff}
use shape_and_flow.Base.Sort.{sort, any-sort}
use shape_and_flow.Availability.Types.{Slot}
use shape_and_flow.Availability.Candidates.{
  includes, StartMap, add_id, add_start, add_starts, by_key, slot_of, slots_of,
}

-- The employee can take the start.
abbrev pub can_take : Text → ℕ → StartMap → Bool
can_take id t m = any (λ e. e.0 == t && includes id e.1) m

-- Some slot starts at the instant and lists the employee.
abbrev pub lists : Text → ℕ → List Slot → Bool
lists id t slots = any (λ s. s.starts_at == t && includes id s.employee_ids) slots

includes-add_id :
    (x id : Text) (ids : List Text) → includes x (add_id id ids) ≡ (text_eqb id x || includes x ids)
unfolding add_id
includes-add_id x id [] = refl
includes-add_id x id (y ∷ ids) = elim (Bool-cases (text_eqb y id)) [
  | inl e ↦ rw (e, add_id) (ground (arith, ap (λ z. text_eqb z x) ((text_eqb_iff y id).0 e)))
  | inr e ↦ rw (e, add_id) (ground (arith, includes-add_id x id ids))
]

can_take-add_start :
    (x id : Text) (t key : ℕ) (m : StartMap)
    → can_take x t (add_start id key m) ≡ ((key == t && text_eqb id x) || can_take x t m)
unfolding add_start
can_take-add_start x id t key [] = ground arith
can_take-add_start x id t key ((k, ids) ∷ m) =
    ground (arith, can_take-add_start x id t key m, includes-add_id x id ids)

-- Adding the starts of one employee makes that employee a candidate for each of them.
pub can_take-add_starts :
    (x id : Text) (t : ℕ) (ts : List ℕ) (m : StartMap)
    → can_take x t (add_starts id ts m)
      ≡ ((text_eqb id x && any (λ u. u == t) ts) || can_take x t m)
unfolding add_starts
can_take-add_starts x id t [] m = ground arith
can_take-add_starts x id t (u ∷ ts) m =
    ground (arith, can_take-add_starts x id t ts (add_start id u m), can_take-add_start x id t u m)

lists-map : (x : Text) (t d : ℕ) (m : StartMap) → lists x t (map (slot_of d) m) ≡ can_take x t m
unfolding slot_of
lists-map x t d [] = refl
lists-map x t d (e ∷ m) =
    ground (arith, lists-map x t d m, any-sort text_leb (λ y. text_eqb y x) e.1)

-- The slots list exactly the employees and starts of the map.
pub lists-slots_of : (x : Text) (t d : ℕ) (m : StartMap) → lists x t (slots_of d m) ≡ can_take x t m
unfolding slots_of
lists-slots_of x t d m = lists-map x t d (sort by_key m) ∙ any-sort by_key _ m

-- The start is a key of the map.
abbrev pub has_start : ℕ → StartMap → Bool
has_start t m = any (λ e. e.0 == t) m

has_start-add_start :
    (id : Text) (t key : ℕ) (m : StartMap)
    → has_start t (add_start id key m) ≡ (key == t || has_start t m)
unfolding add_start
has_start-add_start id t key [] = refl
has_start-add_start id t key ((k, ids) ∷ m) = ground (arith, has_start-add_start id t key m)

pub has_start-add_starts :
    (id : Text) (t : ℕ) (ts : List ℕ) (m : StartMap)
    → has_start t (add_starts id ts m) ≡ (any (λ u. u == t) ts || has_start t m)
unfolding add_starts
has_start-add_starts id t [] m = refl
has_start-add_starts id t (u ∷ ts) m =
    ground (arith, has_start-add_starts id t ts (add_start id u m), has_start-add_start id t u m)

has_start-map :
    (t d : ℕ) (m : StartMap) → any (λ s. s.starts_at == t) (map (slot_of d) m) ≡ has_start t m
unfolding slot_of
has_start-map t d [] = refl
has_start-map t d (e ∷ m) = ground (arith, has_start-map t d m)

pub has_start-slots_of :
    (t d : ℕ) (m : StartMap) → any (λ s. s.starts_at == t) (slots_of d m) ≡ has_start t m
unfolding slots_of
has_start-slots_of t d m = has_start-map t d (sort by_key m) ∙ any-sort by_key _ m
