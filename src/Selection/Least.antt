-- ===== src/Selection/Least.antt =====
-- The chosen employee is the least by load, display order and id, whatever order the rows come in.
use shape_and_flow.Base.{
  ◌<◌, ◌≡◌, ◌⊎◌, refl, ap, inl, true, false, List, [], ◌∷◌, arith, ok, All, In, length, ◌≢◌,
}
use shape_and_flow.Base.Text.{
  text_ltb, text_ltb_irrefl, text_ltb_asym, text_ltb_trans, text_ltb_connex,
}
use shape_and_flow.Base.Sort.{
  sort, IsSorted, sort-Perm, In-sort, All-of-sort, length-sort, sort-IsSorted,
}
use shape_and_flow.Selection.{EmployeeCandidate, compare_candidates, first_id, select_employee}
use mathlib.Core.List.{Perm}

compare_refl : (a : EmployeeCandidate) → compare_candidates a a ≡ true
unfolding compare_candidates
compare_refl a = ground (arith, text_ltb_irrefl a.employee_id)

total : (a b : EmployeeCandidate) → compare_candidates a b ≡ false → compare_candidates b a ≡ true
unfolding compare_candidates
total a b h = ground (arith, text_ltb_asym a.employee_id b.employee_id)

trans :
    (a b c : EmployeeCandidate)
    → compare_candidates a b ≡ true
    → compare_candidates b c ≡ true
    → compare_candidates a c ≡ true
unfolding compare_candidates
trans a b c h k = ground (
  arith,
  text_ltb_trans a.employee_id b.employee_id c.employee_id,
  text_ltb_trans c.employee_id b.employee_id a.employee_id,
  text_ltb_connex a.employee_id b.employee_id,
  text_ltb_connex b.employee_id c.employee_id,
)

antisym :
    (a b : EmployeeCandidate)
    → compare_candidates a b ≡ true
    → compare_candidates b a ≡ true
    → a ≡ b
unfolding compare_candidates
antisym a b h k =
    ground (
      arith,
      text_ltb_asym a.employee_id b.employee_id,
      text_ltb_connex a.employee_id b.employee_id,
    )

candidate_list_set : IsSet (List EmployeeCandidate)
candidate_list_set = hlevel

-- The order in which the candidates arrive does not matter.
pub select_employee-Perm :
    {xs ys : List EmployeeCandidate} → Perm xs ys → select_employee xs ≡ select_employee ys
unfolding select_employee
select_employee-Perm p =
    ap first_id (sort-Perm compare_candidates total trans antisym candidate_list_set p)

-- The candidate has fewer bookings, or as many and the lower display order, or the same of both and
-- an id that is not the greater one.
abbrev pub ComesFirst : EmployeeCandidate → EmployeeCandidate → Type 0
ComesFirst a b =
    (a.bookings_that_day < b.bookings_that_day)
    ⊎ ((a.bookings_that_day ≡ b.bookings_that_day)
        × ((a.display_order < b.display_order)
            ⊎ ((a.display_order ≡ b.display_order)
                × (text_ltb b.employee_id a.employee_id ≡ false))))

compare-ComesFirst : (a b : EmployeeCandidate) → compare_candidates a b ≡ true → ComesFirst a b
unfolding compare_candidates
compare-ComesFirst a b h = ground (arith, text_ltb_asym a.employee_id b.employee_id)

abbrev pub IsLeast : EmployeeCandidate → List EmployeeCandidate → Type 0
IsLeast best cs = All (ComesFirst best) cs

-- The candidate is not behind any of them in the comparison of the sort.
abbrev Leads : EmployeeCandidate → List EmployeeCandidate → Type 0
Leads best cs = All (λ c. compare_candidates best c ≡ true) cs

Leads-IsLeast :
    (best : EmployeeCandidate) (cs : List EmployeeCandidate) → Leads best cs → IsLeast best cs
Leads-IsLeast best [] l = tt
Leads-IsLeast best (c ∷ cs) l = (compare-ComesFirst best c l.0, Leads-IsLeast best cs l.1)

first_id-Leads :
    (cs : List EmployeeCandidate)
    → IsSorted compare_candidates cs
    → cs ≢ []
    → (best : EmployeeCandidate) × In best cs × (first_id cs ≡ ok best.employee_id) × Leads best cs
first_id-Leads [] s n = absurd (n refl)
first_id-Leads (best ∷ rest) s n = (best, inl refl, refl, (compare_refl best, s.0))

-- Of one or more candidates the one is chosen that has the fewest bookings, then the lowest display
-- order, then the smallest id, each compared as such.
pub select_employee-IsLeast :
    (c : EmployeeCandidate) (cs : List EmployeeCandidate)
    → (best : EmployeeCandidate) × In best (c ∷ cs)
      × (select_employee (c ∷ cs) ≡ ok best.employee_id)
      × IsLeast best (c ∷ cs)
unfolding select_employee
select_employee-IsLeast c cs =
    let all = c ∷ cs in
    let (best, i, e, l) =
      first_id-Leads (sort compare_candidates all)
        (sort-IsSorted compare_candidates total trans all)
        (λ q. ground (arith, length-sort compare_candidates all, ap length q)) in
    (
      best,
      In-sort compare_candidates all best i,
      e,
      Leads-IsLeast best all (All-of-sort compare_candidates _ all l),
    )
