-- ===== src/Calendar/Assigned.antt =====
-- What a reservation that returned tells of the employee and of the price.
use shape_and_flow.Base.{
  ◌≡◌, inl, inr, true, false, ◌&&◌, ◌||◌, not, Option, none, some, arith, In, In-find, find-passes,
  find, Option-cases, ok,
}
use shape_and_flow.Base.Text.{Text, text_eqb, text_eqb_iff}
use shape_and_flow.Base.Int.{ℤ}
use shape_and_flow.Money.{Money}
use shape_and_flow.Money.Pricing.{
  effective_cents, resolve_effective_price, resolve_effective_price_iff,
}
use shape_and_flow.Calendar.Rows.{ServiceRow, EmployeeRow, AssignmentRow, CalendarStore}
use shape_and_flow.Calendar.Insertion.{
  ReserveActor, customer, office, is_office, load_effective_assignment,
}

-- The override is the price; without one the price of the service is.
abbrev pub IsPrice : Option ℤ → ℤ → ℤ → Type 0
IsPrice none list cents = cents ≡ list
IsPrice (some override) list cents = cents ≡ override

-- Only the office books an employee who is not bookable online.
abbrev pub MayTake : ReserveActor → EmployeeRow → Type 0
MayTake customer e = e.is_bookable_online ≡ true
MayTake office e = Unit

-- An employee and a service that are not archived, the assignment of the one to the other, and its
-- price in the service's currency.
pub data Assigned (s : CalendarStore) (service_id id : Text) (actor : ReserveActor) (price : Money)
    : Type 0 where
  assigned :
      (link : AssignmentRow) (e : EmployeeRow) (r : ServiceRow)
      → In link s.assignments
      → (link.service_id ≡ service_id) × (link.employee_id ≡ id)
      → In e s.employees
      → (e.id ≡ id) × (e.is_archived ≡ false)
      → MayTake actor e
      → In r s.services
      → (r.snapshot.id ≡ service_id) × (r.is_archived ≡ false)
      → IsPrice link.price_override_cents r.price_cents price.amount_cents
      → price.currency ≡ r.currency
      → Assigned s service_id id actor price

may_take :
    (actor : ReserveActor) (e : EmployeeRow) (id : Text)
    → (text_eqb e.id id && not e.is_archived && (is_office actor || e.is_bookable_online)) ≡ true
    → (text_eqb e.id id ≡ true) × (e.is_archived ≡ false) × MayTake actor e
may_take customer e id h = (ground arith, ground arith, ground arith)
may_take office e id h = (ground arith, ground arith, tt)

is_price :
    (link : AssignmentRow) (r : ServiceRow) (price : Money)
    → resolve_effective_price
        (record { price_cents = r.price_cents; currency = r.currency })
        (some (record { price_override_cents = link.price_override_cents }))
      ≡ ok price
    → IsPrice link.price_override_cents r.price_cents price.amount_cents
      × (price.currency ≡ r.currency)
unfolding effective_cents
is_price link r price h =
    let (cents, currency, _, _) =
      (resolve_effective_price_iff (record { price_cents = r.price_cents; currency = r.currency })
          (some (record { price_override_cents = link.price_override_cents })) price).0
        h in
    elim (Option-cases link.price_override_cents) [
      | inl absent ↦ (rw (absent) (rw (absent, effective_cents) at cents), currency)
      | inr (override, set) ↦ (rw (set) (rw (set, effective_cents) at cents), currency)
    ]

pub load_effective_assignment-Assigned :
    (s : CalendarStore) (service_id id : Text) (actor : ReserveActor) (price : Money)
    → load_effective_assignment s service_id id actor ≡ ok price
    → Assigned s service_id id actor price
unfolding load_effective_assignment
load_effective_assignment-Assigned s service_id id actor price h =
    elim (Option-cases
      (find (λ l. text_eqb l.service_id service_id && text_eqb l.employee_id id) s.assignments)) [
        | inl none_linked ↦ absurd (cc (rw (none_linked, load_effective_assignment) at h))
        | inr (link, linked) ↦
            elim (Option-cases (
              find
                (λ e.
                  text_eqb e.id id
                  && not e.is_archived
                  && (is_office actor || e.is_bookable_online))
                s.employees)) [
                  | inl nobody ↦ absurd (cc (rw (linked, load_effective_assignment, nobody) at h))
                  | inr (e, known) ↦
                      elim (Option-cases (
                        find (λ r. text_eqb r.snapshot.id service_id && not r.is_archived)
                          s.services)) [
                            | inl unknown ↦
                                absurd
                                  (cc (rw (linked, load_effective_assignment, known, unknown) at h))
                            | inr (r, offered) ↦
                                let of_link = find-passes _ s.assignments link linked in
                                let of_row = find-passes _ s.services r offered in
                                let (of_e, stays, may) =
                                  may_take actor e id (find-passes _ s.employees e known) in
                                let (priced, currency) =
                                  is_price link r price
                                    (rw (linked, load_effective_assignment, known, offered) at h) in
                                assigned link e r (In-find _ s.assignments link linked)
                                  (
                                    (text_eqb_iff link.service_id service_id).0 (ground arith),
                                    (text_eqb_iff link.employee_id id).0 (ground arith),
                                  )
                                  (In-find _ s.employees e known)
                                  ((text_eqb_iff e.id id).0 of_e, stays) may
                                  (In-find _ s.services r offered)
                                  (
                                    (text_eqb_iff r.snapshot.id service_id).0 (ground arith),
                                    ground arith,
                                  )
                                  priced currency
                          ]
                ]
      ]
