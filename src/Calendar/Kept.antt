-- ===== src/Calendar/Kept.antt =====
-- What the constraints of the bookings' table keep true: no two bookings that block overlap.
use shape_and_flow.Base.{
  ℕ, ◌≡◌, refl, sym, ap, subst, inl, inr, true, false, ◌&&◌, none, some, List, [], ◌∷◌, map, any,
  All, arith, Bool-cases, Option-cases, Option, ok, ok_injective, ◌∙◌, find, ◌==◌,
}
use shape_and_flow.Base.Text.{Text, text_eqb}
use shape_and_flow.Interval.{Interval}
use shape_and_flow.Booking.Status.{is_blocking}
use shape_and_flow.Calendar.Rows.{AppointmentRow, CalendarStore}
use shape_and_flow.Calendar.Writes.{clashes, is_excluded, meets_checks, create_appointment}
use shape_and_flow.Calendar.Insertion.{let_go, claim_idempotency_key, upsert_customer}

-- No row excludes one below it.
abbrev pub NoOverlap : List AppointmentRow → Type 0
NoOverlap [] = Unit
NoOverlap (a ∷ rows) = (is_excluded a rows ≡ false) × NoOverlap rows

abbrev pub Meets : AppointmentRow → Type 0
Meets a = meets_checks a ≡ true

abbrev pub Kept : List AppointmentRow → Type 0
Kept rows = NoOverlap rows × All Meets rows

-- A row that was inserted.
pub record Created (s : CalendarStore) (row : AppointmentRow) (t : CalendarStore) : Type 0 where
  pub sound : meets_checks row ≡ true
  pub apart : is_excluded row s.appointments ≡ false
  pub store_is : t ≡ record s { appointments = row ∷ s.appointments }

pub create_appointment-Created :
    (s : CalendarStore) (row : AppointmentRow) (t : CalendarStore)
    → create_appointment s row ≡ ok t
    → Created s row t
unfolding create_appointment
create_appointment-Created s row t h = elim (Bool-cases (meets_checks row)) [
  | inr bad ↦ absurd (cc (rw (bad, create_appointment) at h))
  | inl good ↦ elim (Bool-cases (is_excluded row s.appointments)) [
    | inl clash ↦ absurd (cc (rw (good, clash, create_appointment) at h))
    | inr clear ↦ record {
      sound = good;
      apart = clear;
      store_is = sym (ok_injective (rw (good, clear, create_appointment) at h));
    }
  ]
]

pub create_appointment-Kept :
    (s : CalendarStore) (row : AppointmentRow) (t : CalendarStore)
    → create_appointment s row ≡ ok t
    → Kept s.appointments
    → Kept t.appointments
create_appointment-Kept s row t h k =
    let c = create_appointment-Created s row t h in
    subst (λ (u : CalendarStore). Kept u.appointments) (sym c.store_is)
      ((c.apart, k.0), (c.sound, k.1))

-- A change of a row that the constraints do not see.
pub record Unseen (f : AppointmentRow → AppointmentRow) : Type 0 where
  pub same_clashes :
      (id : Text) (block : Interval) (a : AppointmentRow)
      → clashes id block (f a) ≡ clashes id block a
  pub same_excluded :
      (a : AppointmentRow) (rows : List AppointmentRow)
      → is_excluded (f a) rows ≡ is_excluded a rows
  pub same_checks : (a : AppointmentRow) → meets_checks (f a) ≡ meets_checks a

module _ (f : AppointmentRow → AppointmentRow) (u : Unseen f) where
  clashes-map :
      (id : Text) (block : Interval) (rows : List AppointmentRow)
      → any (clashes id block) (map f rows) ≡ any (clashes id block) rows
  clashes-map id block [] = refl
  clashes-map id block (a ∷ rows) =
      ground (arith, u.same_clashes id block a, clashes-map id block rows)

  is_excluded-map :
      (a : AppointmentRow) (rows : List AppointmentRow)
      → is_excluded (f a) (map f rows) ≡ is_excluded a rows
  unfolding is_excluded
  is_excluded-map a rows =
      u.same_excluded a (map f rows)
      ∙ ap (λ b. is_blocking a.status && b) (clashes-map a.employee_id a.block rows)

  pub map-Kept : (rows : List AppointmentRow) → Kept rows → Kept (map f rows)
  map-Kept [] k = k
  map-Kept (a ∷ rows) k =
      let rest = map-Kept rows (k.0.1, k.1.1) in
      ((is_excluded-map a rows ∙ k.0.0, rest.0), (u.same_checks a ∙ k.1.0, rest.1))

let_go-Unseen : (key_id : ℕ) → Unseen (let_go key_id)
unfolding clashes is_excluded meets_checks
let_go-Unseen key_id = record {
  same_clashes = λ id block a. ground arith;
  same_excluded = λ a rows. ground arith;
  same_checks = λ a. ground arith;
}

pub claim_idempotency_key-Kept :
    (s : CalendarStore) (key : Option ℕ) (r : Option ℕ × CalendarStore)
    → claim_idempotency_key s key ≡ ok r
    → Kept s.appointments
    → Kept r.1.appointments
unfolding claim_idempotency_key
claim_idempotency_key-Kept s none r h k =
    subst (λ (x : Option ℕ × CalendarStore). Kept x.1.appointments) (ok_injective h) k
claim_idempotency_key-Kept s (some key) r h k =
    elim (Option-cases (find (λ x. x.key == key && x.is_in_progress) s.keys)) [
      | inl missing ↦ absurd (cc (rw (missing, claim_idempotency_key) at h))
      | inr (row, found) ↦
          subst (λ (x : Option ℕ × CalendarStore). Kept x.1.appointments)
            (ok_injective (rw (found, claim_idempotency_key) at h))
            (map-Kept (let_go row.id) (let_go-Unseen row.id) s.appointments k)
    ]

pub upsert_customer-appointments :
    (s : CalendarStore) (email : Text) (locale : ℕ)
    → (upsert_customer s email locale).1.appointments ≡ s.appointments
unfolding upsert_customer
upsert_customer-appointments s email locale =
    elim (Option-cases (find (λ c. text_eqb c.email_normalized email) s.customers)) [
      | inl missing ↦ rw (missing, upsert_customer) refl
      | inr (row, found) ↦ rw (found, upsert_customer) refl
    ]
