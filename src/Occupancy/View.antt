-- ===== src/Occupancy/View.antt =====
-- When an employee is taken, read from the bookings, and what a change of the rows does to it.
use shape_and_flow.Base.{
  ℕ, ◌≡◌, refl, sym, ap, ◌∙◌, subst, inl, inr, Bool, true, false, ◌&&◌, ◌||◌, not, some, List, [],
  ◌∷◌, any, arith, ◌==◌, Bool-cases,
}
use shape_and_flow.Base.Text.{Text, text_eqb, text_eqb_iff}
use shape_and_flow.Interval.{Interval, overlaps, contains_instant}
use shape_and_flow.Booking.Status.{BookingStatus, is_blocking}
use shape_and_flow.Calendar.Rows.{AppointmentRow}
use shape_and_flow.Calendar.Writes.{
  clashes, is_excluded, find_appointment, update_appointments, set_status,
}
use shape_and_flow.Calendar.Kept.{NoOverlap}

-- The employee's time that a booking takes, whatever its status.
abbrev pub spans : Text → ℕ → AppointmentRow → Bool
spans e t a = text_eqb a.employee_id e && contains_instant a.block t

abbrev pub holds : Text → ℕ → AppointmentRow → Bool
holds e t a = is_blocking a.status && spans e t a

-- The employee is taken at the instant.
unfoldable pub taken : List AppointmentRow → Text → ℕ → Bool
taken rows e t = any (holds e t) rows

meet :
    (i j : Interval) (t : ℕ)
    → contains_instant i t ≡ true
    → contains_instant j t ≡ true
    → overlaps i j ≡ true
unfolding overlaps contains_instant
meet i j t hi hj = ground arith

both : (p q : Bool) → (p && q) ≡ true → (p ≡ true) × (q ≡ true)
both true q h = (refl, h)
both false q h = absurd (cc)

-- Two rows that hold one instant of one employee exclude each other.
holds-clashes :
    (e : Text) (t : ℕ) (a b : AppointmentRow)
    → spans e t a ≡ true
    → holds e t b ≡ true
    → clashes a.employee_id a.block b ≡ true
unfolding clashes
holds-clashes e t a b ha hb =
    let (of_a, in_a) = both (text_eqb a.employee_id e) (contains_instant a.block t) ha in
    let (blocks, at_b) = both (is_blocking b.status) (spans e t b) hb in
    let (of_b, in_b) = both (text_eqb b.employee_id e) (contains_instant b.block t) at_b in
    let same : b.employee_id ≡ a.employee_id =
      (text_eqb_iff b.employee_id e).0 of_b ∙ sym ((text_eqb_iff a.employee_id e).0 of_a) in
    rw (clashes, (text_eqb_iff b.employee_id a.employee_id).1 same, blocks)
      (meet a.block b.block t in_a in_b)

-- What clashes with nothing spans no instant that is taken.
pub clear-taken :
    (e : Text) (t : ℕ) (a : AppointmentRow) (rows : List AppointmentRow)
    → any (clashes a.employee_id a.block) rows ≡ false
    → spans e t a ≡ true
    → taken rows e t ≡ false
unfolding taken
clear-taken e t a [] h s = refl
clear-taken e t a (b ∷ rows) h s = elim (Bool-cases (holds e t b)) [
  | inl held ↦ let clash = holds-clashes e t a b s held in absurd (cc (rw (clash) at h))
  | inr free ↦ ground (arith, clear-taken e t a rows, free)
]

or_true : (p : Bool) → (p || true) ≡ true
or_true p = ground arith

-- A confirmed row that is found holds its time.
pub found-taken :
    (e : Text) (t id : ℕ) (rows : List AppointmentRow) (b : AppointmentRow)
    → find_appointment id rows ≡ some b
    → is_blocking b.status ≡ true
    → spans e t b ≡ true
    → taken rows e t ≡ true
unfolding taken
found-taken e t id [] b f c s = absurd (cc)
found-taken e t id (a ∷ rows) b f c s = elim (Bool-cases (a.id == id)) [
  | inl hit ↦
      let same : b ≡ a = ground arith in
      let held : holds e t a ≡ true = subst (λ x. holds e t x ≡ true) same (rw (c) s) in
      rw (held) refl
  | inr miss ↦ rw (found-taken e t id rows b (rw (miss) at f) c s) (or_true (holds e t a))
]

-- A row that no longer blocks holds nothing.
over-holds :
    (e : Text) (t : ℕ) (to : BookingStatus) (a : AppointmentRow)
    → is_blocking to ≡ false
    → holds e t (set_status to a) ≡ false
over-holds e t to a o = rw (o) refl

blocking-holds :
    (e : Text) (t : ℕ) (a : AppointmentRow)
    → is_blocking a.status ≡ true
    → holds e t a ≡ spans e t a
blocking-holds e t a c = rw (c) refl

-- The first row against those below it.
excluded-taken :
    (e : Text) (t : ℕ) (a : AppointmentRow) (rows : List AppointmentRow)
    → is_excluded a rows ≡ false
    → is_blocking a.status ≡ true
    → spans e t a ≡ true
    → taken rows e t ≡ false
unfolding is_excluded
excluded-taken e t a rows h c s = clear-taken e t a rows (rw (c, is_excluded) at h) s

hit_arith : (p q : Bool) → (p ≡ true → q ≡ false) → q ≡ ((p || q) && not p)
hit_arith true q f = f refl
hit_arith false true f = refl
hit_arith false false f = refl

miss_arith :
    (p q r : Bool)
    → (r ≡ true → q ≡ true)
    → (p ≡ true → q ≡ false)
    → (p || (q && not r)) ≡ ((p || q) && not r)
miss_arith true true r f g = absurd (cc (g refl))
miss_arith true false true f g = absurd (cc (f refl))
miss_arith true false false f g = refl
miss_arith false q r f g = refl

-- Where no two rows exclude each other, a booking that stops to block frees its time, and nothing else
-- changes.
pub update_appointments-frees :
    (id : ℕ) (to : BookingStatus) (rows : List AppointmentRow) (b : AppointmentRow) (e : Text)
    (t : ℕ)
    → find_appointment id rows ≡ some b
    → is_blocking b.status ≡ true
    → is_blocking to ≡ false
    → NoOverlap rows
    → taken (update_appointments id (set_status to) rows) e t
      ≡ (taken rows e t && not (spans e t b))
unfolding taken update_appointments
update_appointments-frees id to [] b e t f c o n = absurd (cc)
update_appointments-frees id to (a ∷ rows) b e t f c o n = elim (Bool-cases (a.id == id)) [
  | inl hit ↦
      let same : b ≡ a = ground arith in
      let blocks : is_blocking a.status ≡ true = subst (λ x. is_blocking x.status ≡ true) same c in
      rw (hit, update_appointments)
        (ap (λ h. h || taken rows e t) (over-holds e t to a o)
          ∙ hit_arith (spans e t a) (taken rows e t) (excluded-taken e t a rows n.0 blocks)
          ∙ ap (λ h. (h || taken rows e t) && not (spans e t a)) (sym (blocking-holds e t a blocks))
          ∙ ap (λ x. (holds e t a || taken rows e t) && not (spans e t x)) (sym same))
  | inr miss ↦
      let found : find_appointment id rows ≡ some b = rw (miss) at f in
      rw (miss, update_appointments)
        (ap (λ h. holds e t a || h) (update_appointments-frees id to rows b e t found c o n.1)
          ∙ miss_arith (holds e t a) (taken rows e t) (spans e t b)
              (found-taken e t id rows b found c)
              (λ held.
                let (blocks, at_a) = both (is_blocking a.status) (spans e t a) held in
                excluded-taken e t a rows n.0 blocks at_a))
]

-- A row that is added takes its time.
pub cons-takes :
    (a : AppointmentRow) (rows : List AppointmentRow) (e : Text) (t : ℕ)
    → is_blocking a.status ≡ true
    → taken (a ∷ rows) e t ≡ (spans e t a || taken rows e t)
unfolding taken
cons-takes a rows e t c = ap (λ h. h || taken rows e t) (blocking-holds e t a c)
