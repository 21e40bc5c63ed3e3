-- ===== src/Calendar/Written.antt =====
-- The row that a reservation writes, and that writing it keeps the constraints.
use shape_and_flow.Base.{
  ℕ, ◌+◌, ◌*◌, ◌≡◌, refl, sym, ap, subst, inl, inr, false, none, some, ◌∷◌, Option-cases, Option,
  Outcome, ok, Chain-of, chain, ok_injective, ◌∙◌, ◌>>◌,
}
use shape_and_flow.Base.Text.{Text}
use shape_and_flow.Interval.{Interval}
use shape_and_flow.Availability.Types.{ServiceSnapshot}
use shape_and_flow.Availability.Candidates.{block_of, minute_ms}
use shape_and_flow.Money.{Money}
use shape_and_flow.Booking.Status.{assert_transition, can_transition, creatable}
use shape_and_flow.Calendar.Rows.{AppointmentRow, CalendarStore}
use shape_and_flow.Calendar.Writes.{create_appointment, is_excluded}
use shape_and_flow.Calendar.Insertion.{
  ReserveActor, customer, office, initial_status, ReserveInput, ReserveResult,
  claim_idempotency_key, upsert_customer, load_effective_assignment, new_appointment, finish_insert,
  insert_row, write_booking,
}
use shape_and_flow.Calendar.Kept.{
  Kept, create_appointment-Created, create_appointment-Kept, claim_idempotency_key-Kept,
  upsert_customer-appointments,
}

-- The booking that a reservation writes: the bookings before it, with the earlier booking of the key
-- let go, are kept; the new one starts as asked, on the employee's calendar, in the actor's first
-- status, for the price of the assignment, with the due time.
pub record Written (s : CalendarStore) (input : ReserveInput) (id : Text)
    (service : ServiceSnapshot) (expires_at : Option ℕ) (booking : AppointmentRow) (price : Money)
    (t : CalendarStore) : Type 0 where
  pub claimed : Option ℕ × CalendarStore
  pub claimed_eq : claim_idempotency_key s input.idempotency_key ≡ ok claimed
  pub stored : t.appointments ≡ booking ∷ claimed.1.appointments
  pub excluded : is_excluded booking claimed.1.appointments ≡ false
  pub priced : load_effective_assignment s service.id id input.actor ≡ ok price
  pub blocked : block_of service input.starts_at ≡ some booking.block
  pub taken_by : booking.employee_id ≡ id
  pub starts : booking.span.start ≡ input.starts_at
  pub ends : booking.span.end ≡ input.starts_at + service.duration_minutes * minute_ms
  pub in_status : booking.status ≡ initial_status input.actor
  pub due : booking.expires_at ≡ expires_at
  pub charged : booking.price_cents ≡ price.amount_cents

-- Both first statuses can be created.
pub creatable_status :
    {A : Type 0} {r : A} (actor : ReserveActor) {next : Outcome A}
    → (assert_transition none (initial_status actor) >> next) ≡ ok r
    → next ≡ ok r
unfolding assert_transition can_transition creatable
creatable_status customer h = h
creatable_status office h = h

pub record Inserted (s : CalendarStore) (row : AppointmentRow) (price : Money)
    (r : ReserveResult × CalendarStore) : Type 0 where
  stored : r.1.appointments ≡ row ∷ s.appointments
  excluded : is_excluded row s.appointments ≡ false
  returned : r.0.booking ≡ row
  price_is : r.0.price ≡ price
  kept : Kept s.appointments → Kept r.1.appointments

pub insert_row-Inserted :
    (s : CalendarStore) (input : ReserveInput) (row : AppointmentRow) (price : Money)
    (key_id : Option ℕ) (r : ReserveResult × CalendarStore)
    → insert_row s input row price key_id ≡ ok r
    → Inserted s row price r
unfolding insert_row finish_insert
insert_row-Inserted s input row price key_id r h = elim (Chain-of (create_appointment s row) _ h) [
  | chain u hu h1 ↦
      let c = create_appointment-Created s row u hu in
      let rows : u.appointments ≡ r.1.appointments =
        ap (λ (x : ReserveResult × CalendarStore). x.1.appointments) (ok_injective h1) in
      record {
        stored = sym rows ∙ ap (λ (x : CalendarStore). x.appointments) c.store_is;
        excluded = c.apart;
        returned = sym (ap (λ (x : ReserveResult × CalendarStore). x.0.booking) (ok_injective h1));
        price_is = sym (ap (λ (x : ReserveResult × CalendarStore). x.0.price) (ok_injective h1));
        kept = λ k. subst Kept rows (create_appointment-Kept s row u hu k);
      }
]

module _ (s : CalendarStore) (input : ReserveInput) (id : Text) (service : ServiceSnapshot)
    (expires_at : Option ℕ) where
  -- Of the row that was inserted.
  Written-row :
      (claimed : Option ℕ × CalendarStore)
      → claim_idempotency_key s input.idempotency_key ≡ ok claimed
      → (price : Money) → load_effective_assignment s service.id id input.actor ≡ ok price
      → (block : Interval) → block_of service input.starts_at ≡ some block
      → (u : CalendarStore) (new_id customer_id : ℕ) (r : ReserveResult × CalendarStore)
      → Inserted u
          (new_appointment new_id input id service block customer_id price expires_at claimed.0)
          price
          r
      → u.appointments ≡ claimed.1.appointments
      → Written s input id service expires_at r.0.booking r.0.price r.1
  unfolding new_appointment
  Written-row claimed hc price hp block hb u new_id customer_id r w same =
      let row =
        new_appointment new_id input id service block customer_id price expires_at claimed.0 in
      subst (λ p. Written s input id service expires_at r.0.booking p r.1) (sym w.price_is)
        (subst (λ b. Written s input id service expires_at b price r.1) (sym w.returned)
          (record {
            claimed = claimed;
            claimed_eq = hc;
            stored = w.stored ∙ ap (λ rows. row ∷ rows) same;
            excluded = subst (λ rows. is_excluded row rows ≡ false) same w.excluded;
            priced = hp;
            blocked = hb;
            taken_by = refl;
            starts = refl;
            ends = refl;
            in_status = refl;
            due = refl;
            charged = refl;
          }))

  pub write_booking-Written :
      (r : ReserveResult × CalendarStore)
      → write_booking s input id service expires_at ≡ ok r
      → Written s input id service expires_at r.0.booking r.0.price r.1
        × (Kept s.appointments → Kept r.1.appointments)
  unfolding write_booking
  write_booking-Written r h =
      elim (Chain-of (load_effective_assignment s service.id id input.actor) _ h) [
        | chain price hp h1 ↦ elim (Chain-of (claim_idempotency_key s input.idempotency_key) _ h1) [
          | chain claimed hc h2 ↦ elim (Option-cases (block_of service input.starts_at)) [
            | inl early ↦ absurd (cc (rw (early) at h2))
            | inr (block, hb) ↦
                let customer_row = upsert_customer claimed.1 input.email_normalized input.locale in
                let row =
                  new_appointment customer_row.1.next_id input id service block customer_row.0 price
                    expires_at claimed.0 in
                let u = record customer_row.1 { next_id = customer_row.1.next_id + 1 } in
                let w =
                  insert_row-Inserted u input row price claimed.0 r
                    (creatable_status input.actor (rw (hb) at h2)) in
                let same : customer_row.1.appointments ≡ claimed.1.appointments =
                  upsert_customer-appointments claimed.1 input.email_normalized input.locale in
                (
                  Written-row claimed hc price hp block hb u customer_row.1.next_id customer_row.0 r
                      w same,
                  λ k. w.kept (
                      subst Kept (sym same)
                        (claim_idempotency_key-Kept s input.idempotency_key claimed hc k)),
                )
          ]
        ]
      ]
