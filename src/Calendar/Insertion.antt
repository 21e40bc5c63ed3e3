-- ===== src/Calendar/Insertion.antt =====
-- booking-app/apps/api/src/booking/reservation.service.ts: what a reservation is given and what it
-- writes, with the customer's row of customer-upsert.service.ts.
use shape_and_flow.Base.{
  ℕ, ◌+◌, ◌*◌, Bool, true, false, ◌&&◌, ◌||◌, not, Option, none, some, List, [], ◌∷◌, ◌++◌, map,
  find, ltb, ◌==◌, if◌then◌else◌, Outcome, ok, err, not_found, internal_error,
  outside_booking_window, idempotency_key_reused, ◌>>=◌, ◌>>◌,
}
use shape_and_flow.Base.Text.{Text, text_eqb}
use shape_and_flow.Interval.{Interval}
use shape_and_flow.Availability.Types.{ServiceSnapshot, AvailabilitySnapshot}
use shape_and_flow.Availability.Candidates.{minute_ms, hour_ms, block_of}
use shape_and_flow.Availability.Office.{as_office_snapshot}
use shape_and_flow.Money.{Money}
use shape_and_flow.Money.Pricing.{resolve_effective_price}
use shape_and_flow.Booking.Status.{BookingStatus, pending_payment, confirmed, assert_transition}
use shape_and_flow.Booking.Saga.{grace_ms}
use shape_and_flow.Calendar.Rows.{
  OrganizationSettings, AppointmentRow, ClaimableKey, TokenRow, CalendarEvent, expiry_requested,
  confirmed_event, CalendarStore,
}
use shape_and_flow.Calendar.Writes.{create_appointment, moved}

pub data ReserveActor : Type 0 where
  customer office : ReserveActor

abbrev pub is_office : ReserveActor → Bool
is_office customer = false
is_office office = true

-- The customer's address comes normalised.
pub record ReserveInput : Type 0 where
  pub service_id : Text
  pub employee_id : Option Text
  pub starts_at : ℕ
  pub email_normalized : Text
  pub locale : ℕ
  pub actor : ReserveActor
  pub idempotency_key : Option ℕ

pub record ReserveResult : Type 0 where
  pub booking : AppointmentRow
  pub price : Money
  pub has_token : Bool

abbrev pub day_ms : ℕ
day_ms = 86400000

-- `assertWithinBookingWindow`.
unfoldable pub assert_within_booking_window : OrganizationSettings → ℕ → ℕ → Outcome (Unit {0})
assert_within_booking_window organization now starts_at =
    let earliest = now + organization.availability.minimum_notice_hours * hour_ms in
    let latest = now + organization.availability.booking_horizon_days * day_ms in
    if ltb starts_at earliest || ltb latest starts_at then err outside_booking_window else ok tt

-- `upsert` of the customer: a returning one keeps all but the locale.
unfoldable pub upsert_customer : CalendarStore → Text → ℕ → ℕ × CalendarStore
upsert_customer s email locale = elim (find (λ c. text_eqb c.email_normalized email) s.customers) [
  | some c ↦ (
    c.id,
    record s {
      customers =
          map (λ x. if text_eqb x.email_normalized email then record x { locale = locale } else x)
            s.customers;
    },
  )
  | none ↦ (
    s.next_id,
    record s {
      customers =
          record { id = s.next_id; email_normalized = email; locale = locale } ∷ s.customers;
      next_id = s.next_id + 1;
    },
  )
]

-- `claimIdempotencyKey`: an earlier booking of the key lets go of it.
abbrev pub same_key : Option ℕ → ℕ → Bool
same_key none id = false
same_key (some k) id = k == id

abbrev pub let_go : ℕ → AppointmentRow → AppointmentRow
let_go key_id a =
    if same_key a.idempotency_key_id key_id then record a { idempotency_key_id = none } else a

unfoldable pub claim_idempotency_key : CalendarStore → Option ℕ → Outcome (Option ℕ × CalendarStore)
claim_idempotency_key s none = ok (none, s)
claim_idempotency_key s (some key) = elim (find (λ k. k.key == key && k.is_in_progress) s.keys) [
  | none ↦ err idempotency_key_reused
  | some k ↦ ok (some k.id, record s { appointments = map (let_go k.id) s.appointments })
]

abbrev pub bind_key : ℕ → ℕ → ClaimableKey → ClaimableKey
bind_key key_id booking_id k =
    if k.id == key_id then record k { booking_id = some booking_id } else k

abbrev pub bind_claimed : Option ℕ → ℕ → List ClaimableKey → List ClaimableKey
bind_claimed none booking_id keys = keys
bind_claimed (some key_id) booking_id keys = map (bind_key key_id booking_id) keys

-- `loadEffectiveAssignment`: the price for the employee.
unfoldable pub load_effective_assignment :
    CalendarStore → Text → Text → ReserveActor → Outcome Money
unfolding resolve_effective_price
load_effective_assignment s service_id employee_id actor =
    elim (find (λ l. text_eqb l.service_id service_id && text_eqb l.employee_id employee_id)
      s.assignments) [
        | none ↦ err not_found
        | some link ↦
            elim (find
              (λ e.
                text_eqb e.id employee_id
                && not e.is_archived
                && (is_office actor || e.is_bookable_online))
              s.employees) [
                | none ↦ err not_found
                | some e ↦
                    elim (find (λ r. text_eqb r.snapshot.id service_id && not r.is_archived)
                      s.services) [
                        | none ↦ err not_found
                        | some r ↦
                            resolve_effective_price
                              (record { price_cents = r.price_cents; currency = r.currency })
                              (some (record { price_override_cents = link.price_override_cents }))
                      ]
              ]
      ]

-- `forActor`.
abbrev pub for_actor : AvailabilitySnapshot → ReserveActor → AvailabilitySnapshot
for_actor snapshot customer = snapshot
for_actor snapshot office = as_office_snapshot snapshot

-- An office booking is confirmed as it is made.
abbrev pub initial_status : ReserveActor → BookingStatus
initial_status customer = pending_payment
initial_status office = confirmed

abbrev pub events_for : ReserveActor → Option ℕ → ℕ → List CalendarEvent
events_for customer none id = []
events_for customer (some t) id = expiry_requested id t ∷ []
events_for office none id = confirmed_event id ∷ []
events_for office (some t) id = confirmed_event id ∷ expiry_requested id t ∷ []

abbrev pub tokens_for : ReserveActor → ℕ → ℕ → List TokenRow
tokens_for customer id ends_at = []
tokens_for office id ends_at =
    record { booking_id = id; expires_at = ends_at + grace_ms; is_revoked = false } ∷ []

-- The row that is written.
unfoldable pub new_appointment :
    ℕ
    → ReserveInput
    → Text
    → ServiceSnapshot
    → Interval
    → ℕ
    → Money
    → Option ℕ
    → Option ℕ
    → AppointmentRow
new_appointment id input employee_id service block customer_id price expires_at key_id = record {
  id = id;
  employee_id = employee_id;
  customer_id = customer_id;
  service = service;
  span = record {
    start = input.starts_at;
    end = input.starts_at + service.duration_minutes * minute_ms;
  };
  block = block;
  price_cents = price.amount_cents;
  currency = price.currency;
  status = initial_status input.actor;
  expires_at = expires_at;
  idempotency_key_id = key_id;
  rescheduled_from = none;
  financial_root = none;
}

-- What follows the insertion of the row: the key is bound, then events, history and a token.
unfoldable pub finish_insert :
    CalendarStore → ReserveInput → AppointmentRow → Option ℕ → CalendarStore
finish_insert s input row key_id = record s {
  keys = bind_claimed key_id row.id s.keys;
  history = moved row.id none row.status ∷ s.history;
  tokens = tokens_for input.actor row.id row.span.end ++ s.tokens;
  outbox = events_for input.actor row.expires_at row.id ++ s.outbox;
}

-- The insertion of the row.
unfoldable pub insert_row :
    CalendarStore
    → ReserveInput
    → AppointmentRow
    → Money
    → Option ℕ
    → Outcome (ReserveResult × CalendarStore)
unfolding create_appointment finish_insert
insert_row s input row price key_id = create_appointment s row >>= λ u. ok (
  record { booking = row; price = price; has_token = is_office input.actor },
  finish_insert u input row key_id,
)

-- What is written once the slot is found free.
unfoldable pub write_booking :
    CalendarStore
    → ReserveInput
    → Text
    → ServiceSnapshot
    → Option ℕ
    → Outcome (ReserveResult × CalendarStore)
unfolding load_effective_assignment claim_idempotency_key upsert_customer block_of assert_transition
    new_appointment insert_row
write_booking s input employee_id service expires_at = do
  price ← load_effective_assignment s service.id employee_id input.actor
  claimed ← claim_idempotency_key s input.idempotency_key
  let (customer_id, t) = upsert_customer claimed.1 input.email_normalized input.locale
  elim (block_of service input.starts_at) [
    | none ↦ err internal_error
    | some block ↦
        assert_transition none (initial_status input.actor)
        >> (let row =
              new_appointment t.next_id input employee_id service block customer_id price expires_at
                claimed.0 in
            insert_row (record t { next_id = t.next_id + 1 }) input row price claimed.0)
  ]
