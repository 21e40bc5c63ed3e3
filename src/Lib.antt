-- ===== src/Lib.antt =====
-- Shape and Flow: a verification library for the booking application in booking-app/apps/api/src.
--
-- The parts, and how they interact:
--   Base          numbers, lists, integers, texts, sorting and results shared by the rest.
--   Interval      domain/time/interval.ts: half-open intervals, `mergeAdjacent`, `subtract`.
--   LocalTime     domain/time/local-time.ts: from a wall clock in a zone to instants and back.
--   Availability  domain/availability/types.ts and engine.ts: `segmentsFor`, `gridMinutes`,
--                 `employeeSlotsFor`, `generateAvailability`, `isSlotBookable`; office-view.ts
--                 (Office, Horizon). It asks LocalTime where a segment, a break and a candidate lie, and
--                 Interval which pieces of a segment the breaks leave.
--   Selection     domain/employee-selection/select-employee.ts: who takes an "any employee" booking.
--   Money         domain/money/money.ts, and under it domain/pricing/pricing.ts (Pricing) and
--                 domain/pricing/cancellation-fee.ts (Fee).
--   Booking       booking/booking-status.machine.ts (Status, Transitions), and in Saga
--                 booking/expiry.service.ts, booking/booking-confirmation.service.ts and the issue of
--                 a token in manage/management-token.service.ts.
--   Calendar      public/availability-snapshot.service.ts (Snapshot), the tables that it and the
--                 reservation read (Rows), the constraints of the bookings' table in
--                 prisma/migrations (Writes), and booking/reservation.service.ts with
--                 booking/customer-upsert.service.ts (Reservation). It gives Availability its
--                 snapshot, asks whether a slot is bookable, and writes the booking.
--   Refund        payment/refund.service.ts and rootBookingId of
--                 payment/booking-financials.service.ts: Store holds the rows and the queries,
--                 Service the reservation, which computes with Money, Settling the rest.
--   Desk          booking/cancellation.service.ts (Cancelling, Deciding), office/received.ts (Paid),
--                 booking/attendance.service.ts and payment/manual-payment.service.ts (Recording),
--                 booking/reschedule.service.ts (Moving).
--                 A desk is the calendar's tables beside the ledger of Refund, whose bookings are
--                 those of the calendar, and the requests of customers.
--   Occupancy     an abstract view of the calendars (View, Refines), and Desk's calls in it (Calls).
--   Export        office/csv.ts (Csv), with a reader of such lines (Reader).
--   Examples      concrete inputs at which the theorems are applied.
--
-- Names follow the source: `employeeSlotsFor` is `employee_slots_for`, a field `startMinute` is
-- `start_minute`. A loop of a long function is a function of its own, called where the loop stands.
--
-- How the source is read:
--   An instant is a number of milliseconds from the earliest `Date` value; a block whose start
--   would lie before it is an invalid date, with which no comparison holds. There is no latest date.
--   Dates, ids and currencies are texts of UTF-16 code units, compared the way `<` compares strings.
--   `sort` is a stable insertion sort.
--   A throw is `err` with the error's code. What a function pushes onto a list of its caller it
--   returns.
--   The luxon package is a record of functions, a parameter of LocalTime and of what uses it.
--   Amounts are exact integers with the safe range checked where `assertValidAmount` does. A
--   percentage is computed as doubles are: the product and the hundredth are each rounded to the
--   nearest double (`rounded_product`, `hundredth`), and then cut off. Where the amount times the
--   percent is a safe integer, as with every amount that a database column can hold, that is exact.
--   The hours until a start are kept as milliseconds, which the comparisons decide alike.
--   A row of the store keeps the columns that decisions are made by; ids are numbers and fresh ones
--   are counted up. A transaction is one step from store to store where its row locks make it one, and
--   one that throws leaves the store as it was; a retried one leaves no trace either. Two operations
--   read a store other than the one they write: `reserve` chooses the employee from what it has
--   `seen` before its transaction, and `apply_settlement`, which locks nothing but the refund's row,
--   sums the refunds that it has `seen`, while reservations may commit. Histories of the ledger leave
--   out that two settlements are under way at once: the source does not keep them apart, and then
--   the later one's sum lacks the earlier (a run in Examples/Refunds). The calls of one organization
--   are modelled. What the payment provider answers is an argument, and steps of
--   others may come between the question and what follows the answer. A settlement that
--   throws inside `execute` would be tried again as a failure there; it throws for a missing payment
--   alone, and so again with the same error.
--
--   The approval of a reschedule reads its booking without the row's lock; the model takes the read
--   and the writes as one step, which a cancellation in between would break.
--
-- Fuel: the grid of a segment takes one round more than its last minute, which a step of at least
-- one minute never uses up. A range of dates takes two rounds more than the milliseconds between its
-- ends, and is `err hang` beyond that.
--
-- Not modelled: rendering of amounts, date columns, logging, audit columns and reasons, the
-- framework's wiring, controllers, the web application, mail and text messages, the client of the
-- payment provider, and the services for checkout and messaging.
pub mod Base
pub mod Interval
pub mod LocalTime
pub mod Availability
pub mod Selection
pub mod Money
pub mod Booking
pub mod Calendar
pub mod Refund
pub mod Desk
pub mod Export
pub mod Occupancy
pub mod Examples
