-- ===== src/Examples/Bookings.antt =====
-- A booking that is paid for and attended.
use shape_and_flow.Base.{◌≡◌, ◌≤◌, refl, true, false}
use shape_and_flow.Booking.Status.{
  pending_payment, confirmed, completed, is_blocking, is_terminal, assert_transition,
}
use shape_and_flow.Booking.Transitions.{Moves, here, move, count_moves, Moves_settle}

abbrev attended : Moves pending_payment completed
unfolding assert_transition
attended = move confirmed refl (move completed refl here)

Moves_settle_example :
    (count_moves attended ≤ 3)
    × (is_blocking pending_payment ≡ false → is_blocking completed ≡ false)
    × (is_terminal pending_payment ≡ true → completed ≡ pending_payment)
Moves_settle_example = Moves_settle attended
