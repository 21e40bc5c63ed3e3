-- ===== src/Booking/Transitions.antt =====
-- The permitted moves as a diagram: blocking and terminal are complements, a slot once released is
-- never taken again, and every status can come to an end.
use shape_and_flow.Base.{ℕ, suc, ◌+◌, ◌≤◌, ◌<◌, ◌≡◌, refl, true, false, not, some, arith, ok}
use shape_and_flow.Booking.Status.{
  BookingStatus, pending_payment, expiring, confirmed, is_blocking, is_terminal, assert_transition,
}

-- A run of moves that `assertTransition` all lets pass.
pub data Moves : BookingStatus → BookingStatus → Type 0 where
  here : {s : BookingStatus} → Moves s s
  move :
      {s u : BookingStatus} (t : BookingStatus)
      → assert_transition (some s) t ≡ ok tt
      → Moves t u
      → Moves s u

abbrev pub count_moves : {s u : BookingStatus} → Moves s u → ℕ
count_moves here = 0
count_moves (move t h rest) = suc (count_moves rest)

-- How far a status is from its end at most.
abbrev rank : BookingStatus → ℕ
rank pending_payment = 3
rank expiring = 2
rank confirmed = 1
rank _ = 0

step-rank : (s t : BookingStatus) → assert_transition (some s) t ≡ ok tt → rank t < rank s
unfolding assert_transition
step-rank s t h = ground arith

-- A status blocks its employee exactly when it is not terminal.
pub is_blocking-not-is_terminal : (s : BookingStatus) → is_blocking s ≡ not (is_terminal s)
unfolding is_blocking is_terminal
is_blocking-not-is_terminal s = ground arith

Moves-rank : {s u : BookingStatus} (m : Moves s u) → count_moves m + rank u ≤ rank s
Moves-rank here = omega arith
Moves-rank (move {s = s} {u = u} t h rest) = omega (arith, step-rank s t h, Moves-rank rest)

rank-le : (s : BookingStatus) → rank s ≤ 3
rank-le s = ground arith

-- A move starts from a status that blocks, and that is not terminal.
step-is_blocking :
    (s t : BookingStatus)
    → assert_transition (some s) t ≡ ok tt
    → (is_blocking s ≡ true) × (is_terminal s ≡ false)
unfolding assert_transition is_blocking is_terminal
step-is_blocking s t h = ground arith

-- However a booking moves, it does so at most three times; it never blocks its employee again once
-- it has stopped to, and never leaves a terminal status.
pub Moves_settle :
    {s u : BookingStatus} (m : Moves s u)
    → (count_moves m ≤ 3)
      × (is_blocking s ≡ false → is_blocking u ≡ false)
      × (is_terminal s ≡ true → u ≡ s)
Moves_settle here = (omega arith, λ h. h, λ h. refl)
Moves_settle (move {s = s} {u = u} t h rest) =
    let (busy, open_end) = step-is_blocking s t h in
    (
      omega (arith, step-rank s t h, Moves-rank rest, rank-le s),
      λ free. ground (arith, busy),
      λ over. ground (arith, open_end),
    )
