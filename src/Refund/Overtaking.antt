-- ===== src/Refund/Overtaking.antt =====
-- What reservations that commit while a settlement is under way leave of what it has read.
use shape_and_flow.Base.{
  ℕ, ◌≡◌, refl, sym, subst, inl, inr, Bool, true, false, none, some, List, ◌∷◌, arith, ◌==◌,
  Bool-cases, ok, ◌&&◌,
}
use shape_and_flow.Refund.Store.{
  RefundRow, find_refund, sum_refunds, update_refund, is_pending, is_succeeded, Store,
}
use shape_and_flow.Refund.Service.{
  ReserveRefundInput, RefundReservationResult, create_refund, reserve_in_transaction,
}
use shape_and_flow.Refund.Sums.{Fresh-find}
use shape_and_flow.Refund.Ledger.{IsSound}
use shape_and_flow.Refund.Reserve.{nothing, reserves, reserve_in_transaction-Reserves}

-- The rows, with open ones of unused ids added.
pub data Extends (rs : List RefundRow) : List RefundRow → Type 0 where
  as_read : Extends rs rs
  opened :
      (r : RefundRow) (ts : List RefundRow)
      → is_pending r.status ≡ true
      → find_refund r.id ts ≡ none
      → Extends rs ts
      → Extends rs (r ∷ ts)

-- A row that was read is still there.
pub Extends-find :
    (rs ts : List RefundRow) (id : ℕ) (q : RefundRow)
    → Extends rs ts
    → find_refund id rs ≡ some q
    → find_refund id ts ≡ some q
Extends-find rs _ id q as_read h = h
Extends-find rs _ id q (opened r ts w fresh e) h =
    let below = Extends-find rs ts id q e h in
    elim (Bool-cases (r.id == id)) [
      | inr apart ↦ rw (apart) below
      | inl same ↦
          let own : r.id ≡ id = ground arith in
          absurd (cc (subst (λ i. find_refund i ts ≡ none) own fresh, below))
    ]

open-not_succeeded : (r : RefundRow) → is_pending r.status ≡ true → is_succeeded r.status ≡ false
open-not_succeeded r h = ground arith

and_false : (b : Bool) → (b && false) ≡ false
and_false b = ground arith

-- What had settled is still all that has, also with the settlement's own row changed.
pub Extends-sum :
    (rs ts : List RefundRow) (id payment : ℕ) (change : RefundRow → RefundRow) (q : RefundRow)
    → Extends rs ts
    → find_refund id rs ≡ some q
    → sum_refunds is_succeeded payment (update_refund id change rs)
      ≡ sum_refunds is_succeeded payment (update_refund id change ts)
unfolding sum_refunds update_refund
Extends-sum rs _ id payment change q as_read h = refl
Extends-sum rs _ id payment change q (opened r ts w fresh e) h =
    let below = Extends-sum rs ts id payment change q e h in
    elim (Bool-cases (r.id == id)) [
      | inr apart ↦
          rw (update_refund, apart, sum_refunds, open-not_succeeded r w, and_false _)
            (omega (arith, below))
      | inl same ↦
          let own : r.id ≡ id = ground arith in
          absurd (cc (subst (λ i. find_refund i ts ≡ none) own fresh, Extends-find rs ts id q e h))
    ]

-- A reservation adds such a row, or none.
pub reserve_in_transaction-Extends :
    (rs : List RefundRow) (s : Store) (input : ReserveRefundInput)
    (r : RefundReservationResult × Store)
    → IsSound s
    → reserve_in_transaction s input ≡ ok r
    → Extends rs s.refunds
    → Extends rs r.1.refunds
unfolding create_refund
reserve_in_transaction-Extends rs s input r v h x =
    elim (reserve_in_transaction-Reserves s input r h) [
      | nothing _ e ↦ subst (λ (t : Store). Extends rs t.refunds) (sym e) x
      | reserves payment cents _ _ _ _ _ _ e ↦
          subst (λ (t : Store). Extends rs t.refunds) (sym e)
            (opened _ s.refunds refl (Fresh-find s.next_id s.refunds v.fresh) x)
    ]
