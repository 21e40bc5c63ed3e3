-- ===== src/Refund/Sums.antt =====
-- Sums over the refunds of a payment, as rows are added and updated.
use shape_and_flow.Base.{
  ℕ, ◌+◌, ◌≤◌, ◌<◌, ◌≡◌, refl, inl, inr, Bool, ◌&&◌, none, some, List, [], ◌∷◌, arith, All, ◌==◌,
  if◌then◌else◌, Bool-cases,
}
use shape_and_flow.Refund.Store.{RefundStatus, RefundRow, find_refund, sum_refunds, update_refund}

-- The amount of a row that the test counts.
abbrev pub counted : (RefundStatus → Bool) → ℕ → RefundRow → ℕ
counted test payment r = if r.payment_id == payment && test r.status then r.amount_cents else 0

-- No two refunds have one id.
abbrev pub DistinctRefunds : List RefundRow → Type 0
DistinctRefunds [] = Unit
DistinctRefunds (r ∷ rs) = (find_refund r.id rs ≡ none) × DistinctRefunds rs

update_refund-absent :
    (id : ℕ) (change : RefundRow → RefundRow) (rs : List RefundRow)
    → find_refund id rs ≡ none
    → update_refund id change rs ≡ rs
unfolding update_refund
update_refund-absent id change [] h = refl
update_refund-absent id change (r ∷ rs) h = ground (arith, update_refund-absent id change rs)

-- Updating one row moves its own part of the sum alone.
pub sum_refunds-update :
    (test : RefundStatus → Bool) (payment id : ℕ) (change : RefundRow → RefundRow)
    (rs : List RefundRow) (r : RefundRow)
    → find_refund id rs ≡ some r
    → DistinctRefunds rs
    → sum_refunds test payment (update_refund id change rs) + counted test payment r
      ≡ sum_refunds test payment rs + counted test payment (change r)
unfolding sum_refunds update_refund
sum_refunds-update test payment id change [] r h d = cc
sum_refunds-update test payment id change (x ∷ rs) r h d = elim (Bool-cases (x.id == id)) [
  | inl hit ↦
      let same : x ≡ r = ground arith in
      let ids : x.id ≡ id = ground arith in
      let gone = update_refund-absent id change rs (rw (← ids) d.0) in
      rw (hit, update_refund, gone, sum_refunds, same) (omega arith)
  | inr miss ↦
      rw (miss, update_refund, sum_refunds)
        (omega (arith, sum_refunds-update test payment id change rs r (ground arith) d.1))
]

find_refund-update :
    (id key : ℕ) (change : RefundRow → RefundRow) (rs : List RefundRow)
    → ((r : RefundRow) → (change r).id ≡ r.id)
    → find_refund key rs ≡ none
    → find_refund key (update_refund id change rs) ≡ none
unfolding update_refund
find_refund-update id key change [] k h = refl
find_refund-update id key change (r ∷ rs) k h =
    ground (arith, k r, find_refund-update id key change rs k)

pub update_refund-DistinctRefunds :
    (id : ℕ) (change : RefundRow → RefundRow) (rs : List RefundRow)
    → ((r : RefundRow) → (change r).id ≡ r.id)
    → DistinctRefunds rs
    → DistinctRefunds (update_refund id change rs)
unfolding update_refund
update_refund-DistinctRefunds id change [] k d = tt
update_refund-DistinctRefunds id change (r ∷ rs) k d = (
  ground (arith, k r, find_refund-update id r.id change rs k d.0),
  update_refund-DistinctRefunds id change rs k d.1,
)

-- Every id is below the next one.
abbrev pub Fresh : ℕ → List RefundRow → Type 0
Fresh n = All (λ r. r.id < n)

pub Fresh-find : (n : ℕ) (rs : List RefundRow) → Fresh n rs → find_refund n rs ≡ none
Fresh-find n [] h = refl
Fresh-find n (r ∷ rs) h = ground (arith, h.0, Fresh-find n rs h.1)

pub Fresh-mono : (m n : ℕ) (rs : List RefundRow) → m ≤ n → Fresh m rs → Fresh n rs
Fresh-mono m n [] l h = tt
Fresh-mono m n (r ∷ rs) l h = (omega arith, Fresh-mono m n rs l h.1)

pub update_refund-Fresh :
    (n id : ℕ) (change : RefundRow → RefundRow) (rs : List RefundRow)
    → ((r : RefundRow) → (change r).id ≡ r.id)
    → Fresh n rs
    → Fresh n (update_refund id change rs)
unfolding update_refund
update_refund-Fresh n id change [] k h = tt
update_refund-Fresh n id change (r ∷ rs) k h =
    (ground (arith, k r, h.0), update_refund-Fresh n id change rs k h.1)
