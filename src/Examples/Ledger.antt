-- ===== src/Examples/Ledger.antt =====
-- The ledger of the small shop.
use just1kbot.Prelude.{pos, ◌+ℤ◌, ◌-ℤ◌, ◌≤ℤ◌, abs_ℤ, true, false, some, ◌≡◌, refl, arith}
use just1kbot.Database.{Error, ok, err}
use just1kbot.Ledger.Balance.{snapshot, position, sum_entries, sum_allocations}
use just1kbot.Ledger.Balance.Buckets.{IsBalanced, snapshot-IsBalanced}
use just1kbot.Ledger.Entries.{new_entry, append_entry, conflicts_with}
use just1kbot.Ledger.Lots.{
  credit_capacity, candidate_lots, sort_lots, insert_lot, allocate_fifo, used_of_credit,
}
use just1kbot.Ledger.Lots.Fifo.{allocated, AllFit}
use just1kbot.Ledger.Lots.Allocation.{funds, created, allocate_fifo-covers}
use just1kbot.Ledger.Operations.{
  order_debit_values, order_credit_values, create_order_debit, create_order_credit,
  create_order_refund_debit, credit_total, debited_total,
}
use just1kbot.Ledger.Operations.Idempotence.{create_order_credit-again}
use just1kbot.Ledger.Operations.RefundCap.{create_order_refund_debit-capped}
use just1kbot.Ledger.Coverage.Append.{IsCovered}
use just1kbot.Ledger.Coverage.Debit.{
  debit_amount, payments, after_debit, create_order_debit-IsCovered,
}
use just1kbot.Ledger.Coverage.Credit.{create_order_credit-IsCovered}
use just1kbot.Examples.Data.{shop, customer}

funds-shop : funds shop 1 ≡ pos 35000
unfolding candidate_lots sort_lots insert_lot credit_capacity used_of_credit sum_entries
    sum_allocations ◌+ℤ◌ ◌-ℤ◌
funds-shop = refl

pub position-shop : position shop 1 ≡ pos 35000
unfolding position sum_entries ◌+ℤ◌
position-shop = refl

pub shop-IsCovered : IsCovered shop 1
unfolding credit_capacity used_of_credit sum_entries sum_allocations position ◌+ℤ◌ ◌-ℤ◌
shop-IsCovered = omega arith

create_order_debit-IsCovered_example :
    let after = after_debit shop customer (pos 32000) 71 in
    (create_order_debit 1 (pos 32000) 71 (some customer) shop ≡ (
      ok (some (new_entry (order_debit_values 1 (debit_amount (pos 32000)) 71) shop), true),
      after,
    ))
    × (allocated (payments shop customer (pos 32000) 71) ≡ pos 32000)
    × (position after 1 +ℤ pos 32000 ≡ position shop 1)
    × IsCovered after 1
unfolding conflicts_with
create_order_debit-IsCovered_example =
    create_order_debit-IsCovered shop customer (pos 32000) 71 (omega arith) refl shop-IsCovered
      (refl, (refl, tt)) (rw position-shop (omega arith)) refl

allocate_fifo-covers_example :
    (allocate_fifo 1 3 (pos 32000) shop ≡ (
      ok (created shop 1 3 (pos 32000)),
      record shop { allocations = created shop 1 3 (pos 32000) },
    ))
    × (allocated (created shop 1 3 (pos 32000)) ≡ pos 32000)
    × AllFit (credit_capacity shop) (candidate_lots shop 1) (created shop 1 3 (pos 32000))
allocate_fifo-covers_example =
    allocate_fifo-covers shop 1 3 (pos 32000) (omega arith) (rw funds-shop (omega arith))

create_order_refund_debit-capped_example :
    let after = (create_order_refund_debit (λ s. s) 1 (pos 20000) 70 "r1" shop).1 in
    (credit_total after 70 ≡ credit_total shop 70)
    × (abs_ℤ (debited_total after 70) ≤ℤ credit_total after 70)
unfolding credit_total debited_total sum_entries ◌+ℤ◌
create_order_refund_debit-capped_example =
    create_order_refund_debit-capped (λ s. s) 1 70 (pos 20000) "r1" shop (omega arith) (omega arith)

create_order_credit-again_example :
    let v = order_credit_values 1 (pos 10000) 72 in
    let after = append_entry v shop in
    (create_order_credit 1 (pos 10000) 72 shop ≡ (ok (new_entry v shop, true), after))
    × (create_order_credit 1 (pos 10000) 72 after ≡ (ok (new_entry v shop, false), after))
    × (create_order_credit 1 (pos 20000) 72 after ≡ (err Error.conflict, after))
unfolding conflicts_with
create_order_credit-again_example =
    create_order_credit-again shop 1 72 (pos 10000) (pos 20000) (omega arith) refl (omega arith)
      refl refl refl

snapshot-IsBalanced_example : IsBalanced (position shop 1) (snapshot shop 1)
snapshot-IsBalanced_example = snapshot-IsBalanced shop 1

create_order_credit-IsCovered_example :
    let (answer, after) = create_order_credit 1 (pos 10000) 72 shop in
    (answer ≡ ok (new_entry (order_credit_values 1 (pos 10000) 72) shop, true))
    × (position after 1 ≡ position shop 1 +ℤ pos 10000)
    × IsCovered after 1
unfolding conflicts_with used_of_credit debited_total sum_entries sum_allocations ◌+ℤ◌
create_order_credit-IsCovered_example =
    create_order_credit-IsCovered shop 1 72 (pos 10000) (omega arith) refl refl refl refl
      shop-IsCovered
