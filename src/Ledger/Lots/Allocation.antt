-- ===== src/Ledger/Lots/Allocation.antt =====
-- `_allocate_fifo` as a whole: it attributes a debit in full, or it raises.
use just1kbot.Prelude.{
  ℕ, pos, ◌≤ℤ◌, ◌<ℤ◌, eqb_ℤ, int_laws, eq_of_parts, false, List, ◌++◌, inl, inr, ◌≡◌, refl, arith,
}
use just1kbot.Database.{Decimal, AccountLedgerAllocation, Db, Error, ok, err}
use just1kbot.Ledger.Lots.{take_lots, credit_capacity, candidate_lots, allocate_fifo}
use just1kbot.Ledger.Lots.Fifo.{
  spendable, allocated, AllFit, Splits, take_lots-IsSplit, take_lots-AllFit,
}

eqb_ℤ-pos : (a : Decimal) → pos 0 <ℤ a → eqb_ℤ a (pos 0) ≡ false
eqb_ℤ-pos a h = ground arith

-- What the lots of a user can still pay.
abbrev pub funds : Db → ℕ → Decimal
funds db user_id = spendable (credit_capacity db) (candidate_lots db user_id)

module _ (db : Db) (user_id debit_id : ℕ) (amount : Decimal) where
  abbrev taken : List AccountLedgerAllocation × Decimal
  taken = take_lots (credit_capacity db) user_id debit_id (candidate_lots db user_id) amount

  -- The allocations that the call makes.
  abbrev pub created : List AccountLedgerAllocation
  created = taken.0

  left_zero : pos 0 ≤ℤ amount → amount ≤ℤ funds db user_id → taken.1 ≡ pos 0
  left_zero h k =
      let s : Splits (credit_capacity db) (candidate_lots db user_id) amount (allocated created)
          taken.1 =
        take_lots-IsSplit (credit_capacity db) user_id debit_id (candidate_lots db user_id) amount
          h in
      elim s.exhausts [
        | inl z ↦ z
        | inr e ↦ eq_of_parts taken.1 (pos 0) (grind (int_laws, s.adds_up, s.nonneg))
      ]

  -- A debit, not negative, that the lots can pay is attributed in full: the new allocations add up
  -- to it, each takes something from one of the user's lots and no more than the lot still had, and
  -- nothing else changes.
  pub allocate_fifo-covers :
      pos 0 ≤ℤ amount
      → amount ≤ℤ funds db user_id
      → (allocate_fifo user_id debit_id amount db
          ≡ (ok created, record db { allocations = Db.allocations db ++ created }))
        × (allocated created ≡ amount)
        × AllFit (credit_capacity db) (candidate_lots db user_id) created
  unfolding allocate_fifo
  allocate_fifo-covers h k =
      let s : Splits (credit_capacity db) (candidate_lots db user_id) amount (allocated created)
          taken.1 =
        take_lots-IsSplit (credit_capacity db) user_id debit_id (candidate_lots db user_id) amount
          h in
      (
        rw (left_zero h k) refl,
        grind (int_laws, s.adds_up, left_zero h k),
        take_lots-AllFit (credit_capacity db) user_id debit_id (candidate_lots db user_id) amount h,
      )

  -- A debit, not negative, beyond what the lots can pay raises the invariant error.
  allocate_fifo-refuses :
      pos 0 ≤ℤ amount
      → funds db user_id <ℤ amount
      → (allocate_fifo user_id debit_id amount db).0 ≡ err Error.ledger_invariant
  unfolding allocate_fifo
  allocate_fifo-refuses h k =
      let s : Splits (credit_capacity db) (candidate_lots db user_id) amount (allocated created)
          taken.1 =
        take_lots-IsSplit (credit_capacity db) user_id debit_id (candidate_lots db user_id) amount
          h in
      let n : eqb_ℤ taken.1 (pos 0) ≡ false =
        eqb_ℤ-pos taken.1 (grind (int_laws, s.adds_up, s.affordable)) in
      rw n refl
