-- ===== src/Ledger/Lots/Fifo.antt =====
-- The loop of `_allocate_fifo` covers a debit exactly when the lots can, and takes no lot beyond
-- its capacity.
use just1kbot.Prelude.{
  ℕ, pos, ◌+ℤ◌, ◌-ℤ◌, ◌≤ℤ◌, max_ℤ, int_laws, eq_of_parts, zero-+ℤ, ◌∙◌, max_zero-cases, leb_ℤ-cases,
  ◌<ℤ◌, ◌⊎◌, inl, inr, List, [], ◌∷◌, ◌≡◌, refl, arith,
}
use just1kbot.Database.{Decimal, AccountLedgerEntry, AccountLedgerAllocation}
use just1kbot.Ledger.Lots.{take_lots}

-- What the lots can still pay.
abbrev pub spendable : (AccountLedgerEntry → Decimal) → List AccountLedgerEntry → Decimal
spendable capacity [] = pos 0
spendable capacity (c ∷ cs) = max_ℤ (pos 0) (capacity c) +ℤ spendable capacity cs

abbrev pub allocated : List AccountLedgerAllocation → Decimal
allocated [] = pos 0
allocated (a ∷ as_) = AccountLedgerAllocation.amount a +ℤ allocated as_

module _ (capacity : AccountLedgerEntry → Decimal) (user_id debit_id : ℕ) where
  abbrev allocation : AccountLedgerEntry → Decimal → AccountLedgerAllocation
  allocation c amount = record {
    user_id = user_id;
    credit_entry_id = AccountLedgerEntry.id c;
    debit_entry_id = debit_id;
    amount = amount;
  }

  -- An exhausted lot is passed over.
  take_lots_exhausted :
      (c : AccountLedgerEntry) (cs : List AccountLedgerEntry) (r : Decimal)
      → pos 0 ≤ℤ r
      → (capacity c ≤ℤ pos 0) ⊎ (r ≤ℤ pos 0)
      → take_lots capacity user_id debit_id (c ∷ cs) r ≡ take_lots capacity user_id debit_id cs r
  unfolding take_lots
  take_lots_exhausted c cs r h e = ground arith

  take_lots_last :
      (c : AccountLedgerEntry) (cs : List AccountLedgerEntry) (r : Decimal)
      → pos 0 <ℤ r
      → r ≤ℤ capacity c
      → take_lots capacity user_id debit_id (c ∷ cs) r ≡ (allocation c r ∷ [], pos 0)
  unfolding take_lots ◌-ℤ◌
  take_lots_last c cs r h e = ground arith

  take_lots_more :
      (c : AccountLedgerEntry) (cs : List AccountLedgerEntry) (r : Decimal)
      → pos 0 <ℤ capacity c
      → capacity c <ℤ r
      → let rest = take_lots capacity user_id debit_id cs (r -ℤ capacity c) in
        take_lots capacity user_id debit_id (c ∷ cs) r
        ≡ (allocation c (capacity c) ∷ rest.0, rest.1)
  unfolding take_lots ◌-ℤ◌
  take_lots_more c cs r h e = ground arith

pub spendable_nonneg :
    (capacity : AccountLedgerEntry → Decimal) (cs : List AccountLedgerEntry)
    → pos 0 ≤ℤ spendable capacity cs
spendable_nonneg capacity [] = omega arith
spendable_nonneg capacity (c ∷ cs) = elim (max_zero-cases (capacity c)) [
  | inl (low, e) ↦ rw e (omega (int_laws, spendable_nonneg capacity cs))
  | inr (high, e) ↦ rw e (omega (int_laws, spendable_nonneg capacity cs))
]

-- A debit `r` split over the lots: it is paid, or every lot is used up.
pub record Splits (capacity : AccountLedgerEntry → Decimal) (cs : List AccountLedgerEntry)
    (r paid left : Decimal) : Type 0 where
  pub adds_up : paid +ℤ left ≡ r
  pub nonneg : pos 0 ≤ℤ left
  pub affordable : paid ≤ℤ spendable capacity cs
  pub exhausts : (left ≡ pos 0) ⊎ (paid ≡ spendable capacity cs)

module _ (capacity : AccountLedgerEntry → Decimal) (user_id debit_id : ℕ) where
  take_lots_nil : (r : Decimal) → take_lots capacity user_id debit_id [] r ≡ ([], r)
  unfolding take_lots
  take_lots_nil r = refl

  -- Nothing is taken for a debit of zero.
  take_lots_done :
      (cs : List AccountLedgerEntry) → take_lots capacity user_id debit_id cs (pos 0) ≡ ([], pos 0)
  take_lots_done [] = take_lots_nil (pos 0)
  take_lots_done (c ∷ cs) =
      take_lots_exhausted capacity user_id debit_id c cs (pos 0) (omega arith) (inr (omega arith))
      ∙ take_lots_done cs

  abbrev IsSplit :
      List AccountLedgerEntry → Decimal → List AccountLedgerAllocation × Decimal → Type 0
  IsSplit cs r t = Splits capacity cs r (allocated t.0) t.1

  -- A lot that cannot pay adds nothing to what is spendable.
  IsSplit-empty :
      (c : AccountLedgerEntry) (cs : List AccountLedgerEntry) (r : Decimal)
      (t : List AccountLedgerAllocation × Decimal)
      → capacity c ≤ℤ pos 0
      → IsSplit cs r t
      → IsSplit (c ∷ cs) r t
  IsSplit-empty c cs r t low s = elim (max_zero-cases (capacity c)) [
    | inl (_, e) ↦ record {
      adds_up = s.adds_up;
      nonneg = s.nonneg;
      affordable = rw e (rw (zero-+ℤ (spendable capacity cs)) s.affordable);
      exhausts = rw e (rw (zero-+ℤ (spendable capacity cs)) s.exhausts);
    }
    | inr (high, _) ↦ absurd (omega arith)
  ]

  IsSplit-more :
      (c : AccountLedgerEntry) (cs : List AccountLedgerEntry) (r : Decimal)
      (t : List AccountLedgerAllocation × Decimal)
      → pos 0 <ℤ capacity c
      → IsSplit cs (r -ℤ capacity c) t
      → IsSplit (c ∷ cs) r (allocation capacity user_id debit_id c (capacity c) ∷ t.0, t.1)
  IsSplit-more c cs r t full s = elim (max_zero-cases (capacity c)) [
    | inl (low, _) ↦ absurd (omega arith)
    | inr (_, e) ↦ record {
      adds_up = grind (int_laws, s.adds_up);
      nonneg = s.nonneg;
      affordable = rw e (omega (int_laws, s.affordable));
      exhausts = rw e (elim s.exhausts [ inl p ↦ inl p | inr p ↦ inr (rw p) ]);
    }
  ]

  -- The loop splits the debit: it is paid in full, or every lot is used up.
  pub take_lots-IsSplit :
      (cs : List AccountLedgerEntry) (r : Decimal)
      → pos 0 ≤ℤ r
      → IsSplit cs r (take_lots capacity user_id debit_id cs r)
  take_lots-IsSplit [] r h = rw (take_lots_nil r) (record {
    adds_up = omega int_laws;
    nonneg = h;
    affordable = omega arith;
    exhausts = inr refl;
  })
  take_lots-IsSplit (c ∷ cs) r h = elim (leb_ℤ-cases (capacity c) (pos 0)) [
    | inl (_, empty) ↦
        rw (take_lots_exhausted capacity user_id debit_id c cs r h (inl empty))
          (IsSplit-empty c cs r _ empty (take_lots-IsSplit cs r h))
    | inr (_, full) ↦ elim (leb_ℤ-cases r (pos 0)) [
      | inl (_, done) ↦
          rw (eq_of_parts r (pos 0) (omega arith), take_lots_done (c ∷ cs))
            (record {
              adds_up = zero-+ℤ (pos 0);
              nonneg = omega arith;
              affordable = spendable_nonneg capacity (c ∷ cs);
              exhausts = inl refl;
            })
      | inr (_, more) ↦ elim (leb_ℤ-cases r (capacity c)) [
        | inl (_, last) ↦ rw (take_lots_last capacity user_id debit_id c cs r more last) (record {
          adds_up = omega int_laws;
          nonneg = omega arith;
          affordable = elim (max_zero-cases (capacity c)) [
            | inl (low, _) ↦ absurd (omega arith)
            | inr (_, e) ↦ rw e (omega (int_laws, spendable_nonneg capacity cs))
          ];
          exhausts = inl refl;
        })
        | inr (_, next) ↦
            rw (take_lots_more capacity user_id debit_id c cs r full next)
              (IsSplit-more c cs r _ full (take_lots-IsSplit cs (r -ℤ capacity c) (omega int_laws)))
      ]
    ]
  ]

-- An allocation takes something from a lot of the list, and no more than the lot had.
abbrev pub FitsLot :
    (AccountLedgerEntry → Decimal) → List AccountLedgerEntry → AccountLedgerAllocation → Type 0
FitsLot capacity [] a = ⊥
FitsLot capacity (c ∷ cs) a =
    ((AccountLedgerAllocation.credit_entry_id a ≡ AccountLedgerEntry.id c)
      × (pos 0 <ℤ AccountLedgerAllocation.amount a)
      × (AccountLedgerAllocation.amount a ≤ℤ capacity c))
    ⊎ FitsLot capacity cs a

abbrev pub AllFit :
    (AccountLedgerEntry → Decimal) → List AccountLedgerEntry → List AccountLedgerAllocation → Type 0
AllFit capacity cs [] = Unit
AllFit capacity cs (a ∷ as_) = FitsLot capacity cs a × AllFit capacity cs as_

AllFit-cons :
    (capacity : AccountLedgerEntry → Decimal) (c : AccountLedgerEntry)
    (cs : List AccountLedgerEntry) (as_ : List AccountLedgerAllocation)
    → AllFit capacity cs as_
    → AllFit capacity (c ∷ cs) as_
AllFit-cons capacity c cs [] h = tt
AllFit-cons capacity c cs (a ∷ as_) h = (inr h.0, AllFit-cons capacity c cs as_ h.1)

module _ (capacity : AccountLedgerEntry → Decimal) (user_id debit_id : ℕ) where
  pub take_lots-AllFit :
      (cs : List AccountLedgerEntry) (r : Decimal)
      → pos 0 ≤ℤ r
      → AllFit capacity cs (take_lots capacity user_id debit_id cs r).0
  take_lots-AllFit [] r h = rw (take_lots_nil capacity user_id debit_id r) tt
  take_lots-AllFit (c ∷ cs) r h = elim (leb_ℤ-cases (capacity c) (pos 0)) [
    | inl (_, empty) ↦
        rw (take_lots_exhausted capacity user_id debit_id c cs r h (inl empty))
          (AllFit-cons capacity c cs _ (take_lots-AllFit cs r h))
    | inr (_, full) ↦ elim (leb_ℤ-cases r (pos 0)) [
      | inl (_, done) ↦
          rw (take_lots_exhausted capacity user_id debit_id c cs r h (inr done))
            (AllFit-cons capacity c cs _ (take_lots-AllFit cs r h))
      | inr (_, more) ↦ elim (leb_ℤ-cases r (capacity c)) [
        | inl (_, last) ↦
            rw (take_lots_last capacity user_id debit_id c cs r more last)
              (inl (refl, more, last), tt)
        | inr (_, next) ↦ rw (take_lots_more capacity user_id debit_id c cs r full next) (
          inl (refl, full, omega arith),
          AllFit-cons capacity c cs _ (take_lots-AllFit cs (r -ℤ capacity c) (omega int_laws)),
        )
      ]
    ]
  ]
