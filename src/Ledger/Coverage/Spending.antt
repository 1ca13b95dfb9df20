-- ===== src/Ledger/Coverage/Spending.antt =====
-- What new allocations take off the lots: never more than they add up to, as no two lots share an id.
use just1kbot.Prelude.{
  ℕ, ◌==◌, pos, ◌+ℤ◌, ◌-ℤ◌, ◌≤ℤ◌, int_laws, zero-+ℤ, Bool, false, ◌||◌, List, [], ◌∷◌, ◌++◌, inl,
  inr, ◌≡◌, refl, arith, if◌then◌else◌, Bool-cases, select_where,
}
use just1kbot.Database.{Decimal, AccountLedgerEntry, AccountLedgerAllocation, Db}
use just1kbot.Ledger.Balance.{sum_allocations}
use just1kbot.Ledger.Lots.{credit_capacity, used_of_credit}
use just1kbot.Ledger.Lots.Fifo.{allocated, AllFit, FitsLot}
use just1kbot.Ledger.Lots.Sums.{total_capacity, sum_allocations-append}

abbrev pub has_id : ℕ → List AccountLedgerEntry → Bool
has_id i [] = false
has_id i (e ∷ es) = i == AccountLedgerEntry.id e || has_id i es

-- The primary key: no two entries share an id.
abbrev pub Distinct : List AccountLedgerEntry → Type 0
Distinct [] = Unit
Distinct (e ∷ es) = (has_id (AccountLedgerEntry.id e) es ≡ false) × Distinct es

has_id-select_where :
    (p : AccountLedgerEntry → Bool) (i : ℕ) (es : List AccountLedgerEntry)
    → has_id i es ≡ false
    → has_id i (select_where p es) ≡ false
has_id-select_where p i [] h = refl
has_id-select_where p i (e ∷ es) h = ground (arith, has_id-select_where p i es)

pub Distinct-select_where :
    (p : AccountLedgerEntry → Bool) (es : List AccountLedgerEntry)
    → Distinct es
    → Distinct (select_where p es)
Distinct-select_where p [] h = tt
Distinct-select_where p (e ∷ es) h =
    ground (
      arith,
      Distinct-select_where p es h.1,
      has_id-select_where p (AccountLedgerEntry.id e) es h.0,
    )

-- What one allocation takes off a list of lots.
abbrev hits : ℕ → Decimal → List AccountLedgerEntry → Decimal
hits k x [] = pos 0
hits k x (c ∷ cs) = (if k == AccountLedgerEntry.id c then x else pos 0) +ℤ hits k x cs

hits_none :
    (k : ℕ) (x : Decimal) (cs : List AccountLedgerEntry) → has_id k cs ≡ false → hits k x cs ≡ pos 0
hits_none k x [] h = refl
hits_none k x (c ∷ cs) h = grind (int_laws, hits_none k x cs)

hits-le :
    (k : ℕ) (x : Decimal) (cs : List AccountLedgerEntry)
    → pos 0 ≤ℤ x
    → Distinct cs
    → hits k x cs ≤ℤ x
hits-le k x [] h d = omega arith
hits-le k x (c ∷ cs) h d = elim (Bool-cases (k == AccountLedgerEntry.id c)) [
  | inl y ↦ rw (y, hits_none k x cs (ground arith)) (omega int_laws)
  | inr n ↦ rw n (omega (int_laws, hits-le k x cs h d.1))
]

-- What a list of allocations takes off one lot.
abbrev pub taken_from : List AccountLedgerAllocation → AccountLedgerEntry → Decimal
taken_from as_ c =
    sum_allocations (λ a. AccountLedgerAllocation.credit_entry_id a == AccountLedgerEntry.id c) as_

abbrev AllNonneg : List AccountLedgerAllocation → Type 0
AllNonneg [] = Unit
AllNonneg (a ∷ as_) = (pos 0 ≤ℤ AccountLedgerAllocation.amount a) × AllNonneg as_

FitsLot-nonneg :
    (capacity : AccountLedgerEntry → Decimal) (cs : List AccountLedgerEntry)
    (a : AccountLedgerAllocation)
    → FitsLot capacity cs a
    → pos 0 ≤ℤ AccountLedgerAllocation.amount a
FitsLot-nonneg capacity [] a h = elim h [ ]
FitsLot-nonneg capacity (c ∷ cs) a (inl h) = omega arith
FitsLot-nonneg capacity (c ∷ cs) a (inr h) = FitsLot-nonneg capacity cs a h

AllFit-nonneg :
    (capacity : AccountLedgerEntry → Decimal) (cs : List AccountLedgerEntry)
    (as_ : List AccountLedgerAllocation)
    → AllFit capacity cs as_
    → AllNonneg as_
AllFit-nonneg capacity cs [] h = tt
AllFit-nonneg capacity cs (a ∷ as_) h =
    (FitsLot-nonneg capacity cs a h.0, AllFit-nonneg capacity cs as_ h.1)

taken_from_nothing : (cs : List AccountLedgerEntry) → total_capacity (taken_from []) cs ≡ pos 0
unfolding sum_allocations
taken_from_nothing [] = refl
taken_from_nothing (c ∷ cs) = rw (taken_from_nothing cs) (zero-+ℤ (pos 0))

taken_from-cons :
    (a : AccountLedgerAllocation) (as_ : List AccountLedgerAllocation)
    (cs : List AccountLedgerEntry)
    → total_capacity (taken_from (a ∷ as_)) cs
      ≡ hits (AccountLedgerAllocation.credit_entry_id a) (AccountLedgerAllocation.amount a) cs
        +ℤ total_capacity (taken_from as_) cs
unfolding sum_allocations
taken_from-cons a as_ [] = omega int_laws
taken_from-cons a as_ (c ∷ cs) = rw (taken_from-cons a as_ cs) (omega int_laws)

taken_from-le :
    (as_ : List AccountLedgerAllocation) (cs : List AccountLedgerEntry)
    → AllNonneg as_
    → Distinct cs
    → total_capacity (taken_from as_) cs ≤ℤ allocated as_
taken_from-le [] cs h d = rw (taken_from_nothing cs) (omega arith)
taken_from-le (a ∷ as_) cs h d = rw (taken_from-cons a as_ cs) (
    omega (
      int_laws,
      hits-le (AccountLedgerAllocation.credit_entry_id a) (AccountLedgerAllocation.amount a) cs h.0
          d,
      taken_from-le as_ cs h.1 d,
    ))

abbrev pub allocating : List AccountLedgerAllocation → Db → Db
allocating as_ db = record db { allocations = Db.allocations db ++ as_ }

credit_capacity-allocating :
    (as_ : List AccountLedgerAllocation) (db : Db) (c : AccountLedgerEntry)
    → credit_capacity (allocating as_ db) c ≡ credit_capacity db c -ℤ taken_from as_ c
unfolding credit_capacity used_of_credit
credit_capacity-allocating as_ db c =
    rw
      (sum_allocations-append
        (λ a. AccountLedgerAllocation.credit_entry_id a == AccountLedgerEntry.id c)
        (Db.allocations db) as_)
      (omega int_laws)

total_capacity-minus :
    (f g h : AccountLedgerEntry → Decimal) (cs : List AccountLedgerEntry)
    → ((c : AccountLedgerEntry) → f c ≡ g c -ℤ h c)
    → total_capacity f cs ≡ total_capacity g cs -ℤ total_capacity h cs
total_capacity-minus f g h [] e = omega int_laws
total_capacity-minus f g h (c ∷ cs) e = rw (e c, total_capacity-minus f g h cs e) (omega int_laws)

-- New allocations that fit the lots lower their total by no more than they add up to.
pub total_capacity-allocating :
    (as_ : List AccountLedgerAllocation) (db : Db) (cs ds : List AccountLedgerEntry)
    (capacity : AccountLedgerEntry → Decimal)
    → AllFit capacity ds as_
    → Distinct cs
    → total_capacity (credit_capacity db) cs
      ≤ℤ total_capacity (credit_capacity (allocating as_ db)) cs +ℤ allocated as_
total_capacity-allocating as_ db cs ds capacity fit d =
    rw
      (total_capacity-minus (credit_capacity (allocating as_ db)) (credit_capacity db)
        (taken_from as_) cs (credit_capacity-allocating as_ db))
      (omega (int_laws, taken_from-le as_ cs (AllFit-nonneg capacity ds as_ fit) d))
