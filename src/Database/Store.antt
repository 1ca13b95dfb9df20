-- ===== src/Database/Store.antt =====
-- A session's view of the database, and a coroutine that reads it, writes it and may raise.
use just1kbot.Prelude.{ℕ, Bool, true, false, Option, none, some, List, String}
use just1kbot.Database.Rows.{
  Instant, AccountLedgerEntry, AccountLedgerAllocation, User, Tariff, Payment, Order,
  WhiteInternetSubscription, WhiteInternetOrphanCleanup, Server, VlessSubscription,
}

-- `post_commit_tasks` are the background syncs (user, target) that run once the session commits, and
-- `deprovisions` and `vless_deprovisions` those that disable a client (server, client, version) on a
-- node, or (client, version, subscription) on every node; `now` is the
-- clock's reading for the transaction, and the `next_` numbers are the sequences of the tables' ids.
pub record Db : Type 0 where
  pub entries : List AccountLedgerEntry
  pub allocations : List AccountLedgerAllocation
  pub users : List User
  pub tariffs : List Tariff
  pub orders : List Order
  pub payments : List Payment
  pub subscriptions : List WhiteInternetSubscription
  pub orphan_cleanups : List WhiteInternetOrphanCleanup
  pub servers : List Server
  pub vless_subscriptions : List VlessSubscription
  pub post_commit_tasks : List (ℕ × Bool)
  pub deprovisions : List (ℕ × String × ℕ)
  pub vless_deprovisions : List (String × ℕ × ℕ)
  pub next_entry_id : ℕ
  pub next_subscription_id : ℕ
  pub next_tariff_id : ℕ
  pub next_user_id : ℕ
  pub now : Instant

-- The exceptions that billing raises. `type_error` is Python's own, for a call with wrong arguments.
pub data Error : Type 0 where
  value_error lookup_error conflict insufficient_account_balance ledger_invariant : Error
  integrity_error insufficient_balance account_debt_blocked financial_hold_blocked : Error
  payment_creation_ambiguous gateway_failed runtime_error type_error : Error
  subscription_not_found inactive_subscription trial_subscription : Error
  device_limit_exceeded quota_cap_exceeded renewal_horizon_exceeded white_internet : Error

pub data Result {ℓ} (A : Type ℓ) : Type ℓ where
  ok : A → Result A
  err : Error → Result A

abbrev pub Action : Type 0 → Type 0
Action A = Db → Result A × Db

abbrev pub pure : {A : Type 0} → A → Action A
pure a db = (ok a, db)

abbrev pub raise : {A : Type 0} → Error → Action A
raise e db = (err e, db)

-- Where `m` raises, what follows is skipped and what `m` wrote stays until the rollback.
abbrev pub and_then : {A B : Type 0} → Result A × Db → (A → Action B) → Result B × Db
and_then (ok a, db) f = f a db
and_then (err e, db) f = (err e, db)

infixl 5 ◌>>=◌ ◌>>◌
abbrev pub ◌>>=◌ : {A B : Type 0} → Action A → (A → Action B) → Action B
◌>>=◌ m f db = and_then (m db) f

abbrev pub ◌>>◌ : {A B : Type 0} → Action A → Action B → Action B
m >> k = m >>= λ _. k

abbrev pub gets : {A : Type 0} → (Db → A) → Action A
gets f db = (ok (f db), db)

abbrev pub modify : (Db → Db) → Action (Unit {0})
modify f db = (ok tt, f db)

abbrev pub raise_if : Bool → Error → Action (Unit {0})
raise_if c e db = elim c [ true ↦ (err e, db) | false ↦ (ok tt, db) ]

abbrev pub or_raise : {A : Type 0} → Option A → Error → Action A
or_raise o e db = elim o [ none ↦ (err e, db) | some a ↦ (ok a, db) ]

-- A session: what is committed, and what the open transaction sees.
pub record Session : Type 0 where
  pub committed : Db
  pub current : Db

abbrev pub Coroutine : Type 0 → Type 0
Coroutine A = Session → Result A × Session

abbrev pub within : {A : Type 0} → Action A → Coroutine A
within m s = ((m (Session.current s)).0, record s { current = (m (Session.current s)).1 })

abbrev pub commit : Session → Session
commit s = record s { committed = Session.current s }

abbrev pub rollback : Session → Session
rollback s = record s { current = Session.committed s }

-- `session_scope`: commit when the body ends, roll back and re-raise when it raises.
abbrev close_scope : {A : Type 0} → Result A × Session → Result A × Session
close_scope (ok a, s) = (ok a, commit s)
close_scope (err e, s) = (err e, rollback s)

unfoldable pub session_scope : {A : Type 0} → Coroutine A → Coroutine A
session_scope m s = close_scope (m s)
