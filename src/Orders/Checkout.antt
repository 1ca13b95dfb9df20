-- ===== src/Orders/Checkout.antt =====
-- `create_order` and `pay_from_wallet`.
pub mod Guards
pub mod Payment
use just1kbot.Prelude.{
  ℕ, ◌+◌, ◌*◌, leb, ltb, ◌==◌, pos, ltb_ℤ, leb_ℤ, eqb_ℤ, Bool, true, false, not, ◌&&◌, Option, none,
  some, List, [], ◌∷◌, ◌++◌, String, str_eq, if◌then◌else◌,
}
use just1kbot.Database.{
  ServiceType, standard, awg, PaymentMethod, wallet, OrderStatus, Decimal, Instant, User, Order,
  OrderMetadata, Db, Session, Coroutine, Result, ok, err, within, commit, rollback, Action, Error,
  pure, ◌>>=◌, ◌>>◌, gets, modify, raise_if, user_by_id, order_by_id, put_order, is_pending,
  is_wallet, service_eq, method_eq,
}
use just1kbot.Dates.{microseconds}
use just1kbot.Ledger.Balance.{AccountBalanceSnapshot, get_account_balance, is_whole}
use just1kbot.Ledger.Entries.{opt_eq}
use just1kbot.Ledger.Operations.{create_order_debit}
use just1kbot.Subscription.Extension.{or_else}
use just1kbot.Fulfillment.Operations.{WhiteInternetService}
use just1kbot.Fulfillment.Standard.{fulfill_order}
use just1kbot.Orders.Pricing.{FloatOps, Quote, resolve_order_terms}

-- The arguments that both ways of paying take. `id` is the new order's `uuid4`.
pub record Request : Type 0 where
  pub id : ℕ
  pub user_id : ℕ
  pub service_type : ServiceType
  pub tariff_id : Option ℕ
  pub amount_rub : Option Decimal
  pub duration_days : Option ℕ
  pub traffic_bytes : ℕ
  pub device_limit : Option ℕ
  pub metadata : OrderMetadata

-- `if service_type == "awg": service_type = "standard"`
abbrev pub normal_service : ServiceType → ServiceType
normal_service awg = standard
normal_service s = s

abbrev pub asked : Request → Quote
asked r = record {
  amount_rub = Request.amount_rub r;
  duration_days = Request.duration_days r;
  device_limit = Request.device_limit r;
  terms = OrderMetadata.terms (Request.metadata r);
}

-- The row of a new order.
abbrev pub new_order :
    Request → Quote → PaymentMethod → OrderStatus → Option Instant → Instant → Order
new_order r q method status paid_at now = record {
  id = Request.id r;
  user_id = Request.user_id r;
  service_type = normal_service (Request.service_type r);
  tariff_id = Request.tariff_id r;
  amount_rub = or_else (Quote.amount_rub q) (pos 0);
  duration_days = or_else (Quote.duration_days q) 0;
  traffic_bytes = Request.traffic_bytes r;
  device_limit = Quote.device_limit q;
  payment_method = method;
  external_id = none;
  payment_url = none;
  status = status;
  metadata = record (Request.metadata r) { terms = Quote.terms q };
  created_at = now;
  paid_at = paid_at;
  refunded_at = none;
  newly_paid = false;
}

-- `ck_orders_amount_rub`
abbrev pub satisfies_order_checks : Order → Bool
satisfies_order_checks o = leb_ℤ (pos 0) (Order.amount_rub o) && is_whole (Order.amount_rub o)

unfoldable pub add_order : Order → Action (Unit {0})
add_order o = do
  raise_if (not (satisfies_order_checks o)) Error.integrity_error
  modify (λ db. record db { orders = Db.orders db ++ o ∷ [] })

-- Fifteen minutes.
abbrev pub dedup_window : ℕ
dedup_window = 15 * 60 * microseconds

abbrev has_url : Order → Bool
has_url o = elim (Order.payment_url o) [ none ↦ false | some u ↦ true ]

-- A pending order for the same thing, asked for within the window, whose payment page is there.
abbrev pub is_duplicate : Order → Order → Bool
is_duplicate n o =
    Order.user_id o == Order.user_id n
    && (service_eq (Order.service_type o) (Order.service_type n)
        && (opt_eq (Order.tariff_id o) (Order.tariff_id n)
            && (Order.duration_days o == Order.duration_days n
                && (Order.traffic_bytes o == Order.traffic_bytes n
                    && (opt_eq (Order.device_limit o) (Order.device_limit n)
                        && (method_eq (Order.payment_method o) (Order.payment_method n)
                            && (eqb_ℤ (Order.amount_rub o) (Order.amount_rub n)
                                && (is_pending (Order.status o)
                                    && (leb (Order.created_at n) (Order.created_at o + dedup_window)
                                        && has_url o)))))))))

later : Order → Option Order → Order
later o none = o
later o (some p) = if ltb o.created_at p.created_at then p else o

-- `ORDER BY created_at DESC LIMIT 1`
unfoldable pub latest : (Order → Bool) → List Order → Option Order
unfolding later
latest p [] = none
latest p (o ∷ os) =
    let rest : Option Order = latest p os in if p o then some (later o rest) else rest

-- `if existing and existing.payment_url`: an empty page counts as none.
abbrev usable : Option Order → Option Order
usable none = none
usable (some o) = elim (Order.payment_url o) [
  | none ↦ none
  | some u ↦ if str_eq u "" then none else some o
]

-- What the provider answers when it is asked for a payment page.
pub data GatewayAnswer : Type 0 where
  invoice : String → String → GatewayAnswer
  ambiguous failed : GatewayAnswer

abbrev pub awaiting : Order → String → String → Order
awaiting o external_id payment_url = record o {
  external_id = some external_id;
  payment_url = some payment_url;
}

abbrev pub held_ambiguous : Order → Order
held_ambiguous o = record o {
  metadata = record (Order.metadata o) { payment_creation_ambiguous = true };
}

-- After the order is flushed. An ambiguous answer keeps the order by a commit and raises; any other
-- failure rolls everything back and raises.
unfoldable pub settle_answer : Order → GatewayAnswer → Coroutine Order
settle_answer o (invoice external_id payment_url) s =
    within
      (do
        modify (put_order (awaiting o external_id payment_url))
        pure (awaiting o external_id payment_url))
      s
settle_answer o ambiguous s = (
  err Error.payment_creation_ambiguous,
  commit (within (modify (put_order (held_ambiguous o))) s).1,
)
settle_answer o failed s = (err Error.gateway_failed, rollback s)

ask_gateway : (Order → GatewayAnswer) → Order → Result (Unit {0}) × Session → Result Order × Session
ask_gateway gateway o (err e, s) = (err e, s)
ask_gateway gateway o (ok _, s) =
    if is_wallet o.payment_method then (ok o, s) else settle_answer o (gateway o) s

place : (Order → GatewayAnswer) → Order → Option Order → Coroutine Order
unfolding ask_gateway
place gateway o (some existing) s = (ok existing, s)
place gateway o none s = ask_gateway gateway o (within (add_order o) s)

-- The advisory lock serialises the calls for one user; a call is one step here.
unfoldable pub create_order :
    FloatOps → (Order → GatewayAnswer) → Request → PaymentMethod → Coroutine Order
unfolding place
create_order floats gateway r method s =
    let db : Db = Session.current s in
    let q : Quote =
      resolve_order_terms floats (user_by_id r.user_id db) r.user_id r.tariff_id (asked r) db in
    let o : Order = new_order r q method OrderStatus.pending none db.now in
    place gateway o (if is_wallet method then none else usable (latest (is_duplicate o) db.orders))
      s

abbrev on_hold : Option User → Bool
on_hold none = false
on_hold (some u) = User.financial_hold u

debit_if : Bool → Order → Option User → Action (Unit {0})
debit_if true o user = do create_order_debit o.user_id o.amount_rub o.id user; pure tt
debit_if false o user = pure tt

unfoldable pub pay_from_wallet : FloatOps → WhiteInternetService → Request → Action Order
unfolding debit_if
pay_from_wallet floats wi r = do
  user ← gets (user_by_id r.user_id)
  raise_if (on_hold user) Error.financial_hold_blocked
  q ← gets (resolve_order_terms floats user r.user_id r.tariff_id (asked r))
  now ← gets Db.now
  let order = new_order r q wallet OrderStatus.paid (some now) now
  balance ← get_account_balance r.user_id true user
  raise_if (ltb_ℤ (pos 0) (AccountBalanceSnapshot.debt balance)) Error.account_debt_blocked
  raise_if (ltb_ℤ (AccountBalanceSnapshot.available balance) (Order.amount_rub order))
      Error.insufficient_balance
  add_order order
  debit_if (ltb_ℤ (pos 0) (Order.amount_rub order)) order user
  fulfill_order wi order
  fulfilled ← gets (order_by_id r.id)
  pure (or_else fulfilled order)
