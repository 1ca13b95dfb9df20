-- ===== src/Lib.antt =====
-- The billing core of just1kbot, a Telegram bot that sells VPN subscriptions: a user tops up a
-- wallet or pays through a gateway, an order is settled, the subscription is fulfilled, a referrer
-- earns a bonus, and a refund takes all of it back.
--
-- The parts, and the code that each models:
--   Database       database/models.py (rows, by the columns that billing reads or writes),
--                  config/enums.py, and the session of database/connection.py. `Db` is what an open
--                  transaction sees; an `Action` reads and writes it and may raise; a `Session` adds
--                  what is committed, for code that commits or rolls back itself.
--   Ledger         database/repositories/account_ledger_repo.py. Balance: `get_account_balance`.
--                  Entries: `_insert_or_get_entry`, with the checks and the unique indexes of the
--                  table. Lots: `_batch_credit_capacities` and `_allocate_fifo`, which attributes a
--                  debit to the credits that pay it. Operations: the functions that write.
--                  Coverage: why a debit that the balance allows is never refused by the lots,
--                  and that the ids of the entries stay distinct.
--   Orders         services/order_service.py. Pricing: `_resolve_order_terms` and
--                  `calculate_tariff_change`. Checkout: `create_order` and `pay_from_wallet`.
--                  Settlement: `mark_order_canceled`, `mark_order_paid` and `_settle_benefits`.
--                  Webhook: `process_webhook_event`.
--   Fulfillment    services/fulfillment_service.py: `fulfill_order` and `revoke_order`.
--   Referral       services/referral_bonus.py, and the queries of
--                  database/repositories/users_repo.py on who counts as active.
--   Subscription   services/subscription.py: access, `extend_subscription`, the check of a
--                  referrer, `_validate_referral`, Onboarding, `process_onboarding`, and Replacement,
--                  `replace_subscription`.
--   WhiteInternet  services/white_internet_service.py and
--                  database/repositories/white_internet_repo.py. Repository: the operations on a
--                  subscription's row. Nodes: the choice of a node, moves between nodes and the
--                  inline sync. Checkout: `_checkout_wallet_order`. Extras: device slots and
--                  traffic packs. Lifecycle: purchase, conversion of a trial, renewal. Trial:
--                  trials and their reset. Admin: deactivation, extension, and `service`, which
--                  fills the interface of Fulfillment. Setters: what an administrator sets.
--                  Metering: the traffic of one client, with the step of
--                  services/workers/white_internet_traffic.py. Reconciliation: one subscription's
--                  round of services/workers/white_internet_reconciliation.py. Changes: the changes
--                  of a row as a step relation, but for those that may take the quota below what
--                  was used of it: a refund's revocations, and the setters of the base quota and of
--                  the device limit.
--   Vless          database/repositories/vless_subscription_repo.py. Devices and Limit:
--                  `register_hwid_atomic`. Credentials: `reset_hwids` and `rotate_token`.
--                  Revocations: `pop_pending_revoked_uuid`.
--   RateLimit      utils/http_rate_limiter.py: `HttpRateLimiter`.
--   Ban            services/ban_service.py: bans and what they close and revoke.
--   Dates          utils/datetime_helpers.py.
--   Examples       a small shop, at which the theorems are applied.
-- Orders calls Ledger for money, Fulfillment for the subscription and Referral for bonuses; White
-- Internet calls Ledger for money and is called by Fulfillment; a ban cancels orders, deactivates White
-- Internet and rotates the VLESS credentials. All of them share the `Db` and run inside one
-- transaction; a commit inside a White Internet operation makes no difference to what `Db` holds.
--
-- How the code is read:
--   A `Decimal` of the money columns is an integer number of hundredths of a ruble; a `datetime` is
--   the number of microseconds since 1970 in UTC; a JSON object is a record of the keys that the
--   code reads back; an f-string that builds an idempotency key is a constructor.
--   A row lock or an advisory lock makes the call that takes it one step on the `Db`.
--   `if x` of an optional number is false for `None` and for 0; `==` on columns follows Python in
--   Python code and SQL in queries, where a null equals nothing, but a comparison of a column with
--   Python's `None` reads `IS NULL`.
--   Parameters stand for what is outside the repository: the gateway's answer to a new payment
--   (`GatewayAnswer`), floating point (`FloatOps`), and `strip`, `uuid.UUID` and an f-string of
--   Python (`Runtime`); the environment's prices and bounds (`Settings`); the order id and the uuid
--   that a call draws (`Draws`); a node's answers (`SyncAnswer`, `Reading`, `Report`); the floating
--   point of the rate limiter (`Floats`); and the cleaning of a device's id. The operations of
--   services/white_internet_service.py that fulfilment calls are the interface
--   `WhiteInternetService`.
--
-- Every loop is a recursion on the list that it walks, but the walk up a chain of referrers, which
-- is cut off at depth 50 by the code itself and then refuses the referrer, so that no fuel is added.
--
-- Not modelled: foreign keys, audit records, caches, descriptions for display, logging, the pages of
-- the ledger's history, and a ban's changes to the legacy payments;
-- White Internet's dashboard, links and device ids, and the background workers but for the two steps
-- above: their loops, alerts and sweeps of orphaned clients; and the bot's handlers, keyboards and
-- texts, the clients of gateways and nodes, configuration, migrations and scripts, which are input
-- and output around the services.
pub mod Prelude
pub mod Database
pub mod Ledger
pub mod Dates
pub mod Subscription
pub mod Referral
pub mod Fulfillment
pub mod WhiteInternet
pub mod Vless
pub mod RateLimit
pub mod Ban
pub mod Orders
pub mod Examples
