-- ===== src/Database/Rows.antt =====
-- The tables of database/models.py, by the columns that billing reads or writes.
use just1kbot.Prelude.{ℕ, ℤ, Bool, Option, List, String}
use just1kbot.Database.Enums.{
  EntryType, OrderStatus, ServiceType, PaymentMethod, WhiteInternetStatus, ProvisioningStatus,
  IdempotencyKey,
}

-- A `Decimal` with the two places of the money columns: a whole number of hundredths of a ruble.
abbrev pub Decimal : Type 0
Decimal = ℤ

-- A `datetime` in UTC, in microseconds.
abbrev pub Instant : Type 0
Instant = ℕ

-- The keys of `account_ledger_entries.metadata` that a query reads back.
pub record EntryMetadata : Type 0 where
  pub is_referral_bonus : Bool
  pub topup_order_id : Option ℕ
  pub original_credit_id : Option ℕ

pub record AccountLedgerEntry : Type 0 where
  pub id : ℕ
  pub user_id : ℕ
  pub entry_type : EntryType
  pub amount : Decimal
  pub payment_id : Option ℕ
  pub quote_id : Option ℕ
  pub order_id : Option ℕ
  pub reversal_of_id : Option ℕ
  pub idempotency_key : IdempotencyKey
  pub metadata : EntryMetadata
  pub created_at : Instant

pub record AccountLedgerAllocation : Type 0 where
  pub user_id : ℕ
  pub credit_entry_id : ℕ
  pub debit_entry_id : ℕ
  pub amount : Decimal

-- The columns of a user that say which reminders were sent.
pub record Notices : Type 0 where
  pub notified_3d : Bool
  pub notified_1d : Bool
  pub notified_2h : Bool
  pub notified_expired : Bool
  pub notified_grace_12h : Bool
  pub notification_retry_count : ℕ
  pub last_notification_attempt : Option Instant

-- `traffic_cycle`, a text "YYYY-MM", is the number of its month, which has the same order.
pub record TrafficUsage : Type 0 where
  pub total_wi_traffic_bytes : ℕ
  pub monthly_wi_bytes : ℕ
  pub monthly_vless_bytes : ℕ
  pub traffic_cycle : Option ℕ

pub record User : Type 0 where
  pub id : ℕ
  pub telegram_id : ℕ
  pub referred_by : Option ℕ
  pub subscription_end : Option Instant
  pub device_limit : ℕ
  pub current_tariff_id : Option ℕ
  pub is_banned : Bool
  pub is_deleted : Bool
  pub financial_hold : Bool
  pub topup_blocked : Bool
  pub last_trial_reset_at : Option Instant
  pub notices : Notices
  pub usage : TrafficUsage

pub record Tariff : Type 0 where
  pub id : ℕ
  pub service_type : ServiceType
  pub duration_days : ℕ
  pub device_limit : ℕ
  pub price_rub : ℕ
  pub is_active : Bool

-- A row of the legacy `payments` table; the two statuses are kept as "is succeeded".
pub record Payment : Type 0 where
  pub id : ℕ
  pub user_id : ℕ
  pub amount : Decimal
  pub is_provider_succeeded : Bool
  pub is_fulfilled : Bool
  pub is_credited : Bool

pub data Operation : Type 0 where
  change renew purchase topup add_device_slot trial : Operation
  other : String → Operation

pub data HoldReason : Type 0 where
  user_banned financial_hold topup_blocked : HoldReason

pub data CancellationReason : Type 0 where
  gateway_canceled : CancellationReason
  other : String → CancellationReason

-- The text under `refund_amount_mismatch`.
pub data Mismatch : Type 0 where
  underpaid : Decimal → Decimal → Mismatch
  amount : Decimal → Mismatch
  missing negative_balance : Mismatch

-- The keys of `orders.metadata`, a JSON object: an absent key is `none`, or `false` for a flag.
-- Those that checkout writes are apart.
pub record Terms : Type 0 where
  pub is_tariff_change : Bool
  pub is_renewal : Bool
  pub operation : Option Operation
  pub is_referral_discount : Bool
  pub discount_rub : Option ℕ
  pub original_price_rub : Option ℕ
  pub is_trial : Bool

-- The keys that a review by hand reads.
pub record Review : Type 0 where
  pub requires_manual_review : Bool
  pub underpaid : Option (Decimal × Decimal)
  pub refund_amount_mismatch : Option Mismatch
  pub refund_external_id : Option String
  pub late_payment_attempt_rejected : Option String

-- The keys that fulfilment writes for a later revocation.
pub record Previous : Type 0 where
  pub subscription_end : Option Instant
  pub tariff_id : Option ℕ
  pub device_limit : Option ℕ
  pub subscription_id : Option ℕ

pub record OrderMetadata : Type 0 where
  pub terms : Terms
  pub review : Review
  pub previous : Previous
  pub payment_creation_ambiguous : Bool
  pub late_notify_pending : Bool
  pub late_notify_attempts : Option ℕ
  pub referrer_notify_pending : Option (ℕ × Decimal)
  pub cancellation_reason : Option CancellationReason
  pub settlement_held : Bool
  pub settlement_hold_reason : Option HoldReason
  pub revived_from_canceled : Bool

-- `newly_paid` is the transient attribute `_newly_paid` of the ORM object.
pub record Order : Type 0 where
  pub id : ℕ
  pub user_id : ℕ
  pub service_type : ServiceType
  pub tariff_id : Option ℕ
  pub amount_rub : Decimal
  pub duration_days : ℕ
  pub traffic_bytes : ℕ
  pub device_limit : Option ℕ
  pub payment_method : PaymentMethod
  pub external_id : Option String
  pub payment_url : Option String
  pub status : OrderStatus
  pub metadata : OrderMetadata
  pub created_at : Instant
  pub paid_at : Option Instant
  pub refunded_at : Option Instant
  pub newly_paid : Bool

-- The reminders that were sent about a White Internet subscription.
pub record Reminders : Type 0 where
  pub notified_3d : Bool
  pub notified_1d : Bool
  pub notified_2h : Bool
  pub notified_expired : Bool
  pub notified_90p : Bool

-- The counters of traffic, in bytes, and the node's readings that they were last brought up to, with
-- the epoch of the node's process that the readings are of.
pub record TrafficCounters : Type 0 where
  pub used : ℕ
  pub uplink : ℕ
  pub downlink : ℕ
  pub overage : ℕ
  pub last_uplink_snapshot : ℕ
  pub last_downlink_snapshot : ℕ
  pub stats_epoch : Option String

pub record WhiteInternetSubscription : Type 0 where
  pub id : ℕ
  pub user_id : ℕ
  pub origin_node_id : Option ℕ
  pub uuid : String
  pub status : WhiteInternetStatus
  pub expires_at : Instant
  pub base_traffic_bytes : ℕ
  pub extra_traffic_bytes : ℕ
  pub traffic : TrafficCounters
  pub device_limit : ℕ
  pub is_trial : Bool
  pub provisioning_status : ProvisioningStatus
  pub desired_version : ℕ
  pub actual_version : ℕ
  pub last_reconciled_node_epoch : Option String
  pub pending_hard_delete : Bool
  pub reminders : Reminders

pub record WhiteInternetOrphanCleanup : Type 0 where
  pub server_id : ℕ
  pub client_uuid : String
  pub desired_version : ℕ
  pub is_pending : Bool

-- A node, by what the code tests of it: `has_api` is that `api_url` and `api_key` are not blank,
-- `is_origin` that its capabilities name `xray_origin`, `has_relays` that `extra_data` lists relays.
pub record Server : Type 0 where
  pub id : ℕ
  pub is_xray : Bool
  pub is_active : Bool
  pub is_online : Bool
  pub is_lifecycle_active : Bool
  pub has_api : Bool
  pub is_origin : Bool
  pub has_relays : Bool
  pub max_clients : ℕ

-- An entry of `active_hwids`, by its key and the instant at which the device was last seen.
pub record Device : Type 0 where
  pub hwid : String
  pub last_seen : Instant

pub record VlessSubscription : Type 0 where
  pub id : ℕ
  pub user_id : ℕ
  pub token : String
  pub uuid : String
  pub is_active : Bool
  pub version : ℕ
  pub active_hwids : List Device
  pub pending_revoked_uuids : List String
