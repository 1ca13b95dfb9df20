-- ===== src/Database/Enums.antt =====
-- The enumerations of config/enums.py that billing branches on, and their equality tests.
use just1kbot.Prelude.{Bool, true, false, ℕ, String, ◌==◌, ◌&&◌, str_eq}

pub data EntryType : Type 0 where
  payment_credit purchase_debit purchase_reversal refund_debit chargeback_debit : EntryType
  admin_adjustment : EntryType

pub data OrderStatus : Type 0 where
  pending paid refunded canceled : OrderStatus

pub data ServiceType : Type 0 where
  standard white_internet topup awg : ServiceType

-- The text of `orders.payment_method`; any gateway but the bot's own wallet is `gateway`.
pub data PaymentMethod : Type 0 where
  wallet : PaymentMethod
  gateway : String → PaymentMethod

pub data WhiteInternetStatus : Type 0 where
  pending active exhausted expired disabled : WhiteInternetStatus

pub data ProvisioningStatus : Type 0 where
  pending_create active pending_update pending_delete synced_inactive failed : ProvisioningStatus

-- The f-strings that build `idempotency_key`, one constructor each; a caller's own text is `given`.
-- The formats differ in their prefix, so two keys are one text just when they are one value, as
-- long as no caller's own text imitates a format.
pub data IdempotencyKey : Type 0 where
  order_debit order_credit : ℕ → IdempotencyKey
  order_refund : ℕ → String → IdempotencyKey
  referral_bonus : ℕ → ℕ → IdempotencyKey
  referral_bonus_reversal : ℕ → ℕ → String → IdempotencyKey
  given : String → IdempotencyKey

abbrev pub is_paid : OrderStatus → Bool
is_paid OrderStatus.paid = true
is_paid _ = false

abbrev pub is_pending : OrderStatus → Bool
is_pending OrderStatus.pending = true
is_pending _ = false

abbrev pub is_refunded : OrderStatus → Bool
is_refunded OrderStatus.refunded = true
is_refunded _ = false

abbrev pub is_canceled : OrderStatus → Bool
is_canceled OrderStatus.canceled = true
is_canceled _ = false

abbrev pub is_topup : ServiceType → Bool
is_topup ServiceType.topup = true
is_topup _ = false

abbrev pub is_wallet : PaymentMethod → Bool
is_wallet wallet = true
is_wallet (gateway _) = false

abbrev pub method_eq : PaymentMethod → PaymentMethod → Bool
method_eq wallet wallet = true
method_eq (gateway s) (gateway t) = str_eq s t
method_eq _ _ = false

abbrev pub service_eq : ServiceType → ServiceType → Bool
service_eq standard standard = true
service_eq white_internet white_internet = true
service_eq topup topup = true
service_eq awg awg = true
service_eq _ _ = false

abbrev pub is_payment_credit : EntryType → Bool
is_payment_credit payment_credit = true
is_payment_credit _ = false

abbrev pub is_purchase_debit : EntryType → Bool
is_purchase_debit purchase_debit = true
is_purchase_debit _ = false

abbrev pub is_admin_adjustment : EntryType → Bool
is_admin_adjustment admin_adjustment = true
is_admin_adjustment _ = false

-- `entry_type.in_(("refund_debit", "chargeback_debit"))`
abbrev pub is_external_debit : EntryType → Bool
is_external_debit refund_debit = true
is_external_debit chargeback_debit = true
is_external_debit _ = false

-- `entry_type.in_(("payment_credit", "admin_adjustment"))`
abbrev pub is_lot_type : EntryType → Bool
is_lot_type payment_credit = true
is_lot_type admin_adjustment = true
is_lot_type _ = false

abbrev pub type_eq : EntryType → EntryType → Bool
type_eq payment_credit payment_credit = true
type_eq purchase_debit purchase_debit = true
type_eq purchase_reversal purchase_reversal = true
type_eq refund_debit refund_debit = true
type_eq chargeback_debit chargeback_debit = true
type_eq admin_adjustment admin_adjustment = true
type_eq _ _ = false

abbrev pub key_eq : IdempotencyKey → IdempotencyKey → Bool
key_eq (order_debit a) (order_debit b) = a == b
key_eq (order_credit a) (order_credit b) = a == b
key_eq (order_refund a s) (order_refund b t) = a == b && str_eq s t
key_eq (referral_bonus a u) (referral_bonus b v) = a == b && u == v
key_eq (referral_bonus_reversal a u s) (referral_bonus_reversal b v t) =
    a == b && (u == v && str_eq s t)
key_eq (given s) (given t) = str_eq s t
key_eq _ _ = false

abbrev pub status_eq : WhiteInternetStatus → WhiteInternetStatus → Bool
status_eq WhiteInternetStatus.pending WhiteInternetStatus.pending = true
status_eq WhiteInternetStatus.active WhiteInternetStatus.active = true
status_eq WhiteInternetStatus.exhausted WhiteInternetStatus.exhausted = true
status_eq WhiteInternetStatus.expired WhiteInternetStatus.expired = true
status_eq WhiteInternetStatus.disabled WhiteInternetStatus.disabled = true
status_eq _ _ = false

abbrev pub is_pending_delete : ProvisioningStatus → Bool
is_pending_delete ProvisioningStatus.pending_delete = true
is_pending_delete _ = false

-- `provisioning_status.in_(("PENDING_CREATE", "PENDING_UPDATE", "PENDING_DELETE"))`
abbrev pub is_transitional : ProvisioningStatus → Bool
is_transitional ProvisioningStatus.pending_create = true
is_transitional ProvisioningStatus.pending_update = true
is_transitional ProvisioningStatus.pending_delete = true
is_transitional _ = false

-- `status.in_(("PENDING", "ACTIVE", "EXHAUSTED"))`
abbrev pub is_live : WhiteInternetStatus → Bool
is_live WhiteInternetStatus.pending = true
is_live WhiteInternetStatus.active = true
is_live WhiteInternetStatus.exhausted = true
is_live _ = false

-- `status in (DISABLED, PENDING)`
abbrev pub is_dormant : WhiteInternetStatus → Bool
is_dormant WhiteInternetStatus.pending = true
is_dormant WhiteInternetStatus.disabled = true
is_dormant _ = false
