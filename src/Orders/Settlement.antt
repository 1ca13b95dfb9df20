-- ===== src/Orders/Settlement.antt =====
-- `mark_order_canceled`, `_settle_benefits` and `mark_order_paid`.
pub mod Guards
pub mod Topup
use just1kbot.Prelude.{
  ℕ, ltb_ℤ, pos, Bool, true, false, not, ◌&&◌, ◌||◌, Option, none, some, String, str_eq,
  if◌then◌else◌,
}
use just1kbot.Database.{
  OrderStatus, Decimal, User, HoldReason, CancellationReason, Mismatch, OrderMetadata, Order, Db,
  Action, pure, ◌>>=◌, ◌>>◌, gets, modify, user_by_id, order_by_id, put_order, is_refunded,
  is_canceled, is_topup, is_wallet,
}
use just1kbot.Ledger.Operations.{create_order_credit}
use just1kbot.Referral.Grant.{ReferralBonusGrantResult, grant_referral_bonus_for_topup}
use just1kbot.Fulfillment.Operations.{WhiteInternetService}
use just1kbot.Fulfillment.Standard.{fulfill_order}

-- Writing a changed order back, and the order itself.
abbrev pub save : Order → Action Order
save o = do modify (put_order o); pure o

abbrev pub with_metadata : Order → OrderMetadata → Order
with_metadata o m = record o { metadata = m }

abbrev or_reason : Option CancellationReason → CancellationReason → Option CancellationReason
or_reason none r = some r
or_reason (some s) r = some s

unfoldable pub mark_order_canceled : CancellationReason → Order → Order
mark_order_canceled reason o = elim o.status [
  | OrderStatus.pending ↦ record o {
    status = OrderStatus.canceled;
    metadata = record o.metadata {
      cancellation_reason = or_reason o.metadata.cancellation_reason reason;
    };
  }
  | OrderStatus.canceled ↦ record o {
    metadata = record o.metadata {
      cancellation_reason = or_reason o.metadata.cancellation_reason reason;
    };
  }
  | _ ↦ o
]

-- `mark_notify_pending` of services/order_notifications.py
unfoldable pub mark_notify_pending : Order → Order
mark_notify_pending o =
    with_metadata o (record o.metadata { late_notify_pending = true; late_notify_attempts = none })

credit_topup : Order → Action (Unit {0})
credit_topup o =
    if is_topup o.service_type
    then (do create_order_credit o.user_id o.amount_rub o.id; pure tt)
    else pure tt

-- A bonus that was granted leaves a push for the referrer to be sent.
noted_referrer : Order → ReferralBonusGrantResult → Order
noted_referrer o g =
    if ltb_ℤ (pos 0) g.referrer_bonus
    then (elim g.referrer_user_id [
      | none ↦ o
      | some referrer ↦
          with_metadata o
            (record o.metadata { referrer_notify_pending = some (referrer, g.referrer_bonus) })
    ])
    else o

grant_bonus : Order → Action Order
unfolding noted_referrer
grant_bonus o =
    if is_topup o.service_type || not (is_wallet o.payment_method)
    then (do
      g ← grant_referral_bonus_for_topup o.user_id o.id o.amount_rub
      save (noted_referrer o g))
    else pure o

abbrev is_held_still : Order → Option User → Bool
is_held_still o none = false
is_held_still o (some u) =
    User.is_banned u
    || (User.financial_hold u || (is_topup (Order.service_type o) && User.topup_blocked u))

abbrev released : Order → Order
released o = record o {
  metadata = record (Order.metadata o) { settlement_held = false; settlement_hold_reason = none };
  newly_paid = true;
}

-- Not settled by this call.
abbrev save_unpaid : Order → Action (Option Order)
save_unpaid o = do held ← save (record o { newly_paid = false }); pure (some held)

abbrev pub is_gateway_canceled : Option CancellationReason → Bool
is_gateway_canceled none = false
is_gateway_canceled (some CancellationReason.gateway_canceled) = true
is_gateway_canceled (some (CancellationReason.other _)) = false

abbrev pub with_external_id : Option String → Order → Order
with_external_id none o = o
with_external_id (some e) o = if str_eq e "" then o else record o { external_id = some e }

abbrev pub is_underpaid : Option Decimal → Order → Bool
is_underpaid none o = false
is_underpaid (some received) o = ltb_ℤ received (Order.amount_rub o)

-- An underpayment is left for a review by hand.
abbrev pub underpaid_order : Order → Option Decimal → Order
underpaid_order o none = o
underpaid_order o (some received) = with_metadata o (record (Order.metadata o) {
  review = record (OrderMetadata.review (Order.metadata o)) {
    requires_manual_review = true;
    underpaid = some (Order.amount_rub o, received);
    refund_amount_mismatch = some (Mismatch.underpaid (Order.amount_rub o) received);
  };
})

-- A ban or a financial hold holds every settlement, a block on top-ups holds those of top-ups.
abbrev pub hold_reason : Order → Option User → Option HoldReason
hold_reason o none = none
hold_reason o (some u) =
    if User.is_banned u
    then some HoldReason.user_banned
    else if User.financial_hold u
    then some HoldReason.financial_hold
    else if is_topup (Order.service_type o) && User.topup_blocked u
    then some HoldReason.topup_blocked
    else none

abbrev pub held_order : Order → HoldReason → Order
held_order o reason =
    with_metadata o
      (record (Order.metadata o) { settlement_held = true; settlement_hold_reason = some reason })

abbrev pub now_paid : Order → Db → Order
now_paid o db = record o {
  status = OrderStatus.paid;
  paid_at = some (Db.now db);
  newly_paid = true;
  metadata = record (Order.metadata o) {
    revived_from_canceled =
        is_canceled (Order.status o) || OrderMetadata.revived_from_canceled (Order.metadata o);
  };
}

module _ (wi : WhiteInternetService) where
  fulfill_unless_refunded : Order → Action (Unit {0})
  fulfill_unless_refunded o = if is_refunded o.status then pure tt else fulfill_order wi o

  -- A top-up is credited, real money earns the referrer a bonus, and the order is fulfilled.
  unfoldable pub settle_benefits : Order → Action (Unit {0})
  unfolding credit_topup grant_bonus fulfill_unless_refunded
  settle_benefits o = do
    noted ← save (mark_notify_pending o)
    credit_topup noted
    bonused ← grant_bonus noted
    fulfill_unless_refunded bonused

  -- The benefits, and then the order as they left it.
  settle_and_read : Order → Action (Option Order)
  settle_and_read o = do settle_benefits o; gets (order_by_id o.id)

  release_for : Order → Option User → Action (Option Order)
  unfolding settle_and_read
  release_for o user db =
      (if is_held_still o user
          then save_unpaid o
          else (do free ← save (released o); settle_and_read free))
        db

  -- A paid order: a settlement that was held is released once nothing holds it.
  unfoldable pub release_held : Order → Action (Option Order)
  unfolding release_for
  release_held o db =
      (if o.metadata.settlement_held
          then release_for o (user_by_id o.user_id db)
          else save_unpaid o)
        db

  settle_or_hold : Order → Option HoldReason → Action (Option Order)
  unfolding settle_and_read
  settle_or_hold o none = settle_and_read o
  settle_or_hold o (some reason) = save_unpaid (held_order o reason)

  accept_payment : Order → Action (Option Order)
  unfolding settle_or_hold
  accept_payment o = do
    paid ← gets (now_paid o)
    save paid
    user ← gets (user_by_id o.user_id)
    settle_or_hold paid (hold_reason paid user)

  -- A pending order, or a canceled one that the gateway did not cancel.
  unfoldable pub receive_payment : Option String → Option Decimal → Order → Action (Option Order)
  unfolding accept_payment
  receive_payment external_id paid_amount_rub o =
      let named : Order = with_external_id external_id o in
      if is_underpaid paid_amount_rub named
      then save_unpaid (underpaid_order named paid_amount_rub)
      else accept_payment named

  revive : Option String → Option Decimal → Order → Action (Option Order)
  revive external_id paid_amount_rub o =
      if is_gateway_canceled o.metadata.cancellation_reason
      then (do save_unpaid o; pure none)
      else receive_payment external_id paid_amount_rub o

  by_status : OrderStatus → Option String → Option Decimal → Order → Action (Option Order)
  unfolding revive
  by_status OrderStatus.paid external_id paid_amount_rub o = release_held o
  by_status OrderStatus.refunded external_id paid_amount_rub o = save_unpaid o
  by_status OrderStatus.canceled external_id paid_amount_rub o =
      revive external_id paid_amount_rub o
  by_status OrderStatus.pending external_id paid_amount_rub o =
      receive_payment external_id paid_amount_rub o

  pay_found : Option Order → Option String → Option Decimal → Action (Option Order)
  unfolding by_status
  pay_found none external_id paid_amount_rub = pure none
  pay_found (some o) external_id paid_amount_rub = by_status o.status external_id paid_amount_rub o

  unfoldable pub mark_order_paid : ℕ → Option String → Option Decimal → Action (Option Order)
  unfolding pay_found
  mark_order_paid order_id external_id paid_amount_rub = do
    o ← gets (order_by_id order_id)
    pay_found o external_id paid_amount_rub
