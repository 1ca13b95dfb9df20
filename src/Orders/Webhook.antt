-- ===== src/Orders/Webhook.antt =====
-- `process_webhook_event`, from what the gateway made of the payload.
pub mod Refunds
use just1kbot.Prelude.{
  ℕ, ◌==◌, eqb_ℤ, Bool, true, false, not, ◌&&◌, ◌||◌, Option, none, some, String, str_eq,
  first_where, count_where, if◌then◌else◌,
}
use just1kbot.Database.{
  OrderStatus, Decimal, CancellationReason, Mismatch, Review, OrderMetadata, Order, Db, Action,
  Error, pure, raise, ◌>>=◌, ◌>>◌, gets, order_by_id, is_pending, is_topup, is_wallet,
}
use just1kbot.Ledger.Balance.{AccountBalanceSnapshot, get_account_balance}
use just1kbot.Ledger.Operations.{create_order_refund_debit, is_credit_of_order}
use just1kbot.Referral.Reversal.{reverse_referral_bonus_for_topup}
use just1kbot.Fulfillment.Operations.{WhiteInternetService}
use just1kbot.Fulfillment.Revocation.{revoke_order}
use just1kbot.Orders.Settlement.{
  save, with_metadata, mark_order_canceled, mark_order_paid, is_gateway_canceled,
}

-- `WebhookResult` of integrations/payment_gateways/base.py. An absent `order_id` or
-- `related_external_id` is "", which the code treats alike.
pub record WebhookResult : Type 0 where
  pub order_id : String
  pub is_paid : Bool
  pub is_refunded : Bool
  pub is_canceled : Bool
  pub external_id : String
  pub amount_rub : Option Decimal
  pub related_external_id : String

-- What the handler uses of Python: `str.strip`, `uuid.UUID` (`none` where it raises), and the
-- reference `f"refund_{order.id}"`.
pub record Runtime : Type 0 where
  pub strip : String → String
  pub uuid : String → Option ℕ
  pub refund_name : ℕ → String

abbrev pub is_empty : String → Bool
is_empty s = str_eq s ""

abbrev has_external_id : String → Order → Bool
has_external_id e o = elim (Order.external_id o) [ none ↦ false | some f ↦ str_eq f e ]

abbrev or_find : Option Order → Option Order → Option Order
or_find (some o) p = some o
or_find none p = p

abbrev find_by_external_id : String → Db → Option Order
find_by_external_id e db =
    if is_empty e then none else first_where (has_external_id e) (Db.orders db)

abbrev find_by_order_id : Option ℕ → Db → Option Order
find_by_order_id none db = none
find_by_order_id (some order_id) db = order_by_id order_id db

-- By the order's id, else by the payment that was refunded, else by the payment.
unfoldable pub find_order : Runtime → WebhookResult → Db → Option Order
find_order py r db =
    or_find (if is_empty r.order_id then none else find_by_order_id (py.uuid r.order_id) db) (
      or_find (find_by_external_id r.related_external_id db) (find_by_external_id r.external_id db))

-- An order that has a payment accepts news of no other.
unfoldable pub is_other_payment : WebhookResult → Order → Bool
is_other_payment r o = elim o.external_id [
  | none ↦ false
  | some e ↦
      not (is_empty e)
      && ((r.is_paid && (not (is_empty r.external_id) && not (str_eq e r.external_id)))
          || (r.is_refunded
              && (not (is_empty r.related_external_id) && not (str_eq e r.related_external_id))))
]

abbrev with_review : Order → Review → Order
with_review o v = with_metadata o (record (Order.metadata o) { review = v })

abbrev review_of : Order → Review
review_of o = OrderMetadata.review (Order.metadata o)

abbrev late_rejected : Order → String → Order
late_rejected o external_id =
    record (with_review o
      (record (review_of o) { late_payment_attempt_rejected = some external_id })) {
        newly_paid = false;
      }

abbrev is_underpaid_marked : Order → Bool
is_underpaid_marked o = elim (Review.underpaid (review_of o)) [ none ↦ false | some _ ↦ true ]

-- The answer of `mark_order_paid`; `None` on an order that the gateway canceled is acknowledged.
after_payment : WebhookResult → Order → Option Order → Action (Option Order)
after_payment r o (some paid) = pure (some paid)
after_payment r o none =
    if is_gateway_canceled o.metadata.cancellation_reason
    then (do rejected ← save (late_rejected o r.external_id); pure (some rejected))
    else if is_underpaid_marked o
    then (do known ← save (record o { newly_paid = false }); pure (some known))
    else pure none

abbrev external_review : String → Review → Review
external_review e v = if is_empty e then v else record v { refund_external_id = some e }

amount_mismatch : Option Decimal → Mismatch
amount_mismatch none = Mismatch.missing
amount_mismatch (some a) = Mismatch.amount a

-- A refund of another amount than the order's is left for a review by hand.
unfoldable pub mismatched : WebhookResult → Order → Order
unfolding amount_mismatch
mismatched r o = with_review o (
    external_review r.external_id (record (review_of o) {
      requires_manual_review = true;
      refund_amount_mismatch = some (amount_mismatch r.amount_rub);
    }))

abbrev pub is_full_amount : Option Decimal → Order → Bool
is_full_amount none o = false
is_full_amount (some a) o = eqb_ℤ a (Order.amount_rub o)

abbrev pub refunded_order : WebhookResult → Order → Db → Order
refunded_order r o db =
    record (with_review o (external_review (WebhookResult.external_id r) (review_of o))) {
      status = OrderStatus.refunded;
      refunded_at = some (Db.now db);
    }

unfoldable pub refund_reference : Runtime → WebhookResult → Order → String
refund_reference py r o =
    if is_empty (py.strip r.external_id) then py.refund_name o.id else py.strip r.external_id

-- How a call gives its second argument.
pub data Argument : Type 0 where
  positional : ℕ → Argument
  keyword : ℕ → Argument

-- `get_account_balance(session, *, user_id)`: Python raises `TypeError` for a second argument by
-- position.
call_get_account_balance : Argument → Action AccountBalanceSnapshot
call_get_account_balance (positional user_id) = raise Error.type_error
call_get_account_balance (keyword user_id) = get_account_balance user_id false none

-- `balance_after < 0`: the data class of a balance has no order, for which Python raises `TypeError`.
is_below_zero : AccountBalanceSnapshot → Action Bool
is_below_zero balance_after = raise Error.type_error

-- `negative_balance_rub` and the text of the mismatch show the balance, which no code reads back.
flag_negative : Bool → Order → Action Order
flag_negative true o = save (
    with_review o (record (review_of o) {
      requires_manual_review = true;
      refund_amount_mismatch = some Mismatch.negative_balance;
    }))
flag_negative false o = pure o

-- A top-up that was credited is debited again and its bonus reversed; a balance below zero is to be
-- looked at by hand.
refund_credited : Runtime → WebhookResult → Order → Action (Option Order)
unfolding call_get_account_balance is_below_zero flag_negative
refund_credited py r o = do
  create_order_refund_debit py.strip o.user_id o.amount_rub o.id (refund_reference py r o)
  reverse_referral_bonus_for_topup o.id (refund_reference py r o)
  balance_after ← call_get_account_balance (positional o.user_id)
  is_negative ← is_below_zero balance_after
  flagged ← flag_negative is_negative o
  pure (some flagged)

refund_topup : Runtime → WebhookResult → Order → Action (Option Order)
unfolding refund_credited
refund_topup py r o db =
    (if count_where (is_credit_of_order o.id) (Db.entries db) == 0
        then pure (some o)
        else refund_credited py r o)
      db

reverse_if : Bool → Order → String → Action (Unit {0})
reverse_if true o refund_ref = do reverse_referral_bonus_for_topup o.id refund_ref; pure tt
reverse_if false o refund_ref = pure tt

module _ (py : Runtime) (wi : WhiteInternetService) where
  revoke_if : Bool → Order → Action (Unit {0})
  revoke_if true o = revoke_order wi o
  revoke_if false o = pure tt

  refund_purchase : WebhookResult → Order → Action (Option Order)
  unfolding reverse_if revoke_if
  refund_purchase r o = do
    reverse_if (not (is_wallet o.payment_method)) o (refund_reference py r o)
    revoke_if (not o.metadata.settlement_held) o
    gets (order_by_id o.id)

  refund_paid : WebhookResult → Order → Action (Option Order)
  unfolding refund_topup refund_purchase
  refund_paid r o = do
    refunded ← gets (refunded_order r o)
    save refunded
    if is_topup o.service_type then refund_topup py r refunded else refund_purchase r refunded

  -- Only a paid order is refunded, and only in full.
  refund_for : OrderStatus → WebhookResult → Order → Action (Option Order)
  unfolding mismatched refund_paid
  refund_for OrderStatus.refunded r o = pure (some o)
  refund_for OrderStatus.paid r o =
      if is_full_amount r.amount_rub o
      then refund_paid r o
      else (do reviewed ← save (mismatched r o); pure (some reviewed))
  refund_for OrderStatus.pending r o = pure none
  refund_for OrderStatus.canceled r o = pure none

  unfoldable pub refund : WebhookResult → Order → Action (Option Order)
  unfolding refund_for
  refund r o = refund_for o.status r o

  pay : WebhookResult → Order → Action (Option Order)
  unfolding after_payment
  pay r o = do
    answer ← mark_order_paid wi o.id (some r.external_id) r.amount_rub
    after_payment r o answer

  cancel : Order → Action (Option Order)
  cancel o =
      if is_pending o.status
      then (do
        canceled ← save (mark_order_canceled CancellationReason.gateway_canceled o)
        pure (some canceled))
      else pure (some o)

  handle_found : WebhookResult → Option Order → Action (Option Order)
  unfolding pay cancel
  handle_found r none = pure none
  handle_found r (some o) =
      if is_other_payment r o
      then pure none
      else if r.is_paid
      then pay r o
      else if r.is_canceled
      then cancel o
      else if r.is_refunded
      then refund r o
      else pure (some o)

  unfoldable pub process_webhook_event : WebhookResult → Action (Option Order)
  unfolding handle_found
  process_webhook_event r db =
      (if is_empty r.order_id && is_empty r.external_id
          then pure none
          else handle_found r (find_order py r db))
        db
