-- ===== src/Referral/Grant.antt =====
-- `grant_referral_bonus_for_topup`.
pub mod Once
use just1kbot.Prelude.{
  ℕ, ◌-◌, ltb, ◌==◌, pos, leb_ℤ, Bool, true, false, not, ◌&&◌, Option, none, some, String,
  first_where, if◌then◌else◌,
}
use just1kbot.Database.{
  referral_bonus, EntryMetadata, AccountLedgerEntry, Decimal, User, Db, Action, Error, pure, ◌>>=◌,
  ◌>>◌, gets, modify, raise_if, key_eq,
}
use just1kbot.Ledger.Entries.{EntryValues, satisfies_checks, conflicts_with, append_entry}
use just1kbot.Ledger.Operations.{admin_adjustment_values}
use just1kbot.Referral.Tiers.{ReferralTierInfo, get_referral_tier, calculate_referral_bonus}
use just1kbot.Referral.Activity.{
  is_referred, get_user_active_referrals_count, has_other_qualifying_topup,
  referral_active_min_topup_rub,
}

pub record ReferralBonusGrantResult : Type 0 where
  pub referrer_bonus : Decimal
  pub referrer_user_id : Option ℕ
  pub referrer_telegram_id : Option ℕ
  pub bonus_rate_pct : ℕ
  pub tier_upgraded : Bool
  pub new_tier_name : Option String
  pub new_rate_pct : Option ℕ

-- The result when nothing is granted.
abbrev pub no_grant : ReferralBonusGrantResult
no_grant = record {
  referrer_bonus = pos 0;
  referrer_user_id = none;
  referrer_telegram_id = none;
  bonus_rate_pct = 15;
  tier_upgraded = false;
  new_tier_name = none;
  new_rate_pct = none;
}

-- `session.add` of an entry and the flush that follows: a check or an index that refuses it raises.
unfoldable pub add_entry : EntryValues → Action (Unit {0})
add_entry v db =
    (do
      raise_if (not (satisfies_checks v)) Error.integrity_error
      elim (first_where (conflicts_with v) (Db.entries db)) [
        | none ↦ modify (append_entry v)
        | some _ ↦ raise_if true Error.integrity_error
      ])
      db

-- The count of active referrals before this payment, if this payment is what activates the user.
unfoldable pub effective_count : Bool → Bool → ℕ → ℕ
effective_count first_activation current_qualifies active_count =
    if first_activation && current_qualifies then active_count - 1 else active_count

abbrev pub bonus_metadata : ℕ → EntryMetadata
bonus_metadata order_id = record {
  is_referral_bonus = true;
  topup_order_id = some order_id;
  original_credit_id = none;
}

-- The bonus is credited once for an order and a referrer.
unfoldable pub credit_once : ℕ → ℕ → Decimal → Action Decimal
credit_once order_id referrer_id bonus db =
    elim (first_where
      (λ e. key_eq (AccountLedgerEntry.idempotency_key e) (referral_bonus order_id referrer_id))
      (Db.entries db)) [
        | none ↦
            (do
              add_entry (
                  admin_adjustment_values referrer_id bonus (referral_bonus order_id referrer_id)
                    (bonus_metadata order_id))
              pure bonus)
              db
        | some _ ↦ pure (pos 0) db
      ]

unfoldable pub granted :
    User → Bool → ReferralTierInfo → ReferralTierInfo → Decimal → ReferralBonusGrantResult
granted referrer activates tier_info new_tier_info bonus =
    let tier_upgraded : Bool =
      activates && ltb (ReferralTierInfo.rate tier_info) (ReferralTierInfo.rate new_tier_info) in
    record {
      referrer_bonus = bonus;
      referrer_user_id = some (User.id referrer);
      referrer_telegram_id = some (User.telegram_id referrer);
      bonus_rate_pct = ReferralTierInfo.rate tier_info;
      tier_upgraded = tier_upgraded;
      new_tier_name = if tier_upgraded then some (ReferralTierInfo.name new_tier_info) else none;
      new_rate_pct = if tier_upgraded then some (ReferralTierInfo.rate new_tier_info) else none;
    }

-- `is_first_activation and current_qualifies`
unfoldable pub activates : User → ℕ → Decimal → Db → Bool
activates purchaser order_id topup_amount db =
    not (has_other_qualifying_topup db purchaser.id order_id)
    && leb_ℤ referral_active_min_topup_rub topup_amount

-- The tier that this payment is rewarded by.
unfoldable pub rewarding_tier : User → User → ℕ → Decimal → Db → ReferralTierInfo
rewarding_tier purchaser referrer order_id topup_amount db = get_referral_tier (
    effective_count (not (has_other_qualifying_topup db purchaser.id order_id))
      (leb_ℤ referral_active_min_topup_rub topup_amount)
      (get_user_active_referrals_count db referrer.telegram_id))

unfoldable pub bonus_for : User → User → ℕ → Decimal → Db → Decimal
bonus_for purchaser referrer order_id topup_amount db =
    calculate_referral_bonus topup_amount
      (some (ReferralTierInfo.rate (rewarding_tier purchaser referrer order_id topup_amount db)))

unfoldable pub grant_to : User → User → ℕ → Decimal → Action ReferralBonusGrantResult
unfolding credit_once granted
grant_to purchaser referrer order_id topup_amount db =
    let bonus : Decimal = bonus_for purchaser referrer order_id topup_amount db in
    (if leb_ℤ bonus (pos 0) then pure no_grant else do
      credited ← credit_once order_id referrer.id bonus
      pure (
          granted referrer (activates purchaser order_id topup_amount db)
            (rewarding_tier purchaser referrer order_id topup_amount db)
            (get_referral_tier (get_user_active_referrals_count db referrer.telegram_id)) credited))
      db

grant_from : User → Option User → ℕ → Decimal → Action ReferralBonusGrantResult
grant_from purchaser none order_id topup_amount = pure no_grant
grant_from purchaser (some referrer) order_id topup_amount =
    if referrer.is_banned
    then pure no_grant
    else if purchaser.id == referrer.id
    then pure no_grant
    else grant_to purchaser referrer order_id topup_amount

-- The referrer of a purchaser whose `referred_by` is not the purchaser's own telegram id.
referrer_of : User → Db → Option User
referrer_of purchaser db = elim (User.referred_by purchaser) [
  | none ↦ none
  | some r ↦ first_where (λ u. User.telegram_id u == r && not (User.is_deleted u)) (Db.users db)
]

grant_for : Option User → ℕ → Decimal → Action ReferralBonusGrantResult
unfolding grant_from referrer_of
grant_for none order_id topup_amount = pure no_grant
grant_for (some purchaser) order_id topup_amount =
    if is_referred purchaser
    then (do
      referrer ← gets (referrer_of purchaser)
      grant_from purchaser referrer order_id topup_amount)
    else pure no_grant

-- The audit record of a grant is not modelled: nothing of billing reads it.
unfoldable pub grant_referral_bonus_for_topup : ℕ → ℕ → Decimal → Action ReferralBonusGrantResult
unfolding grant_for
grant_referral_bonus_for_topup purchaser_user_id order_id topup_amount = do
  purchaser ← gets (λ db.
      first_where (λ u. User.id u == purchaser_user_id && not (User.is_deleted u)) (Db.users db))
  grant_for purchaser order_id topup_amount
