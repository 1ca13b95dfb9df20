-- ===== src/Examples/Referrals.antt =====
-- Referrals at concrete inputs.
use just1kbot.Prelude.{ℕ, pos, ◌+ℤ◌, ◌≤ℤ◌, ◌≡◌, ◌≢◌, refl, arith}
use just1kbot.Database.{ok, get_user_by_telegram_id}
use just1kbot.Ledger.Balance.{sum_entries}
use just1kbot.Referral.Reversal.{already_reversed, reverse_credit}
use just1kbot.Referral.Reversal.Cap.{reverse_credit-capped}
use just1kbot.Referral.Tiers.{ReferralTierInfo, get_referral_tier, calculate_referral_bonus}
use just1kbot.Referral.Tiers.Ladder.{rate_table, needed_table, get_referral_tier_lem}
use just1kbot.Subscription.Referrer.{validate_referral, walk_chain, referred_by}
use just1kbot.Subscription.Referrer.Acyclic.{direct, validate_referral-Above}
use just1kbot.Ledger.Entries.{append_entry, conflicts_with}
use just1kbot.Referral.Activity.{
  has_paid_activity, has_other_qualifying_topup, get_user_active_referrals_count,
}
use just1kbot.Referral.Grant.{
  ReferralBonusGrantResult, effective_count, rewarding_tier, bonus_for, grant_to,
}
use just1kbot.Referral.Grant.Once.{bonus_values, grant_to-once}
use just1kbot.Examples.Data.{customer, referrer, shop, bonus_credit}

reverse_credit-capped_example :
    already_reversed (reverse_credit 60 "r1" bonus_credit shop).1 bonus_credit ≤ℤ pos 5000
unfolding already_reversed sum_entries ◌+ℤ◌
reverse_credit-capped_example = reverse_credit-capped 60 "r1" bonus_credit shop (omega arith)

get_referral_tier_lem_example :
    (ReferralTierInfo.rate (get_referral_tier 6) ≡ rate_table 6)
    × (ReferralTierInfo.needed_for_next (get_referral_tier 6) ≡ needed_table 6)
get_referral_tier_lem_example = get_referral_tier_lem 6

-- The referrer of the referrer may be attached to a newcomer.
validate_referral-Above_example :
    let (newcomer, ref_id, above) : ℕ × ℕ × ℕ = (1005, 1002, 1003) in
    (ref_id ≢ newcomer) × (above ≢ newcomer) × (above ≢ ref_id)
unfolding validate_referral walk_chain referred_by get_user_by_telegram_id
validate_referral-Above_example = validate_referral-Above shop 1005 1002 1003 refl (direct refl)

bonus_for-shop : bonus_for customer referrer 71 (pos 30000) shop ≡ pos 4500
unfolding bonus_for rewarding_tier effective_count get_referral_tier calculate_referral_bonus
    has_other_qualifying_topup get_user_active_referrals_count has_paid_activity
bonus_for-shop = refl

grant_to-once_example :
    let bonus = bonus_for customer referrer 71 (pos 30000) shop in
    let after = append_entry (bonus_values 71 2 bonus) shop in
    ((g : ReferralBonusGrantResult) × (grant_to customer referrer 71 (pos 30000) shop
        ≡ (ok g, after))
      × (ReferralBonusGrantResult.referrer_bonus g ≡ bonus))
    × ((g : ReferralBonusGrantResult) × (grant_to customer referrer 71 (pos 30000) after
          ≡ (ok g, after))
        × (ReferralBonusGrantResult.referrer_bonus g ≡ pos 0))
unfolding conflicts_with
grant_to-once_example =
    grant_to-once customer referrer 71 (pos 30000) shop (rw bonus_for-shop (omega arith)) refl
