-- ===== src/Referral/Tiers/Ladder.antt =====
-- The tiers as a table, and the bonus as a share of the payment.
use just1kbot.Prelude.{ℕ, ◌-◌, ◌≤◌, leb, if◌then◌else◌, Option, none, some, ◌≡◌, arith}
use just1kbot.Referral.Tiers.{ReferralTierInfo, get_referral_tier}

-- The rates of the four tiers by the count of active referrals.
abbrev pub rate_table : ℕ → ℕ
rate_table count =
    if leb 15 count then 30 else if leb 7 count then 25 else if leb 3 count then 20 else 15

-- The referrals that are missing for the next tier.
abbrev pub needed_table : ℕ → Option ℕ
needed_table count =
    if leb 15 count
    then none
    else some ((if leb 7 count then 15 else if leb 3 count then 7 else 3) - count)

-- The tier found by the loop is that of the table: 15% below three active referrals, 20% below
-- seven, 25% below fifteen, 30% from there; and the referrals that are missing for the next tier
-- are told exactly while there is one.
pub get_referral_tier_lem :
    (count : ℕ)
    → (ReferralTierInfo.rate (get_referral_tier count) ≡ rate_table count)
      × (ReferralTierInfo.needed_for_next (get_referral_tier count) ≡ needed_table count)
unfolding get_referral_tier
get_referral_tier_lem count = ground arith

-- More active referrals never lower the rate.
get_referral_tier_mono :
    (a b : ℕ)
    → a ≤ b
    → ReferralTierInfo.rate (get_referral_tier a) ≤ ReferralTierInfo.rate (get_referral_tier b)
unfolding get_referral_tier
get_referral_tier_mono a b h = ground arith
