-- ===== src/Referral/Tiers.antt =====
-- `get_referral_tier` and `calculate_referral_bonus`. A rate is a percentage.
pub mod Ladder
use just1kbot.Prelude.{
  ℕ, ◌-◌, ◌*◌, ◌/◌, leb, pos, pos_part, leb_ℤ, true, false, Option, none, some, List, [], ◌∷◌,
  String, if◌then◌else◌,
}
use just1kbot.Database.{Decimal}

pub record Tier : Type 0 where
  pub threshold : ℕ
  pub rate : ℕ
  pub name : String

abbrev tier : ℕ → ℕ → String → Tier
tier threshold rate name = record { threshold = threshold; rate = rate; name = name }

-- REFERRAL_TIERS of config/constants.py, sorted by threshold.
abbrev pub referral_tiers : List Tier
referral_tiers =
    tier 0 15 "Standard" ∷ tier 3 20 "Silver" ∷ tier 7 25 "Gold" ∷ tier 15 30 "Platinum" ∷ []

abbrev pub referral_default_rate : ℕ
referral_default_rate = 15

pub record ReferralTierInfo : Type 0 where
  pub rate : ℕ
  pub name : String
  pub needed_for_next : Option ℕ
  pub next_tier_name : Option String
  pub next_rate : Option ℕ

abbrev pub head_tier : List Tier → Option Tier
head_tier [] = none
head_tier (t ∷ ts) = some t

-- The loop over the tiers: the last one whose threshold is met, and the one after it.
unfoldable pub climb : ℕ → Tier → Option Tier → List Tier → Tier × Option Tier
climb count current next [] = (current, next)
climb count current next (t ∷ ts) = elim (leb (Tier.threshold t) count) [
  | true ↦ climb count t (head_tier ts) ts
  | false ↦ (current, next)
]

tier_info : ℕ → Tier → Option Tier → ReferralTierInfo
tier_info count current none = record {
  rate = current.rate;
  name = current.name;
  needed_for_next = none;
  next_tier_name = none;
  next_rate = none;
}
tier_info count current (some next) = record {
  rate = current.rate;
  name = current.name;
  needed_for_next = some (next.threshold - count);
  next_tier_name = some next.name;
  next_rate = some next.rate;
}

unfoldable pub get_referral_tier : ℕ → ReferralTierInfo
unfolding climb tier_info
get_referral_tier count =
    let (current, next) = climb count (tier 0 15 "Standard") none referral_tiers in
    tier_info count current next

-- `(amount * rate).quantize(Decimal(1), rounding=ROUND_DOWN)`, in hundredths.
unfoldable pub calculate_referral_bonus : Decimal → Option ℕ → Decimal
calculate_referral_bonus amount rate =
    if leb_ℤ amount (pos 0)
    then pos 0
    else pos
        (pos_part amount * (elim rate [ none ↦ referral_default_rate | some r ↦ r ]) / 10000 * 100)
