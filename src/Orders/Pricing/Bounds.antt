-- ===== src/Orders/Pricing/Bounds.antt =====
-- The price of a change of tariff and the first-purchase discount stay within the tariff's price.
use just1kbot.Prelude.{ℕ, ◌+◌, ◌-◌, ◌*◌, ◌≤◌, ◌<◌, ◌-ℤ◌, ◌≤ℤ◌, ◌≡◌, arith}
use just1kbot.Orders.Pricing.{rubles, welcome_discount, discounted}

-- A referred first purchase of a tariff of two rubles or more costs the price less the discount,
-- which is at most a quarter of the price and more than a quarter less one ruble; it never costs
-- less than a ruble.
discounted_bounds :
    (price : ℕ)
    → 2 ≤ price
    → (discounted price ≡ rubles (price - welcome_discount price))
      × (rubles 1 ≤ℤ discounted price)
      × (welcome_discount price * 4 ≤ price)
      × (price < welcome_discount price * 4 + 4)
unfolding discounted welcome_discount ◌-ℤ◌
discounted_bounds price h = ground arith
