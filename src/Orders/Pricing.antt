-- ===== src/Orders/Pricing.antt =====
-- `calculate_tariff_change` and `_resolve_order_terms`.
pub mod Bounds
use just1kbot.Prelude.{
  ℕ, ◌-◌, ◌*◌, ◌/◌, ltb, leb, ◌==◌, pos, ◌-ℤ◌, max_ℤ, Bool, true, false, not, ◌&&◌, ◌||◌, Option,
  none, some, if◌then◌else◌,
}
use just1kbot.Database.{Decimal, Instant, User, Tariff, Operation, Terms, Db, tariff_by_id, truthy}
use just1kbot.Dates.{microseconds}
use just1kbot.Referral.Activity.{is_eligible_for_referral_first_discount}

-- Python's floats, which the proration computes with: the operations that it uses, with no law.
-- `round` is of a value that is not negative, and so is `ceil`.
pub record FloatOps : Type 1 where
  pub Float : Type 0
  pub of_int : ℕ → Float
  pub div : Float → Float → Float
  pub mul : Float → Float → Float
  pub round : Float → ℕ
  pub ceil : Float → ℕ
  -- `abs(a - b) < 1e-6`
  pub is_close : Float → Float → Bool

-- A whole number of rubles.
abbrev pub rubles : ℕ → Decimal
rubles n = pos (n * 100)

or_thirty : ℕ → ℕ
or_thirty n = if ltb 0 n then n else 30

abbrev is_after : Option Instant → Instant → Bool
is_after none now = false
is_after (some end) now = ltb now end

module _ (floats : FloatOps) where
  open floats use {Float, of_int, div, mul, round, ceil, is_close}

  -- `math.ceil((subscription_end - now).total_seconds() / 86400.0)`
  unfoldable pub days_left : Instant → Instant → ℕ
  days_left end now = ceil (div (div (of_int (end - now)) (of_int microseconds)) (of_int 86400))

  daily : Tariff → Float
  unfolding or_thirty
  daily t = div (of_int t.price_rub) (of_int (or_thirty t.duration_days))

  unfoldable pub remaining_rub : Tariff → ℕ → ℕ
  unfolding daily
  remaining_rub current days = round (mul (of_int days) (daily current))

  -- The days of the target that the unspent value is worth.
  unfoldable pub converted_days : Tariff → Tariff → ℕ → ℕ
  unfolding daily remaining_rub
  converted_days current target days =
      if is_close (daily current) (daily target)
      then days
      else (let n : ℕ = round (div (of_int (remaining_rub current days)) (daily target)) in
          if n == 0 then 1 else n)

  prorate : Tariff → Tariff → ℕ → Decimal × ℕ
  unfolding remaining_rub converted_days
  prorate current target days =
      if leb target.price_rub (remaining_rub current days)
      then (pos 0, converted_days current target days)
      else (rubles (target.price_rub - remaining_rub current days), target.duration_days)

  change_from : Tariff → Tariff → Instant → Instant → Decimal × ℕ
  unfolding days_left prorate
  change_from current target end now =
      if days_left end now == 0 || (current.price_rub == 0 || target.price_rub == 0)
      then (rubles target.price_rub, target.duration_days)
      else prorate current target (days_left end now)

  -- What is due, and the days that result. A price of zero stands for a tariff without a price.
  unfoldable pub calculate_tariff_change :
      Option Tariff → Tariff → Option Instant → Instant → Decimal × ℕ
  unfolding change_from
  calculate_tariff_change none target end now = (rubles target.price_rub, target.duration_days)
  calculate_tariff_change (some current) target none now =
      (rubles target.price_rub, target.duration_days)
  calculate_tariff_change (some current) target (some end) now =
      if ltb now end
      then change_from current target end now
      else (rubles target.price_rub, target.duration_days)

-- The terms of an order; those that a caller left open are `none`.
pub record Quote : Type 0 where
  pub amount_rub : Option Decimal
  pub duration_days : Option ℕ
  pub device_limit : Option ℕ
  pub terms : Terms

-- `max(Decimal(1), base_cost - discount)`, with a quarter off, rounded down to rubles.
unfoldable pub welcome_discount : ℕ → ℕ
welcome_discount price_rub = price_rub * 25 / 100

unfoldable pub discounted : ℕ → Decimal
discounted price_rub = max_ℤ (rubles 1) (rubles price_rub -ℤ rubles (welcome_discount price_rub))

abbrev or_given : {A : Type 0} → Option A → A → Option A
or_given none a = some a
or_given (some b) a = some b

-- `user and current_tid and …`: the user has a current tariff, and a subscription that runs.
abbrev is_current : Option User → Instant → Bool
is_current none now = false
is_current (some u) now =
    truthy (User.current_tariff_id u) && is_after (User.subscription_end u) now

abbrev is_same_tariff : Option User → ℕ → Bool
is_same_tariff none tariff_id = false
is_same_tariff (some u) tariff_id = elim (User.current_tariff_id u) [
  | none ↦ false
  | some t ↦ t == tariff_id
]

current_tariff : Option User → Db → Option Tariff
current_tariff none db = none
current_tariff (some u) db = elim u.current_tariff_id [ none ↦ none | some t ↦ tariff_by_id t db ]

subscription_end_of : Option User → Option Instant
subscription_end_of none = none
subscription_end_of (some u) = u.subscription_end

-- The pricing of anything but a change of tariff: only an open amount can be discounted.
priced : Tariff → Bool → Quote → Quote
priced tariff eligible q = elim q.amount_rub [
  | some _ ↦ q
  | none ↦
      if eligible
      then record q {
        amount_rub = some (discounted tariff.price_rub);
        terms = record q.terms {
          is_referral_discount = true;
          discount_rub = some (welcome_discount tariff.price_rub);
          original_price_rub = some tariff.price_rub;
        };
      }
      else record q { amount_rub = some (rubles tariff.price_rub) }
]

named_operation : Bool → Terms → Terms
named_operation true t = record t { is_renewal = true; operation = some Operation.renew }
named_operation false t = record t { operation = or_given t.operation Operation.purchase }

-- A tariff order that is no change: a renewal or a purchase.
purchase_terms : Tariff → Bool → Bool → Quote → Quote
unfolding priced named_operation
purchase_terms tariff is_renewal eligible q =
    let q' : Quote =
      priced tariff eligible (record q { terms = named_operation is_renewal q.terms }) in
    record q' { duration_days = or_given q'.duration_days tariff.duration_days }

change_terms : Decimal × ℕ → Quote → Quote
change_terms (due_rub, resulting_days) q = record q {
  amount_rub = or_given q.amount_rub due_rub;
  duration_days = or_given q.duration_days resulting_days;
  terms = record q.terms { is_tariff_change = true; operation = some Operation.change };
}

with_limit : Tariff → Quote → Quote
with_limit tariff q = record q { device_limit = or_given q.device_limit tariff.device_limit }

module _ (floats : FloatOps) where
  -- A change only while a subscription to another tariff runs, a renewal while one to the same does.
  unfoldable pub terms_for : Option User → ℕ → Tariff → Quote → Db → Quote
  unfolding purchase_terms change_terms with_limit current_tariff subscription_end_of
  terms_for user user_id tariff q db = with_limit tariff (
      if is_current user db.now && not (is_same_tariff user tariff.id)
      then change_terms
          (calculate_tariff_change floats (current_tariff user db) tariff (subscription_end_of user)
            db.now)
          q
      else purchase_terms tariff (is_current user db.now && is_same_tariff user tariff.id)
          (is_eligible_for_referral_first_discount db user_id) q)

  -- `_resolve_order_terms`; the description, which is shown and never read, is left out.
  unfoldable pub resolve_order_terms : Option User → ℕ → Option ℕ → Quote → Db → Quote
  resolve_order_terms user user_id none q db = q
  resolve_order_terms user user_id (some tariff_id) q db = elim (tariff_by_id tariff_id db) [
    | none ↦ q
    | some tariff ↦ terms_for user user_id tariff q db
  ]
