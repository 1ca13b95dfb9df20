-- ===== src/WhiteInternet/Lifecycle/Renewal.antt =====
-- Renewals: what is paid for is granted, and never beyond the furthest end that is allowed.
use just1kbot.Prelude.{
  is_or_is_not, inl, inr, ℕ, ◌+◌, ◌*◌, ◌≤◌, ◌==◌, Bool, true, false, ◌≡◌, refl, ap, ◌∙◌, Option,
  none, some, ◌⊎◌, arith,
}
use just1kbot.Database.{
  is_dormant, Instant, User, Tariff, Server, Operation, WhiteInternetSubscription, Db, Error, ok,
  err, user_by_id,
}
use just1kbot.Dates.{day}
use just1kbot.Fulfillment.Operations.{put_white_internet, white_internet_of}
use just1kbot.WhiteInternet.Settings.{Settings, Message}
use just1kbot.WhiteInternet.Repository.{
  subscription_by_id, effective_device_limit, exceeds_horizon, renewed, renew_subscription_atomic,
  cancel_pending_orphan_cleanups_for_client,
}
use just1kbot.WhiteInternet.Rows.{subscription_by_id-put}
use just1kbot.WhiteInternet.Nodes.{
  Destination, stays, moves, nowhere, moved_to, origin_of, destination, migrate,
}
use just1kbot.WhiteInternet.Checkout.{get_or_create_white_internet_tariff, checkout_if}
use just1kbot.WhiteInternet.Checkout.Frame.{
  checkout-unchanged, get_or_create_white_internet_tariff-Keeps,
}
use just1kbot.WhiteInternet.Extras.{no_servers}
use just1kbot.WhiteInternet.Extras.Validation.{settled, clean_up_old-granted}
use just1kbot.WhiteInternet.Lifecycle.{
  Draws, month_purchase, renewal_refusal, give_renewal, pay_for_month, renew_paid,
  renew_subscription,
}

-- A renewal of a row either raises and changes nothing, or it writes and returns the renewed row,
-- which has at least the days more than the subscription had left, and ends no later than the furthest
-- end that is allowed.
pub renew_subscription_atomic-horizon :
    (st : Settings) (id duration_days base_bytes : ℕ) (sub : WhiteInternetSubscription) (db : Db)
    → subscription_by_id id db ≡ some sub
    → let row = renewed st duration_days base_bytes (Db.now db) sub in
      ((e : Error) × (renew_subscription_atomic st id duration_days base_bytes db ≡ (err e, db)))
      ⊎ ((renew_subscription_atomic st id duration_days base_bytes db
            ≡ (ok row, put_white_internet row db))
          × ((WhiteInternetSubscription.expires_at sub + duration_days * day
                ≤ WhiteInternetSubscription.expires_at row)
              × (WhiteInternetSubscription.expires_at row
                  ≤ Db.now db + Settings.max_expiry_days st * day)))
unfolding renew_subscription_atomic renewed
renew_subscription_atomic-horizon st id duration_days base_bytes sub db h =
    elim (is_or_is_not (is_dormant (WhiteInternetSubscription.status sub))) [
      | inl d ↦ inl (Error.inactive_subscription, rw (h, d) refl)
      | inr d ↦ elim (is_or_is_not (exceeds_horizon st duration_days (Db.now db) sub)) [
        | inl x ↦ inl (Error.renewal_horizon_exceeded, rw (h, d, x) refl)
        | inr x ↦ inr (rw (h, d, x) refl, ground arith)
      ]
    ]

module _ (st : Settings) (tariff : Tariff) (sub : WhiteInternetSubscription) where
  abbrev base_bytes : ℕ
  base_bytes = effective_device_limit sub * Settings.base_traffic_bytes st

  abbrev result : Instant → WhiteInternetSubscription → WhiteInternetSubscription
  result now row = renewed st (Tariff.duration_days tariff) base_bytes now row

  atomic :
      (d : Db) (row : WhiteInternetSubscription)
      → renewal_refusal row ≡ none
      → exceeds_horizon st (Tariff.duration_days tariff) (Db.now d) row ≡ false
      → subscription_by_id (WhiteInternetSubscription.id row) d ≡ some row
      → renew_subscription_atomic st
          (WhiteInternetSubscription.id row)
          (Tariff.duration_days tariff)
          base_bytes
          d
        ≡ (ok (result (Db.now d) row), put_white_internet (result (Db.now d) row) d)
  unfolding renewal_refusal renew_subscription_atomic
  atomic d row g t h = rw (h) (ground arith)

  renewal_granted :
      (to : Destination) (old : Option Server) (db d : Db) (row : WhiteInternetSubscription)
      → migrate to sub db ≡ (ok row, d)
      → renewal_refusal row ≡ none
      → exceeds_horizon st (Tariff.duration_days tariff) (Db.now d) row ≡ false
      → subscription_by_id (WhiteInternetSubscription.id row) d ≡ some row
      → (give_renewal st tariff to old sub db).0
        ≡ ok (true, (Message.renew_success, some (result (Db.now d) row)))
  unfolding give_renewal
  renewal_granted to old db d row m g t h =
      rw (m, atomic d row g t h) (clean_up_old-granted to old _ _ Message.renew_success _ _)

  moved-refusal :
      (s : Server) → renewal_refusal sub ≡ none → renewal_refusal (moved_to s sub) ≡ none
  unfolding renewal_refusal
  moved-refusal s g = ground arith

  give_renewal-granted :
      (to : Destination) (old : Option Server) (db : Db)
      → renewal_refusal sub ≡ none
      → exceeds_horizon st (Tariff.duration_days tariff) (Db.now db) sub ≡ false
      → subscription_by_id (WhiteInternetSubscription.id sub) db ≡ some sub
      → (give_renewal st tariff to old sub db).0
        ≡ ok (true, (Message.renew_success, some (result (Db.now db) (settled to sub))))
  unfolding give_renewal migrate cancel_pending_orphan_cleanups_for_client renewal_refusal
  give_renewal-granted to old db g t h =
      elim to
        as (λ to.
          (give_renewal st tariff to old sub db).0
          ≡ ok (true, (Message.renew_success, some (result (Db.now db) (settled to sub))))) [
            | moves s ↦
                renewal_granted (moves s) old db (migrate (moves s) sub db).1 (moved_to s sub) refl
                  (moved-refusal s g) t (subscription_by_id-put (moved_to s sub) sub db h)
            | stays ↦ renewal_granted stays old db db sub refl g t h
            | nowhere ↦ renewal_granted nowhere old db db sub refl g t h
          ]

  -- A renewal of a subscription that is no trial, that passes every check before the checkout and that
  -- the checkout lets through, is granted: nobody is charged for a month and refused it afterwards.
  -- This holds for a user and a subscription that are rows of the database, the latter the one that
  -- its id selects, whatever node it moves to.
  pub renew_subscription-granted :
      (user : User) (draws : Draws) (debit_balance : Bool) (db paid : Db)
      → user_by_id (User.id user) db ≡ some user
      → white_internet_of (User.id user) db ≡ some sub
      → subscription_by_id (WhiteInternetSubscription.id sub) db ≡ some sub
      → WhiteInternetSubscription.is_trial sub ≡ false
      → renewal_refusal sub ≡ none
      → no_servers (destination sub db) ≡ none
      → (Settings.base_traffic_bytes st == 0) ≡ false
      → exceeds_horizon st (Tariff.duration_days tariff) (Db.now db) sub ≡ false
      → get_or_create_white_internet_tariff st db
        ≡ (ok tariff, (get_or_create_white_internet_tariff st db).1)
      → checkout_if debit_balance user
          (month_purchase st (Draws.order_id draws) Operation.renew tariff sub)
          (get_or_create_white_internet_tariff st db).1
        ≡ (ok none, paid)
      → (renew_subscription st draws (User.id user) debit_balance db).0
        ≡ ok (
          true,
          (Message.renew_success, some (result (Db.now db) (settled (destination sub db) sub))),
        )
  unfolding renew_subscription renew_paid pay_for_month
  renew_subscription-granted user draws debit_balance db paid u w h i g n b e t c =
      let same =
        checkout-unchanged st debit_balance user
          (month_purchase st (Draws.order_id draws) Operation.renew tariff sub) db paid c in
      let clock : Db.now paid ≡ Db.now db = ap (λ v. v.1.1.1) same in
      let early : Db.now (get_or_create_white_internet_tariff st db).1 ≡ Db.now db =
        ap (λ v. v.1.1.1) (get_or_create_white_internet_tariff-Keeps st db) in
      let within_horizon : exceeds_horizon st (Tariff.duration_days tariff)
            (Db.now (get_or_create_white_internet_tariff st db).1) sub
          ≡ false =
        rw early e in
      rw (u, w)
        (simp (i) (
          rw (g, t, b, n, within_horizon, c)
            (give_renewal-granted (destination sub db) (origin_of sub db) paid g (rw clock e)
                (rw (ap (λ v. v.1.0.0) same) h)
              ∙ ap
                  (λ now. ok (
                    true,
                    (Message.renew_success, some (result now (settled (destination sub db) sub))),
                  ))
                  clock)))
