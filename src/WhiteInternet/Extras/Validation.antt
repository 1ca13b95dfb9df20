-- ===== src/WhiteInternet/Extras/Validation.antt =====
-- What is checked before the checkout is all that the change after it needs: a purchase that was paid
-- for is granted.
use just1kbot.Prelude.{
  sym, ◌∙◌, ◌==◌, first_where, String, ℕ, ◌*◌, Bool, true, false, ◌≡◌, refl, ap, Option, none, some,
  arith,
}
use just1kbot.Database.{
  Decimal, Instant, User, Server, WhiteInternetSubscription, Db, Result, ok, ◌>>◌, Tariff,
  user_by_id,
}
use just1kbot.Fulfillment.Operations.{put_white_internet, white_internet_of}
use just1kbot.WhiteInternet.Settings.{Settings, Message}
use just1kbot.WhiteInternet.Repository.{
  subscription_by_id, with_slot, with_pack, add_device_slot_atomic, topup_quota_atomic,
  cancel_pending_orphan_cleanups_for_client, enqueue_orphan_cleanup, gigabyte,
}
use just1kbot.WhiteInternet.Rows.{subscription_by_id-put}
use just1kbot.WhiteInternet.Nodes.{
  Destination, stays, moves, nowhere, moved_to, origin_of, destination, migrate, clean_up_old,
  dispatch_deprovision,
}
use just1kbot.WhiteInternet.Checkout.{get_or_create_white_internet_tariff, checkout_if}
use just1kbot.WhiteInternet.Checkout.Frame.{checkout-unchanged}
use just1kbot.WhiteInternet.Answers.{granted}
use just1kbot.WhiteInternet.Extras.{
  extras_refusal, slot_refusal, over_cap, no_servers, give_slot, give_pack, may_act, slot_purchase,
  purchase_device_slot, pay_for_slot, topup_purchase, topup_quota, pay_for_pack,
}

-- The subscription as the change finds it.
abbrev pub settled : Destination → WhiteInternetSubscription → WhiteInternetSubscription
settled (moves s) sub = moved_to s sub
settled _ sub = sub

pub migrate-settled :
    (to : Destination) (sub : WhiteInternetSubscription) (db : Db)
    → subscription_by_id (WhiteInternetSubscription.id sub) db ≡ some sub
    → ((migrate to sub db).0 ≡ ok (settled to sub))
      × ((Db.now (migrate to sub db).1 ≡ Db.now db)
          × (subscription_by_id (WhiteInternetSubscription.id sub) (migrate to sub db).1
              ≡ some (settled to sub)))
unfolding migrate cancel_pending_orphan_cleanups_for_client
migrate-settled (moves s) sub db h =
    (refl, (refl, subscription_by_id-put (moved_to s sub) sub db h))
migrate-settled stays sub db h = (refl, (refl, h))
migrate-settled nowhere sub db h = (refl, (refl, h))

-- The cleanup after a move never fails.
pub clean_up_old-granted :
    {A : Type 0} (to : Destination) (old : Option Server) (uuid : String) (version : ℕ)
    (m : Message) (a : A) (db : Db)
    → ((clean_up_old to old uuid version >> granted m a) db).0 ≡ ok (true, (m, some a))
unfolding clean_up_old dispatch_deprovision enqueue_orphan_cleanup
clean_up_old-granted to old uuid version m a db = ground arith

-- Nor does it touch a subscription.
clean_up_old-rows :
    {A : Type 0} (to : Destination) (old : Option Server) (uuid : String) (version : ℕ)
    (m : Message) (a : A) (db : Db)
    → Db.subscriptions ((clean_up_old to old uuid version >> granted m a) db).1
      ≡ Db.subscriptions db
unfolding clean_up_old dispatch_deprovision enqueue_orphan_cleanup
clean_up_old-rows to old uuid version m a db = ground arith

with_slot-id :
    (bytes : ℕ) (sub : WhiteInternetSubscription)
    → WhiteInternetSubscription.id (with_slot bytes sub) ≡ WhiteInternetSubscription.id sub
unfolding with_slot
with_slot-id bytes sub = ground arith

-- A slot that is written is read back.
with_slot-stored :
    (bytes : ℕ) (row : WhiteInternetSubscription) (db : Db)
    → subscription_by_id (WhiteInternetSubscription.id row) db ≡ some row
    → subscription_by_id
        (WhiteInternetSubscription.id row)
        (put_white_internet (with_slot bytes row) db)
      ≡ some (with_slot bytes row)
with_slot-stored bytes row db h =
    ap (λ i. subscription_by_id i (put_white_internet (with_slot bytes row) db))
      (sym (with_slot-id bytes row))
    ∙ subscription_by_id-put (with_slot bytes row) row db
        (ap (λ i. subscription_by_id i db) (with_slot-id bytes row) ∙ h)

-- An answer that grants the slot, and the row of the database after it.
abbrev pub IsServed :
    Settings
    → ℕ
    → WhiteInternetSubscription
    → Result (Bool × (Message × Option WhiteInternetSubscription)) × Db
    → Type 0
IsServed st id row r =
    let slot = with_slot (Settings.extra_device_traffic_bytes st) row in
    (r.0 ≡ ok (true, (Message.add_device_success, some slot)))
    × (subscription_by_id id r.1 ≡ some slot)

module _ (st : Settings) (user : User) (sub : WhiteInternetSubscription) where
  add_device_slot_atomic-granted :
      (db : Db) (now : Instant) (m : Message) (row : WhiteInternetSubscription) (id : ℕ)
      → extras_refusal m user now row ≡ none
      → slot_refusal st row ≡ none
      → now ≡ Db.now db
      → subscription_by_id id db ≡ some row
      → add_device_slot_atomic st id (Settings.extra_device_traffic_bytes st) db ≡ (
        ok (with_slot (Settings.extra_device_traffic_bytes st) row),
        put_white_internet (with_slot (Settings.extra_device_traffic_bytes st) row) db,
      )
  unfolding extras_refusal slot_refusal add_device_slot_atomic
  add_device_slot_atomic-granted db now m row id e g t h = rw (h) (ground arith)

  granted_slot :
      (to : Destination) (old : Option Server) (db d : Db) (row : WhiteInternetSubscription)
      → migrate to sub db ≡ (ok row, d)
      → (now : Instant) → extras_refusal Message.trial_cannot_add_device user now row ≡ none
      → slot_refusal st row ≡ none
      → now ≡ Db.now d
      → subscription_by_id (WhiteInternetSubscription.id row) d ≡ some row
      → IsServed st (WhiteInternetSubscription.id row) row (give_slot st to old sub db)
  unfolding give_slot
  granted_slot to old db d row m now e g t h =
      let bytes : ℕ = Settings.extra_device_traffic_bytes st in
      rw
        (
          m,
          add_device_slot_atomic-granted d now Message.trial_cannot_add_device row
              (WhiteInternetSubscription.id row) e g t h,
        )
        (
          clean_up_old-granted to old _ _ Message.add_device_success _ _,
          ap (first_where (λ s. WhiteInternetSubscription.id s == WhiteInternetSubscription.id row))
                (clean_up_old-rows to old _ _ Message.add_device_success _ _)
              ∙ with_slot-stored bytes row d h,
        )

  -- A slot that the checks let through is granted by the change, whatever node the subscription
  -- moves to and whatever the checkout has done in between.
  give_slot-granted :
      (to : Destination) (old : Option Server) (db : Db)
      → extras_refusal Message.trial_cannot_add_device user (Db.now db) sub ≡ none
      → slot_refusal st sub ≡ none
      → subscription_by_id (WhiteInternetSubscription.id sub) db ≡ some sub
      → IsServed st (WhiteInternetSubscription.id sub) (settled to sub) (give_slot st to old sub db)
  unfolding give_slot extras_refusal slot_refusal migrate cancel_pending_orphan_cleanups_for_client
  give_slot-granted to old db e g h =
      elim to
        as (λ to.
          IsServed st (WhiteInternetSubscription.id sub) (settled to sub)
            (give_slot st to old sub db)) [
              | moves s ↦
                  granted_slot (moves s) old db (migrate (moves s) sub db).1 (moved_to s sub) refl
                    (Db.now db) e g refl (subscription_by_id-put (moved_to s sub) sub db h)
              | stays ↦ granted_slot stays old db db sub refl (Db.now db) e g refl h
              | nowhere ↦ granted_slot nowhere old db db sub refl (Db.now db) e g refl h
            ]

  topup_quota_atomic-granted :
      (db : Db) (now : Instant) (pack_gb : ℕ) (m : Message) (row : WhiteInternetSubscription)
      (id : ℕ)
      → extras_refusal m user now row ≡ none
      → over_cap st pack_gb row ≡ false
      → now ≡ Db.now db
      → subscription_by_id id db ≡ some row
      → topup_quota_atomic st id pack_gb db
        ≡ (ok (pack_gb * gigabyte), put_white_internet (with_pack (pack_gb * gigabyte) row) db)
  unfolding extras_refusal topup_quota_atomic
  topup_quota_atomic-granted db now pack_gb m row id e g t h = rw (h) (ground arith)

  granted_pack :
      (pack_gb : ℕ) (to : Destination) (old : Option Server) (db d : Db)
      (row : WhiteInternetSubscription)
      → migrate to sub db ≡ (ok row, d)
      → (now : Instant) → extras_refusal Message.trial_cannot_topup user now row ≡ none
      → over_cap st pack_gb row ≡ false
      → now ≡ Db.now d
      → subscription_by_id (WhiteInternetSubscription.id row) d ≡ some row
      → (give_pack st pack_gb to old sub db).0
        ≡ ok (true, (Message.topup_success, some (pack_gb * gigabyte)))
  unfolding give_pack
  granted_pack pack_gb to old db d row m now e g t h =
      rw
        (
          m,
          topup_quota_atomic-granted d now pack_gb Message.trial_cannot_topup row
              (WhiteInternetSubscription.id row) e g t h,
        )
        (clean_up_old-granted to old _ _ Message.topup_success _ _)

  -- The same for a pack of traffic.
  give_pack-granted :
      (pack_gb : ℕ) (to : Destination) (old : Option Server) (db : Db)
      → extras_refusal Message.trial_cannot_topup user (Db.now db) sub ≡ none
      → over_cap st pack_gb sub ≡ false
      → subscription_by_id (WhiteInternetSubscription.id sub) db ≡ some sub
      → (give_pack st pack_gb to old sub db).0
        ≡ ok (true, (Message.topup_success, some (pack_gb * gigabyte)))
  unfolding give_pack extras_refusal migrate cancel_pending_orphan_cleanups_for_client
  give_pack-granted pack_gb to old db e g h =
      elim to
        as (λ to.
          (give_pack st pack_gb to old sub db).0
          ≡ ok (true, (Message.topup_success, some (pack_gb * gigabyte)))) [
            | moves s ↦
                granted_pack pack_gb (moves s) old db (migrate (moves s) sub db).1 (moved_to s sub)
                  refl (Db.now db) e g refl (subscription_by_id-put (moved_to s sub) sub db h)
            | stays ↦ granted_pack pack_gb stays old db db sub refl (Db.now db) e g refl h
            | nowhere ↦ granted_pack pack_gb nowhere old db db sub refl (Db.now db) e g refl h
          ]

  module _ (order_id : ℕ) (actor : Option ℕ) (debit_balance : Bool) (db paid : Db) where
    -- The database after the tariff was looked up.
    abbrev with_tariff : Db
    with_tariff = (get_or_create_white_internet_tariff st db).1

    -- A device slot that passes every check before the checkout, and that the checkout lets through,
    -- is granted and written to the subscription's row: nobody is charged for a slot and refused it
    -- afterwards. This holds for a user and
    -- a subscription that are rows of the database, the latter the one that its id selects, whatever
    -- node it moves to.
    pub purchase_device_slot-granted :
        (tariff : Tariff)
        → user_by_id (User.id user) db ≡ some user
        → may_act st user actor ≡ true
        → white_internet_of (User.id user) db ≡ some sub
        → subscription_by_id (WhiteInternetSubscription.id sub) db ≡ some sub
        → extras_refusal Message.trial_cannot_add_device user (Db.now db) sub ≡ none
        → slot_refusal st sub ≡ none
        → no_servers (destination sub db) ≡ none
        → get_or_create_white_internet_tariff st db ≡ (ok tariff, with_tariff)
        → checkout_if debit_balance user (slot_purchase st order_id tariff sub) with_tariff
          ≡ (ok none, paid)
        → let slot =
            with_slot (Settings.extra_device_traffic_bytes st) (settled (destination sub db) sub) in
          let (answer, after) =
            purchase_device_slot st order_id (User.id user) actor debit_balance db in
          (answer ≡ ok (true, (Message.add_device_success, some slot)))
          × (subscription_by_id (WhiteInternetSubscription.id sub) after ≡ some slot)
    unfolding purchase_device_slot pay_for_slot
    purchase_device_slot-granted tariff u a w h e g n t c =
        let same =
          checkout-unchanged st debit_balance user (slot_purchase st order_id tariff sub) db paid
            c in
        rw (u, a, w, e, g, n, t, c)
          (give_slot-granted (destination sub db) (origin_of sub db) paid
            (rw (ap (λ v. v.1.1.1) same) e) g (rw (ap (λ v. v.1.0.0) same) h))

    -- The same for a pack of traffic, from the list of packs.
    topup_quota-granted :
        (pack_gb : ℕ) (pack_price : Decimal) (tariff : Tariff)
        → Settings.topup_packs st pack_gb ≡ some pack_price
        → user_by_id (User.id user) db ≡ some user
        → may_act st user actor ≡ true
        → white_internet_of (User.id user) db ≡ some sub
        → subscription_by_id (WhiteInternetSubscription.id sub) db ≡ some sub
        → extras_refusal Message.trial_cannot_topup user (Db.now db) sub ≡ none
        → over_cap st pack_gb sub ≡ false
        → no_servers (destination sub db) ≡ none
        → get_or_create_white_internet_tariff st db ≡ (ok tariff, with_tariff)
        → checkout_if debit_balance user
            (topup_purchase order_id tariff pack_gb pack_price sub)
            with_tariff
          ≡ (ok none, paid)
        → (topup_quota st order_id (User.id user) pack_gb actor debit_balance db).0
          ≡ ok (true, (Message.topup_success, some (pack_gb * gigabyte)))
    unfolding topup_quota pay_for_pack
    topup_quota-granted pack_gb pack_price tariff p u a w h e g n t c =
        let same =
          checkout-unchanged st debit_balance user
            (topup_purchase order_id tariff pack_gb pack_price sub) db paid c in
        rw (p, u, a, w, e, n, g, t, c)
          (give_pack-granted pack_gb (destination sub db) (origin_of sub db) paid
            (rw (ap (λ v. v.1.1.1) same) e) g (rw (ap (λ v. v.1.0.0) same) h))
