-- ===== src/Ban/Complete.antt =====
-- A ban leaves nothing open.
use just1kbot.Prelude.{
  ℕ, ◌==◌, true, false, ◌≡◌, refl, ap, ◌∙◌, Option, none, some, List, [], ◌∷◌, String, str_eq,
  count_where, first_where, update_where, arith,
}
use just1kbot.Database.{User, Order, CancellationReason, VlessSubscription, Db, ok, put_user}
use just1kbot.Orders.Settlement.{mark_order_canceled}
use just1kbot.WhiteInternet.Admin.{to_deactivate, deactivate_user_subscriptions}
use just1kbot.WhiteInternet.Admin.Deactivation.{
  deactivate_user_subscriptions-none_left, deactivate_user_subscriptions-others,
}
use just1kbot.Vless.Credentials.{rotated, is_in, rotated-revokes}
use just1kbot.Ban.{
  banned, is_open, cancel_open_orders, cut_off, vless_of, cut_off_vless, ban_locked,
  deprovision_background,
}

-- A canceled order is pending no more.
count-canceled :
    (user_id : ℕ) (os : List Order)
    → count_where (is_open user_id) (
        update_where
          (is_open user_id)
          (mark_order_canceled (CancellationReason.other "user_banned"))
          os)
      ≡ 0
unfolding mark_order_canceled
count-canceled user_id [] = refl
count-canceled user_id (o ∷ os) = ground (arith, count-canceled user_id os)

found_cut_off :
    (user_id : ℕ) (sub new : VlessSubscription) (ss : List VlessSubscription)
    → VlessSubscription.user_id new ≡ user_id
    → VlessSubscription.id new ≡ VlessSubscription.id sub
    → first_where (λ s. VlessSubscription.user_id s == user_id) ss ≡ some sub
    → first_where
        (λ s. VlessSubscription.user_id s == user_id)
        (update_where (λ s. VlessSubscription.id s == VlessSubscription.id new) (λ _. new) ss)
      ≡ some new
found_cut_off user_id sub new [] u i h = ground (arith, h)
found_cut_off user_id sub new (s ∷ ss) u i h = ground (arith, found_cut_off user_id sub new ss u i)

owner :
    (user_id : ℕ) (sub : VlessSubscription) (ss : List VlessSubscription)
    → first_where (λ s. VlessSubscription.user_id s == user_id) ss ≡ some sub
    → VlessSubscription.user_id sub ≡ user_id
owner user_id sub [] h = ground (arith, h)
owner user_id sub (s ∷ ss) h = ground (arith, owner user_id sub ss)

cut_off_vless-others :
    (new_uuid : String) (o : Option VlessSubscription) (db : Db)
    → (Db.orders (cut_off_vless new_uuid o db) ≡ Db.orders db)
      × (Db.subscriptions (cut_off_vless new_uuid o db) ≡ Db.subscriptions db)
unfolding cut_off_vless deprovision_background
cut_off_vless-others new_uuid o db = ground arith

cut_off_vless-found :
    (new_uuid : String) (user_id : ℕ) (sub : VlessSubscription) (db : Db)
    → vless_of user_id db ≡ some sub
    → str_eq (VlessSubscription.uuid sub) "" ≡ false
    → vless_of user_id (cut_off_vless new_uuid (some sub) db) ≡ some (cut_off new_uuid sub)
unfolding cut_off_vless deprovision_background rotated
cut_off_vless-found new_uuid user_id sub db h n = simp (n) (
    found_cut_off user_id sub (cut_off new_uuid sub) (Db.vless_subscriptions db)
      (owner user_id sub (Db.vless_subscriptions db) h) refl h)

module _ (new_uuid : String) (user : User) (db : Db) where
  abbrev flagged : Db
  flagged = put_user (record user { is_banned = true }) (cancel_open_orders (User.id user) db)

  abbrev deactivated : Db
  deactivated = (deactivate_user_subscriptions (User.id user) none flagged).1

  ban_locked_lem : ban_locked new_uuid user db ≡ (
    ok (true, banned),
    cut_off_vless new_uuid (vless_of (User.id user) deactivated) deactivated,
  )
  unfolding ban_locked
  ban_locked_lem = rw ((deactivate_user_subscriptions-others (User.id user) none flagged).1) refl

  abbrev after : Db
  after = (ban_locked new_uuid user db).1

  -- A ban of a user that is found always goes through, and leaves the user no order that is pending
  -- and no White Internet subscription that is not disabled.
  pub ban_locked-closes :
      ((ban_locked new_uuid user db).0 ≡ ok (true, banned))
      × (count_where (is_open (User.id user)) (Db.orders after) ≡ 0)
      × (count_where (to_deactivate (User.id user) none) (Db.subscriptions after) ≡ 0)
  unfolding cancel_open_orders
  ban_locked-closes =
      let kept = cut_off_vless-others new_uuid (vless_of (User.id user) deactivated) deactivated in
      (
        rw ban_locked_lem refl,
        ap (λ r. count_where (is_open (User.id user)) (Db.orders r.1)) ban_locked_lem
            ∙ ap (count_where (is_open (User.id user))) (
                kept.0
                ∙ ap (λ v. v.1.0)
                    ((deactivate_user_subscriptions-others (User.id user) none flagged).0))
            ∙ count-canceled (User.id user) (Db.orders db),
        ap (λ r. count_where (to_deactivate (User.id user) none) (Db.subscriptions r.1))
              ban_locked_lem
            ∙ ap (count_where (to_deactivate (User.id user) none)) kept.1
            ∙ deactivate_user_subscriptions-none_left (User.id user) none flagged,
      )

  -- The standard subscription of a user that is banned is off, without devices and under another
  -- uuid, and the uuid that it had, if any, waits to be revoked.
  ban_locked-revokes :
      (sub : VlessSubscription)
      → vless_of (User.id user) db ≡ some sub
      → str_eq (VlessSubscription.uuid sub) "" ≡ false
      → (vless_of (User.id user) after ≡ some (cut_off new_uuid sub))
        × (is_in
              (VlessSubscription.uuid sub)
              (VlessSubscription.pending_revoked_uuids (cut_off new_uuid sub))
            ≡ true)
  unfolding cut_off_vless deprovision_background cancel_open_orders
  ban_locked-revokes sub h n =
      let same =
        ap (λ v. v.1.1) ((deactivate_user_subscriptions-others (User.id user) none flagged).0) in
      let there : vless_of (User.id user) deactivated ≡ some sub = rw same h in
      (
        ap (λ r. vless_of (User.id user) r.1) ban_locked_lem
            ∙ ap (λ o. vless_of (User.id user) (cut_off_vless new_uuid o deactivated)) there
            ∙ cut_off_vless-found new_uuid (User.id user) sub deactivated there n,
        (rotated-revokes new_uuid "" sub n).1.0,
      )
