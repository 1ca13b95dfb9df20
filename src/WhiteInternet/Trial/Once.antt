-- ===== src/WhiteInternet/Trial/Once.antt =====
-- A trial is given once, and a reset has a cooldown.
use just1kbot.Prelude.{
  ℕ, ◌≤◌, ◌==◌, Bool, true, ◌≡◌, refl, Option, none, some, List, [], ◌∷◌, ◌++◌, count_where,
  update_where, first_where, arith,
}
use just1kbot.Database.{
  User, WhiteInternetSubscription, Db, ok, Result, Server, user_by_id, and_then-elim,
}
use just1kbot.Fulfillment.Operations.{newest}
use just1kbot.WhiteInternet.Settings.{Settings, Message}
use just1kbot.WhiteInternet.Repository.{
  create_white_internet_subscription, cancel_pending_orphan_cleanups_for_client, new_subscription,
}
use just1kbot.WhiteInternet.Nodes.{epoch_of, try_inline_sync, synced, allocate_origin_server_atomic}
use just1kbot.WhiteInternet.Checkout.{checkout_wallet_order, get_or_create_white_internet_tariff}
use just1kbot.WhiteInternet.Answers.{Answer, or_refuse}
use just1kbot.WhiteInternet.Lifecycle.{Draws, give_subscription}
use just1kbot.WhiteInternet.Trial.{
  of_owner, trial_on, trial_unless_barred, trial_purchase, trial_for, create_trial_subscription,
  new_trial, answer_existing,
}

module _ (p : WhiteInternetSubscription → Bool) where
  newest-none :
      (ss : List WhiteInternetSubscription) → 1 ≤ count_where p ss → newest p ss ≡ none → 1 ≤ 0
  unfolding newest
  newest-none [] c h = c
  newest-none (s ∷ ss) c h = ground (arith, newest-none ss)

  count-append :
      (ss : List WhiteInternetSubscription) (s : WhiteInternetSubscription)
      → p s ≡ true
      → 1 ≤ count_where p (ss ++ s ∷ [])
  count-append [] s h = ground arith
  count-append (t ∷ ts) s h = ground (arith, count-append ts s h)

  count-update :
      (q : WhiteInternetSubscription → Bool) (t : WhiteInternetSubscription)
      (ss : List WhiteInternetSubscription)
      → p t ≡ true
      → count_where p ss ≤ count_where p (update_where q (λ _. t) ss)
  count-update q t [] h = omega arith
  count-update q t (s ∷ ss) h = ground (arith, count-update q t ss h)

-- The user has a subscription.
abbrev pub HasOne : ℕ → Db → Type 0
HasOne user_id db = 1 ≤ count_where (of_owner user_id) (Db.subscriptions db)

give_subscription-HasOne :
    (draws : Draws) (user_id server_id duration_days base_bytes : ℕ) (is_trial : Bool) (m : Message)
    (db : Db)
    → HasOne user_id
        (give_subscription draws user_id server_id duration_days base_bytes is_trial m db).1
unfolding give_subscription create_white_internet_subscription
    cancel_pending_orphan_cleanups_for_client try_inline_sync
give_subscription-HasOne draws user_id server_id duration_days base_bytes is_trial m db =
    let sub : WhiteInternetSubscription =
      new_subscription (Db.next_subscription_id db) user_id server_id (Draws.uuid draws)
        duration_days base_bytes is_trial (Db.now db) in
    let own : of_owner user_id sub ≡ true = ground arith in
    let added = count-append (of_owner user_id) (Db.subscriptions db) sub own in
    ground (
      arith,
      added,
      count-update (of_owner user_id)
          (λ s. WhiteInternetSubscription.id s == WhiteInternetSubscription.id sub)
          (synced (epoch_of (Draws.sync_answer draws)) sub) (Db.subscriptions db ++ sub ∷ []) own,
    )

-- A user who has a subscription is given no trial: the call changes nothing.
create_trial_subscription-idle :
    (st : Settings) (draws : Draws) (user_id : ℕ) (db : Db)
    → HasOne user_id db
    → (create_trial_subscription st draws user_id db).1 ≡ db
unfolding create_trial_subscription trial_for
create_trial_subscription-idle st draws user_id db h =
    ground (arith, newest-none (of_owner user_id) (Db.subscriptions db) h)

-- A call that grants leaves the user with a subscription.
abbrev Leaves : ℕ → Result (Answer WhiteInternetSubscription) × Db → Type 0
Leaves user_id r =
    (m : Message) (s : Option WhiteInternetSubscription)
    → r.0 ≡ ok (true, (m, s))
    → HasOne user_id r.1

new_trial-Leaves :
    (st : Settings) (draws : Draws) (user : User) (db : Db)
    → Leaves (User.id user) (new_trial st draws user db)
unfolding new_trial
new_trial-Leaves st draws user db =
    elim (allocate_origin_server_atomic db)
      as (λ o.
        Leaves (User.id user)
          (or_refuse o Message.no_servers_available (trial_on st draws user) db)) [
            | none ↦ λ m s e. ground (arith, e)
            | some origin ↦
                and_then-elim (Leaves (User.id user)) (get_or_create_white_internet_tariff st db) _
                  (λ x d m s e. ground (arith, e))
                  (λ tariff d.
                    and_then-elim (Leaves (User.id user))
                      (checkout_wallet_order user (trial_purchase st draws.order_id tariff) d) _
                      (λ x d m s e. ground (arith, e))
                      (λ _ d m s e.
                        give_subscription-HasOne draws user.id (Server.id origin)
                          (Settings.trial_duration_days st) (Settings.trial_traffic_bytes st) true
                          Message.trial_activated d))
          ]

user_by_id-id :
    (user_id : ℕ) (user : User) (us : List User)
    → first_where (λ u. User.id u == user_id) us ≡ some user
    → User.id user ≡ user_id
user_by_id-id user_id user [] h = ground (arith, h)
user_by_id-id user_id user (u ∷ us) h = ground (arith, user_by_id-id user_id user us)

trial_for-HasOne :
    (st : Settings) (draws : Draws) (user_id : ℕ) (user : User)
    (s : Option WhiteInternetSubscription) (db : Db)
    → User.id user ≡ user_id
    → (trial_for st draws user_id user db).0 ≡ ok (true, (Message.trial_activated, s))
    → HasOne user_id (trial_for st draws user_id user db).1
unfolding trial_for answer_existing
trial_for-HasOne st draws user_id user s db i e =
    ground (arith, new_trial-Leaves st draws user db Message.trial_activated s)

found-HasOne :
    (st : Settings) (draws : Draws) (user_id : ℕ) (s : Option WhiteInternetSubscription) (db : Db)
    (o : Option User)
    → user_by_id user_id db ≡ o
    → (or_refuse o Message.user_not_found (trial_unless_barred st draws user_id) db).0
      ≡ ok (true, (Message.trial_activated, s))
    → HasOne user_id
        (or_refuse o Message.user_not_found (trial_unless_barred st draws user_id) db).1
found-HasOne st draws user_id s db none f e = ground (arith, e)
found-HasOne st draws user_id s db (some user) f e = ground (
  arith,
  trial_for-HasOne st draws user_id user s db (user_by_id-id user_id user (Db.users db) f),
)

-- However the trial of a user came about, a second call changes nothing: a user who was given a trial
-- is not given another, not even where no order of the first is left.
pub create_trial_subscription-once :
    (st : Settings) (draws again : Draws) (user_id : ℕ) (s : Option WhiteInternetSubscription)
    (db : Db)
    → (create_trial_subscription st draws user_id db).0 ≡ ok (true, (Message.trial_activated, s))
    → (create_trial_subscription st again user_id
        (create_trial_subscription st draws user_id db).1).1
      ≡ (create_trial_subscription st draws user_id db).1
unfolding create_trial_subscription
create_trial_subscription-once st draws again user_id s db e =
    create_trial_subscription-idle st again user_id
      (create_trial_subscription st draws user_id db).1
      (found-HasOne st draws user_id s db (user_by_id user_id db) refl e)
