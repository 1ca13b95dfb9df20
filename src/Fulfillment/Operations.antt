-- ===== src/Fulfillment/Operations.antt =====
-- The operations of services/white_internet_service.py that fulfilment calls, as the interface
-- between the two. Each may raise; the first four say whether they succeeded.
use just1kbot.Prelude.{
  ℕ, Bool, Option, none, some, List, [], ◌∷◌, ltb, update_where, ◌==◌, if◌then◌else◌,
}
use just1kbot.Database.{WhiteInternetSubscription, Db, Action}

-- The optional number is the id of the subscription that `purchase_subscription` or
-- `renew_subscription` hands back.
pub record WhiteInternetService : Type 0 where
  pub purchase_device_slot : ℕ → Action Bool
  pub topup_quota : ℕ → ℕ → Action Bool
  pub renew_subscription : ℕ → Action (Bool × Option ℕ)
  pub purchase_subscription : ℕ → Action (Bool × Option ℕ)
  pub deactivate_user_subscriptions : ℕ → Option ℕ → Action (Unit {0})

unfoldable pub newer :
    WhiteInternetSubscription → Option WhiteInternetSubscription → WhiteInternetSubscription
newer s none = s
newer s (some t) = if ltb s.id t.id then t else s

-- `ORDER BY id DESC LIMIT 1`
unfoldable pub newest :
    (WhiteInternetSubscription → Bool)
    → List WhiteInternetSubscription
    → Option WhiteInternetSubscription
unfolding newer
newest p [] = none
newest p (s ∷ ss) =
    let rest : Option WhiteInternetSubscription = newest p ss in
    if p s then some (newer s rest) else rest

-- `get_subscription_by_user_id`
abbrev pub white_internet_of : ℕ → Db → Option WhiteInternetSubscription
white_internet_of user_id db =
    newest (λ s. WhiteInternetSubscription.user_id s == user_id) (Db.subscriptions db)

abbrev pub put_white_internet : WhiteInternetSubscription → Db → Db
put_white_internet sub db = record db {
  subscriptions =
      update_where (λ s. WhiteInternetSubscription.id s == WhiteInternetSubscription.id sub)
        (λ _. sub) (Db.subscriptions db);
}
