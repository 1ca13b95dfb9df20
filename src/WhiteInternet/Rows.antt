-- ===== src/WhiteInternet/Rows.antt =====
-- Reading back a row that was written.
use just1kbot.Prelude.{◌==◌, ◌≡◌, some, List, [], ◌∷◌, first_where, update_where, arith}
use just1kbot.Database.{WhiteInternetSubscription, Db}
use just1kbot.Fulfillment.Operations.{put_white_internet}
use just1kbot.WhiteInternet.Repository.{subscription_by_id}

first_where-update :
    (t s : WhiteInternetSubscription) (ss : List WhiteInternetSubscription)
    → first_where (λ x. WhiteInternetSubscription.id x == WhiteInternetSubscription.id t) ss
      ≡ some s
    → first_where
        (λ x. WhiteInternetSubscription.id x == WhiteInternetSubscription.id t)
        (update_where
          (λ x. WhiteInternetSubscription.id x == WhiteInternetSubscription.id t)
          (λ _. t)
          ss)
      ≡ some t
first_where-update t s [] h = ground (arith, h)
first_where-update t s (x ∷ xs) h = ground (arith, first_where-update t s xs)

-- The row that was written over is the one that is read.
pub subscription_by_id-put :
    (t s : WhiteInternetSubscription) (db : Db)
    → subscription_by_id (WhiteInternetSubscription.id t) db ≡ some s
    → subscription_by_id (WhiteInternetSubscription.id t) (put_white_internet t db) ≡ some t
subscription_by_id-put t s db h = first_where-update t s (Db.subscriptions db) h
