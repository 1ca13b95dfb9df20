-- ===== src/WhiteInternet/Admin/Deactivation.antt =====
-- A ban or a refund leaves no subscription of the user enabled, and sends each to its node.
use just1kbot.Prelude.{
  String, ℕ, ◌+◌, ◌==◌, Bool, true, false, ◌||◌, ◌≡◌, refl, ◌∙◌, Option, none, some, List, [], ◌∷◌,
  select_where, count_where, update_where, arith,
}
use just1kbot.Database.{
  Server, User, Order, VlessSubscription, WhiteInternetSubscription, Db, ok, Keeps, Keeps-bind,
}
use just1kbot.Fulfillment.Operations.{put_white_internet}
use just1kbot.WhiteInternet.Nodes.{dispatch_deprovision, server_by_id}
use just1kbot.WhiteInternet.Trial.{disabled, put_all, dispatch_all}
use just1kbot.WhiteInternet.Admin.{to_deactivate, deactivate_user_subscriptions}

abbrev overwritten :
    WhiteInternetSubscription → List WhiteInternetSubscription → List WhiteInternetSubscription
overwritten s rows =
    update_where (λ x. WhiteInternetSubscription.id x == WhiteInternetSubscription.id s)
      (λ _. disabled s) rows

-- The rows after each of the subscriptions was disabled.
abbrev disabled_rows :
    List WhiteInternetSubscription → List WhiteInternetSubscription → List WhiteInternetSubscription
disabled_rows [] rows = rows
disabled_rows (s ∷ ss) rows = disabled_rows ss (overwritten s rows)

abbrev has_id : ℕ → List WhiteInternetSubscription → Bool
has_id i [] = false
has_id i (s ∷ ss) = WhiteInternetSubscription.id s == i || has_id i ss

module _ (user_id : ℕ) (target : Option ℕ) where
  abbrev p : WhiteInternetSubscription → Bool
  p = to_deactivate user_id target

  -- Every row that is to be deactivated is among the subscriptions.
  abbrev AllHit : List WhiteInternetSubscription → List WhiteInternetSubscription → Type 0
  AllHit ss [] = Unit {0}
  AllHit ss (r ∷ rs) =
      (p r ≡ true → has_id (WhiteInternetSubscription.id r) ss ≡ true) × AllHit ss rs

  none_left : (rows : List WhiteInternetSubscription) → AllHit [] rows → count_where p rows ≡ 0
  none_left [] h = refl
  none_left (r ∷ rs) h = ground (arith, none_left rs h.1)

  one_written :
      (s : WhiteInternetSubscription) (ss rows : List WhiteInternetSubscription)
      → AllHit (s ∷ ss) rows
      → AllHit ss (overwritten s rows)
  one_written s ss [] h = tt
  one_written s ss (r ∷ rs) h = (ground arith, one_written s ss rs h.1)

  all_written :
      (ss rows : List WhiteInternetSubscription)
      → AllHit ss rows
      → count_where p (disabled_rows ss rows) ≡ 0
  all_written [] rows h = none_left rows h
  all_written (s ∷ ss) rows h = all_written ss (overwritten s rows) (one_written s ss rows h)

  AllHit-cons :
      (s : WhiteInternetSubscription) (ss rows : List WhiteInternetSubscription)
      → AllHit ss rows
      → AllHit (s ∷ ss) rows
  AllHit-cons s ss [] h = tt
  AllHit-cons s ss (r ∷ rs) h = (ground arith, AllHit-cons s ss rs h.1)

  AllHit-if :
      (b : Bool) (s : WhiteInternetSubscription) (ss rows : List WhiteInternetSubscription)
      → AllHit ss rows
      → AllHit (elim b [ true ↦ s ∷ ss | false ↦ ss ]) rows
  AllHit-if true s ss rows h = AllHit-cons s ss rows h
  AllHit-if false s ss rows h = h

  AllHit-select : (rows : List WhiteInternetSubscription) → AllHit (select_where p rows) rows
  AllHit-select [] = tt
  AllHit-select (r ∷ rs) =
      (ground arith, AllHit-if (p r) r (select_where p rs) rs (AllHit-select rs))

put_all-rows :
    (ss : List WhiteInternetSubscription) (db : Db)
    → Db.subscriptions (put_all disabled ss db).1 ≡ disabled_rows ss (Db.subscriptions db)
unfolding put_all
put_all-rows [] db = refl
put_all-rows (s ∷ ss) db = put_all-rows ss (put_white_internet (disabled s) db)

dispatch_deprovision-Keeps :
    (o : Option Server) (uuid : String) (version : ℕ)
    → Keeps Db.subscriptions (dispatch_deprovision o uuid version)
unfolding dispatch_deprovision
dispatch_deprovision-Keeps none uuid version = λ db. refl
dispatch_deprovision-Keeps (some s) uuid version = λ db. ground arith

dispatch_all-Keeps :
    (ss : List WhiteInternetSubscription) → Keeps Db.subscriptions (dispatch_all disabled ss)
unfolding dispatch_all
dispatch_all-Keeps [] = λ db. refl
dispatch_all-Keeps (s ∷ ss) = λ db.
    Keeps-bind Db.subscriptions
      (dispatch_deprovision (server_by_id (WhiteInternetSubscription.origin_node_id s) db) s.uuid
        (WhiteInternetSubscription.desired_version s + 1))
      (λ _. dispatch_all disabled ss)
      (dispatch_deprovision-Keeps (server_by_id (WhiteInternetSubscription.origin_node_id s) db)
        s.uuid (WhiteInternetSubscription.desired_version s + 1))
      (λ _. dispatch_all-Keeps ss) db

put_all-ok : (ss : List WhiteInternetSubscription) (db : Db) → (put_all disabled ss db).0 ≡ ok tt
unfolding put_all
put_all-ok [] db = refl
put_all-ok (s ∷ ss) db = put_all-ok ss (put_white_internet (disabled s) db)

-- After a deactivation no subscription of the user, or of the user and with the id that is named, is
-- anything but disabled.
pub deactivate_user_subscriptions-none_left :
    (user_id : ℕ) (target : Option ℕ) (db : Db)
    → count_where
        (to_deactivate user_id target)
        (Db.subscriptions (deactivate_user_subscriptions user_id target db).1)
      ≡ 0
unfolding deactivate_user_subscriptions
deactivate_user_subscriptions-none_left user_id target db =
    let ss : List WhiteInternetSubscription =
      select_where (to_deactivate user_id target) (Db.subscriptions db) in
    rw (put_all-ok ss db, dispatch_all-Keeps ss (put_all disabled ss db).1, put_all-rows ss db)
      (all_written user_id target ss (Db.subscriptions db)
        (AllHit-select user_id target (Db.subscriptions db)))

-- The tables that a deactivation does not touch.
abbrev pub others : Db → List User × (List Order × List VlessSubscription)
others db = (Db.users db, (Db.orders db, Db.vless_subscriptions db))

dispatch_deprovision-others :
    (o : Option Server) (uuid : String) (version : ℕ) (db : Db)
    → (others (dispatch_deprovision o uuid version db).1 ≡ others db)
      × ((dispatch_deprovision o uuid version db).0 ≡ ok tt)
unfolding dispatch_deprovision
dispatch_deprovision-others o uuid version db = ground arith

dispatch_all-others :
    (ss : List WhiteInternetSubscription) (db : Db)
    → (others (dispatch_all disabled ss db).1 ≡ others db)
      × ((dispatch_all disabled ss db).0 ≡ ok tt)
unfolding dispatch_all
dispatch_all-others [] db = (refl, refl)
dispatch_all-others (s ∷ ss) db =
    let server : Option Server = server_by_id (WhiteInternetSubscription.origin_node_id s) db in
    let version : ℕ = WhiteInternetSubscription.desired_version s + 1 in
    let one = dispatch_deprovision-others server s.uuid version db in
    let rest = dispatch_all-others ss (dispatch_deprovision server s.uuid version db).1 in
    (rw (one.1) (rest.0 ∙ one.0), rw (one.1) (rest.1))

put_all-others :
    (ss : List WhiteInternetSubscription) (db : Db) → others (put_all disabled ss db).1 ≡ others db
unfolding put_all
put_all-others [] db = refl
put_all-others (s ∷ ss) db = put_all-others ss (put_white_internet (disabled s) db)

-- A deactivation always returns, and leaves the users, the orders and the standard subscriptions.
pub deactivate_user_subscriptions-others :
    (user_id : ℕ) (target : Option ℕ) (db : Db)
    → (others (deactivate_user_subscriptions user_id target db).1 ≡ others db)
      × ((deactivate_user_subscriptions user_id target db).0 ≡ ok tt)
unfolding deactivate_user_subscriptions
deactivate_user_subscriptions-others user_id target db =
    let ss : List WhiteInternetSubscription =
      select_where (to_deactivate user_id target) (Db.subscriptions db) in
    let rest = dispatch_all-others ss (put_all disabled ss db).1 in
    (rw (put_all-ok ss db) (rest.0 ∙ put_all-others ss db), rw (put_all-ok ss db) (rest.1))
