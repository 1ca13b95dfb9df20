-- ===== src/Vless/Devices.antt =====
-- `prune_stale_hwids` and `register_hwid_atomic`.
use just1kbot.Prelude.{
  ℕ, zero, suc, ◌+◌, ◌*◌, ltb, leb, ◌==◌, Bool, true, false, not, ◌&&◌, Option, none, some, List,
  [], ◌∷◌, ◌++◌, String, str_eq, length, select_where, first_where, update_where, if◌then◌else◌,
}
use just1kbot.Database.{
  Instant, User, Device, VlessSubscription, Db, Action, pure, ◌>>◌, modify, user_by_id,
}
use just1kbot.Dates.{hour, microseconds}
use just1kbot.Subscription.Access.{check_vpn_access, get_effective_device_limit}

-- The cutoff is compared from the other side.
unfoldable pub prune_stale_hwids : ℕ → Instant → List Device → List Device
prune_stale_hwids ttl_hours now hwids =
    select_where (λ d. leb now (Device.last_seen d + ttl_hours * hour)) hwids

-- `sorted(…, key=last_seen, reverse=True)`, which is stable.
unfoldable pub insert_seen : Device → List Device → List Device
insert_seen d [] = d ∷ []
insert_seen d (e ∷ es) = if leb e.last_seen d.last_seen then d ∷ e ∷ es else e ∷ insert_seen d es

unfoldable pub sort_seen : List Device → List Device
sort_seen [] = []
sort_seen (d ∷ ds) = insert_seen d (sort_seen ds)

abbrev pub take : {A : Type 0} → ℕ → List A → List A
take zero xs = []
take (suc n) [] = []
take (suc n) (x ∷ xs) = x ∷ take n xs

-- A limit that was lowered keeps the devices that were seen last.
unfoldable pub within_limit : ℕ → List Device → List Device
within_limit limit ds = if ltb limit (length ds) then take limit (sort_seen ds) else ds

abbrev pub has_hwid : String → Device → Bool
has_hwid hwid d = str_eq (Device.hwid d) hwid

abbrev pub seen_at : Instant → Device → Device
seen_at now d = record d { last_seen = now }

-- 900 seconds.
abbrev pub throttle : ℕ
throttle = 900 * microseconds

abbrev pub subscription_by_id : ℕ → Db → Option VlessSubscription
subscription_by_id id db =
    first_where (λ s. VlessSubscription.id s == id) (Db.vless_subscriptions db)

abbrev pub put_vless : VlessSubscription → Db → Db
put_vless sub db = record db {
  vless_subscriptions =
      update_where (λ s. VlessSubscription.id s == VlessSubscription.id sub) (λ _. sub)
        (Db.vless_subscriptions db);
}

abbrev pub Verdict : Type 0
Verdict = Bool × (ℕ × ℕ)

abbrev pub with_hwids : VlessSubscription → List Device → VlessSubscription
with_hwids sub ds = record sub { active_hwids = ds }

unfoldable pub store : VlessSubscription → ℕ → List Device → Action Verdict
store sub limit ds = do modify (put_vless (with_hwids sub ds)); pure (true, (length ds, limit))

-- A device that is known: its time is written again at most every fifteen minutes, unless stale
-- devices were dropped or what it says of itself has changed.
unfoldable pub refresh :
    (Device → Bool) → String → VlessSubscription → ℕ → List Device → Device → Action Verdict
unfolding store
refresh is_changed hwid sub limit ds d db =
    if ltb db.now (Device.last_seen d + throttle)
      && (length ds == length (VlessSubscription.active_hwids sub) && not (is_changed d))
    then pure (true, (length ds, limit)) db
    else store sub limit (update_where (has_hwid hwid) (seen_at (Db.now db)) ds) db

-- A new device takes a free place; it evicts nobody.
unfoldable pub enroll : String → VlessSubscription → ℕ → List Device → Action Verdict
unfolding store
enroll hwid sub limit ds db =
    if leb limit (length ds)
    then pure (false, (length ds, limit)) db
    else store sub limit (ds ++ (record { hwid = hwid; last_seen = Db.now db }) ∷ []) db

abbrev pub admit_known :
    (Device → Bool) → String → VlessSubscription → ℕ → List Device → Option Device → Action Verdict
admit_known is_changed hwid sub limit ds (some d) = refresh is_changed hwid sub limit ds d
admit_known is_changed hwid sub limit ds none = enroll hwid sub limit ds

unfoldable pub admit :
    (Device → Bool) → String → VlessSubscription → ℕ → List Device → Action Verdict
admit is_changed hwid sub limit ds =
    admit_known is_changed hwid sub limit ds (first_where (has_hwid hwid) ds)

abbrev or_zero : Option ℕ → ℕ
or_zero none = 0
or_zero (some n) = n

abbrev pub limit_of : Option ℕ → User → Db → ℕ
limit_of none user db = get_effective_device_limit (some user) db
limit_of (some n) user db = n

-- The user may use the network, and the subscription is on.
abbrev pub may_connect : Option User → VlessSubscription → Db → Bool
may_connect user sub db = VlessSubscription.is_active sub && check_vpn_access user (Db.now db)

unfoldable pub register_for :
    (Device → Bool) → ℕ → String → Option ℕ → VlessSubscription → Option User → Action Verdict
register_for is_changed ttl hwid limit sub none db =
    pure (false, (length (prune_stale_hwids ttl db.now sub.active_hwids), 0)) db
register_for is_changed ttl hwid limit sub (some user) db =
    let active : List Device = prune_stale_hwids ttl db.now sub.active_hwids in
    if not (may_connect (some user) sub db)
    then pure (false, (length active, 0)) db
    else if limit_of limit user db == 0
    then pure (false, (length active, 0)) db
    else admit is_changed hwid sub (limit_of limit user db)
        (within_limit (limit_of limit user db) active) db

abbrev pub register_found :
    (Device → Bool) → ℕ → String → Option ℕ → Option VlessSubscription → Action Verdict
register_found is_changed ttl hwid limit none db = pure (false, (0, or_zero limit)) db
register_found is_changed ttl hwid limit (some sub) db =
    register_for is_changed ttl hwid limit sub (user_by_id (VlessSubscription.user_id sub) db) db

unfoldable pub register_clean : (Device → Bool) → ℕ → ℕ → Option ℕ → Option String → Action Verdict
register_clean is_changed ttl subscription_id limit none db = pure (false, (0, or_zero limit)) db
register_clean is_changed ttl subscription_id limit (some hwid) db =
    register_found is_changed ttl hwid limit (subscription_by_id subscription_id db) db

-- `clean` is the regular expression's test of the text and its normal form; `is_changed` says whether
-- the metadata that comes with the call differs from what is stored for the device.
unfoldable pub register_hwid_atomic :
    (String → Option String) → (Device → Bool) → ℕ → ℕ → String → Option ℕ → Action Verdict
unfolding register_clean
register_hwid_atomic clean is_changed ttl_hours subscription_id hwid effective_limit =
    register_clean is_changed ttl_hours subscription_id effective_limit (clean hwid)
