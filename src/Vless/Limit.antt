-- ===== src/Vless/Limit.antt =====
-- No more devices than the limit, and no eviction by a newcomer.
use just1kbot.Prelude.{
  ℕ, suc, ◌≤◌, Bool, true, false, ◌≡◌, refl, Option, none, some, List, [], ◌∷◌, length, arith,
}
use just1kbot.Database.{Device, User, VlessSubscription, Db, Result, ok, user_by_id}
use just1kbot.Vless.Devices.{
  may_connect, insert_seen, sort_seen, Verdict, limit_of, subscription_by_id,
}

length-insert_seen : (d : Device) (ds : List Device) → length (insert_seen d ds) ≡ suc (length ds)
unfolding insert_seen
length-insert_seen d [] = refl
length-insert_seen d (e ∷ es) = ground (arith, length-insert_seen d es)

length-sort_seen : (ds : List Device) → length (sort_seen ds) ≡ length ds
unfolding sort_seen
length-sort_seen [] = refl
length-sort_seen (d ∷ ds) = omega (arith, length-insert_seen d (sort_seen ds), length-sort_seen ds)

-- How many devices are stored for the subscription.
abbrev pub stored : ℕ → Db → ℕ
stored id db = elim (subscription_by_id id db) [
  | none ↦ 0
  | some sub ↦ length (VlessSubscription.active_hwids sub)
]

-- The owner's limit, or the one that the call gives; and whether the owner may use the network.
abbrev owner_limit : Option ℕ → Option User → Db → ℕ
owner_limit effective_limit none db = 0
owner_limit effective_limit (some user) db = limit_of effective_limit user db

abbrev pub limit_for : ℕ → Option ℕ → Db → ℕ
limit_for id effective_limit db = elim (subscription_by_id id db) [
  | none ↦ 0
  | some sub ↦ owner_limit effective_limit (user_by_id (VlessSubscription.user_id sub) db) db
]

abbrev pub is_allowed : ℕ → Db → Bool
is_allowed id db = elim (subscription_by_id id db) [
  | none ↦ false
  | some sub ↦ may_connect (user_by_id (VlessSubscription.user_id sub) db) sub db
]

-- A verdict for the subscription: whoever is let in may use the network and is one of at most as many
-- devices as the owner's limit allows, which are the devices that are stored then; and whoever is
-- turned away changes nothing.
abbrev pub IsFair : ℕ → Option ℕ → Db → Result Verdict × Db → Type 0
IsFair id effective_limit db r =
    (n limit : ℕ)
    → ((r.0 ≡ ok (true, (n, limit))
          → ((1 ≤ n) × (n ≤ limit))
            × ((limit ≡ limit_for id effective_limit db)
                × ((is_allowed id db ≡ true) × (stored id r.1 ≡ n))))
        × (r.0 ≡ ok (false, (n, limit)) → r.1 ≡ db))

-- The same under a limit that is known.
abbrev IsWithin : ℕ → ℕ → Db → Result Verdict × Db → Type 0
IsWithin id limit db r =
    (n m : ℕ)
    → ((r.0 ≡ ok (true, (n, m)) → ((1 ≤ n) × (n ≤ m)) × ((m ≡ limit) × (stored id r.1 ≡ n)))
        × (r.0 ≡ ok (false, (n, m)) → r.1 ≡ db))
