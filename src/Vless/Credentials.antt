-- ===== src/Vless/Credentials.antt =====
-- `get_or_create_subscription`, `reset_hwids` and `rotate_token`: the token and the client's uuid, and
-- the uuids that are to be revoked on the nodes. The fresh texts are arguments.
use just1kbot.Prelude.{
  ℕ, suc, ◌+◌, ◌≤◌, ◌==◌, Bool, true, false, ◌||◌, ◌≡◌, refl, Option, none, some, List, [], ◌∷◌,
  ◌++◌, String, str_eq, first_where, if◌then◌else◌, arith,
}
use just1kbot.Database.{
  VlessSubscription, Db, Action, Error, pure, ◌>>=◌, ◌>>◌, gets, modify, or_raise,
}
use text.Mathlib.TextPositions.{eq_refl}
use just1kbot.Vless.Devices.{subscription_by_id, put_vless}

abbrev pub is_in : String → List String → Bool
is_in s [] = false
is_in s (t ∷ ts) = str_eq t s || is_in s ts

-- `if old_uuid and old_uuid not in pending: pending.append(old_uuid)`
unfoldable pub with_revoked : String → List String → List String
with_revoked uuid pending =
    if str_eq uuid "" then pending else if is_in uuid pending then pending else pending ++ uuid ∷ []

-- The client of a subscription gets another uuid.
unfoldable pub rotated : String → VlessSubscription → VlessSubscription
rotated new_uuid sub = record sub {
  uuid = new_uuid;
  version = (if sub.version == 0 then 1 else sub.version) + 1;
  pending_revoked_uuids = with_revoked sub.uuid sub.pending_revoked_uuids;
}

abbrev pub without_hwids : VlessSubscription → VlessSubscription
without_hwids sub = record sub { active_hwids = [] }

reset_row : String → VlessSubscription → Action (Option (String × String))
reset_row new_uuid sub db = elim (VlessSubscription.active_hwids sub) [
  | [] ↦ pure none db
  | d ∷ ds ↦
      (do
        modify (put_vless (without_hwids (rotated new_uuid sub)))
        pure (some (VlessSubscription.uuid sub, new_uuid)))
        db
]

-- The old and the new uuid, or nothing where there was no device to reset.
unfoldable pub reset_hwids : ℕ → String → Action (Option (String × String))
unfolding reset_row
reset_hwids subscription_id new_uuid db = elim (subscription_by_id subscription_id db) [
  | none ↦ pure none db
  | some sub ↦ reset_row new_uuid sub db
]

abbrev pub with_token : Bool → String → String → VlessSubscription → VlessSubscription
with_token clears token new_uuid sub =
    record (if clears then without_hwids (rotated new_uuid sub) else rotated new_uuid sub) {
      token = token;
    }

unfoldable pub rotate_token : ℕ → Bool → String → String → Action (String × (String × String))
rotate_token subscription_id clears token new_uuid = do
  row ← gets (subscription_by_id subscription_id)
  sub ← or_raise row Error.value_error
  modify (put_vless (with_token clears token new_uuid sub))
  pure (token, (VlessSubscription.uuid sub, new_uuid))

abbrev pub new_vless : ℕ → ℕ → String → String → VlessSubscription
new_vless id user_id token client_uuid = record {
  id = id;
  user_id = user_id;
  token = token;
  uuid = client_uuid;
  is_active = true;
  version = 1;
  active_hwids = [];
  pending_revoked_uuids = [];
}

-- Calls are steps one after another here, so that the insert meets no row of another transaction.
unfoldable pub get_or_create_subscription : ℕ → ℕ → String → String → Action VlessSubscription
get_or_create_subscription id user_id token client_uuid db =
    elim (first_where (λ s. VlessSubscription.user_id s == user_id) (Db.vless_subscriptions db)) [
      | some sub ↦ pure sub db
      | none ↦
          (do
            modify (λ d. record d {
              vless_subscriptions =
                  Db.vless_subscriptions d ++ new_vless id user_id token client_uuid ∷ [];
            })
            pure (new_vless id user_id token client_uuid))
            db
    ]

is_in-append : (s : String) (ts : List String) → is_in s (ts ++ s ∷ []) ≡ true
is_in-append s [] = rw (eq_refl s) refl
is_in-append s (t ∷ ts) = ground (arith, is_in-append s ts)

is_in-longer : (s t : String) (ts : List String) → is_in s ts ≡ true → is_in s (ts ++ t ∷ []) ≡ true
is_in-longer s t [] h = ground (arith, h)
is_in-longer s t (u ∷ us) h = ground (arith, is_in-longer s t us)

-- The uuid that is replaced is not lost: it waits to be revoked on the nodes.
is_in-with_revoked :
    (uuid : String) (pending : List String)
    → str_eq uuid "" ≡ false
    → is_in uuid (with_revoked uuid pending) ≡ true
unfolding with_revoked
is_in-with_revoked uuid pending h = ground (arith, h, is_in-append uuid pending)

-- What is to be revoked stays to be revoked.
with_revoked-keeps :
    (s uuid : String) (pending : List String)
    → is_in s pending ≡ true
    → is_in s (with_revoked uuid pending) ≡ true
unfolding with_revoked
with_revoked-keeps s uuid pending h = ground (arith, h, is_in-longer s uuid pending)

-- When the token of a subscription with a uuid is rotated, the nodes are asked for a later version,
-- and the old uuid and every uuid that already waited wait to be revoked; nothing that may still give
-- access is forgotten.
pub rotated-revokes :
    (new_uuid s : String) (sub : VlessSubscription)
    → str_eq (VlessSubscription.uuid sub) "" ≡ false
    → (suc (VlessSubscription.version sub) ≤ VlessSubscription.version (rotated new_uuid sub))
      × ((is_in
              (VlessSubscription.uuid sub)
              (VlessSubscription.pending_revoked_uuids (rotated new_uuid sub))
            ≡ true)
          × (is_in s (VlessSubscription.pending_revoked_uuids sub) ≡ true
              → is_in s (VlessSubscription.pending_revoked_uuids (rotated new_uuid sub)) ≡ true))
unfolding rotated
rotated-revokes new_uuid s sub h = (
  ground arith,
  (
    is_in-with_revoked (VlessSubscription.uuid sub) (VlessSubscription.pending_revoked_uuids sub) h,
    with_revoked-keeps s (VlessSubscription.uuid sub) (VlessSubscription.pending_revoked_uuids sub),
  ),
)
