-- ===== src/Vless/Revocations.antt =====
-- The uuids that wait to be revoked, once a node has revoked one, and the version that a node is asked
-- for.
use just1kbot.Prelude.{
  ℕ, ◌+◌, ◌==◌, not, Option, none, some, List, String, str_eq, select_where, if◌then◌else◌,
}
use just1kbot.Database.{VlessSubscription, Action, pure, ◌>>=◌, ◌>>◌, gets, modify}
use just1kbot.Vless.Devices.{subscription_by_id, put_vless}

-- `[u for u in pending_revoked_uuids if u != uuid_to_remove]`
unfoldable pub without_uuid : String → List String → List String
without_uuid uuid pending = select_where (λ u. not (str_eq u uuid)) pending

pop_from : String → Option VlessSubscription → Action (Unit {0})
pop_from uuid none = pure tt
pop_from uuid (some sub) =
    modify (
      put_vless
        (record sub { pending_revoked_uuids = without_uuid uuid sub.pending_revoked_uuids }))

unfoldable pub pop_pending_revoked_uuid : ℕ → String → Action (Unit {0})
unfolding pop_from
pop_pending_revoked_uuid subscription_id uuid_to_remove = do
  sub ← gets (subscription_by_id subscription_id)
  pop_from uuid_to_remove sub

-- `(version or 1) + 1`
abbrev bumped_row : VlessSubscription → VlessSubscription
bumped_row sub = record sub {
  version = (if VlessSubscription.version sub == 0 then 1 else VlessSubscription.version sub) + 1;
}

bump_found : Option VlessSubscription → Action (Option VlessSubscription)
bump_found none = pure none
bump_found (some sub) = do modify (put_vless (bumped_row sub)); pure (some (bumped_row sub))

unfoldable pub bump_subscription_version : ℕ → Action (Option VlessSubscription)
unfolding bump_found
bump_subscription_version subscription_id = do
  sub ← gets (subscription_by_id subscription_id)
  bump_found sub
