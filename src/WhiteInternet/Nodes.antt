-- ===== src/WhiteInternet/Nodes.antt =====
-- The nodes that serve White Internet: `allocate_origin_server_atomic` of
-- database/repositories/servers_repo.py, and the moves between nodes of
-- services/white_internet_service.py.
use just1kbot.Prelude.{
  ℕ, ltb, ◌==◌, Bool, true, false, not, ◌&&◌, ◌||◌, Option, none, some, List, [], ◌∷◌, ◌++◌, String,
  first_where, count_where, if◌then◌else◌,
}
use just1kbot.Database.{
  WhiteInternetStatus, ProvisioningStatus, Server, WhiteInternetSubscription, Db, Action, pure,
  ◌>>◌, modify, is_live, is_transitional,
}
use just1kbot.Ledger.Entries.{sql_eq}
use just1kbot.WhiteInternet.Settings.{at_least_one}
use just1kbot.WhiteInternet.Repository.{
  write, enqueue_orphan_cleanup, cancel_pending_orphan_cleanups_for_client,
}

abbrev pub server_by_id : Option ℕ → Db → Option Server
server_by_id none db = none
server_by_id (some id) db = first_where (λ s. Server.id s == id) (Db.servers db)

-- `capacity_consuming_wl_condition`
abbrev pub consumes_capacity : WhiteInternetSubscription → Bool
consumes_capacity sub =
    is_live (WhiteInternetSubscription.status sub)
    || is_transitional (WhiteInternetSubscription.provisioning_status sub)

-- The clients that a server carries.
abbrev pub load : ℕ → Db → ℕ
load server_id db =
    count_where
      (λ s.
        sql_eq (WhiteInternetSubscription.origin_node_id s) (some server_id) && consumes_capacity s)
      (Db.subscriptions db)

abbrev is_healthy : Server → Bool
is_healthy s = Server.is_active s && (Server.is_online s && Server.is_lifecycle_active s)

-- A server that may take one more client.
abbrev pub is_candidate : Db → Server → Bool
is_candidate db s =
    Server.is_xray s
    && (is_healthy s
        && (Server.has_api s
            && (Server.is_origin s
                && (Server.has_relays s && ltb (load (Server.id s) db) (Server.max_clients s)))))

lower : Server → Option Server → Server
lower s none = s
lower s (some t) = if ltb t.id s.id then t else s

-- `ORDER BY id ASC`, and the first that passes.
unfoldable pub lowest : (Server → Bool) → List Server → Option Server
unfolding lower
lowest p [] = none
lowest p (s ∷ ss) =
    let rest : Option Server = lowest p ss in if p s then some (lower s rest) else rest

-- `select_origin_node`, whose RuntimeError every caller catches, is this `none`.
unfoldable pub allocate_origin_server_atomic : Db → Option Server
allocate_origin_server_atomic db = lowest (is_candidate db) db.servers

-- The subscription's node, if it is an Xray node.
unfoldable pub origin_of : WhiteInternetSubscription → Db → Option Server
origin_of sub db = elim sub.origin_node_id [
  | none ↦ none
  | some id ↦ first_where (λ s. Server.id s == id && Server.is_xray s) (Db.servers db)
]

abbrev pub needs_migration : Option Server → Bool
needs_migration none = true
needs_migration (some s) = not (is_healthy s && Server.has_relays s)

-- Where the subscription goes: it stays, it moves, or there is no node for it.
pub data Destination : Type 0 where
  stays : Destination
  moves : Server → Destination
  nowhere : Destination

abbrev found : Option Server → Destination
found none = nowhere
found (some s) = moves s

unfoldable pub destination : WhiteInternetSubscription → Db → Destination
destination sub db =
    if needs_migration (origin_of sub db) then found (allocate_origin_server_atomic db) else stays

abbrev pub moved_to : Server → WhiteInternetSubscription → WhiteInternetSubscription
moved_to s sub = record sub {
  origin_node_id = some (Server.id s);
  actual_version = 0;
  last_reconciled_node_epoch = none;
  provisioning_status = ProvisioningStatus.pending_create;
}

unfoldable pub migrate : Destination → WhiteInternetSubscription → Action WhiteInternetSubscription
migrate (moves s) sub = do
  write (moved_to s sub)
  cancel_pending_orphan_cleanups_for_client s.id sub.uuid
  pure (moved_to s sub)
migrate _ sub = pure sub

-- `_dispatch_deprovision`: a task for after the commit.
unfoldable pub dispatch_deprovision : Option Server → String → ℕ → Action (Unit {0})
dispatch_deprovision none client_uuid version = pure tt
dispatch_deprovision (some s) client_uuid version =
    if s.has_api && s.is_xray
    then modify
        (λ db. record db { deprovisions = Db.deprovisions db ++ (s.id, client_uuid, version) ∷ [] })
    else pure tt

-- After a move, the client is to be removed from the node that it left.
unfoldable pub clean_up_old : Destination → Option Server → String → ℕ → Action (Unit {0})
clean_up_old (moves _) (some old) client_uuid version = do
  enqueue_orphan_cleanup old.id client_uuid version
  dispatch_deprovision (some old) client_uuid version
clean_up_old _ _ client_uuid version = pure tt

-- What `sync_client` and `get_inventory` of the node's client library answer: an exception, or a
-- result with what was compared of it; an inventory is asked for after `already_newer`.
pub data SyncAnswer : Type 0 where
  unreachable : SyncAnswer
  applied : Option String → Bool → Bool → SyncAnswer
  already_newer : Option String → Bool → Bool → Bool → SyncAnswer
  rejected : SyncAnswer

-- The epoch is the node's, the inbounds are there, and the inventory shows the client active.
abbrev pub is_confirmed : SyncAnswer → Bool
is_confirmed (applied verified_epoch is_epoch are_inbounds) = is_epoch && are_inbounds
is_confirmed (already_newer verified_epoch is_epoch are_inbounds is_observed) =
    is_epoch && (is_observed && are_inbounds)
is_confirmed _ = false

-- `resp.verified_epoch or origin_node.xray_instance_epoch`
abbrev pub epoch_of : SyncAnswer → Option String
epoch_of (applied verified_epoch _ _) = verified_epoch
epoch_of (already_newer verified_epoch _ _ _) = verified_epoch
epoch_of _ = none

-- `(sub.desired_version or 1) == target_version` holds: both are read of one object.
abbrev pub synced : Option String → WhiteInternetSubscription → WhiteInternetSubscription
synced verified_epoch sub = record sub {
  actual_version = at_least_one (WhiteInternetSubscription.desired_version sub);
  status = WhiteInternetStatus.active;
  provisioning_status = ProvisioningStatus.active;
  last_reconciled_node_epoch = verified_epoch;
}

unfoldable pub try_inline_sync :
    SyncAnswer → WhiteInternetSubscription → Action WhiteInternetSubscription
try_inline_sync answer sub =
    if is_confirmed answer then write (synced (epoch_of answer) sub) else pure sub
