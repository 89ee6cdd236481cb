-- ===== src/Aws/Methods.antt =====
-- The methods of `AwsPeerDB` of db/src/db.rs, over the client of DynamoDB.
use mathlib.Core.Option.{get_or}
use reth_crawler.Prelude.{ℕ, String, Option, none, some, List, map, Result, map_ok, map_err, done}
use reth_crawler.Text.{Text}
use reth_crawler.Types.{
  PeerData, ClientData, AddItemError, aws_add_item_error, ScanTableError, aws_scan_error,
  QueryItemError, aws_query_item_error,
}
use reth_crawler.Types.Item.{from_item}
use reth_crawler.PeerDb.{PeerDb}
use reth_crawler.Aws.{put_item}
use reth_crawler.Aws.Dynamo.{Dynamo, Filter, unfiltered, greater}

module _ (D : Dynamo) where
  open D use {attributes, Value, Table, Error, s, put, scan, query}

  -- `Into::<PeerData>::into(peer).client_version` in a `ClientData`
  abbrev pub client_of : List (String × Value) → ClientData
  client_of item = record { client_version = (from_item attributes item).client_version }

  -- `if let Some(nodes) = results.items`
  abbrev pub nodes_of : Option (List (List (String × Value))) → Option (List PeerData)
  nodes_of none = none
  nodes_of (some nodes) = some (map (from_item attributes) nodes)

  module _ {S P : Type 0} where
    unfoldable pub add_peer : PeerData → Table → Table × Result (AddItemError Error S P) (Unit {0})
    add_peer p t =
        let (t', r) = put (put_item attributes D.region p) t in (t', map_err aws_add_item_error r)

    -- a scan, whose items become results by `f`
    unfoldable pub scan_all :
        {B : Type 0}
        → (List (String × Value) → B)
        → Filter Value
        → Option ℕ
        → Table
        → Result (ScanTableError Error S P) (List B)
    scan_all f filter page_size t =
        map_ok (map f) (map_err aws_scan_error (scan filter (get_or page_size 1000) t))

    unfoldable pub all_peers : Option ℕ → Table → Result (ScanTableError Error S P) (List PeerData)
    unfolding scan_all
    all_peers page_size t = scan_all (from_item attributes) unfiltered page_size t

    unfoldable pub all_active_peers :
        Text → Option ℕ → Table → Result (ScanTableError Error S P) (List PeerData)
    unfolding scan_all
    all_active_peers last_seen page_size t =
        scan_all (from_item attributes) (greater "last_seen" (s last_seen)) page_size t

    unfoldable pub clients : Option ℕ → Table → Result (ScanTableError Error S P) (List ClientData)
    unfolding scan_all
    clients page_size t = scan_all client_of unfiltered page_size t

    unfoldable pub active_clients :
        Text → Option ℕ → Table → Result (ScanTableError Error S P) (List ClientData)
    unfolding scan_all
    active_clients last_seen page_size t =
        scan_all client_of (greater "last_seen" (s last_seen)) page_size t

    -- the items of a query, if there are any
    unfoldable pub query_nodes :
        Option String
        → String
        → Text
        → Table
        → Result (QueryItemError Error S P) (Option (List PeerData))
    query_nodes index name value t =
        map_ok nodes_of (map_err aws_query_item_error (query index name (s value) t))

    unfoldable pub node_by_id :
        Text → Table → Result (QueryItemError Error S P) (Option (List PeerData))
    unfolding query_nodes
    node_by_id id t = query_nodes none "peer-id" id t

    unfoldable pub node_by_ip :
        Text → Table → Result (QueryItemError Error S P) (Option (List PeerData))
    unfolding query_nodes
    node_by_ip ip t = query_nodes (some "peer-ip-index") "peer-ip" ip t

  -- `AwsPeerDB` as an implementation of the trait
  abbrev pub aws_peer_db : {S P : Type 0} → PeerDb Error S P
  aws_peer_db = record {
    Store = Table;
    add_peer = add_peer;
    all_peers = λ n t. done (all_peers n t);
    all_active_peers = λ l n t. done (all_active_peers l n t);
    node_by_id = λ i t. done (node_by_id i t);
    node_by_ip = λ i t. done (node_by_ip i t);
    clients = λ n t. done (clients n t);
    active_clients = λ l n t. done (active_clients l n t);
  }
