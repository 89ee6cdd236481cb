-- ===== src/Routes.antt =====
-- bins/api-server/src/peerdb/routes.rs: the handlers of the API server, over the trait `PeerDB`. An
-- answer is the value that becomes JSON.
pub mod Served
use mathlib.Core.Option.{get_or}
use reth_crawler.Prelude.{ℕ, Option, none, some, List, Result, ok, err, Outcome, done, panic}
use reth_crawler.Prelude.Panics.{◌>>=◌}
use reth_crawler.Text.{Text}
use reth_crawler.Types.{PeerData, ClientData}
use reth_crawler.PeerDb.{PeerDb, unwrap}

abbrev pub max_last_seen : ℕ
max_last_seen = 1

-- `Utc::now().checked_sub_days(..).expect(..).to_string()`: `days_ago` is the text of the time so
-- many days ago, if there is such a time.
unfoldable pub cutoff_time : (ℕ → Option Text) → Option ℕ → Outcome Text
cutoff_time days_ago cutoff_param = elim (days_ago (get_or cutoff_param max_last_seen)) [
  | none ↦ panic
  | some time ↦ done time
]

module _ {A S P : Type 0} (db : PeerDb A S P) where
  unfoldable pub get_nodes : db.Store → Outcome (List PeerData)
  get_nodes store = db.all_peers (some 50) store >>= unwrap

  unfoldable pub get_active_nodes :
      (ℕ → Option Text) → Option ℕ → db.Store → Outcome (List PeerData)
  unfolding cutoff_time
  get_active_nodes days_ago cutoff_param store = do
    cutoff ← cutoff_time days_ago cutoff_param
    found ← db.all_active_peers cutoff (some 50) store
    unwrap found

  unfoldable pub get_clients : db.Store → Outcome (List ClientData)
  get_clients store = db.clients (some 50) store >>= unwrap

  unfoldable pub get_active_clients :
      (ℕ → Option Text) → Option ℕ → db.Store → Outcome (List ClientData)
  unfolding cutoff_time
  get_active_clients days_ago cutoff_param store = do
    cutoff ← cutoff_time days_ago cutoff_param
    found ← db.active_clients cutoff (some 50) store
    unwrap found

  unfoldable pub get_node_by_id : Text → db.Store → Outcome (Option (List PeerData))
  get_node_by_id id store = db.node_by_id id store >>= unwrap

  unfoldable pub get_node_by_ip : Text → db.Store → Outcome (Option (List PeerData))
  get_node_by_ip ip store = db.node_by_ip ip store >>= unwrap
