-- ===== src/Tests/Sync.antt =====
-- PostgreSQL over a list of rows, and peers from it to SQLite.
use mathlib.Core.List.{Perm}
use mathlib.Core.List.Perm
use reth_crawler.Prelude.{
  ◌≡◌, ◌≢◌, refl, sym, ap, ◌⊎◌, Bool, true, false, none, some, List, [], ◌∷◌, ◌++◌, map, keep,
  Result, ok, err, list_eq, nat_eq, arith, All, ok-injective, Outcome, done, if◌then◌else◌,
}
use reth_crawler.Prelude.Ints.{ℤ, pos}
use reth_crawler.Prelude.Panics.{collect_all}
use reth_crawler.Text.{text}
use reth_crawler.Types.{PeerData, ClientData, InRange, ScanTableError, postgres_scan_error}
use reth_crawler.PeerDb.Collection.{upsert, Distinct}
use reth_crawler.Sql.{Statement, insert_on_conflict, select, assigned, satisfies, project, IsTable}
use reth_crawler.Sql.Conflict.{Upserts, change_or_add, updated}
use reth_crawler.Sqlite
use reth_crawler.Sqlite.Rows.{reread}
use reth_crawler.Sqlite.Refines as Kept
use reth_crawler.Postgres
use reth_crawler.Postgres.{inserted, has_question}
use reth_crawler.Postgres.Rows.{named_client, stored}
use reth_crawler.Postgres.Refines.{Serves, add_peer-Serves, all_peers-Serves, clients-Serves}
use reth_crawler.ApiServer.{update_time}
use reth_crawler.DbSync.{Tick, looping, db_sync, db_sync_handler}
use reth_crawler.DbSync.Runs.{db_sync_handler-Ends}
use reth_crawler.DbSync.Mirror.{first_sync-Mirrors}
use reth_crawler.PeerDb.Merge.{absent}
use reth_crawler.Tests.Items.{geth}
use reth_crawler.Tests.Tables.{
  Value, int, Rows, values, driver, is_table, replaces, other, before, perm_of_eq,
}

abbrev get_i32 : Value → Result (Unit {0}) ℤ
get_i32 (int n) = ok (pos n)
get_i32 _ = err tt

abbrev execute : Statement → List Value → Rows → Rows × Result (Unit {0}) (Unit {0})
execute (insert_on_conflict t names vs key sets) args rows =
    let new = assigned values names vs args in
    (change_or_add (λ row. values.equal (row key) (new key)) (updated sets new) new rows, ok tt)
execute _ args rows = (rows, err tt)

abbrev query : Statement → List Value → Rows → Result (Unit {0}) (List (List Value))
query (select selection t condition) args rows =
    if has_question condition
    then err tt
    else ok (map (project inserted selection) (keep (satisfies values condition args) rows))
query _ args rows = err tt

abbrev pub server : Postgres.Driver
server = record {
  engine = record { values = values; Connection = Rows; execute = execute; query = query };
  get_i32 = get_i32;
  get_i32-integer = λ n h. refl;
  refuses_question = λ selection from condition args c h. (tt, rw h refl);
}

pub refused-ne-found :
    (b : Bool) {l found : List (List Value)}
    → ◌≡◌ {A = Result (Unit {0}) (List (List Value))} (if b then err tt else ok l) (ok found)
    → l ≡ found
refused-ne-found true q = cc
refused-ne-found false q = ok-injective q

abbrev pub served : IsTable server.engine Postgres.table inserted
served = record {
  rows = λ rows. rows;
  selects = λ selection condition args c found q.
      perm_of_eq (sym (refused-ne-found (has_question condition) q));
}

abbrev pub upserts : Upserts server.engine Postgres.table "id" inserted served
upserts = record { upserts = λ names vs sets args c c' q. perm_of_eq (sym (ap (λ x. x.0) q)) }

unfoldable pub program : Unit {0}
unfolding Postgres.add_peer Postgres.all_peers Postgres.clients Postgres.from_row
    Postgres.client_from_row Postgres.read_rows stored assigned satisfies project collect_all
    change_or_add updated db_sync
program = tt

-- `geth` and a second peer, which is added again with other data.
abbrev pub old_geth : PeerData
old_geth = record geth { client_version = text "v0"; city = text "Bonn" }

abbrev pub held : Rows
held = stored server other ∷ stored server old_geth ∷ []

abbrev after : Rows
after = (Postgres.add_peer server {A = Unit {0}} {S = Unit {0}} geth held).0

abbrev pub tick : Tick server driver (Unit {0})
tick = record {
  dynamo_db = done held;
  sqlite_db = λ c. done c;
  seconds_ago = λ seconds. some (text "2023");
}

pub held-Distinct : Distinct (other ∷ old_geth ∷ [])
held-Distinct = ((refl, tt), (tt, tt))

add_peer-Serves_example :
    Serves server served after (upsert geth (other ∷ old_geth ∷ []))
    × Distinct (upsert geth (other ∷ old_geth ∷ []))
unfolding program
add_peer-Serves_example =
    add_peer-Serves server served upserts {A = Unit {0}} {S = Unit {0}} geth held after
      (other ∷ old_geth ∷ []) (Perm.refl held) held-Distinct refl

abbrev pub peers : List PeerData
peers = other ∷ old_geth ∷ []

pub peers_range : All InRange peers
peers_range = (
  record { tcp_port = omega arith; eth_version = omega arith },
  (record { tcp_port = omega arith; eth_version = omega arith }, tt),
)

abbrev listed : Outcome (Result (ScanTableError (Unit {0}) (Unit {0}) (Unit {0})) (List PeerData))
listed = Postgres.all_peers server none held

abbrev named : Outcome (Result (ScanTableError (Unit {0}) (Unit {0}) (Unit {0})) (List ClientData))
named = Postgres.clients server none held

all_peers-Serves_example :
    ((e : Unit {0}) × (listed ≡ done (err (postgres_scan_error e))))
    ⊎ ((out : List PeerData) × (listed ≡ done (ok out)) × Perm out (map reread peers))
all_peers-Serves_example =
    all_peers-Serves server served {A = Unit {0}} {S = Unit {0}} held peers (Perm.refl held) none
      peers_range

clients-Serves_example :
    ((e : Unit {0}) × (named ≡ done (err (postgres_scan_error e))))
    ⊎ ((out : List ClientData) × (named ≡ done (ok out)) × Perm out (map named_client peers))
clients-Serves_example =
    clients-Serves server served {A = Unit {0}} {S = Unit {0}} held peers (Perm.refl held) none

abbrev pub synced : Rows
synced = (db_sync server driver (Unit {0}) update_time true tick before).0

first_sync-Mirrors_example :
    Kept.Holds driver is_table synced (map reread peers ++ keep (absent peers) (other ∷ []))
unfolding program Sqlite.add_peer
first_sync-Mirrors_example =
    first_sync-Mirrors server driver (Unit {0}) is_table replaces served update_time held peers tick
      before before synced (other ∷ []) (Perm.refl held) held-Distinct peers_range refl refl
      (Perm.refl before) refl

db_sync_handler-Ends_example :
    let (c', progress) =
      db_sync_handler server driver (Unit {0}) update_time true (tick ∷ tick ∷ tick ∷ []) before in
    (progress ≢ looping) × ((c' ≡ synced) ⊎ (◌≡◌ {A = Outcome Rows} (done synced) (done c')))
db_sync_handler-Ends_example =
    db_sync_handler-Ends server driver (Unit {0}) update_time tick tick (tick ∷ []) before
