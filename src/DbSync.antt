-- ===== src/DbSync.antt =====
-- bins/api-server/src/db_sync.rs: what the API server copies from PostgreSQL to SQLite.
pub mod Runs
pub mod Mirror
use reth_crawler.Prelude.{
  ℕ, ◌+◌, Bool, true, false, Option, none, some, List, [], ◌∷◌, Result, ok, err, Outcome, done,
  panic, if◌then◌else◌,
}
use reth_crawler.Text.{Text}
use reth_crawler.Types.{PeerData, AddItemError, ScanTableError}
use reth_crawler.Sqlite
use reth_crawler.Postgres

-- How the loop stands: it goes on, it has returned an error, or it has panicked.
pub data Progress {ℓ} (E : Type ℓ) : Type ℓ where
  looping : Progress E
  returned : E → Progress E
  panicked : Progress E

module _ (P : Postgres.Driver) (S : Sqlite.Driver) (A : Type 0) where
  -- `Box<dyn Error>`: the two errors that `?` puts into it
  pub data SyncError : Type 0 where
    scan_error : ScanTableError A S.Error P.Error → SyncError
    add_error : AddItemError A S.Error P.Error → SyncError

  -- What a run meets. `dynamo_db` is the connection of `PostgreSQLPeerDb::new()`, `sqlite_db` that of
  -- `SqlPeerDB::new()` on the database file, and `seconds_ago` gives the time of so many seconds ago,
  -- if there is one.
  pub record Tick : Type 0 where
    pub dynamo_db : Outcome P.Connection
    pub sqlite_db : S.Connection → Outcome S.Connection
    pub seconds_ago : ℕ → Option Text

  -- the loop over the peers
  unfoldable pub add_peers :
      List PeerData → S.Connection → S.Connection × Result SyncError (Unit {0})
  add_peers [] c = (c, ok tt)
  add_peers (peer ∷ peers) c =
      let (c', r) = Sqlite.add_peer S peer c in
      elim r [ ok done_one ↦ add_peers peers c' | err e ↦ (c', err (add_error e)) ]

  -- what `db_sync` does with the answer of its scan
  unfoldable pub store_peers :
      Outcome (Result (ScanTableError A S.Error P.Error) (List PeerData))
      → S.Connection
      → S.Connection × Outcome (Result SyncError (Unit {0}))
  unfolding add_peers
  store_peers panic c = (c, panic)
  store_peers (done (err e)) c = (c, done (err (scan_error e)))
  store_peers (done (ok peers)) c = let (c', r) = add_peers peers c in (c', done r)

  -- the scan and the loop, once the databases are open and the time is known
  unfoldable pub sync_since :
      Bool
      → P.Connection
      → Text
      → S.Connection
      → S.Connection × Outcome (Result SyncError (Unit {0}))
  unfolding store_peers
  sync_since first_sync source time_difference c =
      store_peers
        (if first_sync
          then Postgres.all_peers P none source
          else Postgres.all_active_peers P time_difference none source)
        c

  unfoldable pub db_sync :
      ℕ → Bool → Tick → S.Connection → S.Connection × Outcome (Result SyncError (Unit {0}))
  unfolding sync_since
  db_sync update_time first_sync tick c = elim tick.dynamo_db [
    | panic ↦ (c, panic)
    | done source ↦ elim (tick.sqlite_db c) [
      | panic ↦ (c, panic)
      | done opened ↦ elim (tick.seconds_ago (update_time + 60)) [
        | none ↦ (opened, panic)
        | some time ↦ sync_since first_sync source time opened
      ]
    ]
  ]

  -- The loop on the ticks of its interval, as many as have come. An interval of a natural number of
  -- seconds is one of `std`.
  unfoldable pub db_sync_handler :
      ℕ → Bool → List Tick → S.Connection → S.Connection × Progress SyncError
  unfolding db_sync
  db_sync_handler update_time first_sync [] c = (c, looping)
  db_sync_handler update_time first_sync (tick ∷ ticks) c =
      let (c', r) = db_sync update_time first_sync tick c in
      elim r [
        | panic ↦ (c', panicked)
        | done (err e) ↦ (c', returned e)
        | done (ok synced) ↦ db_sync_handler update_time false ticks c'
      ]
