-- ===== src/System.antt =====
-- Both programs at once: the listeners of the crawler over PostgreSQL, and beside them the API server,
-- whose `db_sync_handler` (bins/api-server/src/db_sync.rs) copies to SQLite one peer at a time while
-- requests are answered. A tick opens the databases and reads PostgreSQL at once.
pub mod Grows
pub mod Scan
pub mod Rounds
pub mod Sound
pub mod Served
pub mod Copied
pub mod Fresh
pub mod Uninterrupted
use reth_crawler.Prelude.{
  ℕ, ◌+◌, ◌≡◌, Bool, true, false, Option, none, some, List, [], ◌∷◌, Result, ok, err, Outcome, done,
  panic, Eq, if◌then◌else◌,
}
use reth_crawler.Text.{Text}
use reth_crawler.Types.{PeerData, ScanTableError}
use reth_crawler.PeerDb.{PeerDb}
use reth_crawler.Sqlite
use reth_crawler.Postgres
use reth_crawler.Postgres.{postgres_peer_db}
use reth_crawler.Handshake.{Reth}
use reth_crawler.Listener.{Sockets}
use reth_crawler.DbSync.{Tick}
use reth_crawler.ApiServer.{update_time}
use reth_crawler.Concurrent.{State, Step}
use reth_crawler.Concurrent.Listeners.{Crawl, view, put_back, begin}

-- Where `db_sync_handler` stands: before a tick, with `first_sync`; in the loop of `db_sync`, with the
-- peers that are left; or at its end, by an error or a panic, and with it that of the API server.
pub data Phase : Type 0 where
  waiting : Bool → Phase
  copying : List PeerData → Phase
  ended : Phase

module _ {PeerId : Type 0} ⦃e : Eq PeerId⦄ (R : Reth PeerId) (N : Sockets R) (P : Postgres.Driver)
    (S : Sqlite.Driver) (A : Type 0) where
  -- the database of the listeners
  abbrev pub source_db : PeerDb A S.Error P.Error
  source_db = postgres_peer_db P {A = A} {S = S.Error}

  -- what the loop starts with
  unfoldable pub scanned :
      Outcome (Result (ScanTableError A S.Error P.Error) (List PeerData)) → Phase
  scanned panic = ended
  scanned (done (err e)) = ended
  scanned (done (ok peers)) = copying peers

  -- A run of `db_sync` up to its loop.
  unfoldable pub scan : ℕ → Bool → Tick P S A → S.Connection → S.Connection × Phase
  unfolding scanned
  scan update_time first_sync tick c = elim tick.dynamo_db [
    | panic ↦ (c, ended)
    | done source ↦ elim (tick.sqlite_db c) [
      | panic ↦ (c, ended)
      | done opened ↦ elim (tick.seconds_ago (update_time + 60)) [
        | none ↦ (opened, ended)
        | some time ↦ (
          opened,
          scanned (
              if first_sync
              then Postgres.all_peers P none source
              else Postgres.all_active_peers P time none source),
        )
      ]
    ]
  ]

  -- One round of the loop.
  unfoldable pub copy : PeerData → List PeerData → S.Connection → S.Connection × Phase
  copy peer peers c =
      let (c', r) = Sqlite.add_peer S {A = A} {P = P.Error} peer c in
      elim r [ ok added ↦ (c', copying peers) | err error ↦ (c', ended) ]

  -- `file` is the database file of the API server.
  pub record System : Type 0 where
    pub crawl : Crawl R source_db N
    pub file : S.Connection
    pub phase : Phase

  abbrev pub boot : P.Connection → S.Connection → System
  boot source file = record {
    crawl = begin R source_db N source;
    file = file;
    phase = waiting true;
  }

  abbrev pub crawled : ℕ → State R source_db N → System → System
  crawled i s t = record t { crawl = put_back R source_db N i s t.crawl }

  abbrev pub synced : S.Connection × Phase → System → System
  synced run t = record t { file = run.0; phase = run.1 }

  -- what `PostgreSQLPeerDb::new` gives: the database of the listeners, if it is reached
  abbrev pub reaching : Bool → System → Outcome P.Connection
  reaching reached t = if reached then done t.crawl.store else panic

  -- Any number of moves of both programs. `open_file k` is what `SqlPeerDB::new` does, which may vary
  -- from one run to another.
  pub data Runs (open_file : ℕ → S.Connection → Outcome S.Connection) (s : System)
      : System → Type 0 where
    here : Runs open_file s s
    crawls :
        {t : System} {u : State R source_db N} (i : ℕ)
        → Runs open_file s t
        → Step R source_db N (view R source_db N i t.crawl) u
        → Runs open_file s (crawled i u t)
    ticks :
        {t : System} (first_sync : Bool) (k : ℕ) (reached : Bool) (clock : ℕ → Option Text)
        → Runs open_file s t
        → t.phase ≡ waiting first_sync
        → Runs open_file s (
            synced
              (scan update_time first_sync
                (record {
                  dynamo_db = reaching reached t;
                  sqlite_db = open_file k;
                  seconds_ago = clock;
                })
                t.file)
              t)
    copies :
        {t : System} (peer : PeerData) (peers : List PeerData)
        → Runs open_file s t
        → t.phase ≡ copying (peer ∷ peers)
        → Runs open_file s (synced (copy peer peers t.file) t)
    copied :
        {t : System}
        → Runs open_file s t
        → t.phase ≡ copying []
        → Runs open_file s (synced (t.file, waiting false) t)
