-- ===== src/Concurrent/Stored.antt =====
-- What the tasks of all listeners leave in PostgreSQL.
use mathlib.Core.List.{Perm}
use reth_crawler.Prelude.{ℕ, ◌≡◌, ◌⊎◌, inl, inr, Option, List, map, ok, err, done, Eq, All, All-map}
use reth_crawler.Types.{PeerData, InRange, postgres_scan_error}
use reth_crawler.PeerDb.{PeerDb}
use reth_crawler.PeerDb.Collection.{upsert_all, Distinct}
use reth_crawler.Sql.{IsTable}
use reth_crawler.Sql.Conflict.{Upserts}
use reth_crawler.Postgres
use reth_crawler.Postgres.{postgres_peer_db}
use reth_crawler.Sqlite.Rows.{reread}
use reth_crawler.Postgres.Refines as Source
use reth_crawler.Postgres.Keeper.{postgres_keeper}
use reth_crawler.Handshake.{Reth}
use reth_crawler.Listener.{Sockets}
use reth_crawler.Listener.Latest.{upsert_all-InRange}
use reth_crawler.Concurrent.Invariant.{Recorded, Recorded-InRange}
use reth_crawler.Concurrent.Listeners.{Crawl, begin, Moves, Moves-CrawlIsSound}
use reth_crawler.Sqlite.Copies.{All-InRange-Perm, reread-InRange}

module _ {PeerId : Type 0} ⦃e : Eq PeerId⦄ (R : Reth PeerId) (N : Sockets R) (P : Postgres.Driver)
    (A S : Type 0) (t : IsTable P.engine Postgres.table Postgres.inserted)
    (u : Upserts P.engine Postgres.table "id" Postgres.inserted t) where
  abbrev shared_db : PeerDb A S P.Error
  shared_db = postgres_peer_db P {A = A} {S = S}

  -- After any interleaving of the tasks of all listeners, none of which has panicked, the numbers of
  -- every record that was saved fit the types of their fields, so that `all_peers` of PostgreSQL,
  -- which casts them, does not panic: it returns an error of the database, or each peer once, with
  -- those of one id the last, and the numbers of what it returns fit too. Those of the peers that the
  -- database held before fit, and no id stood twice.
  pub Moves-all_peers :
      (source : P.Connection) (crawl : Crawl R shared_db N) (ps : List PeerData)
      (page_size : Option ℕ)
      → Source.Serves P t source ps × Distinct ps
      → All InRange ps
      → Moves R shared_db N (begin R shared_db N source) crawl
      → All (λ o. o ≡ done tt) crawl.outcomes
      → All InRange crawl.log
        × (((error : P.Error) × (Postgres.all_peers P {A = A} {S = S} page_size crawl.store
                ≡ done (err (postgres_scan_error error))))
            ⊎ ((out : List PeerData) × (Postgres.all_peers P {A = A} {S = S} page_size crawl.store
                  ≡ done (ok out))
                × Perm out (map reread (upsert_all crawl.log ps))
                × All InRange out))
  Moves-all_peers source crawl ps page_size served range moves fine =
      let K = postgres_keeper P t u A S in
      let sound = Moves-CrawlIsSound R shared_db N K ps source served moves in
      let log_range =
        All-map (Recorded R shared_db N K ps) InRange crawl.log
          (Recorded-InRange R shared_db N K ps) sound.recorded in
      let total_range = upsert_all-InRange crawl.log ps log_range range in
      let total = upsert_all crawl.log ps in
      let answer =
        Source.all_peers-Serves P t {A = A} {S = S} crawl.store total (sound.kept fine).0 page_size
          total_range in
      (
        log_range,
        elim answer [
          | inl (error, failed) ↦ inl (error, failed)
          | inr (out, listed, same) ↦ inr (
            out,
            listed,
            same,
            All-InRange-Perm out (map reread total) same (reread-InRange total total_range),
          )
        ],
      )
