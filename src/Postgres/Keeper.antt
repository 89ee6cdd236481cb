-- ===== src/Postgres/Keeper.antt =====
-- `PostgreSQLPeerDb` as a database that keeps a collection.
use reth_crawler.PeerDb.Keeper.{Keeper}
use reth_crawler.PeerDb.Collection.{Distinct}
use reth_crawler.Sql.{IsTable}
use reth_crawler.Sql.Conflict.{Upserts}
use reth_crawler.Postgres.{Driver, table, inserted, postgres_peer_db}
use reth_crawler.Postgres.Refines.{Serves, add_peer-Serves}

module _ (D : Driver) (t : IsTable D.engine table inserted)
    (u : Upserts D.engine table "id" inserted t) (A S : Type 0) where
  abbrev pub postgres_keeper : Keeper (postgres_peer_db D {A = A} {S = S})
  postgres_keeper = record {
    Keeps = λ c ps. Serves D t c ps × Distinct ps;
    adds = λ p c c' ps h q. add_peer-Serves D t u {A = A} {S = S} p c c' ps h.0 h.1 q;
  }
