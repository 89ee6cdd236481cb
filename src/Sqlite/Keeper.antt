-- ===== src/Sqlite/Keeper.antt =====
-- `SqlPeerDB` as a database that keeps a collection.
use reth_crawler.PeerDb.Keeper.{Keeper}
use reth_crawler.Sql.Stepping.{IsStepTable, Replaces}
use reth_crawler.Sqlite.{Driver, table, key, schema, sql_peer_db}
use reth_crawler.Sqlite.Refines.{Holds, add_peer-Holds}

module _ (D : Driver) (t : IsStepTable D.engine table schema)
    (r : Replaces D.engine table key schema t) (A P : Type 0) where
  abbrev pub sqlite_keeper : Keeper (sql_peer_db D {A = A} {P = P})
  sqlite_keeper = record { Keeps = Holds D t; adds = add_peer-Holds D t r {A = A} {P = P} }
