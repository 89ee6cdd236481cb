-- ===== src/ApiServer/Requests.antt =====
-- From the listener's tasks to the answer to a request for one peer.
use reth_crawler.Prelude.{
  ℕ, ◌≡◌, refl, true, false, Option, some, List, ◌++◌, ok, done, Eq, All, PanicsOr,
}
use reth_crawler.Text.{Text, text}
use reth_crawler.Text.Search.{is_empty}
use reth_crawler.Text.Split.{Lacks}
use reth_crawler.Types.{PeerData, InRange, sql_query_item_error}
use reth_crawler.PeerDb.Collection.{Distinct}
use reth_crawler.Sql.{IsTable}
use reth_crawler.Sql.Stepping.{IsStepTable, Replaces}
use reth_crawler.Sql.Conflict.{Upserts}
use reth_crawler.Sqlite
use reth_crawler.Sqlite.Steps.{FoundAlone}
use reth_crawler.Sqlite.Rows.{reread}
use reth_crawler.Sqlite.Refines as Kept
use reth_crawler.Postgres
use reth_crawler.Postgres.Refines as Source
use reth_crawler.Handshake.{Reth}
use reth_crawler.Listener.{Sockets}
use reth_crawler.Listener.Latest.{latest}
use reth_crawler.ApiServer.{update_time}
use reth_crawler.DbSync.{Tick, db_sync}
use reth_crawler.Concurrent.Listeners.{Crawl, begin, Moves}
use reth_crawler.ApiServer.Answers.{source_db, get_node_by_id-Moves}
use reth_crawler.ApiServer.Router.{Axum, app, json, found_peers, serve}
use reth_crawler.ApiServer.Router.Handlers.{serve_by_id-PanicsOr}

module _ {PeerId : Type 0} ⦃e : Eq PeerId⦄ (R : Reth PeerId) (N : Sockets R) (P : Postgres.Driver)
    (S : Sqlite.Driver) (A : Type 0) (t : IsTable P.engine Postgres.table Postgres.inserted)
    (u : Upserts P.engine Postgres.table "id" Postgres.inserted t)
    (s : IsStepTable S.engine Sqlite.table Sqlite.schema)
    (r : Replaces S.engine Sqlite.table Sqlite.key Sqlite.schema s) (axum : Axum app)
    (days_ago : ℕ → Option Text) where
  -- The tasks of any number of listeners over one PostgreSQL database run in any interleaving; at some
  -- point none of them has panicked, and the first run of `db_sync` copies to SQLite without an error.
  -- If a record was saved under an id that is not empty and has no slash and no percent sign, then
  -- `GET /node/id/<id>` panics on an error of SQLite, or is answered with the JSON of the last such
  -- record alone, as it is read back, whatever both databases held before, and with nothing only if a
  -- step through the rows of SQLite fails. The numbers of the peers
  -- that both databases held before fit their types, and no id stood twice in PostgreSQL.
  pub serve-Moves :
      (source : P.Connection) (crawl : Crawl R (source_db R N P S A t u s r) N) (ps : List PeerData)
      (tick : Tick P S A) (c opened c' : S.Connection) (qs : List PeerData) (id : Text)
      (p : PeerData) (query : Option Text)
      → Source.Serves P t source ps × Distinct ps
      → Kept.Holds S s opened qs
      → All InRange ps × All InRange qs
      → Moves R
          (source_db R N P S A t u s r)
          N
          (begin R (source_db R N P S A t u s r) N source)
          crawl
      → All (λ o. o ≡ done tt) crawl.outcomes
      → tick.dynamo_db ≡ done crawl.store
      → tick.sqlite_db c ≡ done opened
      → db_sync P S A update_time true tick c ≡ (c', done (ok tt))
      → latest id crawl.log ≡ some p
      → (is_empty id ≡ false) × Lacks b'/' id × Lacks b'%' id
      → PanicsOr sql_query_item_error
          (Sqlite.node_by_id S {A = A} {P = P.Error} id c')
          (serve axum
            (Sqlite.sql_peer_db S {A = A} {P = P.Error})
            days_ago
            (text "/node/id/" ++ id)
            query
            c')
          (λ response.
            (out : Option (List PeerData)) × (response ≡ json (found_peers out))
            × FoundAlone S id (reread p) c' out)
  serve-Moves source crawl ps tick c opened c' qs id p query served held ranges moves fine
        open_source open_file synced last plain =
      let db = Sqlite.sql_peer_db S {A = A} {P = P.Error} in
      serve_by_id-PanicsOr axum db days_ago sql_query_item_error _ id query c' _ _ plain
        (λ out alone. (out, refl, alone))
        (get_node_by_id-Moves R N P S A t u s r source crawl ps tick c opened c' qs id p served held
          ranges moves fine open_source open_file synced last)
