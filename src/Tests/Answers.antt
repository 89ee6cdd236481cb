-- ===== src/Tests/Answers.antt =====
-- Tasks of two listeners that interleave over the PostgreSQL of Sync, the first synchronisation, and a request.
use mathlib.Core.List.{Perm}
use mathlib.Core.List.Perm
use reth_crawler.Prelude.{
  ◌++◌, ℕ, ◌≡◌, refl, true, none, some, ◌⊎◌, map, Outcome, Result, List, [], ◌∷◌, ok, err, done,
  All, nat_eq,
}
use reth_crawler.Text.{text, split}
use reth_crawler.Text.Search.{is_empty}
use reth_crawler.Types.{PeerData, InRange, ScanTableError, postgres_scan_error}
use reth_crawler.PeerDb.{PeerDb}
use reth_crawler.Postgres.{postgres_peer_db, all_peers}
use reth_crawler.Concurrent.Stored.{Moves-all_peers}
use reth_crawler.PeerDb.Collection.{upsert_all}
use reth_crawler.Postgres.Keeper.{postgres_keeper}
use reth_crawler.Sqlite
use reth_crawler.Sqlite.{node_by_id, sql_peer_db}
use reth_crawler.Sqlite.Rows.{reread}
use reth_crawler.Handshake.{collect}
use reth_crawler.Listener.{session_established}
use reth_crawler.Listener.Streams.{Job, found, event}
use reth_crawler.Listener.Latest.{latest}
use reth_crawler.Concurrent.{
  hear, State, discover, connect, resume, shaking, greeting, collecting, collecting_session,
  discovers, connects, goes_on,
}
use reth_crawler.Concurrent.Listeners.{
  Crawl, view, put_back, begin, Moves, here, next, CrawlIsSound, Moves-CrawlIsSound,
}
use reth_crawler.ApiServer.{update_time}
use reth_crawler.DbSync.{Tick, db_sync}
use reth_crawler.Routes.{get_node_by_id}
use reth_crawler.ApiServer.Router.{json, found_peers, serve, fits_segments}
use reth_crawler.Tests.Api.{days_ago}
use reth_crawler.Tests.Requests.{router}
use reth_crawler.Tests.Network.{reth, sockets, peer, hello, status, answers, eth, session}
use reth_crawler.Tests.Tables.{driver, before, Rows}
use reth_crawler.Tests.Crawl.{tasks}
use reth_crawler.Tests.Sync.{
  server, served, upserts, held, peers, peers_range, held-Distinct, program,
}

abbrev pub postgres : PeerDb (Unit {0}) (Unit {0}) (Unit {0})
postgres = postgres_peer_db server

abbrev Seen : Type 0
Seen = State reth postgres sockets

-- The first listener discovers a peer, and the second one meets it in a session.
abbrev initial : Crawl reth postgres sockets
initial = begin reth postgres sockets held

abbrev one_found : Crawl reth postgres sockets
one_found =
    put_back reth postgres sockets 0
      (discover reth postgres sockets peer (view reth postgres sockets 0 initial)) initial

abbrev met : Crawl reth postgres sockets
met =
    put_back reth postgres sockets 1
      (connect reth postgres sockets session (view reth postgres sockets 1 one_found)) one_found

-- what a listener sees, without its only task
abbrev idle : ℕ → Crawl reth postgres sockets → Seen
idle i c = record (view reth postgres sockets i c) { flights = [] }

abbrev shaken : Crawl reth postgres sockets
shaken =
    put_back reth postgres sockets 0
      (resume reth postgres sockets (shaking peer 0) (ok hello) (idle 0 met)) met

-- The session is saved while the one_found peer has yet to answer the eth handshake.
abbrev session_saved : Crawl reth postgres sockets
session_saved =
    put_back reth postgres sockets 1
      (resume reth postgres sockets (collecting_session session) answers (idle 1 shaken)) shaken

abbrev welcomed : Crawl reth postgres sockets
welcomed =
    put_back reth postgres sockets 0
      (resume reth postgres sockets (greeting peer hello) (ok status)
        (hear reth postgres sockets (greeting peer hello) (ok status) (idle 0 session_saved)))
      session_saved

abbrev crawl : Crawl reth postgres sockets
crawl =
    put_back reth postgres sockets 0
      (resume reth postgres sockets (collecting peer hello status) answers (idle 0 welcomed))
      welcomed

unfoldable pub opened : Unit {0}
unfolding tasks program latest get_node_by_id Sqlite.add_peer discover connect resume
opened = tt

moves : Moves reth postgres sockets initial crawl
unfolding opened
moves =
    next 0
      (next 0
        (next 1
          (next 0 (next 1 (next 0 here (discovers peer)) (connects session))
            (goes_on [] [] (shaking peer 0) (ok hello) refl))
          (goes_on [] [] (collecting_session session) answers refl))
        (goes_on [] [] (greeting peer hello) (ok status) refl))
      (goes_on [] [] (collecting peer hello status) answers refl)

Moves-CrawlIsSound_example :
    CrawlIsSound reth postgres sockets
      (postgres_keeper server served upserts (Unit {0}) (Unit {0}))
      peers
      crawl
Moves-CrawlIsSound_example =
    Moves-CrawlIsSound reth postgres sockets
      (postgres_keeper server served upserts (Unit {0}) (Unit {0})) peers held
      (Perm.refl held, held-Distinct) moves

abbrev jobs : List (Job reth postgres sockets)
jobs =
    found peer (ok (tt, hello)) eth answers
    ∷ found peer (err (text "timeout")) eth answers
    ∷ event (session_established session) answers
    ∷ []

abbrev tick : Tick server driver (Unit {0})
tick = record {
  dynamo_db = done crawl.store;
  sqlite_db = λ c. done c;
  seconds_ago = λ seconds. some (text "2023");
}

ended : All (λ o. o ≡ done tt) crawl.outcomes
unfolding opened
ended = (refl, (refl, tt))

abbrev synced : Rows
synced = (db_sync server driver (Unit {0}) update_time true tick before).0

abbrev recorded : PeerData
recorded = collect reth peer hello status answers

-- This database does not fail.
answered :
    serve router
      (sql_peer_db driver {A = Unit {0}} {P = Unit {0}})
      days_ago
      (text "/node/id/" ++ (3 ∷ []))
      none
      synced
    ≡ done (json (found_peers (some (reread recorded ∷ []))))
unfolding opened serve fits_segments split is_empty
answered = refl

-- what PostgreSQL lists after the tasks
abbrev stored : Outcome (Result (ScanTableError (Unit {0}) (Unit {0}) (Unit {0})) (List PeerData))
stored = all_peers server none crawl.store

Moves-all_peers_example :
    All InRange crawl.log
    × (((error : Unit {0}) × (stored ≡ done (err (postgres_scan_error error))))
        ⊎ ((out : List PeerData) × (stored ≡ done (ok out))
            × Perm out (map reread (upsert_all crawl.log peers))
            × All InRange out))
unfolding opened
Moves-all_peers_example =
    Moves-all_peers reth sockets server (Unit {0}) (Unit {0}) served upserts held crawl peers none
      (Perm.refl held, held-Distinct) peers_range moves ended
