-- ===== src/Tests/Together.antt =====
-- The crawler and the API server of Answers at the same time: a session is saved, the first tick comes,
-- a peer is copied, and a request is answered.
use mathlib.Core.List.{Mem, Perm}
use mathlib.Core.List.Perm
use mathlib.Core.Path.{subst}
use reth_crawler.Prelude.{
  Option, Result, ok, ok-injective, ℕ, ◌≡◌, refl, ◌⊎◌, true, false, none, some, List, [], ◌∷◌, ◌++◌,
  map, keep, ◌==◌, list_eq, nat_eq, All, Outcome, done, panic, PanicsOr, arith,
}
use reth_crawler.Text.{Text, text, split}
use reth_crawler.Sqlite.Opening.{open_sql_peer_db, open_sql_peer_db_lem}
use reth_crawler.Text.Search.{is_empty}
use reth_crawler.PeerDb.{PeerDb}
use reth_crawler.Types.{PeerData, sql_query_item_error}
use reth_crawler.Sqlite.{node_by_id, sql_peer_db}
use reth_crawler.Sql.Partial.{AllOr, OneOr}
use reth_crawler.Sqlite.Steps.{IdStepFails, FoundAlone}
use reth_crawler.Sqlite.Rows.{reread}
use reth_crawler.Listener.{collect_session}
use reth_crawler.Concurrent.{State, connect, resume, collecting_session, connects, goes_on}
use reth_crawler.Concurrent.Listeners.{view}
use reth_crawler.Routes.{get_nodes}
use reth_crawler.ApiServer.{update_time}
use reth_crawler.DbSync.{Tick}
use reth_crawler.ApiServer.Router.{Response, json, found_peers, not_found, serve, fits_segments}
use reth_crawler.ApiServer.Listing.{ListsOnly}
use reth_crawler.System.{
  System, Phase, copying, boot, crawled, synced, scan, scanned, copy, reaching, Runs, here, crawls,
  ticks, copies, copied, waiting,
}
use reth_crawler.System.Fresh.{serve-ticked}
use reth_crawler.System.Served.{serve-Runs, serve_by_id-Runs}
use reth_crawler.Tests.Network.{reth, sockets, answers, session}
use reth_crawler.Tests.Tables.{
  driver, is_table, replaces, other, before, before_range, before-Holds, Rows,
}
use reth_crawler.Tests.Sync.{server, served, upserts, held, peers, peers_range, held-Distinct}
use reth_crawler.Tests.Api.{days_ago}
use reth_crawler.Tests.Requests.{router}
use reth_crawler.Tests.Answers.{opened, postgres}

abbrev Both : Type 0
Both = System reth sockets server driver (Unit {0})

abbrev booted : Both
booted = boot reth sockets server driver (Unit {0}) held before

abbrev met : Both
met =
    crawled reth sockets server driver (Unit {0}) 1
      (connect reth postgres sockets session (view reth postgres sockets 1 booted.crawl)) booted

-- what the second listener sees, without its only task
abbrev idle : State reth postgres sockets
idle = record (view reth postgres sockets 1 met.crawl) { flights = [] }

abbrev session_saved : Both
session_saved =
    crawled reth sockets server driver (Unit {0}) 1
      (resume reth postgres sockets (collecting_session session) answers idle) met

-- `SqlPeerDB::new` on the SQLite file, whose rows the connection shows
abbrev connect_file : Rows → Text → Result (Unit {0}) Rows
connect_file c path = ok c

abbrev open_file : ℕ → Rows → Outcome Rows
open_file k c = open_sql_peer_db (connect_file c) (λ db. ok tt)

abbrev first_tick : Tick server driver (Unit {0})
first_tick = record {
  dynamo_db = reaching reth sockets server driver (Unit {0}) true session_saved;
  sqlite_db = open_file 0;
  seconds_ago = λ seconds. some (text "2023");
}

abbrev reading : Both
reading =
    synced reth sockets server driver (Unit {0})
      (scan reth sockets server driver (Unit {0}) update_time true first_tick session_saved.file)
      session_saved

abbrev to_copy : Phase → List PeerData
to_copy (copying l) = l
to_copy _ = []

abbrev first_of : List PeerData → PeerData
first_of [] = other
first_of (p ∷ l) = p

abbrev after_first : List PeerData → List PeerData
after_first [] = []
after_first (p ∷ l) = l

abbrev copied_one : Both
copied_one =
    synced reth sockets server driver (Unit {0})
      (copy reth sockets server driver (Unit {0}) (first_of (to_copy reading.phase))
        (after_first (to_copy reading.phase)) reading.file)
      reading

both : Unit {0}
unfolding opened open_sql_peer_db scan copy scanned serve fits_segments split is_empty get_nodes
both = tt

reopens : (k : ℕ) (c d : Rows) → open_file k c ≡ done d → Perm d c
reopens k c d q =
    open_sql_peer_db_lem (λ x. Perm x c) (connect_file c) (λ db. ok tt) d
      (λ db opens. subst (λ x. Perm x c) (ok-injective opens) (Perm.refl c)) q

to_saved : Runs reth sockets server driver (Unit {0}) open_file booted session_saved
unfolding both
to_saved =
    crawls 1 (crawls 1 here (connects session))
      (goes_on [] [] (collecting_session session) answers refl)

runs : Runs reth sockets server driver (Unit {0}) open_file booted copied_one
unfolding both
runs =
    copies (first_of (to_copy reading.phase)) (after_first (to_copy reading.phase))
      (ticks true 0 true (λ seconds. some (text "2023")) to_saved refl) refl

fine : All (λ o. o ≡ done tt) copied_one.crawl.outcomes
unfolding both
fine = (refl, tt)

abbrev sqlite : PeerDb (Unit {0}) (Unit {0}) (Unit {0})
sqlite = sql_peer_db driver

abbrev response_of : Outcome Response → Response
response_of panic = not_found
response_of (done r) = r

abbrev all_nodes : Response
all_nodes = response_of (serve router sqlite days_ago (text "/nodes") none copied_one.file)

serve-Runs_example : ListsOnly ((copied_one.crawl.log ++ peers) ++ (other ∷ [])) all_nodes
unfolding both
serve-Runs_example =
    serve-Runs reth sockets server driver (Unit {0}) served upserts is_table replaces router
      days_ago peers (other ∷ []) open_file reopens held before (Perm.refl held, held-Distinct)
      before-Holds (peers_range, before_range) copied_one runs fine refl (text "/nodes") none
      all_nodes refl

serve_by_id-Runs_example :
    PanicsOr sql_query_item_error
      (node_by_id driver {A = Unit {0}} {P = Unit {0}} other.id copied_one.file)
      (serve router sqlite days_ago (text "/node/id/" ++ other.id) none copied_one.file)
      (λ response.
        (found : List PeerData) × (response ≡ json (found_peers (some found)))
        × (AllOr
              (IdStepFails driver other.id copied_one.file)
              found
              (map reread (keep (λ q. q.id == other.id) (other ∷ [])))
            ⊎ ((p : PeerData) × Mem p (map reread (copied_one.crawl.log ++ peers))
                × (p.id ≡ other.id)
                × OneOr (IdStepFails driver other.id copied_one.file) found p)))
unfolding both
serve_by_id-Runs_example =
    serve_by_id-Runs reth sockets server driver (Unit {0}) served upserts is_table replaces router
      days_ago peers (other ∷ []) open_file reopens held before (Perm.refl held, held-Distinct)
      before-Holds (peers_range, before_range) copied_one runs fine refl other.id none
      (refl, omega arith, omega arith)

-- The answer has the peer that was copied.
answered :
    serve router sqlite days_ago (text "/node/id/" ++ other.id) none copied_one.file
    ≡ done (json (found_peers (some (reread other ∷ []))))
unfolding both
answered = refl

-- The whole loop.
abbrev next_copied : Both → Both
next_copied sys =
    synced reth sockets server driver (Unit {0})
      (copy reth sockets server driver (Unit {0}) (first_of (to_copy sys.phase))
        (after_first (to_copy sys.phase)) sys.file)
      sys

abbrev all_copied : Both
all_copied = next_copied (next_copied (next_copied reading))

abbrev finished : Both
finished = synced reth sockets server driver (Unit {0}) (all_copied.file, waiting false) all_copied

to_finished : Runs reth sockets server driver (Unit {0}) open_file reading finished
unfolding both
to_finished = copied (copies _ _ (copies _ _ (copies _ _ here refl) refl) refl) refl

abbrev recorded : PeerData
recorded = collect_session reth postgres sockets session answers

fine_saved : All (λ o. o ≡ done tt) session_saved.crawl.outcomes
unfolding both
fine_saved = (refl, tt)

serve-ticked_example :
    PanicsOr sql_query_item_error
      (node_by_id driver {A = Unit {0}} {P = Unit {0}} recorded.id finished.file)
      (serve router sqlite days_ago (text "/node/id/" ++ recorded.id) none finished.file)
      (λ response.
        (out : Option (List PeerData)) × (response ≡ json (found_peers out))
        × FoundAlone driver recorded.id (reread recorded) finished.file out)
unfolding both
serve-ticked_example =
    serve-ticked reth sockets server driver (Unit {0}) is_table replaces open_file served upserts
      router days_ago peers (other ∷ []) reopens held before (Perm.refl held, held-Distinct)
      before-Holds (peers_range, before_range) session_saved finished 0 true
      (λ seconds. some (text "2023")) recorded.id recorded none to_saved fine_saved refl to_finished
      refl refl (refl, omega arith, omega arith)
