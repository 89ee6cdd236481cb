-- ===== src/Tests/Crawl.antt =====
-- Two tasks of the listener over the SQLite database of Tables, and a request afterwards.
use reth_crawler.Prelude.{
  PanicsOr, ◌≡◌, refl, some, List, [], ◌∷◌, map, ok, err, done, arith, lookup, All, list_eq, nat_eq,
}
use reth_crawler.Text.{text}
use reth_crawler.Text.Search.{is_empty, contains}
use reth_crawler.Types.{PeerData, InRange, sql_query_item_error}
use reth_crawler.PeerDb.{PeerDb, save_peer}
use reth_crawler.Sqlite.Rows.{reread}
use reth_crawler.Handshake.{collect, handshake_p2p_handle, handshake_eth_handle}
use reth_crawler.Version.{split_version}
use reth_crawler.Listener.{
  session_established, handshake_and_save_peer, handle_event, collect_session,
}
use reth_crawler.Listener.Streams.{Job, found, event, run_job, run_jobs, saved, all_saved, Crawled}
use reth_crawler.Sqlite.{node_by_id, sql_peer_db}
use reth_crawler.Listener.Latest.{under_id, get_node_by_id-run_jobs}
use reth_crawler.Routes.{get_node_by_id}
use reth_crawler.Sql.Partial.{AllOr}
use reth_crawler.Sqlite.Steps.{IdStepFails}
use reth_crawler.Tests.Network.{reth, sockets, peer, quiet, hello, status, answers, eth, session}
use reth_crawler.Tests.Tables.{
  driver, is_table, replaces, other, before, before_range, before-Holds, program,
}

abbrev sqlite : PeerDb (Unit {0}) (Unit {0}) (Unit {0})
sqlite = sql_peer_db driver

abbrev jobs : List (Job reth sqlite sockets)
jobs =
    found peer (err (text "timeout")) eth answers
    ∷ found peer (ok (tt, hello)) eth answers
    ∷ event (session_established session) answers
    ∷ []

abbrev crawled : Crawled reth sqlite sockets
crawled = run_jobs reth sqlite sockets jobs quiet before

unfoldable pub tasks : Unit {0}
unfolding run_jobs run_job handshake_and_save_peer handle_event is_empty contains lookup save_peer
    all_saved saved collect collect_session program handshake_p2p_handle handshake_eth_handle
    split_version
tasks = tt

ended : All (λ o. o ≡ done tt) crawled.outcomes
unfolding tasks
ended = (refl, (refl, (refl, tt)))

saved_range : All InRange (all_saved reth sqlite sockets jobs)
unfolding tasks
saved_range = (
  record { tcp_port = omega arith; eth_version = omega arith },
  (record { tcp_port = omega arith; eth_version = omega arith }, tt),
)

pub recorded : PeerData
recorded = collect reth peer hello status answers

get_node_by_id-run_jobs_example :
    PanicsOr sql_query_item_error
      (node_by_id driver {A = Unit {0}} {P = Unit {0}} (3 ∷ []) crawled.store)
      (get_node_by_id sqlite (3 ∷ []) crawled.store)
      (λ out.
        (found : List PeerData) × (out ≡ some found)
        × AllOr
            (IdStepFails driver (3 ∷ []) crawled.store)
            found
            (map reread (under_id (3 ∷ []) (all_saved reth sqlite sockets jobs) (other ∷ []))))
get_node_by_id-run_jobs_example =
    get_node_by_id-run_jobs reth sockets driver (Unit {0}) (Unit {0}) is_table replaces jobs quiet
      before (other ∷ []) (3 ∷ []) before-Holds before_range saved_range ended

-- This database does not fail.
last_answered : get_node_by_id sqlite (3 ∷ []) crawled.store ≡ done (some (reread recorded ∷ []))
unfolding tasks get_node_by_id recorded
last_answered = refl
