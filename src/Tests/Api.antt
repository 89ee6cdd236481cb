-- ===== src/Tests/Api.antt =====
-- Requests to the API server.
use reth_crawler.Prelude.{
  ◌⊎◌, PanicsOr, done, panic, ℕ, ◌≡◌, refl, Option, none, some, [], ◌∷◌, map, keep, list_eq, nat_eq,
}
use reth_crawler.Text.{Text, text, text_ltb}
use reth_crawler.Types.{sql_scan_error}
use reth_crawler.Sqlite.{all_active_peers, sql_peer_db}
use reth_crawler.Sqlite.Rows.{reread}
use reth_crawler.Routes.{get_active_nodes}
use reth_crawler.Routes.Served.{get_active_nodes-Recent}
use reth_crawler.Sql.Partial.{AllOr}
use reth_crawler.Sqlite.Steps.{SeenStepFails}
use reth_crawler.Tests.Tables.{driver, is_table, other, before, before_range, before-Holds, program}

-- a clock in the year 2022
abbrev pub days_ago : ℕ → Option Text
days_ago n = some (text "2021-12-31")

get_active_nodes-Recent_example :
    ((days_ago 1 ≡ none)
      × (get_active_nodes (sql_peer_db driver {A = Unit {0}} {P = Unit {0}}) days_ago none before
          ≡ panic))
    ⊎ ((time : Text) × (days_ago 1 ≡ some time)
        × PanicsOr sql_scan_error
            (all_active_peers driver {A = Unit {0}} {P = Unit {0}} time (some 50) before)
            (get_active_nodes
              (sql_peer_db driver {A = Unit {0}} {P = Unit {0}})
              days_ago
              none
              before)
            (λ out.
              AllOr
                (SeenStepFails driver time before)
                out
                (map reread (keep (λ p. text_ltb time p.last_seen) (other ∷ [])))))
get_active_nodes-Recent_example =
    get_active_nodes-Recent driver is_table (Unit {0}) (Unit {0}) before (other ∷ []) before-Holds
      before_range days_ago none

-- This database does not fail.
active_nodes_answered :
    get_active_nodes (sql_peer_db driver {A = Unit {0}} {P = Unit {0}}) days_ago none before
    ≡ done (reread other ∷ [])
unfolding get_active_nodes all_active_peers program
active_nodes_answered = refl
