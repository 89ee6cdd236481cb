-- ===== src/Routes/Served.antt =====
-- What the API server answers from its SQLite database.
use mathlib.Core.Option.{get_or}
use mathlib.Core.Path.{subst}
use reth_crawler.Prelude.{
  ℕ, ◌≡◌, refl, sym, inl, inr, Option, none, some, List, map, All, keep, ◌==◌, list_eq, nat_eq,
  panic, Option-cases, ◌⊎◌, PanicsOr,
}
use reth_crawler.Text.{Text, text_ltb}
use reth_crawler.Types.{PeerData, InRange, sql_scan_error, sql_query_item_error}
use reth_crawler.PeerDb.{unwrap, unwrap-PanicsOr}
use reth_crawler.Sql.Stepping.{IsStepTable}
use reth_crawler.Sql.Partial.{AllOr}
use reth_crawler.Sqlite.Steps.{SeenStepFails, IdStepFails}
use reth_crawler.Sqlite
use reth_crawler.Sqlite.{Driver, table, schema, client, sql_peer_db}
use reth_crawler.Sqlite.Rows.{reread}
use reth_crawler.Sqlite.Refines.{Holds, all_active_peers-Holds, node_by_id-Holds}
use reth_crawler.Routes.{max_last_seen, cutoff_time, get_active_nodes, get_node_by_id}

module _ (D : Driver) (t : IsStepTable D.engine table schema) (A P : Type 0) (c : D.Connection)
    (ps : List PeerData) (h : Holds D t c ps) (range : All InRange ps) where
  module _ (days_ago : ℕ → Option Text) (cutoff_param : Option ℕ) where
    -- `get_active_nodes` panics if there is no time that lies `cutoff` days back, or one day without
    -- that parameter, and on an error of the database; else it answers with the peers of the database
    -- that were last seen after that time, of which some may be missing if a step through the rows
    -- fails.
    pub get_active_nodes-Recent :
        ((days_ago (get_or cutoff_param max_last_seen) ≡ none)
          × (get_active_nodes (sql_peer_db D {A = A} {P = P}) days_ago cutoff_param c ≡ panic))
        ⊎ ((time : Text) × (days_ago (get_or cutoff_param max_last_seen) ≡ some time)
            × PanicsOr sql_scan_error
                (Sqlite.all_active_peers D {A = A} {P = P} time (some 50) c)
                (get_active_nodes (sql_peer_db D {A = A} {P = P}) days_ago cutoff_param c)
                (λ out.
                  AllOr
                    (SeenStepFails D time c)
                    out
                    (map reread (keep (λ p. text_ltb time p.last_seen) ps))))
    unfolding get_active_nodes cutoff_time
    get_active_nodes-Recent = elim (Option-cases (days_ago (get_or cutoff_param max_last_seen))) [
      | inl never ↦ inl (never, rw (never, cutoff_time) refl)
      | inr (time, known) ↦
          let ran : get_active_nodes (sql_peer_db D {A = A} {P = P}) days_ago cutoff_param c
              ≡ unwrap (Sqlite.all_active_peers D {A = A} {P = P} time (some 50) c) =
            rw (known, cutoff_time) refl in
          inr (
            time,
            known,
            subst
                (λ o.
                  PanicsOr sql_scan_error
                    (Sqlite.all_active_peers D {A = A} {P = P} time (some 50) c) o
                    (λ out.
                      AllOr (SeenStepFails D time c) out
                        (map reread (keep (λ p. text_ltb time p.last_seen) ps))))
                (sym ran)
                (unwrap-PanicsOr sql_scan_error _ _
                  (all_active_peers-Holds D t {A = A} {P = P} c ps h range time (some 50))),
          )
    ]

  -- `get_node_by_id` panics on an error of the database, or answers with the peers of the database
  -- that have the id, of which some may be missing if a step through the rows fails.
  pub get_node_by_id-Served :
      (id : Text)
      → PanicsOr sql_query_item_error
          (Sqlite.node_by_id D {A = A} {P = P} id c)
          (get_node_by_id (sql_peer_db D {A = A} {P = P}) id c)
          (λ out.
            (found : List PeerData) × (out ≡ some found)
            × AllOr (IdStepFails D id c) found (map reread (keep (λ p. p.id == id) ps)))
  unfolding get_node_by_id
  get_node_by_id-Served id =
      unwrap-PanicsOr sql_query_item_error _ _
        (node_by_id-Holds D t {A = A} {P = P} c ps h range id)
