-- ===== src/ApiServer/Listing.antt =====
-- What the answers of the API server list, from its SQLite database.
use mathlib.Core.List.{Subset, Subset-trans, map-subset}
use mathlib.Core.Path.{subst}
use reth_crawler.Prelude.{
  String, ℕ, ◌≡◌, refl, sym, ◌∙◌, inl, inr, Option, none, some, List, [], ◌∷◌, map, All, Outcome,
  done, done-injective, Option-cases, of_done, Bool, keep, ◌==◌, list_eq, nat_eq,
}
use reth_crawler.Prelude.Panics.{◌>>=◌, done_of_bind}
use reth_crawler.Text.{Text, text_ltb}
use reth_crawler.Types.{PeerData, InRange, sql_scan_error, sql_query_item_error}
use reth_crawler.PeerDb.{unwrap-PanicsOr}
use reth_crawler.PeerDb.Subsets.{keep-subset}
use reth_crawler.Sql.{equals, question}
use reth_crawler.Sql.Stepping.{IsStepTable}
use reth_crawler.Sql.Partial.{AllOr, AllOr-subset}
use reth_crawler.Sqlite.Steps.{StepFails}
use reth_crawler.Sqlite.{Driver, table, schema, client, sql_peer_db}
use reth_crawler.Sqlite.Rows.{reread}
use reth_crawler.Sqlite.Refines.{
  Holds, all_peers-Holds, all_active_peers-Holds, node_by_id-Holds, node_by_ip-Holds, clients-Holds,
  active_clients-Holds,
}
use reth_crawler.Routes.{
  cutoff_time, get_nodes, get_active_nodes, get_clients, get_active_clients, get_node_by_id,
  get_node_by_ip,
}
use reth_crawler.ApiServer.Router.{
  Handler, hello, nodes, active_nodes, by_id, by_ip, clients, active_clients, app, Axum, Response,
  json, not_found, refused, greeting, peers, found_peers, client_list, with_path, run_handler,
  serve,
}

-- An answer lists only these peers, as they are read back, or their client versions.
abbrev pub ListsOnly : List PeerData → Response → Type 0
ListsOnly known (json (peers ps)) = Subset ps (map reread known)
ListsOnly known (json (found_peers none)) = Unit
ListsOnly known (json (found_peers (some ps))) = Subset ps (map reread known)
ListsOnly known (json (client_list cs)) = Subset cs (map client known)
ListsOnly known (json (greeting message)) = Unit
ListsOnly known not_found = Unit
ListsOnly known refused = Unit

pub ListsOnly-mono :
    (ps qs : List PeerData) (response : Response)
    → Subset (map reread ps) (map reread qs)
    → Subset (map client ps) (map client qs)
    → ListsOnly ps response
    → ListsOnly qs response
ListsOnly-mono ps qs (json (peers l)) h k lists = Subset-trans lists h
ListsOnly-mono ps qs (json (found_peers none)) h k lists = tt
ListsOnly-mono ps qs (json (found_peers (some l))) h k lists = Subset-trans lists h
ListsOnly-mono ps qs (json (client_list cs)) h k lists = Subset-trans lists k
ListsOnly-mono ps qs (json (greeting message)) h k lists = tt
ListsOnly-mono ps qs not_found h k lists = tt
ListsOnly-mono ps qs refused h k lists = tt

module _ (D : Driver) (t : IsStepTable D.engine table schema) (A P : Type 0) (axum : Axum app)
    (days_ago : ℕ → Option Text) (c : D.Connection) (ps : List PeerData) (h : Holds D t c ps)
    (range : All InRange ps) where
  -- The response of a handler that returns a value of which its lists are known.
  responds :
      {B : Type 0} (o : Outcome B) (body : B → Response) (response : Response)
      → ((b : B) → o ≡ done b → ListsOnly ps (body b))
      → (o >>= λ b. done (body b)) ≡ done response
      → ListsOnly ps response
  responds o body response lists q =
      let (b, got, sent) = done_of_bind o (λ b. done (body b)) q in
      subst (ListsOnly ps) (done-injective sent) (lists b got)

  found_lists :
      (column : String) (value : Text) (test : PeerData → Bool) (out : Option (List PeerData))
      → (found : List PeerData) × (out ≡ some found)
        × AllOr
            (StepFails D (equals column (question 1)) (D.text value ∷ []) c)
            found
            (map reread (keep test ps))
      → ListsOnly ps (json (found_peers out))
  found_lists column value test out (found, shown, same) =
      subst (λ o. ListsOnly ps (json (found_peers o))) (sym shown)
        (Subset-trans (AllOr-subset _ _ _ same) (map-subset reread (keep-subset test ps)))

  found_responds :
      (captured : List Text) (answer : Text → Outcome (Option (List PeerData)))
      (response : Response)
      → ((value : Text) (found : Option (List PeerData))
          → answer value ≡ done found
          → ListsOnly ps (json (found_peers found)))
      → with_path axum (sql_peer_db D {A = A} {P = P}) days_ago captured answer ≡ done response
      → ListsOnly ps response
  found_responds [] answer response lists q = subst (ListsOnly ps) (done-injective q) tt
  found_responds (segment ∷ next ∷ more) answer response lists q =
      subst (ListsOnly ps) (done-injective q) tt
  found_responds (segment ∷ []) answer response lists q =
      elim (Option-cases (axum.decode segment)) [
        | inl never ↦
            let ran : with_path axum (sql_peer_db D {A = A} {P = P}) days_ago (segment ∷ []) answer
                ≡ done refused =
              rw (never, with_path) refl in
            subst (ListsOnly ps) (done-injective (sym ran ∙ q)) tt
        | inr (value, decoded) ↦
            let ran : with_path axum (sql_peer_db D {A = A} {P = P}) days_ago (segment ∷ []) answer
                ≡ (answer value >>= λ found. done (json (found_peers found))) =
              rw (decoded, with_path) refl in
            responds (answer value) (λ found. json (found_peers found)) response (lists value)
              (sym ran ∙ q)
      ]

  handler_lists :
      (handler : Handler) (captured : List Text) (query : Option Text) (response : Response)
      → run_handler axum (sql_peer_db D {A = A} {P = P}) days_ago handler captured query c
        ≡ done response
      → ListsOnly ps response
  unfolding run_handler get_nodes get_active_nodes get_clients get_active_clients get_node_by_id
      get_node_by_ip
  handler_lists hello captured query response q = subst (ListsOnly ps) (done-injective q) tt
  handler_lists nodes captured query response q =
      responds _ (λ l. json (peers l)) response
        (λ out got. AllOr-subset _ _ _ (
          of_done sql_scan_error _ _ _
            (unwrap-PanicsOr sql_scan_error _ _
              (all_peers-Holds D t {A = A} {P = P} c ps h range (some 50)))
            got))
        q
  handler_lists active_nodes captured query response q =
      responds _ (λ l. json (peers l)) response
        (λ out got.
          let (time, now, asked) = done_of_bind (cutoff_time days_ago (axum.cutoff query)) _ got in
          Subset-trans
            (AllOr-subset _ _ _ (
              of_done sql_scan_error _ _ _
                (unwrap-PanicsOr sql_scan_error _ _
                  (all_active_peers-Holds D t {A = A} {P = P} c ps h range time (some 50)))
                asked))
            (map-subset reread (keep-subset (λ p. text_ltb time p.last_seen) ps)))
        q
  handler_lists by_id captured query response q =
      found_responds captured _ response
        (λ id out got.
          found_lists "id" id (λ p. p.id == id) out
            (of_done sql_query_item_error _ _ _
              (unwrap-PanicsOr sql_query_item_error _ _
                (node_by_id-Holds D t {A = A} {P = P} c ps h range id))
              got))
        q
  handler_lists by_ip captured query response q =
      found_responds captured _ response
        (λ ip out got.
          found_lists "ip" ip (λ p. p.address == ip) out
            (of_done sql_query_item_error _ _ _
              (unwrap-PanicsOr sql_query_item_error _ _
                (node_by_ip-Holds D t {A = A} {P = P} c ps h range ip))
              got))
        q
  handler_lists clients captured query response q =
      responds _ (λ l. json (client_list l)) response
        (λ out got. AllOr-subset _ _ _ (
          of_done sql_scan_error _ _ _
            (unwrap-PanicsOr sql_scan_error _ _
              (clients-Holds D t {A = A} {P = P} c ps h range (some 50)))
            got))
        q
  handler_lists active_clients captured query response q =
      responds _ (λ l. json (client_list l)) response
        (λ out got.
          let (time, now, asked) = done_of_bind (cutoff_time days_ago (axum.cutoff query)) _ got in
          Subset-trans
            (AllOr-subset _ _ _ (
              of_done sql_scan_error _ _ _
                (unwrap-PanicsOr sql_scan_error _ _
                  (active_clients-Holds D t {A = A} {P = P} c ps h range time (some 50)))
                asked))
            (map-subset client (keep-subset (λ p. text_ltb time p.last_seen) ps)))
        q

  -- Every answer of the API lists only peers that the database holds.
  pub serve-ListsOnly :
      (path : Text) (query : Option Text) (response : Response)
      → serve axum (sql_peer_db D {A = A} {P = P}) days_ago path query c ≡ done response
      → ListsOnly ps response
  unfolding serve
  serve-ListsOnly path query response q = elim (Option-cases (axum.find path)) [
    | inl never ↦
        let ran : serve axum (sql_peer_db D {A = A} {P = P}) days_ago path query c
            ≡ done not_found =
          rw (never, serve) refl in
        subst (ListsOnly ps) (done-injective (sym ran ∙ q)) tt
    | inr ((handler, captured), found) ↦
        let ran : serve axum (sql_peer_db D {A = A} {P = P}) days_ago path query c
            ≡ run_handler axum (sql_peer_db D {A = A} {P = P}) days_ago handler captured query c =
          rw (found, serve) refl in
        handler_lists handler captured query response (sym ran ∙ q)
  ]
