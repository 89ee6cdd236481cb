-- ===== src/Tests/Requests.antt =====
-- Requests by their paths, with a router that takes the first row that a path fits.
use mathlib.Core.List.{Memᴰ}
use mathlib.Core.Option.{some-injective, none-ne-some}
use reth_crawler.Prelude.{
  ◌≡◌, refl, sym, ap, ◌∙◌, inl, inr, Option, none, some, List, [], ◌∷◌, All, Outcome, done,
  Option-cases, arith,
}
use reth_crawler.Text.{Text, text, split}
use reth_crawler.Text.Search.{is_empty}
use reth_crawler.Types.{PeerData}
use reth_crawler.Sqlite
use reth_crawler.Sqlite.{client, sql_peer_db}
use reth_crawler.Sqlite.Rows.{reread}
use reth_crawler.Routes.{
  get_nodes, get_active_nodes, get_clients, get_active_clients, get_node_by_id, get_node_by_ip,
}
use reth_crawler.ApiServer.Router.{
  Handler, Axum, Response, fits, app, json, not_found, greeting, peers, found_peers, client_list,
  serve, fits_segments,
}
use reth_crawler.ApiServer.Router.Handlers.{serve-Handlers}
use reth_crawler.Tests.Tables.{driver, other, before, program}
use reth_crawler.Tests.Api.{days_ago}

abbrev pub first_fit : List (Text × Handler) → Text → Option (Handler × List Text)
first_fit [] path = none
first_fit (r ∷ rs) path = elim (fits r.0 path) [
  | none ↦ first_fit rs path
  | some captured ↦ some (r.1, captured)
]

pub first_fit_found :
    (routes : List (Text × Handler)) (path : Text) (chosen : Handler) (captured : List Text)
    → first_fit routes path ≡ some (chosen, captured)
    → (pattern : Text) × Memᴰ (pattern, chosen) routes × (fits pattern path ≡ some captured)
first_fit_found [] path chosen captured q = absurd (none-ne-some _ q)
first_fit_found (r ∷ rs) path chosen captured q = elim (Option-cases (fits r.0 path)) [
  | inl misses ↦
      let skip : first_fit (r ∷ rs) path ≡ first_fit rs path = rw (misses, first_fit) refl in
      let (p, m, here) = first_fit_found rs path chosen captured (sym skip ∙ q) in
      (p, Memᴰ.tail m, here)
  | inr (cs, fit) ↦
      let take_it : first_fit (r ∷ rs) path ≡ some (r.1, cs) = rw (fit, first_fit) refl in
      let same = some-injective (r.1, cs) (chosen, captured) (sym take_it ∙ q) in
      (r.0, Memᴰ.head (ap (λ x. (r.0, x.0)) (sym same)), fit ∙ ap (λ x. some x.1) same)
]

pub first_fit_missed :
    (routes : List (Text × Handler)) (path : Text)
    → first_fit routes path ≡ none
    → All (λ r. fits r.0 path ≡ none) routes
first_fit_missed [] path q = tt
first_fit_missed (r ∷ rs) path q = elim (Option-cases (fits r.0 path)) [
  | inl misses ↦
      let skip : first_fit (r ∷ rs) path ≡ first_fit rs path = rw (misses, first_fit) refl in
      (misses, first_fit_missed rs path (sym skip ∙ q))
  | inr (cs, fit) ↦
      let take_it : first_fit (r ∷ rs) path ≡ some (r.1, cs) = rw (fit, first_fit) refl in
      absurd (none-ne-some _ (sym q ∙ take_it))
]

-- The tests have no percent sign, and no query.
abbrev pub router : Axum app
router = record {
  find = first_fit app;
  found = first_fit_found app;
  missed = first_fit_missed app;
  decode = some;
  decode_plain = λ s plain. refl;
  cutoff = λ query. none;
}

abbrev ask : Text → Outcome Response
ask path = serve router (sql_peer_db driver {A = Unit {0}} {P = Unit {0}}) days_ago path none before

abbrev found_other : List PeerData
found_other = reread other ∷ []

serve-Handlers_example :
    (ask (text "/") ≡ done (json (greeting (record { message = text "Hello World!" }))))
    × (ask (text "/nodes") ≡ done (json (peers found_other)))
    × (ask (text "/active-nodes") ≡ done (json (peers found_other)))
    × (ask (text "/node/id/8") ≡ done (json (found_peers (some []))))
    × (ask (text "/node/ip/8") ≡ done (json (found_peers (some []))))
    × (ask (text "/clients") ≡ done (json (client_list (client other ∷ []))))
    × (ask (text "/active-clients") ≡ done (json (client_list (client other ∷ []))))
    × (ask (text "/node/id/") ≡ done not_found)
unfolding program Sqlite.clients get_nodes get_active_nodes get_clients get_active_clients
    get_node_by_id get_node_by_ip fits_segments split is_empty
serve-Handlers_example =
    serve-Handlers router (sql_peer_db driver {A = Unit {0}} {P = Unit {0}}) days_ago (text "8")
      (text "8") (text "/node/id/") none before refl (λ same. omega (arith, same), tt) refl
      (refl, (refl, (refl, (refl, (refl, (refl, (refl, tt)))))))
