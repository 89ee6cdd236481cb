-- ===== src/ApiServer/Router.antt =====
-- The routes of the API server: `rest_router` of bins/api-server/src/peerdb/routes.rs, and `handler`
-- and the router of `start_api_server` of bins/api-server/src/main.rs. What axum does with the table
-- of the routes, and with the texts in a request, is given.
pub mod Handlers
use mathlib.Core.List.{Memᴰ}
use mathlib.Core.Option
use reth_crawler.Prelude.{
  ℕ, String, ◌≡◌, ◌==◌, list_eq, nat_eq, if◌then◌else◌, Option, none, some, List, [], ◌∷◌, ◌++◌,
  All, Outcome, done,
}
use reth_crawler.Prelude.Panics.{◌>>=◌}
use reth_crawler.Text.{Text, text, split}
use reth_crawler.Text.Search.{starts_with, is_empty}
use reth_crawler.Text.Split.{Lacks}
use reth_crawler.Types.{PeerData, ClientData}
use reth_crawler.PeerDb.{PeerDb}
use reth_crawler.Routes.{
  get_nodes, get_active_nodes, get_clients, get_active_clients, get_node_by_id, get_node_by_ip,
}

-- the functions that answer
pub data Handler : Type 0 where
  hello nodes active_nodes by_id by_ip clients active_clients : Handler

abbrev pub rest_router : List (Text × Handler)
rest_router =
    (text "/nodes", nodes)
    ∷ (text "/active-nodes", active_nodes)
    ∷ (text "/node/id/:id", by_id)
    ∷ (text "/node/ip/:ip", by_ip)
    ∷ (text "/clients", clients)
    ∷ (text "/active-clients", active_clients)
    ∷ []

-- `app` of `start_api_server`
abbrev pub app : List (Text × Handler)
app = (text "/", hello) ∷ [] ++ rest_router

-- What the segments of a path that fits those of a pattern give for the names of the pattern: a
-- segment `:name` stands for any segment but the empty one, each other segment for itself.
unfoldable pub fits_segments : List Text → List Text → Option (List Text)
unfolding starts_with is_empty
fits_segments [] [] = some []
fits_segments [] (s ∷ rest) = none
fits_segments (p ∷ more) [] = none
fits_segments (p ∷ more) (s ∷ rest) =
    let captured = fits_segments more rest in
    if starts_with p (text ":")
    then if is_empty s then none else Option.map (◌∷◌ s) captured
    else if p == s
    then captured
    else none

abbrev pub fits : Text → Text → Option (List Text)
fits pattern path = fits_segments (split b'/' pattern) (split b'/' path)

-- axum, with a table of routes.
pub record Axum (routes : List (Text × Handler)) : Type 0 where
  -- the handler of a path, and the segments that stand for the names of its pattern
  pub find : Text → Option (Handler × List Text)
  pub found :
      (path : Text) (chosen : Handler) (captured : List Text)
      → find path ≡ some (chosen, captured)
      → (pattern : Text) × Memᴰ (pattern, chosen) routes × (fits pattern path ≡ some captured)
  pub missed : (path : Text) → find path ≡ none → All (λ r. fits r.0 path ≡ none) routes
  -- the percent encoding of a segment, if what it encodes is a text
  pub decode : Text → Option Text
  pub decode_plain : (s : Text) → Lacks b'%' s → decode s ≡ some s
  -- the extractor `Option<Query<CutoffParam>>`
  pub cutoff : Option Text → Option ℕ

pub record Message : Type 0 where
  pub message : Text

-- What becomes JSON.
pub data Body : Type 0 where
  greeting : Message → Body
  peers : List PeerData → Body
  found_peers : Option (List PeerData) → Body
  client_list : List ClientData → Body

-- the answer, or the status of axum: that there is no route, or that an extractor refuses
pub data Response : Type 0 where
  json : Body → Response
  not_found refused : Response

-- `handler` of main.rs
abbrev pub handler : Message
handler = record { message = text "Hello World!" }

module _ {A S P : Type 0} (axum : Axum app) (db : PeerDb A S P) (days_ago : ℕ → Option Text) where
  -- the extractor `Path<String>`
  abbrev pub with_path : List Text → (Text → Outcome (Option (List PeerData))) → Outcome Response
  with_path (segment ∷ []) answer = elim (axum.decode segment) [
    | none ↦ done refused
    | some value ↦ answer value >>= λ found. done (json (found_peers found))
  ]
  with_path captured answer = done refused

  -- A handler with its extractors.
  unfoldable pub run_handler : Handler → List Text → Option Text → db.Store → Outcome Response
  run_handler hello captured query store = done (json (greeting handler))
  run_handler nodes captured query store = get_nodes db store >>= λ ps. done (json (peers ps))
  run_handler active_nodes captured query store =
      get_active_nodes db days_ago (axum.cutoff query) store >>= λ ps. done (json (peers ps))
  run_handler by_id captured query store = with_path captured (λ id. get_node_by_id db id store)
  run_handler by_ip captured query store = with_path captured (λ ip. get_node_by_ip db ip store)
  run_handler clients captured query store =
      get_clients db store >>= λ cs. done (json (client_list cs))
  run_handler active_clients captured query store =
      get_active_clients db days_ago (axum.cutoff query) store >>= λ cs.
      done (json (client_list cs))

  -- The answer to `GET path?query`.
  unfoldable pub serve : Text → Option Text → db.Store → Outcome Response
  unfolding run_handler
  serve path query store = elim (axum.find path) [
    | none ↦ done not_found
    | some (chosen, captured) ↦ run_handler chosen captured query store
  ]
