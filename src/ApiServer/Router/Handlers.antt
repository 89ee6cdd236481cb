-- ===== src/ApiServer/Router/Handlers.antt =====
-- Which path of the API reaches which handler.
use mathlib.Core.List.{Memᴰ, cons≢nil}
use mathlib.Core.List.Memᴰ as Memᴰ
use mathlib.Core.Path.{ap₂, subst}
use mathlib.Core.Option.{some-injective}
use reth_crawler.Prelude.{
  Result, PanicsOr, ℕ, ◌≡◌, refl, sym, ap, ◌∙◌, inl, inr, Bool, true, false, Bool-cases, keep,
  Outcome, Option, none, some, List, [], ◌∷◌, ◌++◌, All, done, Option-cases,
}
use reth_crawler.Prelude.Panics.{◌>>=◌, PanicsOr-bind}
use reth_crawler.Text.{Text, text, split}
use reth_crawler.Text.Search.{is_empty, starts_with}
use reth_crawler.Text.Split.{Lacks, split-Lacks}
use reth_crawler.Types.{PeerData}
use reth_crawler.PeerDb.{PeerDb}
use reth_crawler.Routes.{
  get_nodes, get_active_nodes, get_clients, get_active_clients, get_node_by_id, get_node_by_ip,
}
use reth_crawler.ApiServer.Router.{
  Handler, hello, nodes, active_nodes, by_id, by_ip, clients, active_clients, Axum, Response, app,
  fits, fits_segments, with_path, run_handler, serve, json, not_found, greeting, peers, found_peers,
  client_list,
}

abbrev is_some {ℓ} : {A : Type ℓ} → Option A → Bool
is_some none = false
is_some (some a) = true

kept_of_mem {ℓ} :
    {A : Type ℓ} (test : A → Bool) (xs : List A) {x : A}
    → Memᴰ x xs
    → test x ≡ true
    → Memᴰ x (keep test xs)
kept_of_mem test [] m h = absurd (Memᴰ.not-nil m)
kept_of_mem test (y ∷ ys) (Memᴰ.head same) h =
    let passes = sym (ap test same) ∙ h in rw passes (Memᴰ.head same)
kept_of_mem test (y ∷ ys) (Memᴰ.tail m) h = elim (Bool-cases (test y)) [
  | inl passes ↦ rw passes (Memᴰ.tail (kept_of_mem test ys m h))
  | inr drops ↦ rw drops (kept_of_mem test ys m h)
]

-- The rows that a path fits.
abbrev candidates : List (Text × Handler) → Text → List (Text × Handler)
candidates routes path = keep (λ r. is_some (fits r.0 path)) routes

candidates_of_none :
    (routes : List (Text × Handler)) (path : Text)
    → All (λ r. fits r.0 path ≡ none) routes
    → candidates routes path ≡ []
candidates_of_none [] path h = refl
candidates_of_none (r ∷ rs) path h = rw h.0 (candidates_of_none rs path h.1)

module _ {routes : List (Text × Handler)} (axum : Axum routes) (path : Text) where
  find_nothing : candidates routes path ≡ [] → axum.find path ≡ none
  find_nothing empty = elim (Option-cases (axum.find path)) [
    | inl never ↦ never
    | inr ((chosen, captured), q) ↦
        let (p, listed, here) = axum.found path chosen captured q in
        let kept = kept_of_mem (λ r. is_some (fits r.0 path)) routes listed (ap is_some here) in
        absurd (Memᴰ.not-nil (subst (Memᴰ (p, chosen)) empty kept))
  ]

  -- A path that fits one row only reaches its handler.
  find_only :
      (pattern : Text) (chosen : Handler) (captured : List Text)
      → candidates routes path ≡ (pattern, chosen) ∷ []
      → fits pattern path ≡ some captured
      → axum.find path ≡ some (chosen, captured)
  find_only pattern chosen captured only here = elim (Option-cases (axum.find path)) [
    | inl never ↦
        absurd (cons≢nil (sym only ∙ candidates_of_none routes path (axum.missed path never)))
    | inr ((h, cs), q) ↦
        let (p, listed, there) = axum.found path h cs q in
        let kept = kept_of_mem (λ r. is_some (fits r.0 path)) routes listed (ap is_some there) in
        let same = Memᴰ.eq_of_singleton (subst (Memᴰ (p, h)) only kept) in
        let agree = sym there ∙ ap (λ r. fits r.0 path) same ∙ here in
        q ∙ ap some (ap₂ (λ h cs. (h, cs)) (ap (λ r. r.1) same) (some-injective cs captured agree))
  ]

module _ {A S P : Type 0} (axum : Axum app) (db : PeerDb A S P) (days_ago : ℕ → Option Text) where
  module _ (path : Text) (query : Option Text) (store : db.Store) where
    serve_only :
        (pattern : Text) (chosen : Handler) (captured : List Text)
        → candidates app path ≡ (pattern, chosen) ∷ []
        → fits pattern path ≡ some captured
        → serve axum db days_ago path query store
          ≡ run_handler axum db days_ago chosen captured query store
    unfolding serve
    serve_only pattern chosen captured only here =
        rw (find_only axum path pattern chosen captured only here, serve) refl

    serve_nothing :
        candidates app path ≡ [] → serve axum db days_ago path query store ≡ done not_found
    unfolding serve
    serve_nothing empty = rw (find_nothing axum path empty, serve) refl

  -- The answer to a path with a segment that is taken from it.
  serve_segment :
      (prefix pattern : Text) (chosen : Handler) (segment value : Text) (query : Option Text)
      (store : db.Store) (answer : Text → Outcome (Option (List PeerData)))
      → axum.decode segment ≡ some value
      → candidates app (prefix ++ segment) ≡ (pattern, chosen) ∷ []
      → fits pattern (prefix ++ segment) ≡ some (segment ∷ [])
      → run_handler axum db days_ago chosen (segment ∷ []) query store
        ≡ with_path axum db days_ago (segment ∷ []) answer
      → serve axum db days_ago (prefix ++ segment) query store
        ≡ (answer value >>= λ found. done (json (found_peers found)))
  serve_segment prefix pattern chosen segment value query store answer decoded only here calls =
      serve_only (prefix ++ segment) query store pattern chosen (segment ∷ []) only here
      ∙ calls
      ∙ rw (decoded, with_path) refl

  pub serve-get_node_by_id :
      (segment value : Text) (query : Option Text) (store : db.Store)
      → is_empty segment ≡ false
      → Lacks b'/' segment
      → axum.decode segment ≡ some value
      → serve axum db days_ago (text "/node/id/" ++ segment) query store
        ≡ (get_node_by_id db value store >>= λ found. done (json (found_peers found)))
  unfolding fits_segments split starts_with is_empty run_handler
  serve-get_node_by_id segment value query store given whole decoded =
      let pieces = split-Lacks b'/' segment whole in
      serve_segment (text "/node/id/") (text "/node/id/:id") by_id segment value query store
        (λ id. get_node_by_id db id store) decoded (rw (pieces, given) refl)
        (rw (pieces, given) refl) refl

  -- What holds of the answers of the handler holds of those to its path.
  pub serve_by_id-PanicsOr :
      {E F : Type 0} (error : E → F) (r : Result F (Option (List PeerData))) (id : Text)
      (query : Option Text) (store : db.Store) (Q : Option (List PeerData) → Type 0)
      (Q' : Response → Type 0)
      → (is_empty id ≡ false) × Lacks b'/' id × Lacks b'%' id
      → ((out : Option (List PeerData)) → Q out → Q' (json (found_peers out)))
      → PanicsOr error r (get_node_by_id db id store) Q
      → PanicsOr error r (serve axum db days_ago (text "/node/id/" ++ id) query store) Q'
  serve_by_id-PanicsOr error r id query store Q Q' (given, whole, bare) on h =
      rw (serve-get_node_by_id id id query store given whole (axum.decode_plain id bare))
        (PanicsOr-bind error r _ (λ found. json (found_peers found)) Q Q' on h)

  -- A path leads to the handler of its row, whichever row axum prefers, because no path fits two
  -- rows: the six paths of the API and the greeting, each with what its handler returns as JSON; a
  -- segment after /node/id/ or /node/ip/ is decoded, and is not empty and without a slash. A path
  -- that fits no row is answered by 404.
  pub serve-Handlers :
      (segment value : Text) (unknown : Text) (query : Option Text) (store : db.Store)
      → is_empty segment ≡ false
      → Lacks b'/' segment
      → axum.decode segment ≡ some value
      → All (λ r. fits r.0 unknown ≡ none) app
      → (serve axum db days_ago (text "/") query store
          ≡ done (json (greeting (record { message = text "Hello World!" }))))
        × (serve axum db days_ago (text "/nodes") query store
            ≡ (get_nodes db store >>= λ ps. done (json (peers ps))))
        × (serve axum db days_ago (text "/active-nodes") query store ≡ (
            get_active_nodes db days_ago (axum.cutoff query) store >>= λ ps.
            done (json (peers ps))))
        × (serve axum db days_ago (text "/node/id/" ++ segment) query store
            ≡ (get_node_by_id db value store >>= λ found. done (json (found_peers found))))
        × (serve axum db days_ago (text "/node/ip/" ++ segment) query store
            ≡ (get_node_by_ip db value store >>= λ found. done (json (found_peers found))))
        × (serve axum db days_ago (text "/clients") query store
            ≡ (get_clients db store >>= λ cs. done (json (client_list cs))))
        × (serve axum db days_ago (text "/active-clients") query store ≡ (
            get_active_clients db days_ago (axum.cutoff query) store >>= λ cs.
            done (json (client_list cs))))
        × (serve axum db days_ago unknown query store ≡ done not_found)
  unfolding fits_segments split starts_with is_empty run_handler
  serve-Handlers segment value unknown query store given whole decoded nothing =
      let pieces = split-Lacks b'/' segment whole in
      (
        serve_only (text "/") query store (text "/") hello [] refl refl,
        serve_only (text "/nodes") query store (text "/nodes") nodes [] refl refl,
        serve_only (text "/active-nodes") query store (text "/active-nodes") active_nodes [] refl
            refl,
        serve-get_node_by_id segment value query store given whole decoded,
        serve_segment (text "/node/ip/") (text "/node/ip/:ip") by_ip segment value query store
            (λ ip. get_node_by_ip db ip store) decoded (rw (pieces, given) refl)
            (rw (pieces, given) refl) refl,
        serve_only (text "/clients") query store (text "/clients") clients [] refl refl,
        serve_only (text "/active-clients") query store (text "/active-clients") active_clients []
            refl refl,
        serve_nothing unknown query store (candidates_of_none app unknown nothing),
      )
