-- ===== src/System/Served.antt =====
-- What the API server answers while both programs run.
use mathlib.Core.List.{
  Subset, Subset-trans, map-subset, map-append, mem-cons_self, mem-cons_of_mem, Mem, Perm,
  subset-append_left, subset-append_right, exists_of_mem-map,
}
use mathlib.Core.Logic.{∥∥₁_elim}
use mathlib.Core.Path.{subst}
use mathlib.Core.Option.{some-injective, none-ne-some}
use reth_crawler.Prelude.{
  ℕ, ◌≡◌, refl, sym, ap, ◌∙◌, ◌⊎◌, inl, inr, Bool-cases, Option-cases, true, false, Option, none,
  some, List, [], ◌∷◌, ◌++◌, map, keep, ◌==◌, list_eq, nat_eq, beq_sound, Eq, All, Outcome, done,
  PanicsOr,
}
use reth_crawler.Text.{Text, text}
use reth_crawler.Text.Search.{is_empty}
use reth_crawler.Text.Split.{Lacks}
use reth_crawler.Types.{PeerData, InRange, sql_query_item_error}
use reth_crawler.PeerDb.Collection.{Distinct, upsert_all, PeerData-set}
use reth_crawler.PeerDb.Subsets.{append-subset, upsert_all-subset}
use reth_crawler.Sql.{IsTable}
use reth_crawler.Sql.Stepping.{IsStepTable, Replaces}
use reth_crawler.Sql.Conflict.{Upserts}
use reth_crawler.Sqlite
use reth_crawler.Sqlite.{client}
use reth_crawler.Sql.Partial.{AllOr, OneOr, AllOr-OneOr}
use reth_crawler.Sqlite.Steps.{IdStepFails}
use reth_crawler.Sqlite.Rows.{reread, reread-reread}
use reth_crawler.Sqlite.Refines as Kept
use reth_crawler.Postgres
use reth_crawler.Postgres.Refines as Source
use reth_crawler.Handshake.{Reth}
use reth_crawler.Listener.{Sockets}
use reth_crawler.Listener.Latest.{
  latest, under_id-some, under_id-none, keep-upsert_all, upsert_all-InRange,
}
use reth_crawler.Routes.Served.{get_node_by_id-Served}
use reth_crawler.ApiServer.Router.{Axum, Response, app, json, found_peers, serve}
use reth_crawler.ApiServer.Router.Handlers.{serve_by_id-PanicsOr}
use reth_crawler.ApiServer.Listing.{ListsOnly, ListsOnly-mono, serve-ListsOnly}
use reth_crawler.System.{System, boot, Runs}
use reth_crawler.System.Rounds.{is_up, Copies}
use reth_crawler.System.Sound.{Runs-Synced}

reread_twice : (ps : List PeerData) → map reread (map reread ps) ≡ map reread ps
reread_twice [] = refl
reread_twice (p ∷ ps) = λ i. reread-reread p i ∷ reread_twice ps i

client-reread : (ps : List PeerData) → map client (map reread ps) ≡ map client ps
client-reread [] = refl
client-reread (p ∷ ps) = ap (◌∷◌ (client p)) (client-reread ps)

latest-mem :
    (id : Text) (ps : List PeerData) (p : PeerData)
    → latest id ps ≡ some p
    → Mem p ps × ((p.id == id) ≡ true)
unfolding latest
latest-mem id [] p h = absurd (none-ne-some p h)
latest-mem id (q ∷ ps) p h = elim (Option-cases (latest id ps)) [
  | inr (r, later) ↦
      let ran : latest id (q ∷ ps) ≡ some r = rw (later, latest) refl in
      let (there, named) = latest-mem id ps p (later ∙ sym ran ∙ h) in
      (mem-cons_of_mem q there, named)
  | inl never ↦ elim (Bool-cases (q.id == id)) [
    | inl same ↦
        let ran : latest id (q ∷ ps) ≡ some q = rw (never, same, latest) refl in
        let it = some-injective q p (sym ran ∙ h) in
        (subst (λ x. Mem x (q ∷ ps)) it mem-cons_self, ap (λ x. x.id == id) (sym it) ∙ same)
    | inr other ↦
        let ran : latest id (q ∷ ps) ≡ none = rw (never, other, latest) refl in
        absurd (none-ne-some p (sym ran ∙ h))
  ]
]

-- A peer that was read back is read back as it is.
known-reread : (p : PeerData) (ps : List PeerData) → Mem p (map reread ps) → reread p ≡ p
known-reread p ps m =
    ∥∥₁_elim (exists_of_mem-map m) (PeerData-set (reread p) p)
      (λ origin. let (q, there, same) = origin in ap reread (sym same) ∙ reread-reread q ∙ same)

-- The same for what `f` takes of a peer, if it is not changed by reading back.
spread {ℓ} :
    {B : Type ℓ} (f : PeerData → B) (copies all qs : List PeerData)
    → map f (map reread all) ≡ map f all
    → Subset copies (map reread all)
    → Subset (map f (upsert_all copies qs)) (map f (all ++ qs))
spread f copies all qs twice known =
    let copied = subst (Subset (map f copies)) twice (map-subset f known) in
    let each =
      append-subset (map f copies) (map f qs) (map f all ++ map f qs)
        (Subset-trans copied (subset-append_left (map f all) (map f qs)))
        (subset-append_right (map f all) (map f qs)) in
    let named = subst (Subset (map f copies ++ map f qs)) (sym (map-append f all qs)) each in
    Subset-trans (map-subset f (upsert_all-subset copies qs))
      (subst (λ l. Subset l (map f (all ++ qs))) (sym (map-append f copies qs)) named)

module _ {PeerId : Type 0} ⦃e : Eq PeerId⦄ (R : Reth PeerId) (N : Sockets R) (P : Postgres.Driver)
    (S : Sqlite.Driver) (A : Type 0) (t : IsTable P.engine Postgres.table Postgres.inserted)
    (u : Upserts P.engine Postgres.table "id" Postgres.inserted t)
    (s : IsStepTable S.engine Sqlite.table Sqlite.schema)
    (r : Replaces S.engine Sqlite.table Sqlite.key Sqlite.schema s) (axum : Axum app)
    (days_ago : ℕ → Option Text) where
  module _ (ps qs : List PeerData) (open_file : ℕ → S.Connection → Outcome S.Connection)
      (reopens : (k : ℕ) (c opened : S.Connection)
        → open_file k c ≡ done opened
        → Perm (s.rows opened) (s.rows c))
      (source : P.Connection) (file : S.Connection)
      (served : Source.Serves P t source ps × Distinct ps) (held : Kept.Holds S s file qs)
      (ranges : All InRange ps × All InRange qs) (sys : System R N P S A)
      (runs : Runs R N P S A open_file (boot R N P S A source file) sys)
      (fine : All (λ o. o ≡ done tt) sys.crawl.outcomes) (up : is_up sys.phase ≡ true) where
    now_held : Copies R N P S A t u s r ps qs sys.crawl.log sys.file sys.phase
    now_held =
        Runs-Synced R N P S A t u s r ps qs open_file reopens source file served held ranges.0 runs
          fine up

    -- The listeners' tasks and the rounds of the synchronisation run in any interleaving, from a
    -- PostgreSQL database with `ps`, in which no id stands twice, and a SQLite database with `qs`, all
    -- with numbers that fit their types; opening the SQLite file again leaves its rows. At every moment
    -- at which no task has panicked and the API server is up, also in the middle of a synchronisation,
    -- an answer to any path lists only records that the tasks have saved until then, or peers that one
    -- of the databases held at the start, each as it is read back, or their client versions.
    pub serve-Runs :
        (path : Text) (query : Option Text) (response : Response)
        → serve axum (Sqlite.sql_peer_db S {A = A} {P = P.Error}) days_ago path query sys.file
          ≡ done response
        → ListsOnly ((sys.crawl.log ++ ps) ++ qs) response
    serve-Runs path query response q =
        let total = upsert_all now_held.copies qs in
        let lists =
          serve-ListsOnly S s A P.Error axum days_ago sys.file total now_held.holds
            (upsert_all-InRange now_held.copies qs now_held.range ranges.1) path query response q in
        let all = sys.crawl.log ++ ps in
        ListsOnly-mono total (all ++ qs) response
          (spread reread now_held.copies all qs (reread_twice all) now_held.known)
          (spread client now_held.copies all qs (client-reread all) now_held.known) lists

    -- What is found under an id: what was there before, or one copy.
    old_or_copied :
        (id : Text) (found : List PeerData)
        → AllOr
            (IdStepFails S id sys.file)
            found
            (map reread (keep (λ q. q.id == id) (upsert_all now_held.copies qs)))
        → AllOr (IdStepFails S id sys.file) found (map reread (keep (λ q. q.id == id) qs))
          ⊎ ((p : PeerData) × Mem p (map reread (sys.crawl.log ++ ps))
              × (p.id ≡ id)
              × OneOr (IdStepFails S id sys.file) found p)
    old_or_copied id found same =
        let named =
          subst (λ l. AllOr (IdStepFails S id sys.file) found (map reread l))
            (keep-upsert_all now_held.copies id qs) same in
        elim (Option-cases (latest id now_held.copies)) [
          | inl never ↦ inl (
              subst (λ l. AllOr (IdStepFails S id sys.file) found (map reread l))
                (under_id-none id now_held.copies qs never) named)
          | inr (p, last) ↦
              let (there, has_id) = latest-mem id now_held.copies p last in
              let source_of = now_held.known p there in
              let one =
                subst (λ l. AllOr (IdStepFails S id sys.file) found (map reread l))
                  (under_id-some id now_held.copies qs p last) named in
              inr (
                p,
                source_of,
                beq_sound p.id id has_id,
                subst (OneOr (IdStepFails S id sys.file) found)
                    (known-reread p (sys.crawl.log ++ ps) source_of)
                    (AllOr-OneOr (IdStepFails S id sys.file) found (reread p) one),
              )
        ]

    -- The listeners' tasks and the rounds of the synchronisation run in any interleaving, from
    -- databases in which no id stands twice in PostgreSQL and all numbers fit their types; opening the
    -- SQLite file again leaves its rows. At every moment at which no task has panicked and the API
    -- server is up, also in the middle of a synchronisation, `GET /node/id/<id>`, for an id that is not
    -- empty and has no slash and no percent sign, panics on an error of SQLite, or is answered with the
    -- peers that SQLite held at the start under the id, or with one peer that has the id, a record that
    -- a task has saved until then or a peer that PostgreSQL held at the start, as it is read back; of
    -- these some may be missing if a step through the rows of SQLite fails.
    pub serve_by_id-Runs :
        (id : Text) (query : Option Text)
        → (is_empty id ≡ false) × Lacks b'/' id × Lacks b'%' id
        → PanicsOr sql_query_item_error
            (Sqlite.node_by_id S {A = A} {P = P.Error} id sys.file)
            (serve axum
              (Sqlite.sql_peer_db S {A = A} {P = P.Error})
              days_ago
              (text "/node/id/" ++ id)
              query
              sys.file)
            (λ response.
              (found : List PeerData) × (response ≡ json (found_peers (some found)))
              × (AllOr (IdStepFails S id sys.file) found (map reread (keep (λ q. q.id == id) qs))
                  ⊎ ((p : PeerData) × Mem p (map reread (sys.crawl.log ++ ps))
                      × (p.id ≡ id)
                      × OneOr (IdStepFails S id sys.file) found p)))
    serve_by_id-Runs id query plain =
        let db = Sqlite.sql_peer_db S {A = A} {P = P.Error} in
        let total = upsert_all now_held.copies qs in
        serve_by_id-PanicsOr axum db days_ago sql_query_item_error _ id query sys.file _ _ plain
          (λ out answer.
            let (found, shown, same) = answer in
            (found, ap (λ o. json (found_peers o)) shown, old_or_copied id found same))
          (get_node_by_id-Served S s A P.Error sys.file total now_held.holds
            (upsert_all-InRange now_held.copies qs now_held.range ranges.1) id)
