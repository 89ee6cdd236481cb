-- ===== src/Listener/Latest.antt =====
-- What the API server answers, from the database that the listener's tasks wrote.
use mathlib.Core.Path.{subst}
use reth_crawler.Prelude.{
  ◌≡◌, refl, sym, ◌∙◌, inl, inr, true, not, Option, none, some, List, [], ◌∷◌, map, keep, done, Eq,
  All, All-keep, PanicsOr, PanicsOr-mono, Option-cases, Bool-cases, ◌==◌, beq_sound, list_eq,
  nat_eq, if◌then◌else◌,
}
use reth_crawler.Text.{Text}
use reth_crawler.Types.{PeerData, InRange, sql_query_item_error}
use reth_crawler.PeerDb.Collection.{upsert, upsert_all}
use reth_crawler.Sql.Stepping.{IsStepTable, Replaces}
use reth_crawler.Sqlite.{Driver, table, key, schema, node_by_id}
use reth_crawler.Sqlite.Rows.{reread}
use reth_crawler.Sqlite.Refines.{Holds}
use reth_crawler.Sqlite.ReadBack.{keep-upsert_self, keep-upsert_ne}
use reth_crawler.Sql.Partial.{AllOr}
use reth_crawler.Sqlite.Steps.{IdStepFails}
use reth_crawler.Routes.{get_node_by_id}
use reth_crawler.Routes.Served.{get_node_by_id-Served}
use reth_crawler.Handshake.{Reth, World}
use reth_crawler.Listener.{Sockets}
use reth_crawler.Listener.Streams.{Job, run_jobs, all_saved}
use reth_crawler.Listener.Crawled.{run_jobs-Keeps}
use reth_crawler.Sqlite.Keeper.{sqlite_keeper}
use reth_crawler.Sqlite.{sql_peer_db}

-- The last of the records that has this id.
unfoldable pub latest : Text → List PeerData → Option PeerData
latest id [] = none
latest id (p ∷ ps) = elim (latest id ps) [
  | some q ↦ some q
  | none ↦ if p.id == id then some p else none
]

-- The peers with this id after the records were added: the last one, or those that were there.
unfoldable pub under_id : Text → List PeerData → List PeerData → List PeerData
under_id id added before = elim (latest id added) [
  | some p ↦ p ∷ []
  | none ↦ keep (λ q. q.id == id) before
]

-- A record that is found under its own id, and one that is found under no other.
keep-upsert_same :
    (p : PeerData) (id : Text) (ps : List PeerData)
    → (p.id == id) ≡ true
    → keep (λ q. q.id == id) (upsert p ps) ≡ p ∷ []
keep-upsert_same p id ps same =
    subst (λ i. keep (λ q. q.id == i) (upsert p ps) ≡ p ∷ []) (beq_sound p.id id same)
      (keep-upsert_self p ps)

pub under_id-some :
    (id : Text) (added before : List PeerData) (p : PeerData)
    → latest id added ≡ some p
    → under_id id added before ≡ p ∷ []
unfolding under_id
under_id-some id added before p h = rw (h, under_id) refl

pub under_id-none :
    (id : Text) (added before : List PeerData)
    → latest id added ≡ none
    → under_id id added before ≡ keep (λ q. q.id == id) before
unfolding under_id
under_id-none id added before h = rw (h, under_id) refl

pub keep-upsert_all :
    (added : List PeerData) (id : Text) (before : List PeerData)
    → keep (λ q. q.id == id) (upsert_all added before) ≡ under_id id added before
unfolding upsert_all under_id latest
keep-upsert_all [] id before = refl
keep-upsert_all (p ∷ ps) id before =
    let later = keep-upsert_all ps id (upsert p before) in
    elim (Option-cases (latest id ps)) [
      | inr (q, last) ↦
          later
          ∙ under_id-some id ps (upsert p before) q last
          ∙ sym (under_id-some id (p ∷ ps) before q (rw (last, latest) refl))
      | inl none_later ↦
          let here = later ∙ under_id-none id ps (upsert p before) none_later in
          elim (Bool-cases (p.id == id)) [
            | inl same ↦
                here
                ∙ keep-upsert_same p id before same
                ∙ sym (under_id-some id (p ∷ ps) before p (rw (none_later, same, latest) refl))
            | inr other ↦
                here
                ∙ keep-upsert_ne p id before other
                ∙ sym (under_id-none id (p ∷ ps) before (rw (none_later, other, latest) refl))
          ]
    ]

pub upsert_all-InRange :
    (added before : List PeerData)
    → All InRange added
    → All InRange before
    → All InRange (upsert_all added before)
unfolding upsert_all upsert
upsert_all-InRange [] before h k = k
upsert_all-InRange (p ∷ ps) before h k =
    upsert_all-InRange ps (upsert p before) h.1
      (h.0, All-keep InRange (λ q. not (q.id == p.id)) before k)

module _ {PeerId : Type 0} ⦃e : Eq PeerId⦄ (R : Reth PeerId) (N : Sockets R) (D : Driver)
    (A P : Type 0) (t : IsStepTable D.engine table schema)
    (r : Replaces D.engine table key schema t) where
  open D use {Connection}

  -- After the listener's tasks ended without a panic, `get_node_by_id` of the API server, from their
  -- SQLite database, panics on an error of the database, or answers with the last record that a task
  -- had to save under the id, alone and as it is read back, and where no task had one, with the
  -- records of the id from before; some may be missing if a step through the rows fails. The numbers
  -- of all peers fit their types.
  pub get_node_by_id-run_jobs :
      (jobs : List (Job R (sql_peer_db D {A = A} {P = P}) N)) (w : World R) (c : Connection)
      (ps : List PeerData) (id : Text)
      → Holds D t c ps
      → All InRange ps
      → All InRange (all_saved R (sql_peer_db D {A = A} {P = P}) N jobs)
      → All (λ o. o ≡ done tt) (run_jobs R (sql_peer_db D {A = A} {P = P}) N jobs w c).outcomes
      → PanicsOr sql_query_item_error
          (node_by_id D {A = A} {P = P} id
            (run_jobs R (sql_peer_db D {A = A} {P = P}) N jobs w c).store)
          (get_node_by_id
            (sql_peer_db D {A = A} {P = P})
            id
            (run_jobs R (sql_peer_db D {A = A} {P = P}) N jobs w c).store)
          (λ out.
            (found : List PeerData) × (out ≡ some found)
            × AllOr
                (IdStepFails D id (run_jobs R (sql_peer_db D {A = A} {P = P}) N jobs w c).store)
                found
                (map reread (under_id id (all_saved R (sql_peer_db D {A = A} {P = P}) N jobs) ps)))
  get_node_by_id-run_jobs jobs w c ps id h range in_range ends =
      let added = all_saved R (sql_peer_db D {A = A} {P = P}) N jobs in
      let end = run_jobs R (sql_peer_db D {A = A} {P = P}) N jobs w c in
      let served =
        get_node_by_id-Served D t A P (run_jobs R (sql_peer_db D {A = A} {P = P}) N jobs w c).store
          (upsert_all added ps)
          (run_jobs-Keeps R N (sql_peer_db D {A = A} {P = P}) (sqlite_keeper D t r A P) jobs w c ps
            h ends)
          (upsert_all-InRange added ps in_range range) id in
      PanicsOr-mono sql_query_item_error _ _ _ _
        (λ out answer.
          let (found, shown, same) = answer in
          (
            found,
            shown,
            subst (λ l. AllOr (IdStepFails D id end.store) found (map reread l))
                (keep-upsert_all added id ps) same,
          ))
        served
