-- ===== src/System/Fresh.antt =====
-- What the API server answers once a synchronisation is done, whatever went on beside it.
use mathlib.Core.List.{Perm}
use mathlib.Core.List.Perm
use mathlib.Core.Bool.{false≢true}
use mathlib.Core.Path.{subst}
use reth_crawler.Prelude.{
  ℕ, ◌≡◌, refl, sym, ap, ◌∙◌, inl, inr, Bool, true, false, Option, some, List, [], ◌++◌, Outcome,
  done, Eq, All, All-map, PanicsOr,
}
use reth_crawler.Text.{Text, text}
use reth_crawler.Text.Search.{is_empty}
use reth_crawler.Text.Split.{Lacks}
use reth_crawler.Types.{PeerData, InRange, sql_query_item_error}
use reth_crawler.PeerDb.Collection.{upsert_all, Distinct}
use reth_crawler.Sql.{IsTable}
use reth_crawler.Sql.Stepping.{IsStepTable, Replaces}
use reth_crawler.Sql.Conflict.{Upserts}
use reth_crawler.Sqlite
use reth_crawler.Sqlite.Steps.{FoundAlone}
use reth_crawler.Sqlite.Rows.{reread}
use reth_crawler.Sqlite.Refines as Kept
use reth_crawler.Postgres
use reth_crawler.Postgres.Refines as Source
use reth_crawler.Postgres.Keeper.{postgres_keeper}
use reth_crawler.Handshake.{Reth}
use reth_crawler.Listener.{Sockets}
use reth_crawler.Listener.Latest.{latest, under_id-some, keep-upsert_all, upsert_all-InRange}
use reth_crawler.Concurrent.Invariant.{Recorded, Recorded-InRange}
use reth_crawler.Concurrent.Listeners.{Moves-CrawlIsSound}
use reth_crawler.ApiServer.{update_time}
use reth_crawler.ApiServer.Answers.{answer-copied}
use reth_crawler.ApiServer.Router.{Axum, app, json, found_peers, serve}
use reth_crawler.ApiServer.Router.Handlers.{serve_by_id-PanicsOr}
use reth_crawler.System.{waiting, System, source_db, scan, boot, synced, reaching, Runs}
use reth_crawler.System.Scan.{scan_cases, listed-Perm, reached_store}
use reth_crawler.System.Rounds.{is_up, Copies}
use reth_crawler.System.Sound.{Runs-Synced, Runs-Moves}
use reth_crawler.System.Copied.{Progress, Runs-Progress, Runs-ended}

module _ {PeerId : Type 0} ⦃e : Eq PeerId⦄ (R : Reth PeerId) (N : Sockets R) (P : Postgres.Driver)
    (S : Sqlite.Driver) (A : Type 0) (s : IsStepTable S.engine Sqlite.table Sqlite.schema)
    (r : Replaces S.engine Sqlite.table Sqlite.key Sqlite.schema s)
    (open_file : ℕ → S.Connection → Outcome S.Connection) where
  module _ (t : IsTable P.engine Postgres.table Postgres.inserted)
      (u : Upserts P.engine Postgres.table "id" Postgres.inserted t) (axum : Axum app)
      (days_ago : ℕ → Option Text) (ps qs : List PeerData)
      (reopens : (k : ℕ) (c opened : S.Connection)
        → open_file k c ≡ done opened
        → Perm (s.rows opened) (s.rows c))
      (source : P.Connection) (file : S.Connection)
      (served : Source.Serves P t source ps × Distinct ps) (held : Kept.Holds S s file qs)
      (ranges : All InRange ps × All InRange qs) where
    -- The collection of PostgreSQL in a state that is reached.
    stored_now :
        (v : System R N P S A)
        → Runs R N P S A open_file (boot R N P S A source file) v
        → All (λ o. o ≡ done tt) v.crawl.outcomes
        → Source.Serves P t v.crawl.store (upsert_all v.crawl.log ps)
          × All InRange (upsert_all v.crawl.log ps)
    stored_now v runs fine =
        let db = source_db R N P S A in
        let K = postgres_keeper P t u A S.Error in
        let moves =
          Runs-Moves R N P S A t u s r ps qs open_file reopens source file served held ranges.0
            runs in
        let sound = Moves-CrawlIsSound R db N K ps source served moves in
        let log_range =
          All-map (Recorded R db N K ps) InRange v.crawl.log (Recorded-InRange R db N K ps)
            sound.recorded in
        ((sound.kept fine).0, upsert_all-InRange v.crawl.log ps log_range ranges.0)

    module _ (v sys : System R N P S A) (k : ℕ) (reached : Bool) (clock : ℕ → Option Text) where
      -- the state after the first tick
      abbrev ticked : System R N P S A
      ticked =
          synced R N P S A
            (scan R N P S A update_time true
              (record {
                dynamo_db = reaching R N P S A reached v;
                sqlite_db = open_file k;
                seconds_ago = clock;
              })
              v.file)
            v

      -- The listeners' tasks, the rounds of the synchronisation and requests run in any interleaving,
      -- from a PostgreSQL database in which no id stands twice and any SQLite database, all with numbers
      -- that fit their types; opening the SQLite file again leaves its rows. If a record was saved under
      -- an id before the first tick, no task had panicked until then, and the loop of that tick has come
      -- to its end without an error, then `GET /node/id/<id>`, for an id that is not empty and has no
      -- slash and no percent sign, panics on an error of SQLite, or is answered with the last such
      -- record alone, as it is read back, whatever was saved during the loop and after it; the answer
      -- lists nothing only if a step through the rows of SQLite fails, whose error `flatten` drops.
      pub serve-ticked :
          (id : Text) (p : PeerData) (query : Option Text)
          → Runs R N P S A open_file (boot R N P S A source file) v
          → All (λ o. o ≡ done tt) v.crawl.outcomes
          → v.phase ≡ waiting true
          → Runs R N P S A open_file ticked sys
          → sys.phase ≡ waiting false
          → latest id v.crawl.log ≡ some p
          → (is_empty id ≡ false) × Lacks b'/' id × Lacks b'%' id
          → PanicsOr sql_query_item_error
              (Sqlite.node_by_id S {A = A} {P = P.Error} id sys.file)
              (serve axum
                (Sqlite.sql_peer_db S {A = A} {P = P.Error})
                days_ago
                (text "/node/id/" ++ id)
                query
                sys.file)
              (λ response.
                (out : Option (List PeerData)) × (response ≡ json (found_peers out))
                × FoundAlone S id (reread p) sys.file out)
      unfolding upsert_all
      serve-ticked id p query runs fine at later stopped last plain =
          let before = subst (Copies R N P S A t u s r ps qs v.crawl.log v.file) at (
            Runs-Synced R N P S A t u s r ps qs open_file reopens source file served held ranges.0
              runs fine (ap is_up at)) in
          let (serves, range) = stored_now v runs fine in
          let total = upsert_all v.crawl.log ps in
          let base = upsert_all before.copies qs in
          let db = Sqlite.sql_peer_db S {A = A} {P = P.Error} in
          elim (scan_cases R N P S A _ v.file) [
            | inl over ↦ absurd (
                false≢true (
                  sym (Runs-ended R N P S A s r open_file ticked (ap is_up over) later)
                  ∙ ap is_up stopped))
            | inr (found, opened, out, open_source, open_ok, listed, ran) ↦
                let at_store =
                  subst (λ c. Source.Serves P t c total)
                    (reached_store R N P S A reached v found open_source) serves in
                let same = listed-Perm P S A t found total out at_store range listed in
                let begun =
                  subst (λ run. Progress R N P S A s r open_file out base run.1 run.0) (sym ran)
                    ([], refl, Perm.trans (reopens k v.file opened open_ok) before.holds) in
                let holds =
                  subst (λ phase. Progress R N P S A s r open_file out base phase sys.file) stopped
                    (Runs-Progress R N P S A s r open_file out base ticked begun later) in
                serve_by_id-PanicsOr axum db days_ago sql_query_item_error _ id query sys.file _ _
                  plain (λ o alone. (o, refl, alone))
                  (answer-copied R N P S A t u s r total base out sys.file id p same holds range
                    (upsert_all-InRange before.copies qs before.range ranges.1)
                    (keep-upsert_all v.crawl.log id ps ∙ under_id-some id v.crawl.log ps p last))
          ]
