-- ===== src/ApiServer/Answers.antt =====
-- From the listener's tasks over PostgreSQL and the first synchronisation to an answer from SQLite.
use mathlib.Core.List.{Perm}
use mathlib.Core.Path.{subst}
use reth_crawler.Prelude.{
  ◌≡◌, ◌∙◌, true, some, List, [], ◌∷◌, map, keep, ok, done, PanicsOr, PanicsOr-mono, Eq, All,
  All-map, ◌==◌, list_eq, nat_eq,
}
use reth_crawler.Text.{Text}
use reth_crawler.Types.{PeerData, InRange, sql_query_item_error}
use reth_crawler.PeerDb.{PeerDb}
use reth_crawler.PeerDb.Collection.{upsert_all, Distinct}
use reth_crawler.Sql.{IsTable}
use reth_crawler.Sql.Stepping.{IsStepTable, Replaces}
use reth_crawler.Sql.Conflict.{Upserts}
use reth_crawler.Sqlite
use reth_crawler.Sql.Partial.{AllOr, OneOr, AllOr-OneOr}
use reth_crawler.Sqlite.Steps.{IdStepFails, FoundAlone}
use reth_crawler.Sqlite.Rows.{reread, reread-reread}
use reth_crawler.Sqlite.Refines as Kept
use reth_crawler.Postgres
use reth_crawler.Postgres.{postgres_peer_db}
use reth_crawler.Postgres.Refines as Source
use reth_crawler.Postgres.Keeper.{postgres_keeper}
use reth_crawler.Handshake.{Reth, World}
use reth_crawler.Listener.{Sockets}
use reth_crawler.Listener.Streams.{Job, run_jobs, all_saved}
use reth_crawler.Listener.Crawled.{run_jobs-Keeps}
use reth_crawler.Listener.Latest.{latest, under_id-some, keep-upsert_all, upsert_all-InRange}
use reth_crawler.ApiServer.{update_time}
use reth_crawler.DbSync.{Tick, db_sync}
use reth_crawler.DbSync.Runs.{first_sync-Holds}
use reth_crawler.Concurrent.Invariant.{Recorded, Recorded-InRange}
use reth_crawler.Concurrent.Listeners.{Crawl, begin, Moves, Moves-CrawlIsSound}
use reth_crawler.Sqlite.Copies.{All-InRange-Perm, reread-InRange, latest-copied}
use reth_crawler.Routes.{get_node_by_id}
use reth_crawler.Routes.Served.{get_node_by_id-Served}

module _ {PeerId : Type 0} ⦃e : Eq PeerId⦄ (R : Reth PeerId) (N : Sockets R) (P : Postgres.Driver)
    (S : Sqlite.Driver) (A : Type 0) (t : IsTable P.engine Postgres.table Postgres.inserted)
    (u : Upserts P.engine Postgres.table "id" Postgres.inserted t)
    (s : IsStepTable S.engine Sqlite.table Sqlite.schema)
    (r : Replaces S.engine Sqlite.table Sqlite.key Sqlite.schema s) where
  -- the database of the listener
  abbrev pub source_db : PeerDb A S.Error P.Error
  source_db = postgres_peer_db P {A = A} {S = S.Error}

  -- The answer from a database to which the peers of a collection were copied in which one has the id.
  pub answer-copied :
      (total qs copied : List PeerData) (c : S.Connection) (id : Text) (p : PeerData)
      → Perm copied (map reread total)
      → Kept.Holds S s c (upsert_all copied qs)
      → All InRange total
      → All InRange qs
      → keep (λ q. q.id == id) total ≡ p ∷ []
      → PanicsOr sql_query_item_error
          (Sqlite.node_by_id S {A = A} {P = P.Error} id c)
          (get_node_by_id (Sqlite.sql_peer_db S {A = A} {P = P.Error}) id c)
          (FoundAlone S id (reread p) c)
  answer-copied total qs copied c id p same holds range range_qs alone =
      let range_copied =
        All-InRange-Perm copied (map reread total) same (reread-InRange total range) in
      let copy = latest-copied id p copied total same alone in
      let answer : keep (λ x. x.id == id) (upsert_all copied qs) ≡ reread p ∷ [] =
        keep-upsert_all copied id qs ∙ under_id-some id copied qs (reread p) copy in
      PanicsOr-mono sql_query_item_error _ _ _ _
        (λ out shown_listed.
          let (found, shown, listed) = shown_listed in
          let one = subst (λ l. AllOr (IdStepFails S id c) found (map reread l)) answer listed in
          let alone = AllOr-OneOr (IdStepFails S id c) found (reread (reread p)) one in
          (found, shown, subst (OneOr (IdStepFails S id c) found) (reread-reread p) alone))
        (get_node_by_id-Served S s A P.Error c (upsert_all copied qs) holds
          (upsert_all-InRange copied qs range_copied range_qs) id)

  module _ (added ps qs : List PeerData) (source : P.Connection) (tick : Tick P S A)
      (c opened c' : S.Connection) (id : Text) (p : PeerData) (range_ps : All InRange ps)
      (range_qs : All InRange qs) (range_added : All InRange added)
      (held : Kept.Holds S s opened qs) (open_source : tick.dynamo_db ≡ done source)
      (open_file : tick.sqlite_db c ≡ done opened)
      (synced : db_sync P S A update_time true tick c ≡ (c', done (ok tt)))
      (last : latest id added ≡ some p) where
    -- The answer after a synchronisation from a database to which records were added.
    pub answer-added :
        Source.Serves P t source (upsert_all added ps)
        → PanicsOr sql_query_item_error
            (Sqlite.node_by_id S {A = A} {P = P.Error} id c')
            (get_node_by_id (Sqlite.sql_peer_db S {A = A} {P = P.Error}) id c')
            (FoundAlone S id (reread p) c')
    answer-added serves =
        let total = upsert_all added ps in
        let range = upsert_all-InRange added ps range_added range_ps in
        let (copied, same, holds) =
          first_sync-Holds P S A update_time s r t source total tick c opened c' qs serves range
            open_source open_file held synced in
        answer-copied total qs copied c' id p same holds range range_qs
          (keep-upsert_all added id ps ∙ under_id-some id added ps p last)

  -- The tasks of any number of listeners over one PostgreSQL database run in any interleaving; at some
  -- point none of them has panicked, and the first run of `db_sync` copies to SQLite without an error.
  -- If a record was saved under an id, then `get_node_by_id` panics on an error of SQLite, or answers
  -- with the last such record alone, as it is read back, whatever both databases held before, and with
  -- nothing only if a step through the rows of SQLite fails. The
  -- numbers of the peers that both databases held before fit their types, and no id stood twice in
  -- PostgreSQL.
  pub get_node_by_id-Moves :
      (source : P.Connection) (crawl : Crawl R source_db N) (ps : List PeerData) (tick : Tick P S A)
      (c opened c' : S.Connection) (qs : List PeerData) (id : Text) (p : PeerData)
      → Source.Serves P t source ps × Distinct ps
      → Kept.Holds S s opened qs
      → All InRange ps × All InRange qs
      → Moves R source_db N (begin R source_db N source) crawl
      → All (λ o. o ≡ done tt) crawl.outcomes
      → tick.dynamo_db ≡ done crawl.store
      → tick.sqlite_db c ≡ done opened
      → db_sync P S A update_time true tick c ≡ (c', done (ok tt))
      → latest id crawl.log ≡ some p
      → PanicsOr sql_query_item_error
          (Sqlite.node_by_id S {A = A} {P = P.Error} id c')
          (get_node_by_id (Sqlite.sql_peer_db S {A = A} {P = P.Error}) id c')
          (FoundAlone S id (reread p) c')
  get_node_by_id-Moves source crawl ps tick c opened c' qs id p served held ranges moves fine
        open_source open_file synced last =
      let (range_ps, range_qs) = ranges in
      let K = postgres_keeper P t u A S.Error in
      let sound = Moves-CrawlIsSound R source_db N K ps source served moves in
      let range_added =
        All-map (Recorded R source_db N K ps) InRange crawl.log
          (Recorded-InRange R source_db N K ps) sound.recorded in
      answer-added crawl.log ps qs crawl.store tick c opened c' id p range_ps range_qs range_added
        held open_source open_file synced last (sound.kept fine).0

  -- The same of jobs of one listener that run one after another.
  pub get_node_by_id-db_sync :
      (jobs : List (Job R source_db N)) (w : World R) (source : P.Connection) (ps : List PeerData)
      (tick : Tick P S A) (c opened c' : S.Connection) (qs : List PeerData) (id : Text)
      (p : PeerData)
      → Source.Serves P t source ps × Distinct ps
      → Kept.Holds S s opened qs
      → All InRange ps × All InRange qs × All InRange (all_saved R source_db N jobs)
      → All (λ o. o ≡ done tt) (run_jobs R source_db N jobs w source).outcomes
      → tick.dynamo_db ≡ done (run_jobs R source_db N jobs w source).store
      → tick.sqlite_db c ≡ done opened
      → db_sync P S A update_time true tick c ≡ (c', done (ok tt))
      → latest id (all_saved R source_db N jobs) ≡ some p
      → PanicsOr sql_query_item_error
          (Sqlite.node_by_id S {A = A} {P = P.Error} id c')
          (get_node_by_id (Sqlite.sql_peer_db S {A = A} {P = P.Error}) id c')
          (FoundAlone S id (reread p) c')
  get_node_by_id-db_sync jobs w source ps tick c opened c' qs id p served held ranges ends
        open_source open_file synced last =
      let (range_ps, range_qs, range_added) = ranges in
      let kept =
        run_jobs-Keeps R N source_db (postgres_keeper P t u A S.Error) jobs w source ps served
          ends in
      answer-added (all_saved R source_db N jobs) ps qs (run_jobs R source_db N jobs w source).store
        tick c opened c' id p range_ps range_qs range_added held open_source open_file synced last
        kept.0
