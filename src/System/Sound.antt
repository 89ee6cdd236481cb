-- ===== src/System/Sound.antt =====
-- What SQLite holds at every moment at which the API server is up.
use mathlib.Core.List.{nil-subset, Perm}
use mathlib.Core.Bool.{false≢true}
use mathlib.Core.Path.{subst}
use reth_crawler.Prelude.{
  ℕ, ◌≡◌, sym, ap, ◌∙◌, true, false, List, [], ◌∷◌, ◌++◌, Outcome, done, Eq, All, All-map,
}
use reth_crawler.Types.{PeerData, InRange}
use reth_crawler.PeerDb.Collection.{upsert_all, Distinct}
use reth_crawler.Sql.{IsTable}
use reth_crawler.Sql.Stepping.{IsStepTable, Replaces}
use reth_crawler.Sql.Conflict.{Upserts}
use reth_crawler.Sqlite
use reth_crawler.Sqlite.Refines as Kept
use reth_crawler.Postgres
use reth_crawler.Postgres.Refines as Source
use reth_crawler.Postgres.Keeper.{postgres_keeper}
use reth_crawler.Handshake.{Reth}
use reth_crawler.Listener.{Sockets}
use reth_crawler.Listener.Latest.{upsert_all-InRange}
use reth_crawler.Concurrent.Invariant.{Recorded, Recorded-InRange}
use reth_crawler.Concurrent.Listeners.{Crawl, view, begin, Moves, CrawlIsSound, Moves-CrawlIsSound}
use reth_crawler.Concurrent.Listeners
use reth_crawler.System.{System, source_db, boot, Runs, here, crawls, ticks, copies, copied}
use reth_crawler.System.Grows.{Step-Extends}
use reth_crawler.System.Scan.{later_scan-ended, reached_store}
use reth_crawler.System.Rounds.{is_up, sources, Copies, Copies-mono, copy-Leaves, first_scan-Leaves}

All_of_append {ℓ κ} : {A : Type ℓ} (Q : A → Type κ) (xs ys : List A) → All Q (xs ++ ys) → All Q ys
All_of_append Q [] ys h = h
All_of_append Q (x ∷ xs) ys h = All_of_append Q xs ys h.1

module _ {PeerId : Type 0} ⦃e : Eq PeerId⦄ (R : Reth PeerId) (N : Sockets R) (P : Postgres.Driver)
    (S : Sqlite.Driver) (A : Type 0) (t : IsTable P.engine Postgres.table Postgres.inserted)
    (u : Upserts P.engine Postgres.table "id" Postgres.inserted t)
    (s : IsStepTable S.engine Sqlite.table Sqlite.schema)
    (r : Replaces S.engine Sqlite.table Sqlite.key Sqlite.schema s) (ps qs : List PeerData) where
  -- In a state in which no task has panicked and the API server is up.
  abbrev pub Synced : System R N P S A → Type 0
  Synced sys =
      All (λ o. o ≡ done tt) sys.crawl.outcomes
      → is_up sys.phase ≡ true
      → Copies R N P S A t u s r ps qs sys.crawl.log sys.file sys.phase

  module _ (open_file : ℕ → S.Connection → Outcome S.Connection)
      (reopens : (k : ℕ) (c opened : S.Connection)
        → open_file k c ≡ done opened
        → Perm (s.rows opened) (s.rows c))
      (source : P.Connection) (file : S.Connection)
      (served : Source.Serves P t source ps × Distinct ps) (held : Kept.Holds S s file qs)
      (range_ps : All InRange ps) where
    -- The crawler in such a state.
    pub Runs-Moves :
        {sys : System R N P S A}
        → Runs R N P S A open_file (boot R N P S A source file) sys
        → Moves R (source_db R N P S A) N (begin R (source_db R N P S A) N source) sys.crawl
    Runs-Moves here = Listeners.here
    Runs-Moves (crawls i runs step) = Listeners.next i (Runs-Moves runs) step
    Runs-Moves (ticks first k reached clock runs at) = Runs-Moves runs
    Runs-Moves (copies peer peers runs at) = Runs-Moves runs
    Runs-Moves (copied runs at) = Runs-Moves runs

    pub Runs-Synced :
        {sys : System R N P S A}
        → Runs R N P S A open_file (boot R N P S A source file) sys
        → Synced sys
    unfolding upsert_all
    Runs-Synced here fine up = record {
      copies = [];
      holds = held;
      range = tt;
      known = nil-subset (sources R N P S A t u s r ps qs []);
      left_range = tt;
      left_known = nil-subset (sources R N P S A t u s r ps qs []);
    }
    Runs-Synced (crawls {t = v} {u = w} i runs step) fine up =
        let on = Step-Extends R (source_db R N P S A) N step in
        let earlier =
          All_of_append (λ o. o ≡ done tt) on.ended v.crawl.outcomes
            (subst (All (λ o. o ≡ done tt)) on.outcomes fine) in
        subst (λ log. Copies R N P S A t u s r ps qs log v.file v.phase) (sym on.log)
          (Copies-mono R N P S A t u s r ps qs v.crawl.log on.saved v.file v.phase
            (Runs-Synced runs earlier up))
    Runs-Synced (ticks {t = v} false k reached clock runs at) fine up =
        absurd (false≢true (sym (ap is_up (later_scan-ended R N P S A _ v.file)) ∙ up))
    Runs-Synced (ticks {t = v} true k reached clock runs at) fine up =
        let K = postgres_keeper P t u A S.Error in
        let sound =
          Moves-CrawlIsSound R (source_db R N P S A) N K ps source served (Runs-Moves runs) in
        let log_range =
          All-map (Recorded R (source_db R N P S A) N K ps) InRange v.crawl.log
            (Recorded-InRange R (source_db R N P S A) N K ps) sound.recorded in
        first_scan-Leaves R N P S A t u s r ps qs v.crawl.log v.file _ (reopens k v.file)
          (λ found at_store.
            subst (λ c. Source.Serves P t c (upsert_all v.crawl.log ps))
              (reached_store R N P S A reached v found at_store) (sound.kept fine).0)
          (upsert_all-InRange v.crawl.log ps log_range range_ps)
          (subst (Copies R N P S A t u s r ps qs v.crawl.log v.file) at
            (Runs-Synced runs fine (ap is_up at)))
          up
    Runs-Synced (copies {t = v} peer peers runs at) fine up =
        copy-Leaves R N P S A t u s r ps qs v.crawl.log v.file peer peers
          (subst (Copies R N P S A t u s r ps qs v.crawl.log v.file) at
            (Runs-Synced runs fine (ap is_up at)))
          up
    Runs-Synced (copied {t = v} runs at) fine up =
        let h =
          subst (Copies R N P S A t u s r ps qs v.crawl.log v.file) at
            (Runs-Synced runs fine (ap is_up at)) in
        record {
          copies = h.copies;
          holds = h.holds;
          range = h.range;
          known = h.known;
          left_range = tt;
          left_known = h.left_known;
        }
