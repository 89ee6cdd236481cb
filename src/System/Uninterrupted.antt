-- ===== src/System/Uninterrupted.antt =====
-- A run of `db_sync` in one go is among the runs of the system.
use reth_crawler.Prelude.{
  ◌+◌, ℕ, ◌≡◌, refl, sym, ap, ◌∙◌, inl, inr, Bool, false, Option, none, List, [], ◌∷◌, Result, ok,
  err, Outcome, done, panic, Eq, Result-cases, Outcome-cases, Option-cases, if◌then◌else◌,
}
use reth_crawler.Text.{Text}
use reth_crawler.Types.{PeerData, ScanTableError}
use reth_crawler.Sqlite
use reth_crawler.Postgres
use reth_crawler.Handshake.{Reth}
use reth_crawler.Listener.{Sockets}
use reth_crawler.ApiServer.{update_time}
use reth_crawler.DbSync.{Tick, SyncError, add_peers, store_peers, sync_since, db_sync}
use reth_crawler.System.{
  Phase, waiting, copying, ended, System, scanned, scan, copy, synced, reaching, Runs, ticks,
  copies, copied,
}

module _ {PeerId : Type 0} ⦃e : Eq PeerId⦄ (R : Reth PeerId) (N : Sockets R) (P : Postgres.Driver)
    (S : Sqlite.Driver) (A : Type 0) where
  -- Where `db_sync_handler` stands after a run.
  abbrev pub after_run : Outcome (Result (SyncError P S A) (Unit {0})) → Phase
  after_run (done (ok synced)) = waiting false
  after_run (done (err error)) = ended
  after_run panic = ended

  -- The moves of a run, which leave the crawler alone.
  pub record Reaches (open_file : ℕ → S.Connection → Outcome S.Connection)
      (start sys : System R N P S A) (file : S.Connection) (phase : Phase) : Type 0 where
    pub end : System R N P S A
    pub runs : Runs R N P S A open_file start end
    pub crawl : end.crawl ≡ sys.crawl
    pub at_file : end.file ≡ file
    pub at_phase : end.phase ≡ phase

  module _ (open_file : ℕ → S.Connection → Outcome S.Connection) (start : System R N P S A) where
    loop-Reaches :
        (peers : List PeerData) (sys : System R N P S A)
        → Runs R N P S A open_file start sys
        → sys.phase ≡ copying peers
        → Reaches open_file start sys
            (add_peers P S A peers sys.file).0
            (after_run (done (add_peers P S A peers sys.file).1))
    unfolding add_peers copy
    loop-Reaches [] sys runs at = record {
      end = synced R N P S A (sys.file, waiting false) sys;
      runs = copied runs at;
      crawl = refl;
      at_file = refl;
      at_phase = refl;
    }
    loop-Reaches (peer ∷ peers) sys runs at =
        let ran = Sqlite.add_peer S {A = A} {P = P.Error} peer sys.file in
        let next = synced R N P S A (copy R N P S A peer peers sys.file) sys in
        let moved = copies peer peers runs at in
        elim (Result-cases ran.1) [
          | inr (error, failed) ↦
              let left : copy R N P S A peer peers sys.file ≡ (ran.0, ended) =
                rw (failed, copy) refl in
              rw (failed, add_peers)
                (record {
                  end = next;
                  runs = moved;
                  crawl = refl;
                  at_file = ap (λ x. x.0) left;
                  at_phase = ap (λ x. x.1) left;
                })
          | inl (added, worked) ↦
              let left : copy R N P S A peer peers sys.file ≡ (ran.0, copying peers) =
                rw (worked, copy) refl in
              let on = loop-Reaches peers next moved (ap (λ x. x.1) left) in
              let there = ap (λ x. add_peers P S A peers x.0) left in
              rw (worked, add_peers)
                (record {
                  end = on.end;
                  runs = on.runs;
                  crawl = on.crawl;
                  at_file = on.at_file ∙ ap (λ x. x.0) there;
                  at_phase = on.at_phase ∙ ap (λ x. after_run (done x.1)) there;
                })
        ]

    module _ (first_sync : Bool) (k : ℕ) (reached : Bool) (clock : ℕ → Option Text)
        (sys : System R N P S A) where
      -- what the tick meets
      abbrev tick : Tick P S A
      tick = record {
        dynamo_db = reaching R N P S A reached sys;
        sqlite_db = open_file k;
        seconds_ago = clock;
      }

      -- A tick at which a run ends before its loop.
      stops :
          (c : S.Connection) (out : Outcome (Result (SyncError P S A) (Unit {0})))
          → Runs R N P S A open_file start sys
          → sys.phase ≡ waiting first_sync
          → scan R N P S A update_time first_sync tick sys.file ≡ (c, ended)
          → after_run out ≡ ended
          → Reaches open_file start sys c (after_run out)
      stops c out runs at left over = record {
        end = synced R N P S A (scan R N P S A update_time first_sync tick sys.file) sys;
        runs = ticks first_sync k reached clock runs at;
        crawl = refl;
        at_file = ap (λ x. x.0) left;
        at_phase = ap (λ x. x.1) left ∙ sym over;
      }

      store-Reaches :
          (opened : S.Connection)
          (listed : Outcome (Result (ScanTableError A S.Error P.Error) (List PeerData)))
          → Runs R N P S A open_file start sys
          → sys.phase ≡ waiting first_sync
          → scan R N P S A update_time first_sync tick sys.file ≡ (opened, scanned R N P S A listed)
          → Reaches open_file start sys
              (store_peers P S A listed opened).0
              (after_run (store_peers P S A listed opened).1)
      unfolding store_peers scanned
      store-Reaches opened panic runs at left = stops opened panic runs at left refl
      store-Reaches opened (done (err error)) runs at left =
          stops opened (done (err (SyncError.scan_error error))) runs at left refl
      store-Reaches opened (done (ok peers)) runs at left =
          let next = synced R N P S A (scan R N P S A update_time first_sync tick sys.file) sys in
          let on =
            loop-Reaches peers next (ticks first_sync k reached clock runs at)
              (ap (λ x. x.1) left) in
          let there = ap (λ x. add_peers P S A peers x.0) left in
          record {
            end = on.end;
            runs = on.runs;
            crawl = on.crawl;
            at_file = on.at_file ∙ ap (λ x. x.0) there;
            at_phase = on.at_phase ∙ ap (λ x. after_run (done x.1)) there;
          }

      -- A run of `db_sync` at which nothing else moves is one of the runs of the system: from a state
      -- before a tick, whatever the tick meets, the system reaches a state with the SQLite file that
      -- the run leaves, and with the loop of `db_sync_handler` where the result of the run puts it; the
      -- crawler has not moved.
      pub db_sync-Reaches :
          Runs R N P S A open_file start sys
          → sys.phase ≡ waiting first_sync
          → Reaches open_file start sys
              (db_sync P S A update_time first_sync tick sys.file).0
              (after_run (db_sync P S A update_time first_sync tick sys.file).1)
      unfolding db_sync sync_since scan
      db_sync-Reaches runs at = elim (Outcome-cases tick.dynamo_db) [
        | inr closed ↦
            let left : scan R N P S A update_time first_sync tick sys.file ≡ (sys.file, ended) =
              rw (closed, scan) refl in
            rw (closed, db_sync) (stops sys.file panic runs at left refl)
        | inl (source, open_source) ↦ elim (Outcome-cases (open_file k sys.file)) [
          | inr closed ↦
              let left : scan R N P S A update_time first_sync tick sys.file ≡ (sys.file, ended) =
                rw (open_source, closed, scan) refl in
              rw (open_source, closed, db_sync) (stops sys.file panic runs at left refl)
          | inl (opened, open_ok) ↦ elim (Option-cases (clock (update_time + 60))) [
            | inl never ↦
                let left : scan R N P S A update_time first_sync tick sys.file ≡ (opened, ended) =
                  rw (open_source, open_ok, never, scan) refl in
                rw (open_source, open_ok, never, db_sync) (stops opened panic runs at left refl)
            | inr (now, at_time) ↦
                let listed =
                  if first_sync
                  then Postgres.all_peers P {A = A} {S = S.Error} none source
                  else Postgres.all_active_peers P now none source in
                let left : scan R N P S A update_time first_sync tick sys.file
                    ≡ (opened, scanned R N P S A listed) =
                  rw (open_source, open_ok, at_time, scan) refl in
                rw (open_source, open_ok, at_time, db_sync)
                  (store-Reaches opened listed runs at left)
          ]
        ]
      ]
