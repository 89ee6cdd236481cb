-- ===== src/DbSync/Runs.antt =====
-- What the runs of `db_sync` leave in the SQLite database.
use mathlib.Core.List.{Perm}
use mathlib.Core.Path.{subst}
use reth_crawler.Prelude.{
  ℕ, ◌+◌, ◌≡◌, ◌≢◌, refl, sym, ap, ◌∙◌, ◌⊎◌, inl, inr, Bool, true, false, none, List, [], ◌∷◌, map,
  ok, err, Result-cases, All, done, panic, ok-ne-err, Outcome-cases, Option-cases, done-ne-panic,
  done-injective,
}
use reth_crawler.Text.{Text}
use reth_crawler.Types.{PeerData, InRange, postgres_scan_error}
use reth_crawler.PeerDb.Collection.{upsert, upsert_all}
use reth_crawler.Sql.Stepping.{IsStepTable, Replaces}
use reth_crawler.Sql.{IsTable, greater, question, star}
use reth_crawler.Sqlite
use reth_crawler.Sqlite.Rows.{reread}
use reth_crawler.Sqlite.Refines as Kept
use reth_crawler.Postgres
use reth_crawler.Postgres.Refines as Source
use reth_crawler.DbSync.{
  looping, add_error, Tick, add_peers, store_peers, sync_since, db_sync, db_sync_handler,
}

module _ (P : Postgres.Driver) (S : Sqlite.Driver) (A : Type 0) (update_time : ℕ) where
  module _ (s : IsStepTable S.engine Sqlite.table Sqlite.schema)
      (replaces : Replaces S.engine Sqlite.table Sqlite.key Sqlite.schema s) where
    -- A loop that adds every peer without an error leaves the collection with all of them.
    add_peers-Holds :
        (peers : List PeerData) (c c' : S.Connection) (ps : List PeerData)
        → Kept.Holds S s c ps
        → add_peers P S A peers c ≡ (c', ok tt)
        → Kept.Holds S s c' (upsert_all peers ps)
    unfolding add_peers upsert_all
    add_peers-Holds [] c c' ps h q = subst (λ d. Kept.Holds S s d ps) (ap (λ x. x.0) q) h
    add_peers-Holds (peer ∷ peers) c c' ps h q =
        let ran = Sqlite.add_peer S {A = A} {P = P.Error} peer c in
        elim (Result-cases ran.1) [
          | inl (added, ok_added) ↦
              let rest : add_peers P S A (peer ∷ peers) c ≡ add_peers P S A peers ran.0 =
                rw (ok_added, add_peers) refl in
              add_peers-Holds peers ran.0 c' (upsert peer ps)
                (Kept.add_peer-Holds S s replaces {A = A} {P = P.Error} peer c ran.0 ps h
                  (λ i. (ran.0, ok_added i)))
                (sym rest ∙ q)
          | inr (e, failed) ↦
              let stopped : add_peers P S A (peer ∷ peers) c ≡ (ran.0, err (add_error e)) =
                rw (failed, add_peers) refl in
              absurd (ok-ne-err (ap (λ x. x.1) (sym q ∙ stopped)))
        ]

    -- A successful first run: the peers of PostgreSQL, as they are read back, are added in some
    -- order to the collection that the SQLite database held.
    pub first_sync-Holds :
        (t : IsTable P.engine Postgres.table Postgres.inserted) (source : P.Connection)
        (peers : List PeerData) (tick : Tick P S A) (c opened c' : S.Connection)
        (ps : List PeerData)
        → Source.Serves P t source peers
        → All InRange peers
        → tick.dynamo_db ≡ done source
        → tick.sqlite_db c ≡ done opened
        → Kept.Holds S s opened ps
        → db_sync P S A update_time true tick c ≡ (c', done (ok tt))
        → (copied : List PeerData) × Perm copied (map reread peers)
          × Kept.Holds S s c' (upsert_all copied ps)
    unfolding db_sync sync_since
    first_sync-Holds t source peers tick c opened c' ps h range open_source open_file held q =
        elim (Option-cases (tick.seconds_ago (update_time + 60))) [
          | inl never ↦
              let ran : db_sync P S A update_time true tick c ≡ (opened, panic) =
                rw (open_source, open_file, never, db_sync) refl in
              absurd (done-ne-panic (ap (λ x. x.1) (sym q ∙ ran)))
          | inr (time, now) ↦
              let ran : db_sync P S A update_time true tick c
                  ≡ store_peers P S A (Postgres.all_peers P none source) opened =
                rw (open_source, open_file, now, db_sync) refl in
              elim (Source.all_peers-Serves P t {A = A} {S = S.Error} source peers h none range) [
                | inl (e, failed) ↦ absurd (
                    ok-ne-err (
                      done-injective (
                        ap (λ x. x.1) (sym q ∙ ran ∙ ap (λ o. store_peers P S A o opened) failed))))
                | inr (copied, scanned, same) ↦
                    let stored : (c', done (ok tt)) ≡ store_peers P S A (done (ok copied)) opened =
                      sym q ∙ ran ∙ ap (λ o. store_peers P S A o opened) scanned in
                    let added : add_peers P S A copied opened ≡ (c', ok tt) = λ i. (
                      sym (ap (λ x. x.0) stored) i,
                      sym (done-injective (ap (λ x. x.1) stored)) i,
                    ) in
                    (copied, same, add_peers-Holds copied opened c' ps held added)
              ]
        ]

  -- PostgreSQL refuses the placeholder of `all_active_peers`.
  pub all_active_peers-fails :
      (time : Text) (source : P.Connection)
      → (e : P.Error) × (Postgres.all_active_peers P {A = A} {S = S.Error} time none source
          ≡ done (err (postgres_scan_error e)))
  unfolding Postgres.all_active_peers Postgres.read_rows
  all_active_peers-fails time source =
      let (e, refused) =
        P.refuses_question star Postgres.table (greater "last_seen" (question 1)) (P.text time ∷ [])
          source refl in
      (
        e,
        Source.read_rows_err P postgres_scan_error (Postgres.from_row P) star
            (greater "last_seen" (question 1)) (P.text time ∷ []) source e refused,
      )

  -- A later run changes nothing, and does not succeed.
  later_run :
      (tick : Tick P S A) (c : S.Connection)
      → ((db_sync P S A update_time false tick c).1 ≢ done (ok tt))
        × (((db_sync P S A update_time false tick c).0 ≡ c)
            ⊎ (tick.sqlite_db c ≡ done (db_sync P S A update_time false tick c).0))
  unfolding db_sync sync_since store_peers
  later_run tick c = elim (Outcome-cases tick.dynamo_db) [
    | inr closed ↦ rw (closed, db_sync) (λ q. cc, inl refl)
    | inl (source, open_source) ↦ elim (Outcome-cases (tick.sqlite_db c)) [
      | inr closed ↦ rw (open_source, closed, db_sync) (λ q. cc, inl refl)
      | inl (opened, open_file) ↦ elim (Option-cases (tick.seconds_ago (update_time + 60))) [
        | inl never ↦ rw (open_source, open_file, never, db_sync) (λ q. cc, inr refl)
        | inr (time, now) ↦
            let (e, failed) = all_active_peers-fails time source in
            rw (open_source, open_file, now, failed, db_sync) (λ q. cc, inr refl)
      ]
    ]
  ]

  -- A run that does not succeed ends the loop.
  failed_run :
      (first : Bool) (tick : Tick P S A) (ticks : List (Tick P S A)) (c : S.Connection)
      → (db_sync P S A update_time first tick c).1 ≢ done (ok tt)
      → ((db_sync_handler P S A update_time first (tick ∷ ticks) c).1 ≢ looping)
        × ((db_sync_handler P S A update_time first (tick ∷ ticks) c).0
            ≡ (db_sync P S A update_time first tick c).0)
  unfolding db_sync_handler
  failed_run first tick ticks c h =
      elim (Outcome-cases (db_sync P S A update_time first tick c).1) [
        | inr fails ↦ rw (fails, db_sync_handler) (λ q. cc, refl)
        | inl (r, ends) ↦ elim (Result-cases r) [
          | inl (done_one, synced) ↦ absurd (h (ends ∙ ap done synced))
          | inr (e, failed) ↦ rw (ends ∙ ap done failed, db_sync_handler) (λ q. cc, refl)
        ]
      ]

  -- The loop of `db_sync_handler` ends at its second tick at the latest, whatever the ticks are and
  -- however many follow, if PostgreSQL refuses the placeholder `?1`. The SQLite database is left as
  -- the first run left it, or as opening it again made it.
  pub db_sync_handler-Ends :
      (first second : Tick P S A) (ticks : List (Tick P S A)) (c : S.Connection)
      → let synced = (db_sync P S A update_time true first c).0 in
        let (c', progress) = db_sync_handler P S A update_time true (first ∷ second ∷ ticks) c in
        (progress ≢ looping) × ((c' ≡ synced) ⊎ (second.sqlite_db synced ≡ done c'))
  unfolding db_sync_handler
  db_sync_handler-Ends first second ticks c =
      elim (Outcome-cases (db_sync P S A update_time true first c).1) [
        | inr fails ↦ rw (fails, db_sync_handler) (λ q. cc, inl refl)
        | inl (r, ends) ↦ elim (Result-cases r) [
          | inr (e, failed) ↦ rw (ends ∙ ap done failed, db_sync_handler) (λ q. cc, inl refl)
          | inl (done_one, synced) ↦
              let after = (db_sync P S A update_time true first c).0 in
              let (fails, kept) = later_run second after in
              let (stops, left) = failed_run false second ticks after fails in
              let on : db_sync_handler P S A update_time true (first ∷ second ∷ ticks) c
                  ≡ db_sync_handler P S A update_time false (second ∷ ticks) after =
                rw (ends ∙ ap done synced, db_sync_handler) refl in
              let Left = λ (d : S.Connection). (d ≡ after) ⊎ (second.sqlite_db after ≡ done d) in
              subst (λ out. (out.1 ≢ looping) × Left out.0) (sym on)
                (stops, subst Left (sym left) kept)
        ]
      ]
