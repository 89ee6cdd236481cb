-- ===== src/System/Scan.antt =====
-- A run of `db_sync` up to its loop.
use mathlib.Core.List.{Perm}
use mathlib.Core.Path.{subst}
use reth_crawler.Prelude.{
  ◌+◌, ◌≡◌, refl, sym, ap, ◌∙◌, ◌⊎◌, inl, inr, Bool, true, false, none, List, map, ok, done,
  Result-cases, Outcome-cases, Option-cases, done-injective, done-ne-panic, ok-injective, ok-ne-err,
  Eq, All,
}
use reth_crawler.Types.{PeerData, InRange}
use reth_crawler.Sql.{IsTable}
use reth_crawler.Sqlite
use reth_crawler.Sqlite.Rows.{reread}
use reth_crawler.Postgres
use reth_crawler.Postgres.Refines as Source
use reth_crawler.Handshake.{Reth}
use reth_crawler.Listener.{Sockets}
use reth_crawler.ApiServer.{update_time}
use reth_crawler.DbSync.{Tick}
use reth_crawler.DbSync.Runs.{all_active_peers-fails}
use reth_crawler.System.{copying, ended, System, scanned, scan, reaching}

module _ {PeerId : Type 0} ⦃e : Eq PeerId⦄ (R : Reth PeerId) (N : Sockets R) (P : Postgres.Driver)
    (S : Sqlite.Driver) (A : Type 0) where
  -- The first tick ends the API server, or the loop starts with what the scan returned.
  pub scan_cases :
      (tick : Tick P S A) (file : S.Connection)
      → ((scan R N P S A update_time true tick file).1 ≡ ended)
        ⊎ ((source : P.Connection) × (opened : S.Connection) × (out : List PeerData)
            × (tick.dynamo_db ≡ done source)
            × (tick.sqlite_db file ≡ done opened)
            × (Postgres.all_peers P {A = A} {S = S.Error} none source ≡ done (ok out))
            × (scan R N P S A update_time true tick file ≡ (opened, copying out)))
  unfolding scan scanned
  scan_cases tick file = elim (Outcome-cases tick.dynamo_db) [
    | inr closed ↦ rw (closed, scan) (inl refl)
    | inl (source, open_source) ↦ elim (Outcome-cases (tick.sqlite_db file)) [
      | inr closed ↦ rw (open_source, closed, scan) (inl refl)
      | inl (opened, open_file) ↦ elim (Option-cases (tick.seconds_ago (update_time + 60))) [
        | inl never ↦ rw (open_source, open_file, never, scan) (inl refl)
        | inr (time, now) ↦
            elim (Outcome-cases (Postgres.all_peers P {A = A} {S = S.Error} none source)) [
              | inr fails ↦ inl (rw (open_source, open_file, now, fails, scan, scanned) refl)
              | inl (result, listed) ↦ elim (Result-cases result) [
                | inr (error, failed) ↦
                    inl (
                      rw (open_source, open_file, now, listed ∙ ap done failed, scan, scanned) refl)
                | inl (out, found) ↦ inr (
                  source,
                  opened,
                  out,
                  open_source,
                  open_file,
                  listed ∙ ap done found,
                  rw (open_source, open_file, now, listed ∙ ap done found, scan, scanned) refl,
                )
              ]
            ]
      ]
    ]
  ]

  -- A later tick ends the API server.
  pub later_scan-ended :
      (tick : Tick P S A) (file : S.Connection)
      → (scan R N P S A update_time false tick file).1 ≡ ended
  unfolding scan scanned
  later_scan-ended tick file = elim (Outcome-cases tick.dynamo_db) [
    | inr closed ↦ rw (closed, scan) refl
    | inl (source, open_source) ↦ elim (Outcome-cases (tick.sqlite_db file)) [
      | inr closed ↦ rw (open_source, closed, scan) refl
      | inl (opened, open_file) ↦ elim (Option-cases (tick.seconds_ago (update_time + 60))) [
        | inl never ↦ rw (open_source, open_file, never, scan) refl
        | inr (time, now) ↦
            let (error, failed) = all_active_peers-fails P S A update_time time source in
            rw (open_source, open_file, now, failed, scan, scanned) refl
      ]
    ]
  ]

  pub reached_store :
      (reached : Bool) (sys : System R N P S A) (source : P.Connection)
      → reaching R N P S A reached sys ≡ done source
      → sys.crawl.store ≡ source
  reached_store true sys source q = done-injective q
  reached_store false sys source q = absurd (done-ne-panic (sym q))

-- What a scan without an error returned is the collection of PostgreSQL.
pub listed-Perm :
    (P : Postgres.Driver) (S : Sqlite.Driver) (A : Type 0)
    (t : IsTable P.engine Postgres.table Postgres.inserted) (source : P.Connection)
    (total out : List PeerData)
    → Source.Serves P t source total
    → All InRange total
    → Postgres.all_peers P {A = A} {S = S.Error} none source ≡ done (ok out)
    → Perm out (map reread total)
listed-Perm P S A t source total out serves range listed =
    elim (Source.all_peers-Serves P t {A = A} {S = S.Error} source total serves none range) [
      | inl (error, failed) ↦ absurd (ok-ne-err (done-injective (sym listed ∙ failed)))
      | inr (found, returned, same) ↦
          subst (λ l. Perm l (map reread total))
            (ok-injective (done-injective (sym returned ∙ listed))) same
    ]
