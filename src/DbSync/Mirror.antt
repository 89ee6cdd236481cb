-- ===== src/DbSync/Mirror.antt =====
-- The first run of `db_sync` makes the SQLite database mirror the PostgreSQL database.
use mathlib.Core.List.{Perm}
use mathlib.Core.List.Perm
use mathlib.Core.Path.{subst}
use reth_crawler.Prelude.{
  ℕ, ◌≡◌, refl, sym, ap, ◌∙◌, fun_ext, true, false, not, List, [], ◌∷◌, ◌++◌, map, keep, any, ok,
  done, All, ◌==◌, list_eq, nat_eq,
}
use reth_crawler.Types.{PeerData, InRange}
use reth_crawler.PeerDb.Collection.{Distinct}
use reth_crawler.PeerDb.Merge.{absent, merged, any-Perm, Distinct-Perm, upsert_all-merged}
use reth_crawler.Sql.{IsTable}
use reth_crawler.Sql.Stepping.{IsStepTable, Replaces}
use reth_crawler.Sqlite
use reth_crawler.Sqlite.Rows.{reread, stored}
use reth_crawler.Sqlite.Refines as Kept
use reth_crawler.Postgres
use reth_crawler.Postgres.Refines as Source
use reth_crawler.DbSync.{Tick, db_sync}
use reth_crawler.DbSync.Runs.{first_sync-Holds}

reread-others :
    (p : PeerData) (ps : List PeerData)
    → All (λ q. (q.id == p.id) ≡ false) ps
    → All (λ q. (q.id == p.id) ≡ false) (map reread ps)
reread-others p [] h = tt
reread-others p (q ∷ ps) h = (h.0, reread-others p ps h.1)

reread-Distinct : (ps : List PeerData) → Distinct ps → Distinct (map reread ps)
reread-Distinct [] h = tt
reread-Distinct (p ∷ ps) h = (reread-others p ps h.0, reread-Distinct ps h.1)

absent-reread : (ps : List PeerData) (q : PeerData) → absent (map reread ps) q ≡ absent ps q
absent-reread ps q = ap not (same ps)
  where
    same :
        (ps : List PeerData) → any (λ p. q.id == p.id) (map reread ps) ≡ any (λ p. q.id == p.id) ps
    same [] = refl
    same (p ∷ ps) = rw (same ps) refl

merged-Perm :
    (copied peers before : List PeerData)
    → Perm copied (map reread peers)
    → Perm (merged copied before) (map reread peers ++ keep (absent peers) before)
merged-Perm copied peers before same =
    let tests : absent copied ≡ absent peers = fun_ext (λ q.
      ap not (any-Perm (λ p. q.id == p.id) copied (map reread peers) same)
      ∙ absent-reread peers q) in
    subst
      (λ test. Perm (copied ++ keep test before) (map reread peers ++ keep (absent peers) before))
      (sym tests) (Perm.append_right (keep (absent peers) before) same)

module _ (P : Postgres.Driver) (S : Sqlite.Driver) (A : Type 0)
    (s : IsStepTable S.engine Sqlite.table Sqlite.schema)
    (r : Replaces S.engine Sqlite.table Sqlite.key Sqlite.schema s)
    (t : IsTable P.engine Postgres.table Postgres.inserted) where
  -- A successful first run leaves in SQLite every peer of PostgreSQL once, as it is read back, and of
  -- the peers from before exactly those whose id is not in PostgreSQL. No id stands twice in
  -- PostgreSQL, and the numbers of its peers fit their types.
  pub first_sync-Mirrors :
      (update_time : ℕ) (source : P.Connection) (peers : List PeerData) (tick : Tick P S A)
      (c opened c' : S.Connection) (before : List PeerData)
      → Source.Serves P t source peers
      → Distinct peers
      → All InRange peers
      → tick.dynamo_db ≡ done source
      → tick.sqlite_db c ≡ done opened
      → Kept.Holds S s opened before
      → db_sync P S A update_time true tick c ≡ (c', done (ok tt))
      → Kept.Holds S s c' (map reread peers ++ keep (absent peers) before)
  first_sync-Mirrors update_time source peers tick c opened c' before h distinct range open_source
        open_file held synced =
      let (copied, same, holds) =
        first_sync-Holds P S A update_time s r t source peers tick c opened c' before h range
          open_source open_file held synced in
      let apart = Distinct-Perm copied (map reread peers) same (reread-Distinct peers distinct) in
      let mirror =
        Perm.trans (upsert_all-merged copied before apart) (merged-Perm copied peers before same) in
      Perm.trans holds (Perm.map (stored S) mirror)
