-- ===== src/System/Rounds.antt =====
-- What SQLite holds after a tick, and after each round of the loop that copies the peers.
use mathlib.Core.List.{Subset, Subset-trans, cons-subset, nil-subset, map-subset, Perm}
use mathlib.Core.List.Perm
use mathlib.Core.Bool.{false≢true}
use mathlib.Core.Path.{subst}
use reth_crawler.Prelude.{
  ◌≡◌, sym, ap, ◌∙◌, inl, inr, Bool, true, false, List, [], ◌∷◌, ◌++◌, map, Result-cases, done, Eq,
  All, All-append,
}
use reth_crawler.Types.{PeerData, InRange}
use reth_crawler.PeerDb.Collection.{upsert_all, upsert_all-append}
use reth_crawler.PeerDb.Subsets.{append-subset, subset-insert, upsert_all-subset}
use reth_crawler.Sql.{IsTable}
use reth_crawler.Sql.Stepping.{IsStepTable, Replaces}
use reth_crawler.Sql.Conflict.{Upserts}
use reth_crawler.Sqlite
use reth_crawler.Sqlite.Rows.{reread}
use reth_crawler.Sqlite.Copies.{All-InRange-Perm, reread-InRange}
use reth_crawler.Sqlite.Refines as Kept
use reth_crawler.Postgres
use reth_crawler.Postgres.Refines as Source
use reth_crawler.Handshake.{Reth}
use reth_crawler.Listener.{Sockets}
use reth_crawler.ApiServer.{update_time}
use reth_crawler.DbSync.{Tick}
use reth_crawler.System.{Phase, waiting, copying, ended, scan, copy}
use reth_crawler.System.Scan.{scan_cases, listed-Perm}

-- Whether the API server is up.
abbrev pub is_up : Phase → Bool
is_up (waiting first) = true
is_up (copying peers) = true
is_up ended = false

-- the peers that the loop has yet to copy
abbrev left : Phase → List PeerData
left (copying peers) = peers
left _ = []

module _ {PeerId : Type 0} ⦃e : Eq PeerId⦄ (R : Reth PeerId) (N : Sockets R) (P : Postgres.Driver)
    (S : Sqlite.Driver) (A : Type 0) (t : IsTable P.engine Postgres.table Postgres.inserted)
    (u : Upserts P.engine Postgres.table "id" Postgres.inserted t)
    (s : IsStepTable S.engine Sqlite.table Sqlite.schema)
    (r : Replaces S.engine Sqlite.table Sqlite.key Sqlite.schema s) (ps qs : List PeerData) where
  -- The records that were saved, and the peers that PostgreSQL held before, as they are read back.
  abbrev pub sources : List PeerData → List PeerData
  sources log = map reread (log ++ ps)

  -- SQLite holds what it held before, with copies of such peers, and so are those that are left.
  pub record Copies (log : List PeerData) (file : S.Connection) (phase : Phase) : Type 0 where
    pub copies : List PeerData
    pub holds : Kept.Holds S s file (upsert_all copies qs)
    pub range : All InRange copies
    pub known : Subset copies (sources log)
    pub left_range : All InRange (left phase)
    pub left_known : Subset (left phase) (sources log)

  pub Copies-mono :
      (log saved : List PeerData) (file : S.Connection) (phase : Phase)
      → Copies log file phase
      → Copies (log ++ saved) file phase
  Copies-mono log saved file phase h =
      let more = map-subset reread (subset-insert log saved ps) in
      record {
        copies = h.copies;
        holds = h.holds;
        range = h.range;
        known = Subset-trans h.known more;
        left_range = h.left_range;
        left_known = Subset-trans h.left_known more;
      }

  -- What a step leaves, unless it ends the API server.
  abbrev Leaves : List PeerData → S.Connection × Phase → Type 0
  Leaves log run = is_up run.1 ≡ true → Copies log run.0 run.1

  ends : (log : List PeerData) (file : S.Connection) → Leaves log (file, ended)
  ends log file up = absurd (false≢true up)

  -- One round of the loop.
  pub copy-Leaves :
      (log : List PeerData) (file : S.Connection) (peer : PeerData) (peers : List PeerData)
      → Copies log file (copying (peer ∷ peers))
      → Leaves log (copy R N P S A peer peers file)
  unfolding copy upsert_all
  copy-Leaves log file peer peers h =
      let ran = Sqlite.add_peer S {A = A} {P = P.Error} peer file in
      elim (Result-cases ran.1) [
        | inr (error, failed) ↦ rw (failed, copy) (ends log ran.0)
        | inl (added, worked) ↦
            let (now, rest) = cons-subset.0 h.left_known in
            let holds =
              Kept.add_peer-Holds S s r {A = A} {P = P.Error} peer file ran.0
                (upsert_all h.copies qs) h.holds (λ i. (ran.0, worked i)) in
            rw (worked, copy)
              (λ up. record {
                copies = h.copies ++ (peer ∷ []);
                holds =
                    subst (Kept.Holds S s ran.0) (sym (upsert_all-append h.copies (peer ∷ []) qs))
                      holds;
                range = All-append InRange h.copies (peer ∷ []) h.range (h.left_range.0, tt);
                known =
                    append-subset h.copies (peer ∷ []) (sources log) h.known
                      (cons-subset.1 (now, nil-subset (sources log)));
                left_range = h.left_range.1;
                left_known = rest;
              })
      ]

  -- The first tick: the loop starts with what PostgreSQL holds.
  pub first_scan-Leaves :
      (log : List PeerData) (file : S.Connection) (tick : Tick P S A)
      → ((opened : S.Connection)
          → tick.sqlite_db file ≡ done opened
          → Perm (s.rows opened) (s.rows file))
      → ((source : P.Connection)
          → tick.dynamo_db ≡ done source
          → Source.Serves P t source (upsert_all log ps))
      → All InRange (upsert_all log ps)
      → Copies log file (waiting true)
      → Leaves log (scan R N P S A update_time true tick file)
  first_scan-Leaves log file tick reopens serves range h = elim (scan_cases R N P S A tick file) [
    | inl over ↦ λ up. absurd (false≢true (sym (ap is_up over) ∙ up))
    | inr (source, opened, out, open_source, open_file, listed, ran) ↦
        let total = upsert_all log ps in
        let same = listed-Perm P S A t source total out (serves source open_source) range listed in
        subst (Leaves log) (sym ran) (λ up. record {
          copies = h.copies;
          holds = Perm.trans (reopens opened open_file) h.holds;
          range = h.range;
          known = h.known;
          left_range = All-InRange-Perm out (map reread total) same (reread-InRange total range);
          left_known =
              Subset-trans (Perm.subset same) (map-subset reread (upsert_all-subset log ps));
        })
  ]
