-- ===== src/System/Copied.antt =====
-- How far a loop of the synchronisation has come, whatever goes on beside it.
use mathlib.Core.List.{append-nil, append_assoc}
use mathlib.Core.Bool.{false≢true}
use mathlib.Core.Path.{subst}
use reth_crawler.Prelude.{
  ℕ, ◌≡◌, sym, ap, ◌∙◌, inl, inr, true, false, List, [], ◌∷◌, ◌++◌, Outcome, Result-cases, Eq,
}
use reth_crawler.Types.{PeerData}
use reth_crawler.PeerDb.Collection.{upsert_all, upsert_all-append}
use reth_crawler.Sql.Stepping.{IsStepTable, Replaces}
use reth_crawler.Sqlite
use reth_crawler.Sqlite.Refines as Kept
use reth_crawler.Postgres
use reth_crawler.Handshake.{Reth}
use reth_crawler.Listener.{Sockets}
use reth_crawler.ApiServer.{update_time}
use reth_crawler.DbSync.{Tick}
use reth_crawler.System.{
  Phase, waiting, copying, ended, System, scan, copy, reaching, Runs, here, crawls, ticks, copies,
  copied,
}
use reth_crawler.System.Scan.{later_scan-ended}
use reth_crawler.System.Rounds.{is_up}

module _ {PeerId : Type 0} ⦃e : Eq PeerId⦄ (R : Reth PeerId) (N : Sockets R) (P : Postgres.Driver)
    (S : Sqlite.Driver) (A : Type 0) (s : IsStepTable S.engine Sqlite.table Sqlite.schema)
    (r : Replaces S.engine Sqlite.table Sqlite.key Sqlite.schema s)
    (open_file : ℕ → S.Connection → Outcome S.Connection) where
  -- How far the peers of a scan have been copied into a file that held `qs`.
  abbrev pub Progress : List PeerData → List PeerData → Phase → S.Connection → Type 0
  Progress out qs (waiting true) file = ⊥
  Progress out qs (waiting false) file = Kept.Holds S s file (upsert_all out qs)
  Progress out qs (copying rest) file =
      (before : List PeerData) × (before ++ rest ≡ out) × Kept.Holds S s file (upsert_all before qs)
  Progress out qs ended file = Unit

  copy-Progress :
      (out qs : List PeerData) (peer : PeerData) (rest : List PeerData) (file : S.Connection)
      → Progress out qs (copying (peer ∷ rest)) file
      → Progress out qs (copy R N P S A peer rest file).1 (copy R N P S A peer rest file).0
  unfolding copy upsert_all
  copy-Progress out qs peer rest file (before, split, holds) =
      let ran = Sqlite.add_peer S {A = A} {P = P.Error} peer file in
      elim (Result-cases ran.1) [
        | inr (error, failed) ↦ rw (failed, copy) tt
        | inl (added, worked) ↦
            let now =
              Kept.add_peer-Holds S s r {A = A} {P = P.Error} peer file ran.0 (upsert_all before qs)
                holds (λ i. (ran.0, worked i)) in
            rw (worked, copy)
              (
                before ++ (peer ∷ []),
                append_assoc before (peer ∷ []) rest ∙ split,
                subst (Kept.Holds S s ran.0) (sym (upsert_all-append before (peer ∷ []) qs)) now,
              )
      ]

  later-Progress :
      (out qs : List PeerData) (tick : Tick P S A) (file : S.Connection)
      → Progress out qs
          (scan R N P S A update_time false tick file).1
          (scan R N P S A update_time false tick file).0
  later-Progress out qs tick file =
      let run = scan R N P S A update_time false tick file in
      subst (λ phase. Progress out qs phase run.0) (sym (later_scan-ended R N P S A tick file)) tt

  -- From the scan on, whatever the listeners do.
  pub Runs-Progress :
      (out qs : List PeerData) (start : System R N P S A) {sys : System R N P S A}
      → Progress out qs start.phase start.file
      → Runs R N P S A open_file start sys
      → Progress out qs sys.phase sys.file
  Runs-Progress out qs start h here = h
  Runs-Progress out qs start h (crawls i runs step) = Runs-Progress out qs start h runs
  Runs-Progress out qs start h (ticks {t = v} true k reached clock runs at) =
      absurd (subst (λ phase. Progress out qs phase v.file) at (Runs-Progress out qs start h runs))
  Runs-Progress out qs start h (ticks {t = v} false k reached clock runs at) =
      later-Progress out qs
        (record {
          dynamo_db = reaching R N P S A reached v;
          sqlite_db = open_file k;
          seconds_ago = clock;
        })
        v.file
  Runs-Progress out qs start h (copies {t = v} peer peers runs at) =
      copy-Progress out qs peer peers v.file
        (subst (λ phase. Progress out qs phase v.file) at (Runs-Progress out qs start h runs))
  Runs-Progress out qs start h (copied {t = v} runs at) =
      let (before, split, holds) =
        subst (λ phase. Progress out qs phase v.file) at (Runs-Progress out qs start h runs) in
      subst (λ l. Kept.Holds S s v.file (upsert_all l qs)) (sym (append-nil before) ∙ split) holds

  -- The API server does not come back.
  pub Runs-ended :
      (start : System R N P S A) {sys : System R N P S A}
      → is_up start.phase ≡ false
      → Runs R N P S A open_file start sys
      → is_up sys.phase ≡ false
  Runs-ended start h here = h
  Runs-ended start h (crawls i runs step) = Runs-ended start h runs
  Runs-ended start h (ticks first k reached clock runs at) =
      absurd (false≢true (sym (Runs-ended start h runs) ∙ ap is_up at))
  Runs-ended start h (copies peer peers runs at) =
      absurd (false≢true (sym (Runs-ended start h runs) ∙ ap is_up at))
  Runs-ended start h (copied runs at) =
      absurd (false≢true (sym (Runs-ended start h runs) ∙ ap is_up at))
