-- ===== src/Tests/Joins.antt =====
-- The tasks of the two programs.
use reth_crawler.Prelude.{
  List, map, ap, ◌||◌, false, ◌≡◌, refl, ◌↔◌, [], ◌∷◌, ok, err, done, any, if◌then◌else◌,
}
use reth_crawler.Text.{text}
use reth_crawler.Tasks.{Future, running, panicked, returned, is_running, is_panicked, Join, TryJoin}
use reth_crawler.DbSync.{SyncError}
use reth_crawler.Crawler.Service.{run, UpdateListener, ListenerTasks}
use reth_crawler.Crawler.Joined.{Stands, run-Stands}
use reth_crawler.ApiServer.{start_api_server_command, main}
use reth_crawler.ApiServer.Running.{IsUp, main-IsUp}
use reth_crawler.Tests.Start.{nodes, service}
use reth_crawler.Tests.Sync.{server, tick}
use reth_crawler.Tests.Tables.{driver, before}

abbrev results : {A : Type 0} → List (Future A) → List A
results [] = []
results (returned r ∷ fs) = r ∷ results fs
results (running ∷ fs) = results fs
results (panicked ∷ fs) = results fs

results-returned :
    {A : Type 0} (rs : List A)
    → (any is_panicked (map returned rs) ≡ false)
      × (any is_running (map returned rs) ≡ false)
      × (results (map returned rs) ≡ rs)
results-returned [] = (refl, refl, refl)
results-returned (r ∷ rs) =
    let (fine, still, all) = results-returned rs in (fine, still, ap (◌∷◌ r) all)

abbrev four :
    {A B C D : Type 0} → Future A → Future B → Future C → Future D → Future (A × B × C × D)
four (returned a) (returned b) (returned c) (returned d) = returned (a, b, c, d)
four _ _ _ _ = panicked

abbrev joins : Join
joins = record {
  join_all = λ fs.
      if any is_panicked fs
      then panicked
      else if any is_running fs
      then running
      else returned (results fs);
  all_panic = λ fs one. rw one refl;
  all_wait = λ fs fine one. rw (fine, one) refl;
  all_return =
      λ rs. let (fine, still, all) = results-returned rs in rw (fine, still) (ap returned all);
  join = λ a b c d.
      if is_panicked a || is_panicked b || is_panicked c || is_panicked d
      then panicked
      else if is_running a || is_running b || is_running c || is_running d
      then running
      else four a b c d;
  panics = λ a b c d one. rw one refl;
  waits = λ a b c d fine one. rw (fine, one) refl;
  returns = λ a b c d. refl;
}

abbrev failing : UpdateListener nodes → ListenerTasks nodes
failing u = record { discv4 = returned (err (text "closed")); dnsdisc = running; network = running }

run-Stands_example :
    Stands nodes joins service failing
      (returned (ok tt))
      (run nodes joins service failing (returned (ok tt)))
run-Stands_example = run-Stands nodes joins service failing (returned (ok tt))

abbrev try_joins : TryJoin (SyncError server driver (Unit {0}))
try_joins = record {
  try_join = λ a b. elim a [ running ↦ b | panicked ↦ panicked | returned r ↦ returned r ];
  waits = refl;
  fails = λ e. refl;
  panics = refl;
}

main-IsUp_example :
    ((main server driver
        (Unit {0})
        {F = Unit {0}}
        (record { command = start_api_server_command })
        try_joins
        (done tt)
        running
        (tick ∷ tick ∷ [])
        before).1
      ≡ running)
    ↔ IsUp server driver (Unit {0}) before (tick ∷ tick ∷ [])
main-IsUp_example =
    main-IsUp server driver (Unit {0}) (Unit {0}) (record { command = start_api_server_command })
      try_joins tt (tick ∷ tick ∷ []) before
