-- ===== src/ApiServer/Running.antt =====
-- How long the API server runs.
use reth_crawler.Prelude.{
  ◌≡◌, refl, sym, ap, ◌∙◌, inl, inr, ◌↔◌, Bool, true, false, List, [], ◌∷◌, ok, done, Result-cases,
  Outcome-cases,
}
use reth_crawler.Tasks.{running, TryJoin, is_running}
use mathlib.Core.Bool.{false≢true}
use reth_crawler.Postgres
use reth_crawler.Sqlite
use reth_crawler.DbSync
use reth_crawler.DbSync.{Progress, Tick, SyncError, db_sync, db_sync_handler, looping}
use reth_crawler.DbSync.Runs.{db_sync_handler-Ends}
use reth_crawler.ApiServer.{
  Cli, Commands, start_api_server_command, start_api_server, start_api_server_futures, sync_task,
  update_time, main,
}

module _ (P : Postgres.Driver) (S : Sqlite.Driver) (A : Type 0) where
  -- The ticks up to which the server is there: none has come, or one, whose run succeeded.
  pub data IsUp (c : S.Connection) : List (Tick P S A) → Type 0 where
    no_tick : IsUp c []
    first_tick :
        (tick : Tick P S A)
        → (db_sync P S A update_time true tick c).1 ≡ done (ok tt)
        → IsUp c (tick ∷ [])

  abbrev is_looping : Progress (SyncError P S A) → Bool
  is_looping DbSync.looping = true
  is_looping _ = false

  running-looping :
      (j : TryJoin (SyncError P S A)) (progress : Progress (SyncError P S A))
      → j.try_join running (sync_task progress) ≡ running
      → progress ≡ looping
  unfolding sync_task
  running-looping j DbSync.looping q = refl
  running-looping j DbSync.panicked q = absurd (false≢true (ap is_running (sym j.panics ∙ q)))
  running-looping j (DbSync.returned e) q =
      absurd (false≢true (ap is_running (sym (j.fails e) ∙ q)))

  looping-IsUp :
      (ticks : List (Tick P S A)) (c : S.Connection)
      → (db_sync_handler P S A update_time true ticks c).1 ≡ looping
      → IsUp c ticks
  unfolding db_sync_handler
  looping-IsUp [] c q = no_tick
  looping-IsUp (tick ∷ []) c q = elim (Outcome-cases (db_sync P S A update_time true tick c).1) [
    | inr fails ↦
        let ran : (db_sync_handler P S A update_time true (tick ∷ []) c).1 ≡ DbSync.panicked =
          rw (fails, db_sync_handler) refl in
        absurd (false≢true (ap is_looping (sym ran ∙ q)))
    | inl (r, ends) ↦ elim (Result-cases r) [
      | inl (done_one, synced) ↦ first_tick tick (ends ∙ ap done synced)
      | inr (e, failed) ↦
          let ran : (db_sync_handler P S A update_time true (tick ∷ []) c).1 ≡ DbSync.returned e =
            rw (ends ∙ ap done failed, db_sync_handler) refl in
          absurd (false≢true (ap is_looping (sym ran ∙ q)))
    ]
  ]
  looping-IsUp (first ∷ second ∷ ticks) c q =
      absurd ((db_sync_handler-Ends P S A update_time first second ticks c).0 q)

  IsUp-looping :
      (ticks : List (Tick P S A)) (c : S.Connection)
      → IsUp c ticks
      → (db_sync_handler P S A update_time true ticks c).1 ≡ looping
  unfolding db_sync_handler
  IsUp-looping _ c no_tick = refl
  IsUp-looping _ c (first_tick tick synced) = rw (synced, db_sync_handler) refl

  serving {ℓ} :
      {C : Type 0} (F : Type ℓ) (command : Commands) (opened : C)
      → start_api_server_futures {F = F} {E = SyncError P S A} command (done opened) running
        ≡ running
  unfolding start_api_server_futures start_api_server
  serving F start_api_server_command opened = refl

  -- While the server on the socket serves, the API server runs until the first tick of the
  -- synchronisation whose run fails, and no longer than to the second tick.
  pub main-IsUp {ℓ} :
      {C : Type 0} (F : Type ℓ) (cli : Cli) (j : TryJoin (SyncError P S A)) (opened : C)
      (ticks : List (Tick P S A)) (c : S.Connection)
      → ((main P S A {F = F} cli j (done opened) running ticks c).1 ≡ running) ↔ IsUp c ticks
  unfolding main sync_task
  main-IsUp F cli j opened ticks c = (
    λ q.
        let synced = (db_sync_handler P S A update_time true ticks c).1 in
        looping-IsUp ticks c (
          running-looping j synced
            (sym (ap (λ a. j.try_join a (sync_task synced)) (serving F cli.command opened)) ∙ q)),
    λ up.
        ap (λ a. j.try_join a (sync_task (db_sync_handler P S A update_time true ticks c).1))
          (serving F cli.command opened)
        ∙ ap (λ progress. j.try_join running (sync_task progress)) (IsUp-looping ticks c up)
        ∙ j.waits,
  )
