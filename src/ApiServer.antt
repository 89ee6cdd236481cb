-- ===== src/ApiServer.antt =====
-- bins/api-server/src/main.rs: the server and the synchronisation beside it. What opening the
-- database and serving on the socket give is given; Router is the
-- table of its routes.
pub mod Running
pub mod Router
pub mod Answers
pub mod Requests
pub mod Listing
use reth_crawler.Prelude.{
  ℕ, Bool, true, false, List, [], ◌∷◌, Result, ok, err, Outcome, done, panic,
}
use reth_crawler.Tasks.{Task, running, panicked, returned, TryJoin}
use reth_crawler.Postgres
use reth_crawler.Sqlite
use reth_crawler.DbSync
use reth_crawler.DbSync.{Progress, Tick, SyncError, db_sync_handler}

-- `UPDATE_TIME`, in seconds
abbrev pub update_time : ℕ
update_time = 300

-- The constructor is `StartApiServer`.
pub data Commands : Type 0 where
  start_api_server_command : Commands

-- what clap makes of the command line
pub record Cli : Type 0 where
  pub command : Commands

-- `start_api_server`: `opened` is what `AppState::new_sql` gives, and `served` how the server on the
-- socket stands, whose error is unwrapped
unfoldable pub start_api_server {ℓ κ} :
    {C : Type 0} {F : Type ℓ} {E : Type κ} → Outcome C → Task F → Task E
start_api_server panic served = panicked
start_api_server (done opened) running = running
start_api_server (done opened) panicked = panicked
start_api_server (done opened) (returned (ok stopped)) = returned (ok tt)
start_api_server (done opened) (returned (err e)) = panicked

-- the first task of `main`
unfoldable pub start_api_server_futures {ℓ κ} :
    {C : Type 0} {F : Type ℓ} {E : Type κ} → Commands → Outcome C → Task F → Task E
unfolding start_api_server
start_api_server_futures start_api_server_command opened served = start_api_server opened served

-- the task of `db_sync_handler`
unfoldable pub sync_task {ℓ} : {E : Type ℓ} → Progress E → Task E
sync_task DbSync.looping = running
sync_task DbSync.panicked = panicked
sync_task (DbSync.returned e) = returned (err e)

module _ (P : Postgres.Driver) (S : Sqlite.Driver) (A : Type 0) where
  -- `main`, after the ticks that have come
  unfoldable pub main {ℓ} :
      {C : Type 0} {F : Type ℓ}
      → Cli
      → TryJoin (SyncError P S A)
      → Outcome C
      → Task F
      → List (Tick P S A)
      → S.Connection
      → S.Connection × Task (SyncError P S A)
  unfolding start_api_server_futures sync_task
  main cli j opened served ticks c =
      let server = start_api_server_futures cli.command opened served in
      let (c', progress) = db_sync_handler P S A update_time true ticks c in
      (c', j.try_join server (sync_task progress))
