-- ===== src/Listener/Crawled.antt =====
-- What the listener's tasks leave in a database that keeps a collection of peers.
use mathlib.Core.Path.{subst}
use reth_crawler.Prelude.{
  ◌≡◌, refl, sym, ap, ◌∙◌, inl, inr, List, [], ◌∷◌, ok, err, done, Eq, All, Result-cases,
  Bool-cases,
}
use reth_crawler.Text.Search.{is_empty}
use reth_crawler.Types.{PeerData}
use reth_crawler.PeerDb.{PeerDb, save_peer}
use reth_crawler.PeerDb.Collection.{upsert, upsert_all, upsert_all-append}
use reth_crawler.PeerDb.Keeper.{Keeper, save_peer-Keeps}
use reth_crawler.Handshake.{Reth, World, collect, handshake_p2p_handle, handshake_eth_handle}
use reth_crawler.Listener.{
  Sockets, session_established, peer_added, peer_removed, session_closed, handle_event,
  handshake_and_save_peer, after_p2p, save_or_ban, collect_session,
}
use reth_crawler.Listener.Saving.{looked_up}
use reth_crawler.Listener.Streams.{Job, found, event, run_job, run_jobs, saved, all_saved}

module _ {PeerId A S P : Type 0} ⦃e : Eq PeerId⦄ (R : Reth PeerId) (N : Sockets R)
    (db : PeerDb A S P) (K : Keeper db) where
  -- A task that saves nothing, and one that saves a record.
  job_idle :
      (job : Job R db N) (w : World R) (c : db.Store) (ps : List PeerData)
      → K.Keeps c ps
      → saved R db N job ≡ []
      → (run_job R db N job w c).store ≡ c
      → K.Keeps (run_job R db N job w c).store (upsert_all (saved R db N job) ps)
  unfolding upsert_all
  job_idle job w c ps h nothing same =
      subst (λ l. K.Keeps (run_job R db N job w c).store (upsert_all l ps)) (sym nothing)
        (subst (λ d. K.Keeps d ps) (sym same) h)

  job_saves :
      (job : Job R db N) (p : PeerData) (w : World R) (c : db.Store) (ps : List PeerData)
      → K.Keeps c ps
      → saved R db N job ≡ p ∷ []
      → (run_job R db N job w c).store ≡ (save_peer db p c).0
      → (run_job R db N job w c).outcome ≡ (save_peer db p c).1
      → (run_job R db N job w c).outcome ≡ done tt
      → K.Keeps (run_job R db N job w c).store (upsert_all (saved R db N job) ps)
  unfolding upsert_all
  job_saves job p w c ps h one same ended ends =
      subst (λ l. K.Keeps (run_job R db N job w c).store (upsert_all l ps)) (sym one)
        (subst (λ d. K.Keeps d (upsert p ps)) (sym same)
          (save_peer-Keeps db K p c ps h (sym ended ∙ ends)))

  -- A task that ends without a panic adds what it has to save.
  run_job-Keeps :
      (job : Job R db N) (w : World R) (c : db.Store) (ps : List PeerData)
      → K.Keeps c ps
      → (run_job R db N job w c).outcome ≡ done tt
      → K.Keeps (run_job R db N job w c).store (upsert_all (saved R db N job) ps)
  unfolding run_job saved handle_event is_empty handshake_p2p_handle upsert_all handshake_eth_handle
  run_job-Keeps (found peer (err message) eth answers) w c ps h ends =
      job_idle (found peer (err message) eth answers) w c ps h refl refl
  run_job-Keeps (found peer (ok (stream, hello)) eth answers) w c ps h ends =
      let job : Job R db N = found peer (ok (stream, hello)) eth answers in
      elim (Result-cases (eth stream)) [
        | inr (message, failed) ↦
            job_idle job w c ps h (rw (failed, saved) refl)
              (rw (failed, run_job, handshake_and_save_peer, after_p2p, handshake_eth_handle) refl)
        | inl (status, passed) ↦ elim (Bool-cases (is_empty hello.client_version)) [
          | inl nothing ↦ job_idle job w c ps h (rw (passed, saved) (rw nothing refl)) (
              rw (passed, run_job, handshake_and_save_peer, after_p2p, handshake_eth_handle)
                (rw (nothing, save_or_ban) refl))
          | inr given ↦
              let ends_so : (run_job R db N job w c)
                  ≡ save_or_ban R db peer hello status answers
                      (looked_up R db peer (ok (stream, hello)) eth answers w c) c =
                rw (passed, run_job, handshake_and_save_peer, after_p2p, handshake_eth_handle)
                  (rw (passed, handshake_eth_handle) refl) in
              job_saves job (collect R peer hello status answers) w c ps h
                (rw (passed, saved) (rw given refl))
                (ap (λ x. x.store) ends_so ∙ rw (given, save_or_ban) refl)
                (ap (λ x. x.outcome) ends_so ∙ rw (given, save_or_ban) refl) ends
        ]
      ]
  run_job-Keeps (event (session_established s) answers) w c ps h ends =
      let job : Job R db N = event (session_established s) answers in
      elim (Bool-cases (is_empty s.client_version)) [
        | inl nothing ↦
            job_idle job w c ps h (rw (nothing, saved) refl)
              (rw (nothing, run_job, handle_event) refl)
        | inr given ↦
            job_saves job (collect_session R db N s answers) w c ps h (rw (given, saved) refl)
              (rw (given, run_job, handle_event) refl) (rw (given, run_job, handle_event) refl) ends
      ]
  run_job-Keeps (event (peer_added p) answers) w c ps h ends = h
  run_job-Keeps (event (peer_removed p) answers) w c ps h ends = h
  run_job-Keeps (event (session_closed p reason) answers) w c ps h ends = h

  -- After tasks that end without a panic, in any order in which they reach the database, a
  -- database that keeps a collection holds what it held with the record of each peer that had one to save: a discovered peer
  -- with a client version that answered both handshakes, or a session with a client version. Of the
  -- records with one id the last is kept.
  pub run_jobs-Keeps :
      (jobs : List (Job R db N)) (w : World R) (c : db.Store) (ps : List PeerData)
      → K.Keeps c ps
      → All (λ o. o ≡ done tt) (run_jobs R db N jobs w c).outcomes
      → K.Keeps (run_jobs R db N jobs w c).store (upsert_all (all_saved R db N jobs) ps)
  unfolding run_jobs all_saved upsert_all
  run_jobs-Keeps [] w c ps h ends = h
  run_jobs-Keeps (job ∷ jobs) w c ps h ends =
      let one = run_job R db N job w c in
      let first = saved R db N job in
      let rest = all_saved R db N jobs in
      subst (K.Keeps (run_jobs R db N jobs one.world one.store).store)
        (sym (upsert_all-append first rest ps))
        (run_jobs-Keeps jobs one.world one.store (upsert_all first ps)
          (run_job-Keeps job w c ps h ends.0) ends.1)
