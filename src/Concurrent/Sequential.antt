-- ===== src/Concurrent/Sequential.antt =====
-- Tasks that run one after another are one of the interleavings.
use mathlib.Core.Path.{subst}
use mathlib.Core.List.{append-nil, append_assoc}
use reth_crawler.Prelude.{◌≡◌, refl, sym, ap, ◌∙◌, List, [], ◌∷◌, ◌++◌, Eq}
use reth_crawler.PeerDb.{PeerDb}
use reth_crawler.Handshake.{Reth, World}
use reth_crawler.Listener.{Sockets}
use reth_crawler.Listener.Streams.{Job, run_job, run_jobs, saved, all_saved}
use reth_crawler.Concurrent.{State, Steps, here}
use reth_crawler.Concurrent.Endings.{Done, Steps-trans}
use reth_crawler.Concurrent.Alone.{run_job-Alone}

module _ {PeerId A S P : Type 0} ⦃e : Eq PeerId⦄ (R : Reth PeerId) (db : PeerDb A S P)
    (N : Sockets R) where
  open R use {NodeRecord, P2pStream, id, address}

  -- Where the moves lead that run jobs one after another.
  pub record InTurn (jobs : List (Job R db N)) (s : State R db N) : Type 0 where
    pub after : State R db N
    pub steps : Steps R db N s after
    pub world : after.world ≡ (run_jobs R db N jobs s.world s.store).world
    pub store : after.store ≡ (run_jobs R db N jobs s.world s.store).store
    pub flights : after.flights ≡ s.flights
    pub log : after.log ≡ s.log ++ all_saved R db N jobs
    pub ended :
        Done s.outcomes → Done (run_jobs R db N jobs s.world s.store).outcomes → Done after.outcomes

  -- Jobs that run one after another are one of the interleavings of their tasks: from every state
  -- there are moves to a state with the shared state, the database and the records that `run_jobs`
  -- leaves, and in it no more tasks are in flight than before.
  pub run_jobs-InTurn : (jobs : List (Job R db N)) (s : State R db N) → InTurn jobs s
  unfolding run_jobs all_saved
  run_jobs-InTurn [] s = record {
    after = s;
    steps = here;
    world = refl;
    store = refl;
    flights = refl;
    log = sym (append-nil s.log);
    ended = λ all fine. all;
  }
  run_jobs-InTurn (job ∷ jobs) s =
      let one = run_job-Alone R db N job s in
      let rest = run_jobs-InTurn jobs one.after in
      let Ran = λ (w : World R) (c : db.Store). run_jobs R db N jobs w c in
      let same : Ran one.after.world one.after.store
          ≡ Ran (run_job R db N job s.world s.store).world
              (run_job R db N job s.world s.store).store =
        λ i. Ran (one.world i) (one.store i) in
      record {
        after = rest.after;
        steps = Steps-trans R db N one.steps rest.steps;
        world = rest.world ∙ ap (λ x. x.world) same;
        store = rest.store ∙ ap (λ x. x.store) same;
        flights = rest.flights ∙ one.flights;
        log =
            rest.log
            ∙ ap (λ l. l ++ all_saved R db N jobs) one.log
            ∙ append_assoc s.log (saved R db N job) (all_saved R db N jobs);
        ended = λ all fine.
            rest.ended (one.ended all fine.0) (subst Done (sym (ap (λ x. x.outcomes) same)) fine.1);
      }
