-- ===== src/Concurrent/Endings.antt =====
-- How a task ends that runs from its start to its end before any other goes on.
use mathlib.Core.Path.{subst}
use mathlib.Core.List.{append-nil}
use reth_crawler.Prelude.{
  ◌≡◌, refl, sym, ap, ◌∙◌, inl, inr, false, List, [], ◌∷◌, ◌++◌, ok, Outcome, done, Eq, Bool-cases,
  All,
}
use reth_crawler.Text.{Text}
use reth_crawler.Text.Search.{is_empty}
use reth_crawler.Types.{PeerData}
use reth_crawler.PeerDb.{PeerDb, save_peer}
use reth_crawler.Handshake.{Reth, HelloMessage, Status, begin_p2p}
use reth_crawler.Listener.{Sockets}
use reth_crawler.Listener.Saving.{nil_of_is_empty}
use reth_crawler.Listener.Streams.{Job, run_job, saved}
use reth_crawler.Concurrent.{
  shaking, greeting, collecting, State, hear, discover, save, resume, Step, discovers, goes_on,
  Steps, here, next,
}

-- No task has panicked.
abbrev pub Done : List (Outcome (Unit {0})) → Type 0
Done outcomes = All (λ o. o ≡ done tt) outcomes

module _ {PeerId A S P : Type 0} ⦃e : Eq PeerId⦄ (R : Reth PeerId) (db : PeerDb A S P)
    (N : Sockets R) where
  open R use {NodeRecord, P2pStream, id, address}

  pub Steps-trans : {s t u : State R db N} → Steps R db N s t → Steps R db N t u → Steps R db N s u
  Steps-trans first here = first
  Steps-trans first (next more step) = next (Steps-trans first more) step

  -- A job whose task runs from its start to its end before any other goes on.
  pub record Alone (job : Job R db N) (s : State R db N) : Type 0 where
    pub after : State R db N
    pub steps : Steps R db N s after
    pub world : after.world ≡ (run_job R db N job s.world s.store).world
    pub store : after.store ≡ (run_job R db N job s.world s.store).store
    pub flights : after.flights ≡ s.flights
    pub log : after.log ≡ s.log ++ saved R db N job
    pub ended :
        Done s.outcomes
        → (run_job R db N job s.world s.store).outcome ≡ done tt
        → Done after.outcomes

  pub not_empty : (v : Text) → ¬ (v ≡ []) → is_empty v ≡ false
  not_empty v h = elim (Bool-cases (is_empty v)) [
    | inl nothing ↦ absurd (h (nil_of_is_empty v nothing))
    | inr given ↦ given
  ]

  -- The task of a discovered peer up to the answer of the p2p handshake.
  pub greeted :
      (peer : NodeRecord) (hello : HelloMessage) (s : State R db N)
      → Steps R db N s (record s {
        world = (begin_p2p R peer s.world).0;
        flights = greeting peer hello ∷ s.flights;
      })
  unfolding discover resume begin_p2p
  greeted peer hello s =
      next (next here (discovers peer))
        (goes_on [] s.flights (shaking peer (begin_p2p R peer s.world).1) (ok hello) refl)

  -- and up to that of the eth handshake
  pub welcomed :
      (peer : NodeRecord) (hello : HelloMessage) (status : Status) (s : State R db N)
      → is_empty hello.client_version ≡ false
      → Steps R db N s (record s {
        world = (begin_p2p R peer s.world).0;
        flights = collecting peer hello status ∷ s.flights;
        heard = (peer, hello, ok status) ∷ s.heard;
      })
  unfolding resume begin_p2p
  welcomed peer hello status s given =
      let at = record s { world = (begin_p2p R peer s.world).0 } in
      let after = hear R db N (greeting peer hello) (ok status) at in
      let goes : resume R db N (greeting peer hello) (ok status) after
          ≡ record after { flights = collecting peer hello status ∷ s.flights } =
        rw (given, resume) refl in
      next (greeted peer hello s) (
        subst (Step R db N (record at { flights = greeting peer hello ∷ s.flights })) goes
          (goes_on [] s.flights (greeting peer hello) (ok status) refl))

  -- where the task of a discovered peer ends without a record
  pub idle-Alone :
      (job : Job R db N) (s after : State R db N)
      → Steps R db N s after
      → after.flights ≡ s.flights
      → after.log ≡ s.log
      → after.outcomes ≡ done tt ∷ s.outcomes
      → after.world ≡ (run_job R db N job s.world s.store).world
      → after.store ≡ (run_job R db N job s.world s.store).store
      → saved R db N job ≡ []
      → Alone job s
  idle-Alone job s after steps flights log outcomes world store nothing = record {
    after = after;
    steps = steps;
    world = world;
    store = store;
    flights = flights;
    log = log ∙ sym (append-nil s.log) ∙ ap (λ l. s.log ++ l) (sym nothing);
    ended = λ all fine. subst Done (sym outcomes) (refl, all);
  }

  -- and where a task ends with a record that it saves
  pub save-Alone :
      (job : Job R db N) (p : PeerData) (s at : State R db N)
      → Steps R db N s (save R db N p at)
      → at.flights ≡ s.flights
      → at.log ≡ s.log
      → at.outcomes ≡ s.outcomes
      → at.store ≡ s.store
      → at.world ≡ (run_job R db N job s.world s.store).world
      → (save_peer db p s.store).0 ≡ (run_job R db N job s.world s.store).store
      → (save_peer db p s.store).1 ≡ (run_job R db N job s.world s.store).outcome
      → saved R db N job ≡ p ∷ []
      → Alone job s
  unfolding save
  save-Alone job p s at steps flights log outcomes same world store ran one = record {
    after = save R db N p at;
    steps = steps;
    world = world;
    store = ap (λ c. (save_peer db p c).0) same ∙ store;
    flights = flights;
    log = ap (λ l. l ++ (p ∷ [])) log ∙ ap (λ l. s.log ++ l) (sym one);
    ended = λ all fine.
        (ap (λ c. (save_peer db p c).1) same ∙ ran ∙ fine, subst Done (sym outcomes) all);
  }

  -- an event for which no task is spawned
  pub nothing-Alone :
      (job : Job R db N) (s : State R db N)
      → s.world ≡ (run_job R db N job s.world s.store).world
      → s.store ≡ (run_job R db N job s.world s.store).store
      → saved R db N job ≡ []
      → Alone job s
  nothing-Alone job s world store nothing = record {
    after = s;
    steps = here;
    world = world;
    store = store;
    flights = refl;
    log = sym (append-nil s.log) ∙ ap (λ l. s.log ++ l) (sym nothing);
    ended = λ all fine. all;
  }
