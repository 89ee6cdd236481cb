-- ===== src/Concurrent.antt =====
-- The tasks of bins/reth-crawler/src/crawler/listener/update_listener.rs at the same time: a task
-- runs from one wait to the next, and any task may be next. It waits for the p2p handshake, for the
-- eth handshake, and for the services that are asked about a peer; the database is written at once.
pub mod Counts
pub mod Invariant
pub mod Sound
pub mod Stored
pub mod Endings
pub mod Alone
pub mod Sequential
pub mod Listeners
use reth_crawler.Prelude.{
  ℕ, ◌+◌, ◌≡◌, Bool, true, false, List, [], ◌∷◌, ◌++◌, Result, ok, err, Outcome, done, panic, Eq,
  ◌==◌, if◌then◌else◌,
}
use reth_crawler.Text.{Text, text}
use reth_crawler.Text.Search.{contains, is_empty}
use reth_crawler.Types.{PeerData}
use reth_crawler.PeerDb.{PeerDb, save_peer}
use reth_crawler.Handshake.{
  Reth, HelloMessage, Status, Answers, Call, World, call, begin_p2p, fail_p2p, handshake_eth_handle,
  collect,
}
use reth_crawler.Handshake.Races.{count_failure}
use reth_crawler.Listener.{Session, Sockets, collect_session}

module _ {PeerId A S P : Type 0} ⦃e : Eq PeerId⦄ (R : Reth PeerId) (db : PeerDb A S P)
    (N : Sockets R) where
  open R use {NodeRecord, id, address}
  open db use {Store}

  -- A task at the wait at which it is, with what it has learnt.
  pub data Flight : Type 0 where
    shaking : NodeRecord → ℕ → Flight
    greeting : NodeRecord → HelloMessage → Flight
    collecting : NodeRecord → HelloMessage → Status → Flight
    collecting_session : Session PeerId N.SocketAddr → Flight

  -- what a task is answered at its wait
  abbrev pub Reply : Flight → Type 0
  Reply (shaking peer count) = Result Text HelloMessage
  Reply (greeting peer hello) = Result Text Status
  Reply (collecting peer hello status) = Answers
  Reply (collecting_session s) = Answers

  -- The answer of an eth handshake, with its peer and the hello message from before.
  abbrev pub Heard : Type 0
  Heard = NodeRecord × HelloMessage × Result Text Status

  -- The shared state and the tasks at their waits, the newest first. Beside it stands what has
  -- happened: how the tasks ended, the newest first; the records that were saved, the oldest first;
  -- how many handshakes of each peer failed and counted; and what the eth handshakes answered.
  pub record State : Type 0 where
    pub world : World R
    pub store : Store
    pub flights : List Flight
    pub outcomes : List (Outcome (Unit {0}))
    pub log : List PeerData
    pub failures : PeerId → ℕ
    pub heard : List Heard

  abbrev pub start : Store → State
  start store = record {
    world = record { calls = []; p2p_failures = [] };
    store = store;
    flights = [];
    outcomes = [];
    log = [];
    failures = λ p. 0;
    heard = [];
  }

  -- a task that ends
  abbrev pub finish : Outcome (Unit {0}) → State → State
  finish out s = record s { outcomes = out ∷ s.outcomes }

  -- A task for a discovered peer, up to its first wait.
  unfoldable pub discover : NodeRecord → State → State
  unfolding begin_p2p
  discover peer s =
      let (w, count) = begin_p2p R peer s.world in
      record s { world = w; flights = shaking peer count ∷ s.flights }

  -- A task for an incoming session, up to its first wait.
  unfoldable pub connect : Session PeerId N.SocketAddr → State → State
  connect session s = if is_empty session.client_version then finish (done tt) s else record s {
    world = call R (Call.remove_peer session.peer_id) s.world;
    flights = collecting_session session ∷ s.flights;
  }

  -- A task that saves a record and ends.
  unfoldable pub save : PeerData → State → State
  unfolding save_peer
  save p s =
      let (store, out) = save_peer db p s.store in
      record s { store = store; outcomes = out ∷ s.outcomes; log = s.log ++ (p ∷ []) }

  -- A task that bans the address of a peer and ends.
  abbrev pub refuse : NodeRecord → State → State
  refuse peer s = record s {
    world = call R (Call.ban_ip (address peer)) s.world;
    outcomes = done tt ∷ s.outcomes;
  }

  -- A task from its wait on, up to its next wait or its end; its flight is not among those of `s`.
  unfoldable pub resume : (flight : Flight) → Reply flight → State → State
  unfolding fail_p2p save
  resume (shaking peer count) (err message) s = record s {
    world = fail_p2p R peer count message s.world;
    outcomes = done tt ∷ s.outcomes;
    failures = count_failure R peer message s.failures;
  }
  resume (shaking peer count) (ok hello) s = record s { flights = greeting peer hello ∷ s.flights }
  resume (greeting peer hello) (err message) s = refuse peer s
  resume (greeting peer hello) (ok status) s =
      if is_empty hello.client_version
      then refuse peer s
      else record s { flights = collecting peer hello status ∷ s.flights }
  resume (collecting peer hello status) answers s = save (collect R peer hello status answers) s
  resume (collecting_session session) answers s = save (collect_session R db N session answers) s

  -- What is heard when a task goes on, whatever it then does.
  abbrev pub news : (flight : Flight) → Reply flight → List Heard
  news (shaking peer count) reply = []
  news (greeting peer hello) reply = (peer, hello, reply) ∷ []
  news (collecting peer hello status) reply = []
  news (collecting_session session) reply = []

  abbrev pub hear : (flight : Flight) → Reply flight → State → State
  hear flight reply s = record s { heard = news flight reply ++ s.heard }

  -- One move: a task is spawned, or a task goes on with what it is answered.
  pub data Step (s : State) : State → Type 0 where
    discovers : (peer : NodeRecord) → Step s (discover peer s)
    connects : (session : Session PeerId N.SocketAddr) → Step s (connect session s)
    goes_on :
        (before after : List Flight) (flight : Flight) (reply : Reply flight)
        → s.flights ≡ before ++ (flight ∷ after)
        → Step s (resume flight reply (hear flight reply (record s { flights = before ++ after })))

  -- Any number of moves.
  pub data Steps (s : State) : State → Type 0 where
    here : Steps s s
    next : {t u : State} → Steps s t → Step t u → Steps s u
