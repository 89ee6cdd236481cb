-- ===== src/Listener/Streams.antt =====
-- The loops of bins/reth-crawler/src/crawler/listener/update_listener.rs over the streams of the
-- listener, and the tasks that they spawn. A task reaches the database once, so tasks that run at
-- the same time are run here in the order in which they reach it.
use reth_crawler.Prelude.{
  List, [], ◌∷◌, ◌++◌, map, Result, ok, err, Outcome, Eq, map_ok, if◌then◌else◌,
}
use reth_crawler.Text.{Text}
use reth_crawler.Text.Search.{is_empty}
use reth_crawler.Types.{PeerData}
use reth_crawler.PeerDb.{PeerDb}
use reth_crawler.Handshake.{Reth, HelloMessage, Status, Answers, World, collect}
use reth_crawler.Listener.{
  Sockets, NetworkEvent, session_established, DiscoveryUpdate, discovered, Ending,
  handshake_and_save_peer, collect_session, handle_event,
}

-- the field of `DnsNodeRecordUpdate` that is read
pub record DnsNodeRecordUpdate (NodeRecord : Type 0) : Type 0 where
  pub node_record : NodeRecord

-- `start_discv4`, with what `update_stream` returns: the peers that tasks are spawned for
unfoldable pub start_discv4 :
    {N : Type 0} → Result Text (List (DiscoveryUpdate N)) → Result Text (List N)
unfolding discovered
start_discv4 stream = map_ok discovered stream

-- `start_dnsdisc`, with what `node_record_stream` returns
unfoldable pub start_dnsdisc :
    {N : Type 0} → Result Text (List (DnsNodeRecordUpdate N)) → Result Text (List N)
start_dnsdisc stream = map_ok (map (λ u. u.node_record)) stream

module _ {PeerId A S P : Type 0} ⦃e : Eq PeerId⦄ (R : Reth PeerId) (db : PeerDb A S P)
    (N : Sockets R) where
  open R use {NodeRecord, P2pStream}
  open db use {Store}
  open N use {SocketAddr}

  -- A spawned task with all that it is answered: for a discovered peer, or for an event of the
  -- network.
  pub data Job : Type 0 where
    found :
        NodeRecord
        → Result Text (P2pStream × HelloMessage)
        → (P2pStream → Result Text Status)
        → Answers
        → Job
    event : NetworkEvent PeerId SocketAddr → Answers → Job

  unfoldable pub run_job : Job → World R → Store → Ending R db
  unfolding handshake_and_save_peer handle_event
  run_job (found peer p2p eth answers) w store =
      handshake_and_save_peer R db peer p2p eth answers w store
  run_job (event ev answers) w store = handle_event R db N ev answers w store

  -- What the tasks leave: a panic ends only its own task.
  pub record Crawled : Type 0 where
    pub world : World R
    pub store : Store
    pub outcomes : List (Outcome (Unit {0}))

  unfoldable pub run_jobs : List Job → World R → Store → Crawled
  unfolding run_job
  run_jobs [] w store = record { world = w; store = store; outcomes = [] }
  run_jobs (job ∷ jobs) w store =
      let end = run_job job w store in
      let rest = run_jobs jobs end.world end.store in
      record { world = rest.world; store = rest.store; outcomes = end.outcome ∷ rest.outcomes }

  -- the record that a task has to save: of a peer with a client version that answers both
  -- handshakes, and of a session with one
  unfoldable pub saved : Job → List PeerData
  unfolding collect collect_session
  saved (found peer (err message) eth answers) = []
  saved (found peer (ok (stream, hello)) eth answers) = elim (eth stream) [
    | err message ↦ []
    | ok status ↦
        if is_empty hello.client_version then [] else collect R peer hello status answers ∷ []
  ]
  saved (event (session_established s) answers) =
      if is_empty s.client_version then [] else collect_session R db N s answers ∷ []
  saved (event _ answers) = []

  unfoldable pub all_saved : List Job → List PeerData
  unfolding saved
  all_saved [] = []
  all_saved (job ∷ jobs) = saved job ++ all_saved jobs
