-- ===== src/Listener.antt =====
-- The tasks of bins/reth-crawler/src/crawler/listener/update_listener.rs that save peers: one for
-- each discovered peer (`handshake_and_save_peer`), one for each incoming session.
pub mod Saving
pub mod Streams
pub mod Crawled
pub mod Latest
use reth_crawler.Prelude.{
  ℕ, ◌<◌, Bool, true, false, Option, none, some, List, [], ◌∷◌, Result, ok, err, Outcome, done,
  panic, Eq, if◌then◌else◌,
}
use reth_crawler.Text.{Text}
use reth_crawler.Text.Search.{is_empty}
use reth_crawler.Text.Decimal.{u16_bound, u8_bound}
use reth_crawler.Types.{PeerData, new}
use reth_crawler.PeerDb.{PeerDb, save_peer}
use reth_crawler.Version.{split_version}
use reth_crawler.Handshake.{
  Reth, HelloMessage, Status, Answers, Call, World, call, geolocate, is_synced,
  handshake_p2p_handle, handshake_eth_handle, collect,
}

-- an incoming session: the fields of `SessionEstablished` that are read, with the number of
-- its eth version, a `u8`
pub record Session (PeerId SocketAddr : Type 0) : Type 0 where
  pub peer_id : PeerId
  pub remote_addr : SocketAddr
  pub client_version : Text
  pub capabilities : List Text
  pub status : Status
  pub version : ℕ
  pub version_fits : version < u8_bound

pub data NetworkEvent (PeerId SocketAddr : Type 0) : Type 0 where
  session_established : Session PeerId SocketAddr → NetworkEvent PeerId SocketAddr
  peer_added peer_removed : PeerId → NetworkEvent PeerId SocketAddr
  session_closed : PeerId → Option Text → NetworkEvent PeerId SocketAddr

-- the updates of discovery v4; `other` stands for those that the listener passes over
pub data DiscoveryUpdate (NodeRecord : Type 0) : Type 0 where
  added discovered_at_capacity : NodeRecord → DiscoveryUpdate NodeRecord
  other : DiscoveryUpdate NodeRecord

-- What the program uses of a socket address.
pub record Sockets {PeerId : Type 0} (R : Reth PeerId) : Type 1 where
  pub SocketAddr : Type 0
  pub ip : SocketAddr → R.IpAddr
  pub port : SocketAddr → ℕ
  pub port_fits : (a : SocketAddr) → port a < u16_bound
  pub node_record : SocketAddr → PeerId → R.NodeRecord

-- `start_discv4`: the peers that a task is spawned for
unfoldable pub discovered : {N : Type 0} → List (DiscoveryUpdate N) → List N
discovered [] = []
discovered (added peer ∷ updates) = peer ∷ discovered updates
discovered (discovered_at_capacity peer ∷ updates) = peer ∷ discovered updates
discovered (other ∷ updates) = discovered updates

module _ {PeerId A S P : Type 0} ⦃e : Eq PeerId⦄ (R : Reth PeerId) (db : PeerDb A S P) where
  open R use {NodeRecord, P2pStream, id, address, node_to_string, id_to_string, address_to_string}
  open db use {Store}

  -- what a task leaves: the shared state, the database, and whether it panicked
  pub record Ending : Type 0 where
    pub world : World R
    pub store : Store
    pub outcome : Outcome (Unit {0})

  -- from the test of the client version on
  unfoldable pub save_or_ban :
      NodeRecord → HelloMessage → Status → Answers → World R → Store → Ending
  save_or_ban peer hello status answers w store =
      if is_empty hello.client_version
      then record {
        world = call R (Call.ban_ip (address peer)) w;
        store = store;
        outcome = done tt;
      }
      else (let (store', outcome) = save_peer db (collect R peer hello status answers) store in
          record { world = w; store = store'; outcome = outcome })

  -- from the eth handshake on
  unfoldable pub after_p2p :
      NodeRecord
      → (P2pStream → Result Text Status)
      → Answers
      → World R × Option (P2pStream × HelloMessage)
      → Store
      → Ending
  unfolding save_or_ban
  after_p2p peer eth answers (w, none) store = record {
    world = w;
    store = store;
    outcome = done tt;
  }
  after_p2p peer eth answers (w, some (stream, hello)) store =
      let (w', status) = handshake_eth_handle R peer (eth stream) w in
      elim status [
        | none ↦ record { world = w'; store = store; outcome = done tt }
        | some status ↦ save_or_ban peer hello status answers w' store
      ]

  -- `p2p` and `eth` are what the handshakes return, `answers` what the other services answer
  unfoldable pub handshake_and_save_peer :
      NodeRecord
      → Result Text (P2pStream × HelloMessage)
      → (P2pStream → Result Text Status)
      → Answers
      → World R
      → Store
      → Ending
  unfolding after_p2p
  handshake_and_save_peer peer p2p eth answers w store =
      after_p2p peer eth answers (handshake_p2p_handle R peer p2p w) store

  module _ (N : Sockets R) where
    open N use {SocketAddr, ip, port, node_record}

    unfoldable pub collect_session : Session PeerId SocketAddr → Answers → PeerData
    unfolding new geolocate is_synced
    collect_session s answers =
        let location = geolocate answers.location in
        let version = split_version s.client_version in
        new (node_to_string (node_record s.remote_addr s.peer_id)) (id_to_string s.peer_id)
          (address_to_string (ip s.remote_addr)) (port s.remote_addr) version.client_name
          version.client_version version.client_build version.client_arch version.os
          version.client_language s.capabilities answers.now location.country location.city
          s.status.genesis s.status.blockhash s.status.total_difficulty s.status.chain s.version
          (is_synced answers.present) location.isp

    -- one round of the loop of `start_network`, with the task that it spawns
    unfoldable pub handle_event :
        NetworkEvent PeerId SocketAddr → Answers → World R → Store → Ending
    unfolding collect_session
    handle_event (session_established s) answers w store =
        if is_empty s.client_version
        then record { world = w; store = store; outcome = done tt }
        else (let (store', outcome) = save_peer db (collect_session s answers) store in
            record {
              world = call R (Call.remove_peer s.peer_id) w;
              store = store';
              outcome = outcome;
            })
    handle_event _ answers w store = record { world = w; store = store; outcome = done tt }
