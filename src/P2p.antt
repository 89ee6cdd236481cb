-- ===== src/P2p.antt =====
-- bins/reth-crawler/src/p2p.rs: the two handshakes, as sequences of calls of reth, and `_snoop`.
pub mod Handshakes
pub mod Snooping
use reth_crawler.Prelude.{
  ℕ, ◌≡◌, Option, none, some, List, [], ◌∷◌, ◌++◌, Result, ok, err, Outcome, done, panic,
}
use reth_crawler.Text.{Text, text}
use reth_crawler.Text.Decimal.{to_string}
use reth_crawler.Handshake.{Reth, HelloMessage, Status}

-- What the handshakes use of the network, of reth and of its specification of the main network. The
-- times and ids of forks are optional, as not every network has every fork.
pub record Wire {PeerId : Type 0} (R : Reth PeerId) : Type 1 where
  pub TcpStream : Type 0
  pub EciesStream : Type 0
  pub EthStream : Type 0
  pub SecretKey : Type 0
  pub OurHello : Type 0
  pub Chain : Type 0
  pub Genesis : Type 0
  pub ForkId : Type 0
  pub ForkFilter : Type 0
  pub connect : R.IpAddr → ℕ → Result Text TcpStream
  pub connect_ecies : TcpStream → SecretKey → PeerId → Result Text EciesStream
  pub our_peer_id : SecretKey → PeerId
  pub build_hello : PeerId → OurHello
  pub p2p_handshake : EciesStream → OurHello → Result Text (R.P2pStream × HelloMessage)
  pub mainnet : Chain
  pub mainnet_genesis : Genesis
  pub shanghai_timestamp : Option ℕ
  pub shanghai_fork_id : Option ForkId
  pub fork_filter : ℕ → ForkFilter
  pub shared_capability_version : R.P2pStream → ℕ

-- the status that the crawler sends
pub record OurStatus (Chain Genesis ForkId : Type 0) : Type 0 where
  pub version : ℕ
  pub chain : Chain
  pub genesis : Genesis
  pub forkid : ForkId

-- the messages of a peer; of a block, what `{:?}` prints
pub data EthMessage : Type 0 where
  new_pooled_transaction_hashes66 : ℕ → EthMessage
  new_block : Text → EthMessage
  new_pooled_transaction_hashes68 : ℕ → EthMessage
  new_block_hashes : ℕ → EthMessage
  get_node_data get_receipts get_block_headers get_block_bodies get_pooled_transactions : EthMessage
  other : EthMessage

abbrev pub from_peer : Text → Text
from_peer address = text " from peer " ++ address

abbrev pub unable : Text → Text → Text
unable request address = text "Unable to serve " ++ request ++ text " request to peer " ++ address

-- the line that `_snoop` prints for a message
unfoldable pub line : Text → EthMessage → Option Text
unfolding to_string
line address (new_pooled_transaction_hashes66 n) =
    some (text "Got " ++ to_string n ++ text " new tx hashes" ++ from_peer address)
line address (new_block block) = some (text "Got new block data " ++ block ++ from_peer address)
line address (new_pooled_transaction_hashes68 n) =
    some (text "Got " ++ to_string n ++ text " new tx hashes" ++ from_peer address)
line address (new_block_hashes n) =
    some (text "Got " ++ to_string n ++ text " new block hashes" ++ from_peer address)
line address get_node_data = some (unable (text "GetNodeData") address)
line address get_receipts = some (unable (text "GetReceipts") address)
line address get_block_headers = some (unable (text "GetBlockHeaders") address)
line address get_block_bodies = some (unable (text "GetBlockBodies") address)
line address get_pooled_transactions = some (unable (text "GetPooledTransactions") address)
line address other = none

-- `_snoop`: what is printed of the stream of a peer with this address
unfoldable pub snoop : Text → List (Result Text EthMessage) → List Text
unfolding line
snoop address [] = []
snoop address (err e ∷ updates) = []
snoop address (ok update ∷ updates) =
    let rest = snoop address updates in
    elim (line address update) [ none ↦ rest | some l ↦ l ∷ rest ]

module _ {PeerId : Type 0} {R : Reth PeerId} (W : Wire R) where
  open R use {NodeRecord, P2pStream, id, address, tcp_port}
  open W use {
    EthStream, SecretKey, Chain, Genesis, ForkId, ForkFilter, connect, connect_ecies, our_peer_id,
    build_hello, p2p_handshake, mainnet, mainnet_genesis, shanghai_timestamp, shanghai_fork_id,
    fork_filter, shared_capability_version,
  }

  unfoldable pub handshake_p2p : NodeRecord → SecretKey → Result Text (P2pStream × HelloMessage)
  handshake_p2p peer key = elim (connect (address peer) (tcp_port peer)) [
    | err e ↦ err e
    | ok outgoing ↦ elim (connect_ecies outgoing key (id peer)) [
      | err e ↦ err e
      | ok ecies_stream ↦ p2p_handshake ecies_stream (build_hello (our_peer_id key))
    ]
  ]

  -- the status that is sent on a stream
  unfoldable pub our_status : ForkId → P2pStream → OurStatus Chain Genesis ForkId
  our_status forkid stream = record {
    version = shared_capability_version stream;
    chain = mainnet;
    genesis = mainnet_genesis;
    forkid = forkid;
  }

  -- `handshake_eth`, with the handshake of reth that it ends with
  unfoldable pub handshake_eth :
      (P2pStream → OurStatus Chain Genesis ForkId → ForkFilter → Result Text (EthStream × Status))
      → P2pStream
      → Outcome (Result Text (EthStream × Status))
  unfolding our_status
  handshake_eth handshake p2p_stream = elim shanghai_timestamp [
    | none ↦ panic
    | some timestamp ↦ elim shanghai_fork_id [
      | none ↦ panic
      | some forkid ↦
          done (handshake p2p_stream (our_status forkid p2p_stream) (fork_filter timestamp))
    ]
  ]
