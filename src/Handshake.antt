-- ===== src/Handshake.antt =====
-- The handshakes of bins/reth-crawler/src/crawler/listener/update_listener.rs: what a task does
-- with one discovered peer, and with one incoming session. The answers of the network, the clock
-- and the geolocation service are arguments. A task waits for the network between reading the
-- failure count and writing it, so `handshake_p2p_handle` is in two parts.
pub mod Counting
pub mod Races
pub mod Burst
use mathlib.Core.Option.{get_or}
use reth_crawler.Prelude.{
  ℕ, ◌+◌, ◌<◌, Bool, true, false, Option, none, some, List, [], ◌∷◌, ◌++◌, Result, ok, err, Outcome,
  done, Eq, leb, lookup, insert, if◌then◌else◌,
}
use reth_crawler.Text.{Text, text}
use reth_crawler.Text.Search.{contains, is_empty}
use reth_crawler.Text.Decimal.{u16_bound, u8_bound}
use reth_crawler.Types.{PeerData, new}
use reth_crawler.PeerDb.{PeerDb, save_peer}
use reth_crawler.Version.{split_version}

abbrev pub p2p_failure_threshold : ℕ
p2p_failure_threshold = 5

-- What the program uses of reth, as an interface: the records that it reads and how they print. A
-- port is a `u16`.
pub record Reth (PeerId : Type 0) : Type 1 where
  pub IpAddr : Type 0
  pub NodeRecord : Type 0
  pub P2pStream : Type 0
  pub id : NodeRecord → PeerId
  pub address : NodeRecord → IpAddr
  pub tcp_port : NodeRecord → ℕ
  pub tcp_port_fits : (n : NodeRecord) → tcp_port n < u16_bound
  pub node_to_string : NodeRecord → Text
  pub id_to_string : PeerId → Text
  pub address_to_string : IpAddr → Text

-- the fields of `HelloMessage` that are read, each capability as it prints
pub record HelloMessage : Type 0 where
  pub client_version : Text
  pub capabilities : List Text

-- the fields of `Status` that are read, as they print; the version is a `u8`
pub record Status : Type 0 where
  pub version : ℕ
  pub version_fits : version < u8_bound
  pub chain : Text
  pub total_difficulty : Text
  pub blockhash : Text
  pub genesis : Text

pub record Location : Type 0 where
  pub country : Text
  pub city : Text
  pub isp : Text

-- the calls of `Discv4` and of the peers handle
pub data Call (PeerId IpAddr : Type 0) : Type 0 where
  send_lookup : PeerId → Call PeerId IpAddr
  ban_ip : IpAddr → Call PeerId IpAddr
  remove_peer : PeerId → Call PeerId IpAddr

-- `geolocate`, with the answer of the locator
unfoldable pub geolocate : Result Text Location → Location
geolocate (ok loc) = loc
geolocate (err e) = record { country = []; city = []; isp = [] }

-- `is_synced`, with the answer of the block hash service
unfoldable pub is_synced : Result Text Bool → Option Bool
is_synced (ok result) = some result
is_synced (err e) = none

-- What the services answer while a task collects a peer's data.
pub record Answers : Type 0 where
  pub now : Text
  pub location : Result Text Location
  pub present : Result Text Bool

module _ {PeerId : Type 0} ⦃e : Eq PeerId⦄ (R : Reth PeerId) where
  open R use {
    IpAddr, NodeRecord, P2pStream, id, address, tcp_port, node_to_string, id_to_string,
    address_to_string,
  }

  -- What the tasks of a listener share: the calls so far, oldest first, and the failure counts.
  pub record World : Type 0 where
    pub calls : List (Call PeerId IpAddr)
    pub p2p_failures : List (PeerId × ℕ)

  abbrev pub call : Call PeerId IpAddr → World → World
  call c w = record w { calls = w.calls ++ c ∷ [] }

  -- `*p2p_failures.get(&id).unwrap_or(&0)`
  abbrev pub failure_count : PeerId → World → ℕ
  failure_count p w = get_or (lookup p w.p2p_failures) 0

  abbrev pub set_count : PeerId → ℕ → World → World
  set_count p n w = record w { p2p_failures = insert p n w.p2p_failures }

  -- up to the wait for `handshake_p2p`: the count that the task goes on with
  unfoldable pub begin_p2p : NodeRecord → World → World × ℕ
  begin_p2p peer w = (call (Call.send_lookup (id peer)) w, failure_count (id peer) w)

  -- after the wait, if the handshake failed with the given message
  unfoldable pub fail_p2p : NodeRecord → ℕ → Text → World → World
  fail_p2p peer count message w =
      if contains message (text "Too many peers")
      then w
      else if leb p2p_failure_threshold (count + 1)
      then set_count (id peer) 0 (call (Call.ban_ip (address peer)) w)
      else set_count (id peer) (count + 1) w

  unfoldable pub handshake_p2p_handle :
      NodeRecord
      → Result Text (P2pStream × HelloMessage)
      → World
      → World × Option (P2pStream × HelloMessage)
  unfolding begin_p2p fail_p2p
  handshake_p2p_handle peer (ok stream) w = let (w', count) = begin_p2p peer w in (w', some stream)
  handshake_p2p_handle peer (err message) w =
      let (w', count) = begin_p2p peer w in (fail_p2p peer count message w', none)

  unfoldable pub handshake_eth_handle :
      NodeRecord → Result Text Status → World → World × Option Status
  handshake_eth_handle peer (ok status) w = (w, some status)
  handshake_eth_handle peer (err message) w = (call (Call.ban_ip (address peer)) w, none)

  -- the record of a peer that answered both handshakes
  unfoldable pub collect : NodeRecord → HelloMessage → Status → Answers → PeerData
  unfolding new geolocate is_synced
  collect peer hello status answers =
      let location = geolocate answers.location in
      let version = split_version hello.client_version in
      new (node_to_string peer) (id_to_string (id peer)) (address_to_string (address peer))
        (tcp_port peer) version.client_name version.client_version version.client_build
        version.client_arch version.os version.client_language hello.capabilities answers.now
        location.country location.city status.genesis status.blockhash status.total_difficulty
        status.chain status.version (is_synced answers.present) location.isp
