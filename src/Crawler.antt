-- ===== src/Crawler.antt =====
-- bins/reth-crawler/src: main.rs, and factory.rs and service.rs of crawler. What is started is
-- logged; what the network, the node's endpoint and the databases answer is given.
pub mod Service
pub mod Ports
pub mod Built
pub mod Starting
pub mod Joined
use reth_crawler.Prelude.{
  ℕ, zero, suc, ◌+◌, ◌<◌, ◌≡◌, Bool, true, false, ◌&&◌, Option, none, some, List, [], ◌∷◌, ◌++◌,
  Result, ok, err, Outcome, done, panic, Eq, ltb, ◌==◌, nat_eq, length, if◌then◌else◌,
}
use reth_crawler.Text.{Text, text}
use reth_crawler.Text.Decimal.{u16_bound}
use reth_crawler.Handshake.{Reth}
use reth_crawler.BlockHashNum
use reth_crawler.BlockHashNum.Lru.{LruCache}
use reth_crawler.BlockHashNum.{BlockHashNum}

pub record CrawlerBuilder : Type 0 where
  pub local_db : Bool
  pub eth_rpc_url : Option Text
  pub max_inbound : ℕ
  pub max_outbound : ℕ
  pub lookup_interval : ℕ

-- `CrawlerBuilder::default()`; the lookup interval is in seconds
abbrev pub default : CrawlerBuilder
default = record {
  local_db = false;
  eth_rpc_url = none;
  max_inbound = 10000;
  max_outbound = 0;
  lookup_interval = 3;
}

abbrev pub with_local_db : CrawlerBuilder → CrawlerBuilder
with_local_db b = record b { local_db = true }

abbrev pub without_local_db : CrawlerBuilder → CrawlerBuilder
without_local_db b = record b { local_db = false }

abbrev pub with_eth_rpc_url : Text → CrawlerBuilder → CrawlerBuilder
with_eth_rpc_url url b = record b { eth_rpc_url = some url }

-- the options of the command `crawl`
pub record CrawlOpts : Type 0 where
  pub local_db : Bool
  pub eth_rpc_url : Text
  pub n_nodes : ℕ

pub data Commands : Type 0 where
  crawl : CrawlOpts → Commands

-- what clap makes of the command line
pub record Cli : Type 0 where
  pub command : Commands

-- the options that a command line without arguments stands for
abbrev pub default_opts : CrawlOpts
default_opts = record { local_db = false; eth_rpc_url = text "wss://localhost:8546"; n_nodes = 5 }

-- the builder that `main` configures
unfoldable pub configure : CrawlOpts → CrawlerBuilder
configure opts =
    with_eth_rpc_url opts.eth_rpc_url
      (if opts.local_db then with_local_db default else without_local_db default)

-- What the program uses of reth to run a node, and of the clients of the databases. A port is a
-- `u16`; an error is what `unwrap` panics with.
pub record Nodes {PeerId : Type 0} (R : Reth PeerId) : Type 1 where
  pub Error : Type 0
  pub SecretKey : Type 0
  pub Discv4 : Type 0
  pub DnsDiscoveryHandle : Type 0
  pub NetworkHandle : Type 0
  pub Provider : Type 0
  pub Database : Type 0
  pub default_discovery_port : ℕ
  pub port_fits : default_discovery_port < u16_bound
  pub boot_nodes : List R.NodeRecord
  pub from_secret_key : SecretKey → R.NodeRecord
  pub set_udp_port : ℕ → R.NodeRecord → R.NodeRecord

-- `a + b` of `u16`, which panics on overflow in the builds that the README describes
unfoldable pub u16_add : ℕ → ℕ → Option ℕ
u16_add a b = if ltb (a + b) u16_bound then some (a + b) else none

module _ {PeerId : Type 0} {R : Reth PeerId} (N : Nodes R) where
  open N use {
    Error, SecretKey, Discv4, DnsDiscoveryHandle, NetworkHandle, Provider, Database,
    default_discovery_port, boot_nodes, from_secret_key, set_udp_port,
  }

  pub record NetworkConfig : Type 0 where
    pub secret_key : SecretKey
    pub discovery : Bool
    pub max_outbound : ℕ
    pub max_inbound : ℕ
    pub listener_port : ℕ

  pub record DiscoveryConfig : Type 0 where
    pub enr : R.NodeRecord
    pub secret_key : SecretKey
    pub boot_nodes : List R.NodeRecord
    pub lookup_interval : ℕ

  -- what is started
  pub data Start : Type 0 where
    network : NetworkConfig → Start
    discovery : DiscoveryConfig → Start
    dns : Start
    state : Start

  -- What is answered for one node: the random key, and the results of the three services.
  pub record NodeAnswers : Type 0 where
    pub key : SecretKey
    pub start_network : NetworkConfig → Result Error NetworkHandle
    pub start_discv4 : DiscoveryConfig → Result Error Discv4
    pub start_dns : Result Error DnsDiscoveryHandle

  -- the four vectors of `build`
  pub record Vecs : Type 0 where
    pub all_discv4 : List Discv4
    pub all_dnsdisc : List DnsDiscoveryHandle
    pub all_network : List NetworkHandle
    pub all_key : List SecretKey

  unfoldable pub network_config : CrawlerBuilder → SecretKey → ℕ → NetworkConfig
  network_config b key port = record {
    secret_key = key;
    discovery = false;
    max_outbound = b.max_outbound;
    max_inbound = b.max_inbound;
    listener_port = port;
  }

  unfoldable pub discovery_config : CrawlerBuilder → SecretKey → ℕ → DiscoveryConfig
  discovery_config b key port = record {
    enr = set_udp_port port (from_secret_key key);
    secret_key = key;
    boot_nodes = boot_nodes;
    lookup_interval = b.lookup_interval;
  }

  -- the starts of one round on a port, with the results pushed
  unfoldable pub start_node :
      CrawlerBuilder → NodeAnswers → ℕ → Vecs → List Start → List Start × Outcome Vecs
  start_node b a port v log = elim (a.start_network (network_config b a.key port)) [
    | err e ↦ (log, panic)
    | ok net ↦
        let log1 = log ++ (network (network_config b a.key port) ∷ []) in
        elim (a.start_discv4 (discovery_config b a.key port)) [
          | err e ↦ (log1, panic)
          | ok discv4 ↦
              let log2 = log1 ++ (discovery (discovery_config b a.key port) ∷ []) in
              elim a.start_dns [
                | err e ↦ (log2, panic)
                | ok dnsdisc ↦ (
                  log2 ++ (dns ∷ []),
                  done (record {
                    all_discv4 = v.all_discv4 ++ (discv4 ∷ []);
                    all_dnsdisc = v.all_dnsdisc ++ (dnsdisc ∷ []);
                    all_network = v.all_network ++ (net ∷ []);
                    all_key = v.all_key ++ (a.key ∷ []);
                  }),
                )
              ]
        ]
  ]

  -- one round of the loop of `build`
  unfoldable pub build_node :
      CrawlerBuilder → NodeAnswers → ℕ → Vecs → List Start → List Start × Outcome Vecs
  unfolding start_node u16_add
  build_node b a i v log = elim (u16_add default_discovery_port i) [
    | none ↦ (log, panic)
    | some port ↦ start_node b a port v log
  ]

  -- the rounds from the `i`-th on, `left` of them
  unfoldable pub build_nodes :
      CrawlerBuilder → (ℕ → NodeAnswers) → ℕ → ℕ → Vecs → List Start → List Start × Outcome Vecs
  unfolding build_node
  build_nodes b answers i zero v log = (log, done v)
  build_nodes b answers i (suc left) v log =
      let (log', out) = build_node b (answers i) i v log in
      elim out [ panic ↦ (log', panic) | done v' ↦ build_nodes b answers (suc i) left v' log' ]
