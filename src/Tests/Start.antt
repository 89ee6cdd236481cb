-- ===== src/Tests/Start.antt =====
-- The crawler with five nodes, where everything answers.
use reth_crawler.Prelude.{
  ℕ, ◌+◌, ◌≤◌, ◌≡◌, refl, ◌↔◌, some, List, [], ◌∷◌, ok, done, arith, nat_eq, length, Outcome,
}
use reth_crawler.Text.Decimal.{u16_bound}
use reth_crawler.BlockHashNum.{new}
use reth_crawler.Crawler.{
  Nodes, crawl, default_opts, configure, Start, NodeAnswers, u16_add, build_nodes, build_node,
  start_node,
}
use reth_crawler.Crawler.Service.{
  UpdateListener, Environment, CrawlerService, open_db, build, start_crawler, new_service,
}
use reth_crawler.Crawler.Ports.{ports, ports_from}
use reth_crawler.Crawler.Built.{build-Ports}
use reth_crawler.Crawler.Starting.{IsUp, start_crawler-done}
use reth_crawler.Tests.Network.{reth}
use reth_crawler.Tests.Blocks.{lru}

abbrev pub nodes : Nodes reth
nodes = record {
  Error = Unit {0};
  SecretKey = ℕ;
  Discv4 = ℕ;
  DnsDiscoveryHandle = ℕ;
  NetworkHandle = ℕ;
  Provider = Unit {0};
  Database = ℕ;
  default_discovery_port = 30303;
  port_fits = omega arith;
  boot_nodes = (1, 2, 30303) ∷ [];
  from_secret_key = λ key. (key, 0, 30303);
  set_udp_port = λ port n. n;
}

abbrev answers : ℕ → NodeAnswers nodes
answers i = record {
  key = i;
  start_network = λ c. ok i;
  start_discv4 = λ c. ok i;
  start_dns = ok i;
}

abbrev environment : Environment nodes
environment = record {
  connect = λ url. ok tt;
  nodes = answers;
  open_file = λ i path. ok 0;
  create_table = λ i db. ok tt;
  var = λ name. some name;
  connect_postgres = λ i url. ok 1;
}

abbrev five : List (Start nodes) × Outcome (CrawlerService nodes)
five = start_crawler nodes lru (record { command = crawl default_opts }) environment

program : Unit {0}
unfolding start_crawler build build_nodes build_node start_node u16_add new_service new
program = tt

up : IsUp nodes default_opts environment
unfolding open_db
up = record {
  provider = tt;
  connects = refl;
  nodes = λ i. record {
    net = i;
    disc = i;
    dnsdisc = i;
    starts_network = λ c. refl;
    starts_discv4 = λ c. refl;
    starts_dns = refl;
  };
  db = λ i. 1;
  opens = λ i. refl;
}

start_crawler-done_example :
    ((s : CrawlerService nodes) × (five.1 ≡ done s)) ↔ (30303 + 5 ≤ u16_bound)
start_crawler-done_example = start_crawler-done nodes lru default_opts environment up

abbrev built : List (Start nodes) × Outcome (CrawlerService nodes)
built = build nodes lru (configure default_opts) 5 environment

abbrev listener : ℕ → UpdateListener nodes
listener i = record { discv4 = i; dnsdisc = i; network = i; key = i; db = 1; p2p_failures = [] }

abbrev pub service : CrawlerService nodes
service = record {
  provider = tt;
  updates = listener 0 ∷ listener 1 ∷ listener 2 ∷ listener 3 ∷ listener 4 ∷ [];
}

build-Ports_example :
    (ports nodes built.0 ≡ ports_from 30303 5)
    × (30303 + 5 ≤ u16_bound)
    × (length service.updates ≡ 5)
unfolding program
build-Ports_example =
    build-Ports nodes lru (configure default_opts) 5 environment built.0 service refl
