-- ===== src/Tests/Network.antt =====
-- The listener over numbers for ids and addresses, and a database that is a list.
use reth_crawler.Prelude.{
  done, ℕ, ◌+◌, ◌%◌, ◌/◌, ◌≡◌, refl, true, some, List, [], ◌∷◌, Result, ok, err, nat_eq, arith,
  lookup,
}
use reth_crawler.Text.{Text, text}
use reth_crawler.Text.Search.{contains}
use reth_crawler.Text.Decimal.{u16_bound}
use reth_crawler.Types.{PeerData}
use reth_crawler.PeerDb.{PeerDb}
use reth_crawler.Handshake.{
  Reth, HelloMessage, Status, Answers, World, failure_count, begin_p2p, p2p_failure_threshold,
}
use reth_crawler.Handshake.Counting.{bans, attempts, total, attempts_count}
use reth_crawler.Handshake.Races.{System, begins, Reach, here, next, IsSound, Reach-IsSound}
use reth_crawler.Handshake.Burst.{burst, burst_counts_once}
use reth_crawler.Listener.{Session, Sockets}

-- an id, an address and a port
abbrev pub reth : Reth ℕ
reth = record {
  IpAddr = ℕ;
  NodeRecord = ℕ × ℕ × ℕ;
  P2pStream = Unit {0};
  id = λ n. n.0;
  address = λ n. n.1;
  tcp_port = λ n. n.2 % u16_bound;
  tcp_port_fits = λ n. omega arith;
  node_to_string = λ n. n.0 ∷ [];
  id_to_string = λ i. i ∷ [];
  address_to_string = λ a. a ∷ [];
}

abbrev pub sockets : Sockets reth
sockets = record {
  SocketAddr = ℕ × ℕ;
  ip = λ a. a.0;
  port = λ a. a.1 % u16_bound;
  port_fits = λ a. omega arith;
  node_record = λ a i. (i, a.0, a.1);
}

abbrev pub peer : ℕ × ℕ × ℕ
peer = (3, 9, 30303)

abbrev pub quiet : World reth
quiet = record { calls = []; p2p_failures = [] }

abbrev Attempt : Type 0
Attempt = Result Text (Unit {0} × HelloMessage)

abbrev results : List Attempt
results = err (text "timeout") ∷ err (text "Too many peers") ∷ err (text "reset") ∷ []

attempts_count_example :
    (failure_count reth 3 (attempts reth peer results quiet)
      ≡ (failure_count reth 3 quiet + total reth results) % p2p_failure_threshold)
    × (bans (attempts reth peer results quiet).calls
        ≡ bans quiet.calls
          + (failure_count reth 3 quiet + total reth results) / p2p_failure_threshold)
unfolding lookup
attempts_count_example = attempts_count reth peer results quiet (omega arith)

after_begin : System reth
after_begin = record {
  world = (begin_p2p reth peer quiet).0;
  waiting = (peer, (begin_p2p reth peer quiet).1) ∷ [];
  failures = λ p. 0;
}

reached : Reach reth after_begin
unfolding after_begin
reached = next here (begins peer)

Reach-IsSound_example : IsSound reth after_begin
Reach-IsSound_example = Reach-IsSound reth reached

burst_counts_once_example :
    (failure_count reth 3 (burst reth peer (text "timeout" ∷ text "reset" ∷ []) quiet)
      ≡ failure_count reth 3 quiet + 1)
    × (bans (burst reth peer (text "timeout" ∷ text "reset" ∷ []) quiet).calls ≡ bans quiet.calls)
unfolding contains lookup
burst_counts_once_example =
    burst_counts_once reth peer (text "timeout") (text "reset" ∷ []) quiet (omega arith)
      (refl, (refl, tt))

abbrev pub listed : PeerDb (Unit {0}) (Unit {0}) (Unit {0})
listed = record {
  Store = List PeerData;
  add_peer = λ p ps. (p ∷ ps, ok tt);
  all_peers = λ n ps. done (ok ps);
  all_active_peers = λ t n ps. done (ok ps);
  node_by_id = λ i ps. done (ok (some ps));
  node_by_ip = λ i ps. done (ok (some ps));
  clients = λ n ps. done (ok []);
  active_clients = λ t n ps. done (ok []);
}

abbrev pub hello : HelloMessage
hello = record { client_version = text "Geth/v1-a/linux-x/go"; capabilities = text "eth/68" ∷ [] }

abbrev pub status : Status
status = record {
  version = 68;
  version_fits = omega arith;
  chain = text "mainnet";
  total_difficulty = text "1";
  blockhash = text "0xd4";
  genesis = text "0xd4";
}

abbrev pub answers : Answers
answers = record { now = text "2023"; location = err (text "none"); present = ok true }

abbrev pub eth : Unit {0} → Result Text Status
eth _ = ok status

abbrev pub session : Session ℕ (ℕ × ℕ)
session = record {
  peer_id = 3;
  remote_addr = (9, 30303);
  client_version = hello.client_version;
  capabilities = hello.capabilities;
  status = status;
  version = 68;
  version_fits = omega arith;
}
