-- ===== src/Tests/Wires.antt =====
-- The handshakes with the peer of Network.
use reth_crawler.Prelude.{ℕ, ◌+◌, ◌≡◌, refl, ◌⊎◌, some, [], ◌∷◌, ok, err, nat_eq, Result}
use reth_crawler.Text.{text, Text}
use reth_crawler.PeerDb.{save_peer}
use reth_crawler.Handshake.{HelloMessage, Status, collect}
use reth_crawler.Listener.{handshake_and_save_peer}
use reth_crawler.P2p.{
  Wire, OurStatus, handshake_p2p, handshake_eth, snoop, new_block_hashes, get_receipts, other,
}
use reth_crawler.P2p.Handshakes.{Connected, handshake_and_save_peer-Connected}
use reth_crawler.Text.Decimal.{to_string}
use reth_crawler.Tests.Network.{reth, listed, peer, quiet, hello, status, answers, eth}

abbrev wire : Wire reth
wire = record {
  TcpStream = ℕ × ℕ;
  EciesStream = ℕ;
  EthStream = Unit {0};
  SecretKey = ℕ;
  OurHello = ℕ;
  Chain = Unit {0};
  Genesis = Unit {0};
  ForkId = ℕ;
  ForkFilter = ℕ;
  connect = λ ip port. ok (ip, port);
  connect_ecies = λ outgoing key id. ok id;
  our_peer_id = λ key. key + 1;
  build_hello = λ id. id;
  p2p_handshake = λ stream sent. ok (tt, hello);
  mainnet = tt;
  mainnet_genesis = tt;
  shanghai_timestamp = some 1681338455;
  shanghai_fork_id = some 7;
  fork_filter = λ timestamp. timestamp;
  shared_capability_version = λ stream. 68;
}

abbrev accept : Unit {0} → OurStatus (Unit {0}) (Unit {0}) ℕ → ℕ → Result Text (Unit {0} × Status)
accept stream sent filter = ok (tt, status)

snoop_stops :
    snoop
      (text "1.2.3.4")
      (ok (new_block_hashes 2) ∷ ok other ∷ err (text "reset") ∷ ok get_receipts ∷ [])
    ≡ text "Got 2 new block hashes from peer 1.2.3.4" ∷ []
unfolding snoop to_string
snoop_stops = refl

handshake_and_save_peer-Connected_example :
    let end =
      handshake_and_save_peer reth listed peer (handshake_p2p wire peer 5) eth answers quiet [] in
    (end.store ≡ [])
    ⊎ ((hello : HelloMessage) × (status : Status) × Connected reth wire accept peer 5 hello status
        × (end.store ≡ (save_peer listed (collect reth peer hello status answers) []).0))
unfolding handshake_eth
handshake_and_save_peer-Connected_example =
    handshake_and_save_peer-Connected reth wire accept listed peer 5 eth answers quiet []
      (λ s. (ok (tt, status), refl, refl))
