-- ===== src/P2p/Handshakes.antt =====
-- The task for a discovered peer, with its handshakes.
use reth_crawler.Prelude.{
  ℕ, ◌≡◌, refl, sym, ap, ◌∙◌, ◌⊎◌, inl, inr, some, Result, ok, err, done, panic, Eq, map_ok,
  Result-cases, Option-cases, ok-ne-err, ok-injective, done-injective, done-ne-panic,
}
use reth_crawler.Text.{Text}
use reth_crawler.PeerDb.{PeerDb, save_peer}
use reth_crawler.Handshake.{Reth, HelloMessage, Status, Answers, World, collect}
use reth_crawler.Listener.{handshake_and_save_peer}
use reth_crawler.Listener.Saving.{handshake_and_save_peer-Ends, no_p2p, no_eth, no_version, saves}
use reth_crawler.P2p.{Wire, OurStatus, handshake_p2p, our_status, handshake_eth}

module _ {PeerId : Type 0} ⦃e : Eq PeerId⦄ (R : Reth PeerId) (W : Wire R)
    (handshake : R.P2pStream
      → OurStatus W.Chain W.Genesis W.ForkId
      → W.ForkFilter
      → Result Text (W.EthStream × Status)) where
  open R use {NodeRecord, P2pStream, id, address, tcp_port}

  -- The four calls of the network for a peer, all of which succeeded.
  pub record Connected (peer : NodeRecord) (key : W.SecretKey) (hello : HelloMessage)
      (status : Status) : Type 0 where
    pub outgoing : W.TcpStream
    pub ecies_stream : W.EciesStream
    pub stream : P2pStream
    pub eth_stream : W.EthStream
    pub forkid : W.ForkId
    pub timestamp : ℕ
    pub tcp : W.connect (address peer) (tcp_port peer) ≡ ok outgoing
    pub ecies : W.connect_ecies outgoing key (id peer) ≡ ok ecies_stream
    pub p2p : W.p2p_handshake ecies_stream (W.build_hello (W.our_peer_id key)) ≡ ok (stream, hello)
    pub shanghai : W.shanghai_fork_id ≡ some forkid
    pub forked : W.shanghai_timestamp ≡ some timestamp
    pub eth :
        handshake stream
          (record {
            version = W.shared_capability_version stream;
            chain = W.mainnet;
            genesis = W.mainnet_genesis;
            forkid = forkid;
          })
          (W.fork_filter timestamp)
        ≡ ok (eth_stream, status)

  connected :
      (peer : NodeRecord) (key : W.SecretKey) (stream : P2pStream) (hello : HelloMessage)
      (eth_stream : W.EthStream) (status : Status)
      → handshake_p2p W peer key ≡ ok (stream, hello)
      → handshake_eth W handshake stream ≡ done (ok (eth_stream, status))
      → Connected peer key hello status
  unfolding handshake_p2p handshake_eth our_status
  connected peer key stream hello eth_stream status p q =
      elim (Result-cases (W.connect (address peer) (tcp_port peer))) [
        | inr (e, failed) ↦
            let ran : handshake_p2p W peer key ≡ err e = rw (failed, handshake_p2p) refl in
            absurd (ok-ne-err (sym p ∙ ran))
        | inl (outgoing, tcp) ↦ elim (Result-cases (W.connect_ecies outgoing key (id peer))) [
          | inr (e, failed) ↦
              let ran : handshake_p2p W peer key ≡ err e = rw (tcp, failed, handshake_p2p) refl in
              absurd (ok-ne-err (sym p ∙ ran))
          | inl (ecies_stream, ecies) ↦
              let greets : handshake_p2p W peer key
                  ≡ W.p2p_handshake ecies_stream (W.build_hello (W.our_peer_id key)) =
                rw (tcp, ecies, handshake_p2p) refl in
              elim (Option-cases W.shanghai_timestamp) [
                | inl unforked ↦
                    let ran : handshake_eth W handshake stream ≡ panic =
                      rw (unforked, handshake_eth) refl in
                    absurd (done-ne-panic (sym q ∙ ran))
                | inr (timestamp, forked) ↦ elim (Option-cases W.shanghai_fork_id) [
                  | inl unknown ↦
                      let ran : handshake_eth W handshake stream ≡ panic =
                        rw (forked, unknown, handshake_eth) refl in
                      absurd (done-ne-panic (sym q ∙ ran))
                  | inr (forkid, shanghai) ↦
                      let ran : handshake_eth W handshake stream
                          ≡ done (
                              handshake stream (our_status W forkid stream)
                                (W.fork_filter timestamp)) =
                        rw (forked, shanghai, handshake_eth) refl in
                      record {
                        outgoing = outgoing;
                        ecies_stream = ecies_stream;
                        stream = stream;
                        eth_stream = eth_stream;
                        forkid = forkid;
                        timestamp = timestamp;
                        tcp = tcp;
                        ecies = ecies;
                        p2p = sym greets ∙ p;
                        shanghai = shanghai;
                        forked = forked;
                        eth = done-injective (sym ran ∙ q);
                      }
                ]
              ]
        ]
      ]

  module _ {A S P : Type 0} (db : PeerDb A S P) where
    -- If the task for a discovered peer changes the database, then by saving the record of a peer that
    -- answered on all four levels: a TCP connection to its own address and port, an ECIES session under
    -- its own id, the hello message, and the status, for which the crawler sends the Shanghai fork of
    -- the main network and the version that both share. `eth` is what `handshake_eth` returns, without
    -- its stream.
    pub handshake_and_save_peer-Connected :
        (peer : NodeRecord) (key : W.SecretKey) (eth : P2pStream → Result Text Status)
        (answers : Answers) (w : World R) (store : db.Store)
        → ((s : P2pStream)
            → (r : Result Text (W.EthStream × Status)) × (handshake_eth W handshake s ≡ done r)
              × (eth s ≡ map_ok (λ x. x.1) r))
        → let end =
            handshake_and_save_peer R db peer (handshake_p2p W peer key) eth answers w store in
          (end.store ≡ store)
          ⊎ ((hello : HelloMessage) × (status : Status) × Connected peer key hello status
              × (end.store ≡ (save_peer db (collect R peer hello status answers) store).0))
    handshake_and_save_peer-Connected peer key eth answers w store returns =
        elim (handshake_and_save_peer-Ends R db peer (handshake_p2p W peer key) eth answers w
          store) [
            | no_p2p message failed end ↦ inl (ap (λ x. x.store) end)
            | no_eth stream hello message greeted failed end ↦ inl (ap (λ x. x.store) end)
            | no_version stream hello status greeted passed nothing end ↦
                inl (ap (λ x. x.store) end)
            | saves stream hello status greeted passed given end ↦
                let (r, returned, same) = returns stream in
                elim (Result-cases r) [
                  | inr (e, failed) ↦
                      absurd (ok-ne-err (sym passed ∙ same ∙ ap (map_ok (λ x. x.1)) failed))
                  | inl ((eth_stream, answered), got) ↦
                      let status_same : answered ≡ status =
                        ok-injective (sym (ap (map_ok (λ x. x.1)) got) ∙ sym same ∙ passed) in
                      inr (
                        hello,
                        status,
                        connected peer key stream hello eth_stream status greeted
                            (returned ∙ ap done (got ∙ ap (λ s. ok (eth_stream, s)) status_same)),
                        ap (λ x. x.store) end,
                      )
                ]
          ]
