-- ===== src/Listener/Saving.antt =====
-- Which peers the listener's tasks save, and what they save.
use reth_crawler.Prelude.{
  ◌≡◌, refl, inl, inr, true, false, [], ◌∷◌, Result, ok, err, done, Result-cases, Bool-cases, Eq,
}
use reth_crawler.Text.{Text}
use reth_crawler.Text.Search.{is_empty}
use reth_crawler.PeerDb.{PeerDb, save_peer}
use reth_crawler.Handshake.{
  Reth, HelloMessage, Status, Answers, Call, World, call, handshake_p2p_handle,
  handshake_eth_handle, collect,
}
use reth_crawler.Listener.{
  Session, Sockets, Ending, save_or_ban, after_p2p, handshake_and_save_peer, collect_session,
}

pub nil_of_is_empty : (s : Text) → is_empty s ≡ true → s ≡ []
unfolding is_empty
nil_of_is_empty [] h = refl
nil_of_is_empty (c ∷ s) h = cc

not-nil_of_is_empty : (s : Text) → is_empty s ≡ false → ¬ (s ≡ [])
unfolding is_empty
not-nil_of_is_empty [] h = cc
not-nil_of_is_empty (c ∷ s) h = λ p. cc

module _ {PeerId A S P : Type 0} ⦃e : Eq PeerId⦄ (R : Reth PeerId) (db : PeerDb A S P) where
  open R use {NodeRecord, P2pStream, id, address, tcp_port}
  open db use {Store}

  module _ (peer : NodeRecord) (p2p : Result Text (P2pStream × HelloMessage))
      (eth : P2pStream → Result Text Status) (answers : Answers) (w : World R) (store : Store) where
    -- the task after its lookup was sent
    abbrev pub looked_up : World R
    looked_up = call R (Call.send_lookup (id peer)) w

    abbrev pub banned : World R
    banned = call R (Call.ban_ip (address peer)) looked_up

    -- How a task can end.
    pub data Ends (end : Ending R db) : Type 0 where
      no_p2p :
          (message : Text)
          → p2p ≡ err message
          → end ≡ record {
            world = (handshake_p2p_handle R peer p2p w).0;
            store = store;
            outcome = done tt;
          }
          → Ends end
      no_eth :
          (stream : P2pStream) (hello : HelloMessage) (message : Text)
          → p2p ≡ ok (stream, hello)
          → eth stream ≡ err message
          → end ≡ record { world = banned; store = store; outcome = done tt }
          → Ends end
      no_version :
          (stream : P2pStream) (hello : HelloMessage) (status : Status)
          → p2p ≡ ok (stream, hello)
          → eth stream ≡ ok status
          → hello.client_version ≡ []
          → end ≡ record { world = banned; store = store; outcome = done tt }
          → Ends end
      saves :
          (stream : P2pStream) (hello : HelloMessage) (status : Status)
          → p2p ≡ ok (stream, hello)
          → eth stream ≡ ok status
          → ¬ (hello.client_version ≡ [])
          → end ≡ record {
            world = looked_up;
            store = (save_peer db (collect R peer hello status answers) store).0;
            outcome = (save_peer db (collect R peer hello status answers) store).1;
          }
          → Ends end

  -- A task for a discovered peer sends a lookup and then ends in one of four ways. If the p2p
  -- handshake fails, `handshake_p2p_handle` says what is counted, and nothing is saved. If the eth handshake fails, or the
  -- client version is empty, the address is banned and nothing is saved. Otherwise the collected
  -- record is saved and nothing is banned; only then can the task panic.
  pub handshake_and_save_peer-Ends :
      (peer : NodeRecord) (p2p : Result Text (P2pStream × HelloMessage))
      (eth : P2pStream → Result Text Status) (answers : Answers) (w : World R) (store : Store)
      → Ends peer p2p eth answers w store
          (handshake_and_save_peer R db peer p2p eth answers w store)
  unfolding handshake_and_save_peer handshake_p2p_handle handshake_eth_handle
  handshake_and_save_peer-Ends peer (err message) eth answers w store = no_p2p message refl refl
  handshake_and_save_peer-Ends peer (ok (stream, hello)) eth answers w store =
      elim (Result-cases (eth stream)) [
        | inr (message, failed) ↦ no_eth stream hello message refl failed (
            rw (failed, handshake_and_save_peer, after_p2p, handshake_eth_handle)
              (rw (failed, handshake_eth_handle)))
        | inl (status, passed) ↦ elim (Bool-cases (is_empty hello.client_version)) [
          | inl none_given ↦
              no_version stream hello status refl passed
                (nil_of_is_empty hello.client_version none_given)
                (rw (passed, handshake_and_save_peer, after_p2p, handshake_eth_handle)
                  (rw (none_given, save_or_ban) (rw (passed, handshake_eth_handle))))
          | inr given ↦
              saves stream hello status refl passed (not-nil_of_is_empty hello.client_version given)
                (rw (passed, handshake_and_save_peer, after_p2p, handshake_eth_handle)
                  (rw (given, save_or_ban) (rw (passed, handshake_eth_handle))))
        ]
      ]

  -- An incoming session is recorded as a discovered peer with the same data would be, if a node
  -- record made from a socket address keeps the address, the port and the id, and the version of the
  -- session is that of its status.
  pub collect_session-collect :
      (N : Sockets R) (s : Session PeerId N.SocketAddr) (answers : Answers)
      → id (N.node_record s.remote_addr s.peer_id) ≡ s.peer_id
      → address (N.node_record s.remote_addr s.peer_id) ≡ N.ip s.remote_addr
      → tcp_port (N.node_record s.remote_addr s.peer_id) ≡ N.port s.remote_addr
      → s.version ≡ s.status.version
      → collect_session R db N s answers
        ≡ collect R
            (N.node_record s.remote_addr s.peer_id)
            (record { client_version = s.client_version; capabilities = s.capabilities })
            s.status
            answers
  unfolding collect_session collect
  collect_session-collect N s answers same_id same_ip same_port same_version =
      simp (same_id, same_ip, same_port, same_version)
