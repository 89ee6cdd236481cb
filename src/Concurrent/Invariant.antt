-- ===== src/Concurrent/Invariant.antt =====
-- What is claimed of the state that the tasks of the listener share.
use reth_crawler.Prelude.{ℕ, ◌≤◌, ◌≡◌, false, List, done, Eq, All}
use reth_crawler.Text.Search.{is_empty}
use reth_crawler.Types.{PeerData, InRange, new}
use reth_crawler.PeerDb.{PeerDb}
use reth_crawler.PeerDb.Collection.{upsert_all}
use reth_crawler.PeerDb.Keeper.{Keeper}
use reth_crawler.Handshake.{Reth, HelloMessage, Status, Answers, collect}
use reth_crawler.Handshake.Races.{Held, Held-mono}
use reth_crawler.Listener.{Session, Sockets, collect_session}
use reth_crawler.Concurrent.{Flight, shaking, greeting, collecting, collecting_session, State}
use reth_crawler.Concurrent.Counts.{Counted, Justified}

module _ {PeerId A S P : Type 0} ⦃e : Eq PeerId⦄ (R : Reth PeerId) (db : PeerDb A S P)
    (N : Sockets R) (K : Keeper db) (ps : List PeerData) where
  open R use {NodeRecord, id, address}

  -- What a task in flight has: a sound count, or a client version.
  abbrev pub Fit : (PeerId → ℕ) → Flight R db N → Type 0
  Fit f (shaking peer count) = Held R f (peer, count)
  Fit f (greeting peer hello) = Unit
  Fit f (collecting peer hello status) = is_empty hello.client_version ≡ false
  Fit f (collecting_session s) = is_empty s.client_version ≡ false

  -- A record of a peer with a client version, as it is collected.
  pub data Recorded : PeerData → Type 0 where
    of_peer :
        (peer : NodeRecord) (hello : HelloMessage) (status : Status) (answers : Answers)
        → is_empty hello.client_version ≡ false
        → Recorded (collect R peer hello status answers)
    of_session :
        (s : Session PeerId N.SocketAddr) (answers : Answers)
        → is_empty s.client_version ≡ false
        → Recorded (collect_session R db N s answers)

  -- The numbers of every such record fit its types.
  pub Recorded-InRange : (p : PeerData) → Recorded p → InRange p
  unfolding collect collect_session new
  Recorded-InRange _ (of_peer peer hello status answers given) = record {
    tcp_port = R.tcp_port_fits peer;
    eth_version = status.version_fits;
  }
  Recorded-InRange _ (of_session s answers given) = record {
    tcp_port = N.port_fits s.remote_addr;
    eth_version = s.version_fits;
  }

  -- The counts and the bans are sound, and as long as no task has panicked, the database keeps what it
  -- kept before with the records that were saved.
  pub record IsSound (s : State R db N) : Type 0 where
    pub counted : Counted R s.world s.failures
    pub fit : All (Fit s.failures) s.flights
    pub bans : All (Justified R s.failures s.heard) s.world.calls
    pub kept : All (λ o. o ≡ done tt) s.outcomes → K.Keeps s.store (upsert_all s.log ps)
    pub recorded : All Recorded s.log

  pub Fit-mono :
      (f g : PeerId → ℕ)
      → ((p : PeerId) → f p ≤ g p)
      → (flight : Flight R db N) → Fit f flight
      → Fit g flight
  Fit-mono f g le (shaking peer count) h = Held-mono R f g le (peer, count) h
  Fit-mono f g le (greeting peer hello) h = h
  Fit-mono f g le (collecting peer hello status) h = h
  Fit-mono f g le (collecting_session s) h = h
