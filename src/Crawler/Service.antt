-- ===== src/Crawler/Service.antt =====
-- bins/reth-crawler/src/crawler/service.rs, `UpdateListener::new`, and the end of `build`.
use reth_crawler.Prelude.{
  ℕ, zero, suc, Bool, true, false, ◌&&◌, Option, none, some, List, [], ◌∷◌, ◌++◌, map, Result, ok,
  err, Outcome, done, panic, Eq, ◌==◌, nat_eq, length, get_elem?, if◌then◌else◌,
}
use reth_crawler.Text.{Text}
use reth_crawler.Tasks.{Future, Task, running, panicked, returned, Join}
use reth_crawler.Handshake.{Reth}
use reth_crawler.Sqlite.Opening.{open_sql_peer_db}
use reth_crawler.Postgres.Opening.{open_postgres_peer_db}
use reth_crawler.BlockHashNum
use reth_crawler.BlockHashNum.Lru.{LruCache}
use reth_crawler.Crawler.{
  Nodes, CrawlerBuilder, Cli, crawl, configure, Start, state, NodeAnswers, Vecs, build_nodes,
}

module _ {PeerId : Type 0} {R : Reth PeerId} (N : Nodes R) where
  open N use {Error, SecretKey, Discv4, DnsDiscoveryHandle, NetworkHandle, Provider, Database}

  -- The handle of the block hash service is the same for all, and left out.
  pub record UpdateListener : Type 0 where
    pub discv4 : Discv4
    pub dnsdisc : DnsDiscoveryHandle
    pub network : NetworkHandle
    pub key : SecretKey
    pub db : Database
    pub p2p_failures : List (PeerId × ℕ)

  -- What is answered to the builder: the node's endpoint, the services of each node, and the two
  -- databases at each time that they are opened.
  pub record Environment : Type 0 where
    pub connect : Text → Result Error Provider
    pub nodes : ℕ → NodeAnswers N
    pub open_file : ℕ → Text → Result Error Database
    pub create_table : ℕ → Database → Result Error (Unit {0})
    pub var : Text → Option Text
    pub connect_postgres : ℕ → Text → Result Error Database

  pub record CrawlerService : Type 0 where
    pub provider : Provider
    pub updates : List UpdateListener

  -- the database that the `i`-th listener opens
  unfoldable pub open_db : Environment → Bool → ℕ → Outcome Database
  unfolding open_sql_peer_db open_postgres_peer_db
  open_db env local_db i =
      if local_db
      then open_sql_peer_db (env.open_file i) (env.create_table i)
      else open_postgres_peer_db env.var (env.connect_postgres i)

  -- `UpdateListener::new`, for the `i`-th node
  unfoldable pub new_listener :
      Environment
      → Bool
      → ℕ
      → Discv4
      → DnsDiscoveryHandle
      → NetworkHandle
      → SecretKey
      → Outcome UpdateListener
  unfolding open_db
  new_listener env local_db i discv4 dnsdisc network key = elim (open_db env local_db i) [
    | panic ↦ panic
    | done db ↦ done (record {
      discv4 = discv4;
      dnsdisc = dnsdisc;
      network = network;
      key = key;
      db = db;
      p2p_failures = [];
    })
  ]

  -- `v[i]` of the four vectors, and the listener of them
  unfoldable pub listener_at : Environment → Bool → Vecs N → ℕ → Outcome UpdateListener
  unfolding new_listener
  listener_at env local_db v i = elim (get_elem? v.all_discv4 i) [
    | none ↦ panic
    | some discv4 ↦ elim (get_elem? v.all_dnsdisc i) [
      | none ↦ panic
      | some dnsdisc ↦ elim (get_elem? v.all_network i) [
        | none ↦ panic
        | some network ↦ elim (get_elem? v.all_key i) [
          | none ↦ panic
          | some key ↦ new_listener env local_db i discv4 dnsdisc network key
        ]
      ]
    ]
  ]

  -- the rounds of the loop of `CrawlerService::new` from the `i`-th on, `left` of them
  unfoldable pub new_updates :
      Environment → Bool → Vecs N → ℕ → ℕ → List UpdateListener → Outcome (List UpdateListener)
  unfolding listener_at
  new_updates env local_db v i zero updates = done updates
  new_updates env local_db v i (suc left) updates = elim (listener_at env local_db v i) [
    | panic ↦ panic
    | done update ↦ new_updates env local_db v (suc i) left (updates ++ (update ∷ []))
  ]

  -- the condition of the assertion
  abbrev pub same_length : Vecs N → Bool
  same_length v =
      length v.all_discv4 == length v.all_dnsdisc
      && length v.all_discv4 == length v.all_network
      && length v.all_discv4 == length v.all_key

  -- `CrawlerService::new`
  unfoldable pub new_service : Environment → Bool → Vecs N → Provider → Outcome CrawlerService
  unfolding new_updates
  new_service env local_db v provider = elim (same_length v) [
    | false ↦ panic
    | true ↦ elim (new_updates env local_db v 0 (length v.all_discv4) []) [
      | panic ↦ panic
      | done updates ↦ done (record { provider = provider; updates = updates })
    ]
  ]

  -- `vec![]`, four times
  abbrev pub none_yet : Vecs N
  none_yet = record { all_discv4 = []; all_dnsdisc = []; all_network = []; all_key = [] }

  module _ {H U64 : Type 0} ⦃e : Eq H⦄ (L : LruCache H U64) where
    -- `CrawlerBuilder::build`
    unfoldable pub build :
        CrawlerBuilder → ℕ → Environment → List (Start N) × Outcome CrawlerService
    unfolding build_nodes new_service
    build b n_nodes env = elim b.eth_rpc_url [
      | none ↦ ([], panic)
      | some url ↦ elim (env.connect url) [
        | err e ↦ ([], panic)
        | ok provider ↦
            let (log, built) = build_nodes N b env.nodes 0 n_nodes none_yet [] in
            elim built [
              | panic ↦ (log, panic)
              | done v ↦ elim (BlockHashNum.new L) [
                | panic ↦ (log, panic)
                | done service ↦ (log ++ (state ∷ []), new_service env b.local_db v provider)
              ]
            ]
      ]
    ]

    -- `main` up to the call of `run`
    unfoldable pub start_crawler : Cli → Environment → List (Start N) × Outcome CrawlerService
    unfolding build configure
    start_crawler cli env = elim cli.command [
      | crawl opts ↦ build (configure opts) opts.n_nodes env
    ]

  -- How the tasks of one listener stand.
  pub record ListenerTasks : Type 0 where
    pub discv4 : Task Text
    pub dnsdisc : Task Text
    pub network : Task Text

  -- what a task returned
  abbrev pub Returned : Type 0
  Returned = Result Text (Unit {0})

  -- `join!` with what it waits for
  unfoldable pub joined :
      Join
      → CrawlerService
      → (UpdateListener → ListenerTasks)
      → Task Text
      → Future (List Returned × List Returned × List Returned × Returned)
  joined j service tasks state_task =
      j.join (j.join_all (map (λ u. (tasks u).discv4) service.updates))
        (j.join_all (map (λ u. (tasks u).dnsdisc) service.updates))
        (j.join_all (map (λ u. (tasks u).network) service.updates)) state_task

  -- `CrawlerService::run`, with how its tasks stand: the results of `join!` are dropped
  unfoldable pub run :
      Join → CrawlerService → (UpdateListener → ListenerTasks) → Task Text → Task Text
  unfolding joined
  run j service tasks state_task = elim (joined j service tasks state_task) [
    | running ↦ running
    | panicked ↦ panicked
    | returned results ↦ returned (ok tt)
  ]
